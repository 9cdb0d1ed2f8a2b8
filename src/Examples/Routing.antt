-- ===== src/Examples/Routing.antt =====
-- pkg/routing: two agents, of which one is bound to a Slack user.
use ebiclaw.Prelude.{
  ◌≡◌, ◌≢◌, ◌↔◌, inl, inr, true, false, none, some, List, [], ◌∷◌, is_empty, refl, arith,
  if◌then◌else◌,
}
use ebiclaw.Strings.{Text, codes, trim_space, to_lower, text_eq, lower_rune}
use ebiclaw.Protocol.{Message, plain}
use ebiclaw.Routing.AgentId.{all_id_chars, normalize_agent_id, normalize_account_id, valid_id}
use ebiclaw.Routing.AgentId.Shape.{IdChars, IsId, normalize_agent_id-IsId}
use ebiclaw.Routing.AgentId.Stability.{
  HasIdHead, normalize_agent_id-idempotent, normalize_agent_id-underscore,
}
use ebiclaw.Routing.SessionKey.{
  RoutePeer, SessionKeyParams, build_agent_peer_session_key, parse_agent_session_key,
  dm_scope_per_peer,
}
use ebiclaw.Routing.SessionKey.Build.{parse-build_peer}
use ebiclaw.Routing.SessionKey.Isolation.{direct_session, direct_session-injective}
use ebiclaw.Routing.Route.{
  AgentBinding, AgentConfig, Config, RouteInput, in_channel, resolve_default_agent_id, choose,
  resolve_route,
}
use ebiclaw.Routing.Route.Cascade.{first_rule, rules, resolve_route-first_rule}
use ebiclaw.Routing.Route.Agents.{Listed, resolve_route-Listed, parse-resolve_route}
use ebiclaw.Routing.Features.{Features, extract_features}
use ebiclaw.Routing.Classifier.{score}
use ebiclaw.Routing.Classifier.Order.{Weaker}
use ebiclaw.Routing.Router.{negsuc, RouterConfig, new, select_model}
use ebiclaw.Routing.Router.Decision.{is_heavy, select_model-default, select_model_mono}

abbrev helper : AgentConfig
helper = record { id = codes "Helper"; default = true }

abbrev coder : AgentConfig
coder = record { id = codes "coder"; default = false }

abbrev alice : RoutePeer
alice = record { kind = codes "direct"; id = codes "U1" }

abbrev to_coder : AgentBinding
to_coder = record {
  agent_id = codes "coder";
  match = record {
    channel = codes "slack";
    account_id = codes "*";
    peer = some (record { kind = codes "direct"; id = codes "U1" });
    guild_id = [];
    team_id = [];
  };
}

abbrev setup : Config
setup = record {
  agents = helper ∷ coder ∷ [];
  bindings = to_coder ∷ [];
  session = record { dm_scope = dm_scope_per_peer; identity_links = [] };
}

abbrev arrival : RouteInput
arrival = record {
  channel = codes "Slack";
  account_id = [];
  peer = some alice;
  parent_peer = none;
  guild_id = [];
  team_id = [];
}

resolve_route-first_rule_example :
    let channel = to_lower (trim_space arrival.channel) in
    let account_id = normalize_account_id arrival.account_id in
    let (agent_id, matched_by) =
      first_rule
        (in_channel channel account_id)
        setup.bindings
        (rules arrival)
        (resolve_default_agent_id setup.agents, codes "default") in
    resolve_route setup arrival ≡ choose setup arrival channel account_id agent_id matched_by
resolve_route-first_rule_example = resolve_route-first_rule setup arrival

helper_head : HasIdHead (normalize_agent_id (codes "Helper"))
unfolding normalize_agent_id trim_space to_lower lower_rune
helper_head = refl

coder_head : HasIdHead (normalize_agent_id (codes "coder"))
unfolding normalize_agent_id trim_space to_lower lower_rune
coder_head = refl

resolve_route-Listed_example : Listed (resolve_route setup arrival).agent_id setup.agents
resolve_route-Listed_example =
    resolve_route-Listed setup arrival helper (coder ∷ []) refl (helper_head, (coder_head, tt))

route_head : HasIdHead (normalize_agent_id (resolve_route setup arrival).agent_id)
unfolding normalize_agent_id resolve_route trim_space to_lower text_eq lower_rune
route_head = refl

parse-resolve_route_example :
    (rest : Text) × (parse_agent_session_key (resolve_route setup arrival).session_key
      ≡ some (record {
        agent_id = normalize_agent_id (resolve_route setup arrival).agent_id;
        rest = rest;
      }))
parse-resolve_route_example = parse-resolve_route setup arrival route_head

abbrev params : SessionKeyParams
params = record {
  agent_id = codes "Helper";
  channel = codes "slack";
  account_id = [];
  peer = some alice;
  dm_scope = dm_scope_per_peer;
  identity_links = [];
}

parse-build_peer_example :
    (rest : Text) × (parse_agent_session_key (build_agent_peer_session_key params)
      ≡ some (record { agent_id = normalize_agent_id params.agent_id; rest = rest }))
    × (rest ≢ [])
parse-build_peer_example = parse-build_peer params helper_head

u1_given : is_empty (to_lower (trim_space (codes " U1"))) ≡ false
unfolding to_lower trim_space
u1_given = refl

u2_given : is_empty (to_lower (trim_space (codes "U2"))) ≡ false
unfolding to_lower trim_space
u2_given = refl

direct_session-injective_example :
    (direct_session dm_scope_per_peer (codes "helper") (codes "slack") [] (codes " U1")
      ≡ direct_session dm_scope_per_peer (codes "helper") (codes "slack") [] (codes "U2"))
    ↔ (to_lower (trim_space (codes " U1")) ≡ to_lower (trim_space (codes "U2")))
direct_session-injective_example =
    direct_session-injective dm_scope_per_peer (codes "helper") (codes "slack") [] (codes " U1")
      (codes "U2") (inl refl) u1_given u2_given

normalize_agent_id-IsId_example : IsId (normalize_agent_id (codes "--My Bot--"))
normalize_agent_id-IsId_example = normalize_agent_id-IsId (codes "--My Bot--")

normalize_agent_id-idempotent_example :
    normalize_agent_id (normalize_agent_id (codes "Helper")) ≡ normalize_agent_id (codes "Helper")
normalize_agent_id-idempotent_example = normalize_agent_id-idempotent (codes "Helper") helper_head

ab_chars : IdChars (codes "ab")
unfolding all_id_chars
ab_chars = refl

normalize_agent_id-underscore_example :
    (normalize_agent_id (95 ∷ codes "ab") ≡ 95 ∷ codes "ab")
    × (valid_id (normalize_agent_id (95 ∷ codes "ab")) ≡ false)
normalize_agent_id-underscore_example =
    normalize_agent_id-underscore (codes "ab") ab_chars (omega arith) refl

abbrev light : RouterConfig
light = record { light_model = codes "mini"; threshold = negsuc 0 }

abbrev history : List Message
history = plain (codes "user") (codes "hi") ∷ []

select_model-default_example : select_model (new light) (codes "hello") history (codes "big") ≡ (
    let f = extract_features (codes "hello") history in
    if is_heavy f then (codes "big", false, score f) else (light.light_model, true, score f))
select_model-default_example =
    select_model-default light (codes "hello") history (codes "big") (inr (0, refl))

hello-Weaker :
    Weaker
      (extract_features (codes "hello") history)
      (extract_features (codes "hello there") history)
unfolding extract_features lower_rune
hello-Weaker = record {
  tokens = omega arith;
  code = omega arith;
  tools = omega arith;
  depth = omega arith;
  attachments = λ e. e;
}

hello_there_light : (select_model (new light) (codes "hello there") history (codes "big")).1 ≡ true
unfolding select_model new extract_features score lower_rune
hello_there_light = refl

select_model_mono_example :
    (select_model (new light) (codes "hello") history (codes "big")).1 ≡ true
select_model_mono_example =
    select_model_mono light (codes "hello") (codes "hello there") history history (codes "big")
      hello-Weaker hello_there_light

abbrev small : Features
small = record {
  token_estimate = 60;
  code_block_count = 0;
  recent_tool_calls = 1;
  conversation_depth = 3;
  has_attachments = false;
}

abbrev large : Features
large = record {
  token_estimate = 300;
  code_block_count = 2;
  recent_tool_calls = 5;
  conversation_depth = 12;
  has_attachments = false;
}

abbrev six : List Message
six =
    plain (codes "user") (codes "1")
    ∷ plain (codes "assistant") (codes "2")
    ∷ plain (codes "user") (codes "3")
    ∷ plain (codes "assistant") (codes "4")
    ∷ plain (codes "user") (codes "5")
    ∷ plain (codes "assistant") (codes "6")
    ∷ []
