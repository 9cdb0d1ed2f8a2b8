-- ===== src/Routing/Route.antt =====
-- pkg/routing/route.go, with the parts of the configuration (pkg/config/config_types.go) that it
-- reads. A nil pointer is `none`; the lists keep the order of the configuration.
pub mod Cascade
pub mod Agents
use ebiclaw.Prelude.{
  Bool, true, false, ◌&&◌, ◌||◌, not, Option, none, some, List, [], ◌∷◌, if◌then◌else◌, is_empty,
}
use ebiclaw.Strings.{Text, codes, text_eq, trim_space, to_lower}
use ebiclaw.Routing.AgentId.{
  normalize_agent_id, normalize_account_id, default_agent_id, default_account_id,
}
use ebiclaw.Routing.SessionKey.{
  RoutePeer, Links, build_agent_peer_session_key, build_agent_main_session_key, dm_scope_main,
}

pub record PeerMatch : Type 0 where
  pub kind : Text
  pub id : Text

pub record BindingMatch : Type 0 where
  pub channel : Text
  pub account_id : Text
  pub peer : Option PeerMatch
  pub guild_id : Text
  pub team_id : Text

pub record AgentBinding : Type 0 where
  pub agent_id : Text
  pub match : BindingMatch

pub record AgentConfig : Type 0 where
  pub id : Text
  pub default : Bool

pub record SessionConfig : Type 0 where
  pub dm_scope : Text
  pub identity_links : Links

pub record Config : Type 0 where
  pub agents : List AgentConfig
  pub bindings : List AgentBinding
  pub session : SessionConfig

pub record RouteInput : Type 0 where
  pub channel : Text
  pub account_id : Text
  pub peer : Option RoutePeer
  pub parent_peer : Option RoutePeer
  pub guild_id : Text
  pub team_id : Text

pub record ResolvedRoute : Type 0 where
  pub agent_id : Text
  pub channel : Text
  pub account_id : Text
  pub session_key : Text
  pub main_session_key : Text
  pub matched_by : Text

unfoldable pub matches_account_id : Text → Text → Bool
matches_account_id match_account_id actual =
    let trimmed = trim_space match_account_id in
    if is_empty trimmed
    then text_eq actual default_account_id
    else if text_eq trimmed (codes "*")
    then true
    else text_eq (to_lower trimmed) (to_lower actual)

-- The two tests of the loop body of filterBindings.
unfoldable pub in_channel : Text → Text → AgentBinding → Bool
unfolding matches_account_id
in_channel channel account_id b =
    let match_channel = to_lower (trim_space b.match.channel) in
    if is_empty match_channel || not (text_eq match_channel channel)
    then false
    else matches_account_id b.match.account_id account_id

unfoldable pub filter_bindings : Text → Text → List AgentBinding → List AgentBinding
unfolding in_channel
filter_bindings channel account_id [] = []
filter_bindings channel account_id (b ∷ bs) =
    let rest = filter_bindings channel account_id bs in
    if in_channel channel account_id b then b ∷ rest else rest

-- A loop that returns the first binding that passes its test.
unfoldable pub first_binding : (AgentBinding → Bool) → List AgentBinding → Option AgentBinding
first_binding test [] = none
first_binding test (b ∷ bs) = let rest = first_binding test bs in if test b then some b else rest

unfoldable pub matches_peer : RoutePeer → Option PeerMatch → Bool
matches_peer peer none = false
matches_peer peer (some m) =
    let peer_kind = to_lower (trim_space m.kind) in
    let peer_id = trim_space m.id in
    if is_empty peer_kind || is_empty peer_id
    then false
    else text_eq peer_kind (to_lower peer.kind) && text_eq peer_id peer.id

unfoldable pub find_peer_match : List AgentBinding → RoutePeer → Option AgentBinding
unfolding first_binding matches_peer
find_peer_match bindings peer = first_binding (λ b. matches_peer peer b.match.peer) bindings

unfoldable pub find_guild_match : List AgentBinding → Text → Option AgentBinding
unfolding first_binding
find_guild_match bindings guild_id =
    first_binding
      (λ b.
        not (is_empty (trim_space b.match.guild_id))
        && text_eq (trim_space b.match.guild_id) guild_id)
      bindings

unfoldable pub find_team_match : List AgentBinding → Text → Option AgentBinding
unfolding first_binding
find_team_match bindings team_id =
    first_binding
      (λ b.
        not (is_empty (trim_space b.match.team_id)) && text_eq (trim_space b.match.team_id) team_id)
      bindings

abbrev pub is_set {ℓ} : {A : Type ℓ} → Option A → Bool
is_set none = false
is_set (some a) = true

-- A binding that names a peer, a guild or a team.
unfoldable pub is_narrow : AgentBinding → Bool
is_narrow b =
    is_set b.match.peer || not (is_empty b.match.guild_id) || not (is_empty b.match.team_id)

unfoldable pub find_account_match : List AgentBinding → Option AgentBinding
unfolding first_binding is_narrow
find_account_match bindings =
    first_binding
      (λ b.
        if text_eq (trim_space b.match.account_id) (codes "*") then false else not (is_narrow b))
      bindings

unfoldable pub find_channel_wildcard_match : List AgentBinding → Option AgentBinding
unfolding first_binding is_narrow
find_channel_wildcard_match bindings =
    first_binding
      (λ b.
        if not (text_eq (trim_space b.match.account_id) (codes "*"))
        then false
        else not (is_narrow b))
      bindings

-- The loop over the agents that are marked as default.
unfoldable pub first_default : List AgentConfig → Option Text
first_default [] = none
first_default (a ∷ as') =
    let rest = first_default as' in
    if a.default && not (is_empty (trim_space a.id))
    then some (normalize_agent_id (trim_space a.id))
    else rest

unfoldable pub resolve_default_agent_id : List AgentConfig → Text
unfolding first_default
resolve_default_agent_id [] = default_agent_id
resolve_default_agent_id (a ∷ as') = elim (first_default (a ∷ as')) [
  | some id ↦ id
  | none ↦
      if is_empty (trim_space a.id) then default_agent_id else normalize_agent_id (trim_space a.id)
]

unfoldable pub is_listed : Text → List AgentConfig → Bool
is_listed id [] = false
is_listed id (a ∷ as') = text_eq (normalize_agent_id a.id) id || is_listed id as'

unfoldable pub pick_agent_id : List AgentConfig → Text → Text
unfolding resolve_default_agent_id is_listed
pick_agent_id agents agent_id =
    let trimmed = trim_space agent_id in
    let normalized = normalize_agent_id trimmed in
    if is_empty trimmed
    then normalize_agent_id (resolve_default_agent_id agents)
    else if is_empty agents
    then normalized
    else if is_listed normalized agents
    then normalized
    else normalize_agent_id (resolve_default_agent_id agents)

-- The peer test of the priorities 1 and 2.
unfoldable pub peer_match : List AgentBinding → Option RoutePeer → Option AgentBinding
unfolding find_peer_match
peer_match bindings none = none
peer_match bindings (some peer) =
    if is_empty (trim_space peer.id) then none else find_peer_match bindings peer

-- `if match := …; match != nil { return choose(match.AgentID, tag) }`, and what follows it.
unfoldable pub or_next : Option AgentBinding → Text → Text × Text → Text × Text
or_next none tag next = next
or_next (some b) tag next = (b.agent_id, tag)

-- The seven priorities: the agent id to choose, and what matched.
unfoldable pub select : List AgentConfig → List AgentBinding → RouteInput → Text × Text
unfolding peer_match find_guild_match find_team_match find_account_match find_channel_wildcard_match
    or_next
select agents bindings input =
    let guild_id = trim_space input.guild_id in
    let team_id = trim_space input.team_id in
    or_next (peer_match bindings input.peer) (codes "binding.peer") (
      or_next (peer_match bindings input.parent_peer) (codes "binding.peer.parent") (
        or_next (if is_empty guild_id then none else find_guild_match bindings guild_id)
          (codes "binding.guild")
          (or_next (if is_empty team_id then none else find_team_match bindings team_id)
            (codes "binding.team")
            (or_next (find_account_match bindings) (codes "binding.account") (
              or_next (find_channel_wildcard_match bindings) (codes "binding.channel")
                (resolve_default_agent_id agents, codes "default"))))))

-- The closure `choose` of ResolveRoute.
unfoldable pub choose : Config → RouteInput → Text → Text → Text → Text → ResolvedRoute
unfolding pick_agent_id
choose cfg input channel account_id agent_id matched_by =
    let resolved = pick_agent_id cfg.agents agent_id in
    let dm_scope = if is_empty cfg.session.dm_scope then dm_scope_main else cfg.session.dm_scope in
    record {
      agent_id = resolved;
      channel = channel;
      account_id = account_id;
      session_key = to_lower (
          build_agent_peer_session_key (record {
            agent_id = resolved;
            channel = channel;
            account_id = account_id;
            peer = input.peer;
            dm_scope = dm_scope;
            identity_links = cfg.session.identity_links;
          }));
      main_session_key = to_lower (build_agent_main_session_key resolved);
      matched_by = matched_by;
    }

unfoldable pub resolve_route : Config → RouteInput → ResolvedRoute
unfolding select choose filter_bindings
resolve_route cfg input =
    let channel = to_lower (trim_space input.channel) in
    let account_id = normalize_account_id input.account_id in
    let (agent_id, matched_by) =
      select cfg.agents (filter_bindings channel account_id cfg.bindings) input in
    choose cfg input channel account_id agent_id matched_by
