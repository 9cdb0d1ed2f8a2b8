-- ===== src/Routing/Route/Agents.antt =====
-- The agent that a route names, and the agent that its session keys name.
use ebiclaw.Prelude.{
  ◌≡◌, ◌⊎◌, Bool, true, ◌&&◌, ◌||◌, not, some, List, [], ◌∷◌, if◌then◌else◌, is_empty, refl, ap,
  sym, ◌∙◌, Bool-cases, Option-cases, inl, inr, All, subst,
}
use ebiclaw.Strings.{Text, codes, text_eq, trim_space, to_lower}
use ebiclaw.Strings.Equal.{eq_of_text_eq}
use ebiclaw.Strings.Trim.{trim_space-trim_space}
use ebiclaw.Routing.AgentId.{normalize_agent_id, normalize_account_id, normalize_id}
use ebiclaw.Routing.AgentId.Shape.{normalize_agent_id-IsId}
use ebiclaw.Routing.AgentId.Stability.{HasIdHead, normalize_agent_id-idempotent}
use ebiclaw.Routing.SessionKey.{
  SessionKeyParams, parse_agent_session_key, build_agent_peer_session_key, dm_scope_main,
}
use ebiclaw.Routing.SessionKey.Parse.{parse-IsScoped, lower-IsScoped}
use ebiclaw.Routing.SessionKey.Build.{build_agent_peer-IsScoped}
use ebiclaw.Routing.Route.{
  AgentConfig, Config, RouteInput, first_default, resolve_default_agent_id, is_listed,
  pick_agent_id, select, choose, filter_bindings, resolve_route,
}

-- Some agent of the list has this normalised id.
abbrev pub Listed : Text → List AgentConfig → Type 0
Listed id [] = ⊥
Listed id (a ∷ agents) = (normalize_agent_id a.id ≡ id) ⊎ Listed id agents

-- The normalised id of each agent begins with a letter or a digit.
abbrev pub HaveIdHeads : List AgentConfig → Type 0
HaveIdHeads agents = All (λ (a : AgentConfig). HasIdHead (normalize_agent_id a.id)) agents

normalize-trim_space : (s : Text) → normalize_agent_id (trim_space s) ≡ normalize_agent_id s
unfolding normalize_agent_id normalize_id
normalize-trim_space s = rw (trim_space-trim_space s) refl

normalize_blank : (s : Text) → is_empty (trim_space s) ≡ true → normalize_agent_id s ≡ codes "main"
unfolding normalize_agent_id normalize_id
normalize_blank s e = rw e refl

is_listed-Listed :
    (id : Text) (agents : List AgentConfig) → is_listed id agents ≡ true → Listed id agents
unfolding is_listed
is_listed-Listed id [] h = cc
is_listed-Listed id (a ∷ agents) h = elim (Bool-cases (text_eq (normalize_agent_id a.id) id)) [
  | inl e ↦ inl (eq_of_text_eq (normalize_agent_id a.id) id e)
  | inr e ↦
      inr (is_listed-Listed id agents (ap (λ (t : Bool). t || is_listed id agents) (sym e) ∙ h))
]

first_default-Listed :
    (agents : List AgentConfig) (id : Text) → first_default agents ≡ some id → Listed id agents
unfolding first_default
first_default-Listed [] id h = cc
first_default-Listed (a ∷ agents) id h =
    elim (Bool-cases (a.default && not (is_empty (trim_space a.id)))) [
      | inl e ↦ inl (sym (normalize-trim_space a.id) ∙ (cc (rw e at h)))
      | inr e ↦ inr (first_default-Listed agents id (rw e at h))
    ]

-- The sources of the default agent id.
resolve_default_induction {κ} :
    (P : Text → Type κ) (a : AgentConfig) (agents : List AgentConfig)
    → ((id : Text) → first_default (a ∷ agents) ≡ some id → P id)
    → (is_empty (trim_space a.id) ≡ true → P (codes "main"))
    → P (normalize_agent_id (trim_space a.id))
    → P (resolve_default_agent_id (a ∷ agents))
unfolding resolve_default_agent_id
resolve_default_induction P a agents marked blank first =
    elim (Option-cases (first_default (a ∷ agents))) [
      | inr (id, e) ↦ rw (e, resolve_default_agent_id) (marked id e)
      | inl e ↦
          rw (e, resolve_default_agent_id)
            (elim (Bool-cases (is_empty (trim_space a.id))) [
              | inl b ↦ rw b (blank b)
              | inr b ↦ rw b first
            ])
    ]

default-Listed :
    (a : AgentConfig) (agents : List AgentConfig)
    → Listed (resolve_default_agent_id (a ∷ agents)) (a ∷ agents)
default-Listed a agents =
    resolve_default_induction (λ t. Listed t (a ∷ agents)) a agents
      (first_default-Listed (a ∷ agents)) (λ b. inl (normalize_blank a.id b))
      (inl (sym (normalize-trim_space a.id)))

Listed-normalized :
    (id : Text) (agents : List AgentConfig)
    → HaveIdHeads agents
    → Listed id agents
    → normalize_agent_id id ≡ id
Listed-normalized id [] h l = absurd l
Listed-normalized id (a ∷ agents) h (inl e) =
    subst (λ t. normalize_agent_id t ≡ t) e (normalize_agent_id-idempotent a.id h.0)
Listed-normalized id (a ∷ agents) h (inr l) = Listed-normalized id agents h.1 l

-- The sources of a picked agent id.
pick_agent_id_induction {κ} :
    (P : Text → Type κ) (a : AgentConfig) (agents : List AgentConfig) (id : Text)
    → P (normalize_agent_id (resolve_default_agent_id (a ∷ agents)))
    → (is_listed (normalize_agent_id (trim_space id)) (a ∷ agents) ≡ true
        → P (normalize_agent_id (trim_space id)))
    → P (pick_agent_id (a ∷ agents) id)
unfolding pick_agent_id
pick_agent_id_induction P a agents id fallback listed =
    elim (Bool-cases (is_empty (trim_space id))) [
      | inl e ↦ rw e fallback
      | inr e ↦
          rw e (elim (Bool-cases (is_listed (normalize_agent_id (trim_space id)) (a ∷ agents))) [
            | inl l ↦ rw l (listed l)
            | inr l ↦ rw l fallback
          ])
    ]

pick_agent_id-Listed :
    (a : AgentConfig) (agents : List AgentConfig) (id : Text)
    → HaveIdHeads (a ∷ agents)
    → Listed (pick_agent_id (a ∷ agents) id) (a ∷ agents)
pick_agent_id-Listed a agents id h =
    pick_agent_id_induction (λ t. Listed t (a ∷ agents)) a agents id
      (subst (λ t. Listed t (a ∷ agents))
        (sym (
          Listed-normalized (resolve_default_agent_id (a ∷ agents)) (a ∷ agents) h
            (default-Listed a agents)))
        (default-Listed a agents))
      (is_listed-Listed (normalize_agent_id (trim_space id)) (a ∷ agents))

-- Whatever agent id a binding asks for, a resolved route names a configured agent: its agent id is
-- the normalised id of an agent of the configuration, where there are agents and the normalised id of each
-- begins with a letter or a digit.
pub resolve_route-Listed :
    (cfg : Config) (input : RouteInput) (a : AgentConfig) (agents : List AgentConfig)
    → cfg.agents ≡ a ∷ agents
    → HaveIdHeads cfg.agents
    → Listed (resolve_route cfg input).agent_id cfg.agents
unfolding resolve_route choose
resolve_route-Listed cfg input a agents e h =
    let wanted =
      (select cfg.agents
        (filter_bindings (to_lower (trim_space input.channel))
          (normalize_account_id input.account_id) cfg.bindings)
        input).0 in
    subst (λ (l : List AgentConfig). HaveIdHeads l → Listed (pick_agent_id l wanted) l) (sym e)
      (pick_agent_id-Listed a agents wanted) h

-- The session key of a resolved route parses, and names the agent of the route, where the normal
-- form of that agent's id begins with a letter or a digit.
pub parse-resolve_route :
    (cfg : Config) (input : RouteInput)
    → HasIdHead (normalize_agent_id (resolve_route cfg input).agent_id)
    → (rest : Text) × (parse_agent_session_key (resolve_route cfg input).session_key
        ≡ some (record {
          agent_id = normalize_agent_id (resolve_route cfg input).agent_id;
          rest = rest;
        }))
unfolding resolve_route choose
parse-resolve_route cfg input h =
    let agent = normalize_agent_id (resolve_route cfg input).agent_id in
    let id = normalize_agent_id-IsId (resolve_route cfg input).agent_id in
    let params : SessionKeyParams = record {
      agent_id = (resolve_route cfg input).agent_id;
      channel = to_lower (trim_space input.channel);
      account_id = normalize_account_id input.account_id;
      peer = input.peer;
      dm_scope = if is_empty cfg.session.dm_scope then dm_scope_main else cfg.session.dm_scope;
      identity_links = cfg.session.identity_links;
    } in
    let k =
      lower-IsScoped agent (build_agent_peer_session_key params) id
        (build_agent_peer-IsScoped params h) in
    (k.rest, parse-IsScoped agent (to_lower (build_agent_peer_session_key params)) id k)
