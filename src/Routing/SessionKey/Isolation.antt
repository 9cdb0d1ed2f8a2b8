-- ===== src/Routing/SessionKey/Isolation.antt =====
-- Which direct peers share a session.
use ebiclaw.Prelude.{
  Bool-cases, ◌≡◌, ◌↔◌, ◌⊎◌, inl, inr, false, some, [], ◌++◌, is_empty, refl, ap, sym, ◌∙◌,
  append-left_cancel, not, ◌&&◌,
}
use ebiclaw.Strings.{Text, codes, text_eq, trim_space, to_lower}
use ebiclaw.Routing.AgentId.{normalize_agent_id, normalize_account_id}
use ebiclaw.Routing.SessionKey.{
  SessionKeyParams, direct_peer_id, direct_key, peer_or_direct, normalize_channel,
  resolve_linked_peer_id, build_agent_peer_session_key, build_agent_main_session_key, dm_scope_main,
  dm_scope_per_peer, dm_scope_per_channel_peer, dm_scope_per_account_channel_peer,
}

-- The key of a direct peer, with no identity links configured.
abbrev pub direct_session : Text → Text → Text → Text → Text → Text
direct_session scope agent channel account id = build_agent_peer_session_key (record {
  agent_id = agent;
  channel = channel;
  account_id = account;
  peer = some (record { kind = codes "direct"; id = id });
  dm_scope = scope;
  identity_links = [];
})

-- The scopes that keep direct peers apart.
abbrev pub IsIsolating : Text → Type 0
IsIsolating scope =
    (scope ≡ dm_scope_per_peer)
    ⊎ (scope ≡ dm_scope_per_channel_peer)
    ⊎ (scope ≡ dm_scope_per_account_channel_peer)

module _ (scope agent channel account : Text) where
  abbrev params_of : Text → SessionKeyParams
  params_of id = record {
    agent_id = agent;
    channel = channel;
    account_id = account;
    peer = some (record { kind = codes "direct"; id = id });
    dm_scope = scope;
    identity_links = [];
  }

  -- With no links the id of a direct peer is its own, trimmed and in lower case.
  direct_peer_id_unlinked :
      (id : Text) → direct_peer_id (params_of id) scope id ≡ to_lower (trim_space id)
  unfolding direct_peer_id resolve_linked_peer_id
  direct_peer_id_unlinked id =
      elim (Bool-cases (not (text_eq scope dm_scope_main) && not (is_empty (trim_space id)))) [
        | inl e ↦ rw e refl
        | inr e ↦ rw e refl
      ]

  direct_session_key :
      (id : Text)
      → is_empty scope ≡ false
      → direct_session scope agent channel account id
        ≡ direct_key (params_of id) scope (to_lower (trim_space id))
  unfolding build_agent_peer_session_key peer_or_direct trim_space text_eq
  direct_session_key id e = rw (e, direct_peer_id_unlinked id) refl

  -- Under such a scope the key of a peer id that is not empty is an injective function of it.
  isolating_key :
      IsIsolating scope
      → (key : Text → Text) × ((s t : Text) → key s ≡ key t → s ≡ t)
        × ((x s : Text) → is_empty s ≡ false → direct_key (params_of x) scope s ≡ key s)
  unfolding direct_key text_eq
  isolating_key (inl e) =
      let agent_id = normalize_agent_id agent in
      (
        λ s. codes "agent:" ++ (agent_id ++ (codes ":direct:" ++ s)),
        λ s t h.
            append-left_cancel (codes ":direct:")
              (append-left_cancel agent_id (append-left_cancel (codes "agent:") h)),
        λ x s a. rw (e, a) refl,
      )
  isolating_key (inr (inl e)) =
      let agent_id = normalize_agent_id agent in
      let channel_id = normalize_channel channel in
      (
        λ s. codes "agent:" ++ (agent_id ++ (codes ":" ++ (channel_id ++ (codes ":direct:" ++ s)))),
        λ s t h. append-left_cancel (codes ":direct:") (
            append-left_cancel channel_id (
              append-left_cancel (codes ":")
                (append-left_cancel agent_id (append-left_cancel (codes "agent:") h)))),
        λ x s a. rw (e, a) refl,
      )
  isolating_key (inr (inr e)) =
      let agent_id = normalize_agent_id agent in
      let channel_id = normalize_channel channel in
      let account_id = normalize_account_id account in
      (
        λ s.
            codes "agent:"
            ++ (agent_id
                ++ (codes ":"
                    ++ (channel_id ++ (codes ":" ++ (account_id ++ (codes ":direct:" ++ s)))))),
        λ s t h. append-left_cancel (codes ":direct:") (
            append-left_cancel account_id (
              append-left_cancel (codes ":") (
                append-left_cancel channel_id (
                  append-left_cancel (codes ":")
                    (append-left_cancel agent_id (append-left_cancel (codes "agent:") h)))))),
        λ x s a. rw (e, a) refl,
      )

  scope_given : IsIsolating scope → is_empty scope ≡ false
  scope_given (inl e) = ap is_empty e
  scope_given (inr (inl e)) = ap is_empty e
  scope_given (inr (inr e)) = ap is_empty e

-- With a scope that keeps direct peers apart, no identity links and ids that are not blank, two
-- direct peers of one agent, channel and account share a session key exactly when their trimmed ids
-- are equal up to case.
pub direct_session-injective :
    (scope agent channel account x y : Text)
    → IsIsolating scope
    → is_empty (to_lower (trim_space x)) ≡ false
    → is_empty (to_lower (trim_space y)) ≡ false
    → (direct_session scope agent channel account x ≡ direct_session scope agent channel account y)
      ↔ (to_lower (trim_space x) ≡ to_lower (trim_space y))
direct_session-injective scope agent channel account x y i a b = (
  λ h. injective (to_lower (trim_space x)) (to_lower (trim_space y)) (sym (at x a) ∙ h ∙ at y b),
  λ h. at x a ∙ ap key h ∙ sym (at y b),
)
  where
    key : Text → Text
    key = (isolating_key scope agent channel account i).0

    injective : (s t : Text) → key s ≡ key t → s ≡ t
    injective = (isolating_key scope agent channel account i).1

    at :
        (id : Text)
        → is_empty (to_lower (trim_space id)) ≡ false
        → direct_session scope agent channel account id ≡ key (to_lower (trim_space id))
    at id e =
        direct_session_key scope agent channel account id
          (scope_given scope agent channel account i)
        ∙ (isolating_key scope agent channel account i).2 id (to_lower (trim_space id)) e

-- With the scope "main" all direct peers of an agent share its main session.
pub direct_session-main :
    (agent channel account x : Text)
    → direct_session dm_scope_main agent channel account x
      ≡ build_agent_main_session_key (normalize_agent_id agent)
unfolding direct_key text_eq
direct_session-main agent channel account x =
    direct_session_key dm_scope_main agent channel account x refl ∙ main_key
  where
    main_key :
        direct_key
          (params_of dm_scope_main agent channel account x)
          dm_scope_main
          (to_lower (trim_space x))
        ≡ build_agent_main_session_key (normalize_agent_id agent)
    main_key = elim (Bool-cases (is_empty (to_lower (trim_space x)))) [
      | inl e ↦ rw e refl
      | inr e ↦ rw e refl
    ]
