-- ===== src/Routing/SessionKey/Build.antt =====
-- Keys that are built can be parsed, and name the agent that they were built for.
use ebiclaw.Prelude.{
  ◌≡◌, ◌≢◌, Bool, true, false, ◌&&◌, not, some, List, [], ◌∷◌, ◌++◌, if◌then◌else◌, is_empty, refl,
  subst, Bool-cases, inl, inr,
}
use ebiclaw.Strings.{Text, codes, text_eq, trim_space, to_lower, is_space}
use ebiclaw.Strings.Trim.{IsTrimmed, trim_space-IsTrimmed, to_lower-IsTrimmed}
use ebiclaw.Routing.AgentId.{normalize_agent_id, normalize_account_id, default_main_key}
use ebiclaw.Routing.AgentId.Shape.{normalize_agent_id-IsId}
use ebiclaw.Routing.AgentId.Stability.{HasIdHead, normalize_agent_id-idempotent}
use ebiclaw.Routing.SessionKey.{
  SessionKeyParams, Links, build_agent_main_session_key, direct_peer_id, direct_key, group_key,
  peer_or_direct, build_agent_peer_session_key, parse_agent_session_key, dm_scope_main,
  dm_scope_per_peer, dm_scope_per_channel_peer, dm_scope_per_account_channel_peer,
  normalize_channel, resolve_linked_peer_id, first_linked, any_linked, link_candidates,
}
use ebiclaw.Routing.SessionKey.Parse.{
  IsTail, IsTail-append, trimmed-IsTail, IsScoped, parse-IsScoped,
}

main-IsTail : IsTail default_main_key
unfolding is_space
main-IsTail = record { nonempty = λ e. cc; ends = refl }

build_agent_main-IsScoped :
    (id : Text) → IsScoped (normalize_agent_id id) (build_agent_main_session_key id)
unfolding build_agent_main_session_key
build_agent_main-IsScoped id = record { rest = default_main_key; tail = main-IsTail; same = refl }

-- For every agent id, ParseAgentSessionKey of BuildAgentMainSessionKey gives back the normalised
-- id and the rest "main".
pub parse-build_main :
    (id : Text)
    → parse_agent_session_key (build_agent_main_session_key id)
      ≡ some (record { agent_id = normalize_agent_id id; rest = default_main_key })
unfolding build_agent_main-IsScoped
parse-build_main id =
    parse-IsScoped (normalize_agent_id id) (build_agent_main_session_key id)
      (normalize_agent_id-IsId id) (build_agent_main-IsScoped id)

-- The main key of an agent id that is normalised already.
main_again :
    (id : Text)
    → HasIdHead (normalize_agent_id id)
    → IsScoped (normalize_agent_id id) (build_agent_main_session_key (normalize_agent_id id))
main_again id h =
    subst (λ a. IsScoped a (build_agent_main_session_key (normalize_agent_id id)))
      (normalize_agent_id-idempotent id h) (build_agent_main-IsScoped (normalize_agent_id id))

module _ (params : SessionKeyParams) where
  direct_key-IsScoped :
      (scope peer_id : Text)
      → HasIdHead (normalize_agent_id params.agent_id)
      → (is_empty peer_id ≡ false → IsTail peer_id)
      → IsScoped (normalize_agent_id params.agent_id) (direct_key params scope peer_id)
  unfolding direct_key
  direct_key-IsScoped scope peer_id h t = elim (Bool-cases (is_empty peer_id)) [
    | inl e ↦ rw e (main_again params.agent_id h)
    | inr e ↦ rw e (elim (Bool-cases (text_eq scope dm_scope_per_account_channel_peer)) [
      | inl a ↦ rw a (record {
        rest =
            normalize_channel params.channel
            ++ (codes ":"
                ++ (normalize_account_id params.account_id ++ (codes ":direct:" ++ peer_id)));
        tail =
            IsTail-append (normalize_channel params.channel)
              (codes ":"
                ++ (normalize_account_id params.account_id ++ (codes ":direct:" ++ peer_id)))
              (IsTail-append (codes ":")
                (normalize_account_id params.account_id ++ (codes ":direct:" ++ peer_id))
                (IsTail-append (normalize_account_id params.account_id)
                  (codes ":direct:" ++ peer_id) (IsTail-append (codes ":direct:") peer_id (t e))));
        same = refl;
      })
      | inr a ↦ rw a (elim (Bool-cases (text_eq scope dm_scope_per_channel_peer)) [
        | inl b ↦ rw b (record {
          rest = normalize_channel params.channel ++ (codes ":direct:" ++ peer_id);
          tail =
              IsTail-append (normalize_channel params.channel) (codes ":direct:" ++ peer_id)
                (IsTail-append (codes ":direct:") peer_id (t e));
          same = refl;
        })
        | inr b ↦ rw b (elim (Bool-cases (text_eq scope dm_scope_per_peer)) [
          | inl c ↦ rw c (record {
            rest = codes "direct:" ++ peer_id;
            tail = IsTail-append (codes "direct:") peer_id (t e);
            same = refl;
          })
          | inr c ↦ rw c (main_again params.agent_id h)
        ])
      ])
    ])
  ]

  or_unknown-IsTail : (s : Text) → IsTrimmed s → IsTail (if is_empty s then codes "unknown" else s)
  unfolding is_space
  or_unknown-IsTail [] h = record { nonempty = λ e. cc; ends = refl }
  or_unknown-IsTail (c ∷ s) h = record { nonempty = λ e. cc; ends = h.ends }

  group_key-IsScoped :
      (kind id : Text) → IsScoped (normalize_agent_id params.agent_id) (group_key params kind id)
  unfolding group_key
  group_key-IsScoped kind id =
      let lowered = to_lower (trim_space id) in
      let last = if is_empty lowered then codes "unknown" else lowered in
      record {
        rest = normalize_channel params.channel ++ (codes ":" ++ (kind ++ (codes ":" ++ last)));
        tail =
            IsTail-append (normalize_channel params.channel)
              (codes ":" ++ (kind ++ (codes ":" ++ last)))
              (IsTail-append (codes ":") (kind ++ (codes ":" ++ last)) (
                IsTail-append kind (codes ":" ++ last) (
                  IsTail-append (codes ":") last (
                    or_unknown-IsTail lowered
                      (to_lower-IsTrimmed (trim_space id) (trim_space-IsTrimmed id))))));
        same = refl;
      }

first_linked-IsTrimmed : (cs : List Text) (links : Links) → IsTrimmed (first_linked cs links)
unfolding first_linked
first_linked-IsTrimmed cs [] = record { starts = tt; ends = tt }
first_linked-IsTrimmed cs ((canonical, ids) ∷ links) =
    let rest = first_linked-IsTrimmed cs links in
    elim (Bool-cases (is_empty (trim_space canonical))) [
      | inl e ↦ rw e rest
      | inr e ↦ rw e (elim (Bool-cases (any_linked cs ids)) [
        | inl a ↦ rw a (trim_space-IsTrimmed canonical)
        | inr a ↦ rw a rest
      ])
    ]

resolve_linked_peer_id-IsTrimmed :
    (links : Links) (channel id : Text) → IsTrimmed (resolve_linked_peer_id links channel id)
unfolding resolve_linked_peer_id
resolve_linked_peer_id-IsTrimmed [] channel id = record { starts = tt; ends = tt }
resolve_linked_peer_id-IsTrimmed (l ∷ links) channel id =
    elim (Bool-cases (is_empty (trim_space id))) [
      | inl e ↦ rw e (record { starts = tt; ends = tt })
      | inr e ↦ rw e (first_linked-IsTrimmed (link_candidates channel (trim_space id)) (l ∷ links))
    ]

if-IsTrimmed : (b : Bool) (s t : Text) → IsTrimmed s → IsTrimmed t → IsTrimmed (if b then s else t)
if-IsTrimmed true s t h k = h
if-IsTrimmed false s t h k = k

direct_peer_id-IsTrimmed :
    (params : SessionKeyParams) (scope id : Text) → IsTrimmed (direct_peer_id params scope id)
unfolding direct_peer_id
direct_peer_id-IsTrimmed params scope id =
    let linked = resolve_linked_peer_id params.identity_links params.channel (trim_space id) in
    let test =
      (not (text_eq scope dm_scope_main) && not (is_empty (trim_space id)))
      && not (is_empty linked) in
    to_lower-IsTrimmed (if test then linked else trim_space id) (
      if-IsTrimmed test linked (trim_space id)
        (resolve_linked_peer_id-IsTrimmed params.identity_links params.channel (trim_space id))
        (trim_space-IsTrimmed id))

pub build_agent_peer-IsScoped :
    (params : SessionKeyParams)
    → HasIdHead (normalize_agent_id params.agent_id)
    → IsScoped (normalize_agent_id params.agent_id) (build_agent_peer_session_key params)
unfolding build_agent_peer_session_key
build_agent_peer-IsScoped params h =
    let peer = peer_or_direct params.peer in
    let scope = if is_empty params.dm_scope then dm_scope_main else params.dm_scope in
    elim (Bool-cases (text_eq peer.kind (codes "direct"))) [
      | inl e ↦ rw e (
          direct_key-IsScoped params scope (direct_peer_id params scope peer.id) h (
            trimmed-IsTail (direct_peer_id params scope peer.id)
              (direct_peer_id-IsTrimmed params scope peer.id)))
      | inr e ↦ rw e (group_key-IsScoped params peer.kind peer.id)
    ]

-- Whatever the peer, the channel, the scope and the links: where the normalised agent id begins
-- with a letter or a digit, ParseAgentSessionKey of BuildAgentPeerSessionKey succeeds and gives
-- back that id, with a rest that is not empty.
pub parse-build_peer :
    (params : SessionKeyParams)
    → HasIdHead (normalize_agent_id params.agent_id)
    → (rest : Text) × (parse_agent_session_key (build_agent_peer_session_key params)
        ≡ some (record { agent_id = normalize_agent_id params.agent_id; rest = rest }))
      × (rest ≢ [])
parse-build_peer params h =
    let k = build_agent_peer-IsScoped params h in
    (
      k.rest,
      parse-IsScoped (normalize_agent_id params.agent_id) (build_agent_peer_session_key params)
          (normalize_agent_id-IsId params.agent_id) k,
      k.tail.nonempty,
    )
