-- ===== src/Routing/SessionKey.antt =====
-- pkg/routing/session_key.go. The map of identity links is a list of pairs in the order in which
-- the loop meets them; Go leaves that order open. A nil peer is `none`.
pub mod Parse
pub mod Build
pub mod Isolation
use ebiclaw.Prelude.{
  ℕ, Bool, true, false, ◌&&◌, ◌||◌, not, Option, none, some, List, [], ◌∷◌, ◌++◌, if◌then◌else◌,
  is_empty,
}
use ebiclaw.Strings.{Text, codes, text_eq, trim_space, to_lower, has_prefix, cut, split_n}
use ebiclaw.Routing.AgentId.{normalize_agent_id, normalize_account_id, default_main_key}

abbrev pub dm_scope_main : Text
dm_scope_main = codes "main"

abbrev pub dm_scope_per_peer : Text
dm_scope_per_peer = codes "per-peer"

abbrev pub dm_scope_per_channel_peer : Text
dm_scope_per_channel_peer = codes "per-channel-peer"

abbrev pub dm_scope_per_account_channel_peer : Text
dm_scope_per_account_channel_peer = codes "per-account-channel-peer"

pub record RoutePeer : Type 0 where
  pub kind : Text
  pub id : Text

abbrev pub Links : Type 0
Links = List (Text × List Text)

pub record SessionKeyParams : Type 0 where
  pub agent_id : Text
  pub channel : Text
  pub account_id : Text
  pub peer : Option RoutePeer
  pub dm_scope : Text
  pub identity_links : Links

pub record ParsedSessionKey : Type 0 where
  pub agent_id : Text
  pub rest : Text

unfoldable pub build_agent_main_session_key : Text → Text
build_agent_main_session_key agent_id =
    codes "agent:" ++ (normalize_agent_id agent_id ++ (codes ":" ++ default_main_key))

unfoldable pub normalize_channel : Text → Text
normalize_channel channel =
    let c = trim_space (to_lower channel) in if is_empty c then codes "unknown" else c

-- candidates[s]
unfoldable pub is_candidate : List Text → Text → Bool
is_candidate [] s = false
is_candidate (c ∷ cs) s = text_eq c s || is_candidate cs s

-- The bare id of "platform:id", where both parts are there.
unfoldable pub bare_id : Text → List Text
unfolding cut
bare_id raw = elim (cut 58 raw) [
  | none ↦ []
  | some (platform, id) ↦ if not (is_empty platform) && not (is_empty id) then id ∷ [] else []
]

-- The map `candidates` of resolveLinkedPeerID.
unfoldable pub link_candidates : Text → Text → List Text
unfolding bare_id
link_candidates channel peer_id =
    let raw = to_lower peer_id in
    let scope = to_lower (trim_space channel) in
    raw ∷ ((if is_empty scope then [] else (scope ++ (codes ":" ++ raw)) ∷ []) ++ bare_id raw)

unfoldable pub any_linked : List Text → List Text → Bool
unfolding is_candidate
any_linked candidates [] = false
any_linked candidates (id ∷ ids) =
    (not (is_empty (to_lower (trim_space id)))
      && is_candidate candidates (to_lower (trim_space id)))
    || any_linked candidates ids

unfoldable pub first_linked : List Text → Links → Text
unfolding any_linked
first_linked candidates [] = []
first_linked candidates ((canonical, ids) ∷ links) =
    let rest = first_linked candidates links in
    let name = trim_space canonical in
    if is_empty name then rest else if any_linked candidates ids then name else rest

unfoldable pub resolve_linked_peer_id : Links → Text → Text → Text
unfolding first_linked link_candidates
resolve_linked_peer_id links channel peer_id =
    let id = trim_space peer_id in
    if is_empty links
    then []
    else if is_empty id
    then []
    else first_linked (link_candidates channel id) links

-- The id of a direct peer, after the identity links: empty where there is none.
unfoldable pub direct_peer_id : SessionKeyParams → Text → Text → Text
unfolding resolve_linked_peer_id
direct_peer_id params dm_scope id =
    let peer_id = trim_space id in
    let linked = resolve_linked_peer_id params.identity_links params.channel peer_id in
    let use_link = not (text_eq dm_scope dm_scope_main) && not (is_empty peer_id) in
    to_lower (if use_link && not (is_empty linked) then linked else peer_id)

-- The switch on the scope, for a peer id that is there.
unfoldable pub direct_key : SessionKeyParams → Text → Text → Text
unfolding normalize_channel build_agent_main_session_key
direct_key params dm_scope peer_id =
    let agent_id = normalize_agent_id params.agent_id in
    let channel = normalize_channel params.channel in
    if is_empty peer_id
    then build_agent_main_session_key agent_id
    else if text_eq dm_scope dm_scope_per_account_channel_peer
    then codes "agent:"
      ++ (agent_id
          ++ (codes ":"
              ++ (channel
                  ++ (codes ":"
                      ++ (normalize_account_id params.account_id
                          ++ (codes ":direct:" ++ peer_id))))))
    else if text_eq dm_scope dm_scope_per_channel_peer
    then codes "agent:" ++ (agent_id ++ (codes ":" ++ (channel ++ (codes ":direct:" ++ peer_id))))
    else if text_eq dm_scope dm_scope_per_peer
    then codes "agent:" ++ (agent_id ++ (codes ":direct:" ++ peer_id))
    else build_agent_main_session_key agent_id

unfoldable pub group_key : SessionKeyParams → Text → Text → Text
unfolding normalize_channel
group_key params kind id =
    let lowered = to_lower (trim_space id) in
    codes "agent:"
    ++ (normalize_agent_id params.agent_id
        ++ (codes ":"
            ++ (normalize_channel params.channel
                ++ (codes ":"
                    ++ (kind
                        ++ (codes ":"
                            ++ (if is_empty lowered then codes "unknown" else lowered)))))))

-- The peer that BuildAgentPeerSessionKey works with.
unfoldable pub peer_or_direct : Option RoutePeer → RoutePeer
peer_or_direct none = record { kind = codes "direct"; id = [] }
peer_or_direct (some p) = record {
  kind = if is_empty (trim_space p.kind) then codes "direct" else trim_space p.kind;
  id = p.id;
}

unfoldable pub build_agent_peer_session_key : SessionKeyParams → Text
unfolding peer_or_direct direct_peer_id direct_key group_key
build_agent_peer_session_key params =
    let peer = peer_or_direct params.peer in
    let dm_scope = if is_empty params.dm_scope then dm_scope_main else params.dm_scope in
    if text_eq peer.kind (codes "direct")
    then direct_key params dm_scope (direct_peer_id params dm_scope peer.id)
    else group_key params peer.kind peer.id

-- The tests on the parts of SplitN(raw, ":", 3).
unfoldable pub parse_parts : List Text → Option ParsedSessionKey
parse_parts (head ∷ agent ∷ rest ∷ more) =
    let agent_id = trim_space agent in
    if not (text_eq head (codes "agent"))
    then none
    else if is_empty agent_id || is_empty rest
    then none
    else some (record { agent_id = agent_id; rest = rest })
parse_parts _ = none

unfoldable pub parse_agent_session_key : Text → Option ParsedSessionKey
unfolding split_n parse_parts
parse_agent_session_key session_key =
    let raw = trim_space session_key in
    if is_empty raw then none else parse_parts (split_n 3 58 raw)

unfoldable pub is_subagent_session_key : Text → Bool
unfolding parse_agent_session_key
is_subagent_session_key session_key =
    let raw = trim_space session_key in
    if is_empty raw
    then false
    else if has_prefix (to_lower raw) (codes "subagent:")
    then true
    else elim (parse_agent_session_key raw) [
      | none ↦ false
      | some parsed ↦ has_prefix (to_lower parsed.rest) (codes "subagent:")
    ]
