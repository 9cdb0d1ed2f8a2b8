-- ===== src/Session.antt =====
-- pkg/session/manager.go, the part in memory. The pointer that GetOrCreate hands out is its value:
-- writes of a caller through it are not modelled. A negative keepLast is 0. Each method holds the
-- mutex, so it is one step; the clock is its argument `now`.
pub mod History
pub mod FileNames
use ebiclaw.Prelude.{
  ℕ, ◌-◌, Bool, true, false, ◌||◌, not, Option, none, some, List, [], ◌∷◌, ◌++◌, map, if◌then◌else◌,
  length, drop, leb, ◌==◌, is_empty,
}
use ebiclaw.Strings.{Text, codes, text_eq}
use ebiclaw.Maps.{Map, get, put}
use ebiclaw.Protocol.{Message, plain}

pub record Session : Type 0 where
  pub key : Text
  pub messages : List Message
  pub summary : Text
  pub created : ℕ
  pub updated : ℕ

pub record SessionManager : Type 0 where
  pub sessions : Map Session
  pub storage : Text

unfoldable pub new_session : Text → ℕ → Session
new_session key now = record {
  key = key;
  messages = [];
  summary = [];
  created = now;
  updated = now;
}

unfoldable pub store : Text → Session → SessionManager → SessionManager
store key s sm = record sm { sessions = put key s sm.sessions }

-- GetOrCreate
unfoldable pub get_or_create : Text → ℕ → SessionManager → Session × SessionManager
unfolding new_session store
get_or_create key now sm = elim (get key sm.sessions) [
  | some s ↦ (s, sm)
  | none ↦ (new_session key now, store key (new_session key now) sm)
]

-- The session of AddFullMessage, made where there is none.
unfoldable pub session_or_new : Text → ℕ → SessionManager → Session
unfolding new_session
session_or_new key now sm = elim (get key sm.sessions) [ some s ↦ s | none ↦ new_session key now ]

unfoldable pub add_full_message : Text → Message → ℕ → SessionManager → SessionManager
unfolding session_or_new store
add_full_message key msg now sm =
    let s = session_or_new key now sm in
    store key (record s { messages = s.messages ++ (msg ∷ []); updated = now }) sm

unfoldable pub add_message : Text → Text → Text → ℕ → SessionManager → SessionManager
unfolding add_full_message
add_message key role content now sm = add_full_message key (plain role content) now sm

unfoldable pub get_history : Text → SessionManager → List Message
get_history key sm = elim (get key sm.sessions) [ none ↦ [] | some s ↦ s.messages ]

unfoldable pub get_summary : Text → SessionManager → Text
get_summary key sm = elim (get key sm.sessions) [ none ↦ [] | some s ↦ s.summary ]

unfoldable pub set_summary : Text → Text → ℕ → SessionManager → SessionManager
unfolding store
set_summary key summary now sm = elim (get key sm.sessions) [
  | none ↦ sm
  | some s ↦ store key (record s { summary = summary; updated = now }) sm
]

-- TruncateHistory on a session that is there.
unfoldable pub truncate_session : ℕ → ℕ → Session → Session
truncate_session keep_last now s =
    if keep_last == 0
    then record s { messages = []; updated = now }
    else if leb (length s.messages) keep_last
    then s
    else record s { messages = drop (length s.messages - keep_last) s.messages; updated = now }

unfoldable pub truncate_history : Text → ℕ → ℕ → SessionManager → SessionManager
unfolding store truncate_session
truncate_history key keep_last now sm = elim (get key sm.sessions) [
  | none ↦ sm
  | some s ↦ store key (truncate_session keep_last now s) sm
]

unfoldable pub set_history : Text → List Message → ℕ → SessionManager → SessionManager
unfolding store
set_history key history now sm = elim (get key sm.sessions) [
  | none ↦ sm
  | some s ↦ store key (record s { messages = history; updated = now }) sm
]

unfoldable pub list_sessions : SessionManager → List Text
list_sessions sm = map (λ (e : Text × Session). e.0) sm.sessions

-- strings.ReplaceAll of one code point by another
unfoldable pub replace_rune : ℕ → ℕ → Text → Text
replace_rune old new [] = []
replace_rune old new (c ∷ s) = (if c == old then new else c) ∷ replace_rune old new s

unfoldable pub sanitize_filename : Text → Text
unfolding replace_rune
sanitize_filename key = replace_rune 92 95 (replace_rune 47 95 (replace_rune 58 95 key))

-- What Save does before it touches the disk: nothing, a refusal, or a snapshot for a file of a name.
pub data SavePlan : Type 0 where
  nothing : SavePlan
  invalid : SavePlan
  write : Text → Session → SavePlan

-- filepath.IsLocal is the parameter.
unfoldable pub plan_save : (Text → Bool) → Text → SessionManager → SavePlan
unfolding sanitize_filename
plan_save is_local key sm =
    let filename = sanitize_filename key in
    let snapshot : SavePlan = elim (get key sm.sessions) [
      | none ↦ nothing
      | some s ↦ write (filename ++ codes ".json") s
    ] in
    if is_empty sm.storage
    then nothing
    else if text_eq filename (codes ".") || not (is_local filename)
    then invalid
    else snapshot
