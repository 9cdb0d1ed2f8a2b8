-- ===== src/Agent/Compression.antt =====
-- pkg/agent/context_budget.go, and forceCompression of pkg/agent/context_legacy.go: where a history
-- is cut, and what is kept of it. The session manager is that of pkg/session/manager.go; its Save,
-- which comes last, is not modelled. The history of the default agent's sessions is at hand.
pub mod Cut
use ebiclaw.Prelude.{
  ℕ, zero, suc, ◌+◌, ◌-◌, ◌/◌, Bool, true, false, Option, none, some, List, [], ◌∷◌, ◌++◌,
  if◌then◌else◌, is_empty, length, drop, leb, ltb, ◌==◌,
}
use ebiclaw.Strings.{Text, codes, text_eq}
use ebiclaw.Protocol.{Message}
use ebiclaw.Context.{decimal}
use ebiclaw.Session.{SessionManager, get_history, get_summary, set_summary, set_history}

abbrev pub is_user : Message → Bool
is_user msg = text_eq msg.role (codes "user")

-- The loop of parseTurnBoundaries, from an index.
unfoldable pub turns_from : ℕ → List Message → List ℕ
turns_from i [] = []
turns_from i (msg ∷ msgs) =
    let rest = turns_from (suc i) msgs in if is_user msg then i ∷ rest else rest

unfoldable pub parse_turn_boundaries : List Message → List ℕ
unfolding turns_from
parse_turn_boundaries history = turns_from 0 history

abbrev pub starts_turn : List Message → Bool
starts_turn [] = false
starts_turn (msg ∷ msgs) = is_user msg

-- A negative index is 0.
unfoldable pub is_safe_boundary : List Message → ℕ → Bool
is_safe_boundary history index =
    if index == 0
    then true
    else if leb (length history) index
    then true
    else starts_turn (drop index history)

-- The last boundary at or before the target.
unfoldable pub backward_of : ℕ → Option ℕ → List ℕ → Option ℕ
backward_of target found [] = found
backward_of target found (t ∷ turns) =
    backward_of target (if leb t target then some t else found) turns

unfoldable pub first_after : ℕ → List ℕ → Option ℕ
first_after target [] = none
first_after target (t ∷ turns) =
    let rest = first_after target turns in if ltb target t then some t else rest

abbrev pub boundary_or_zero : Option ℕ → ℕ
boundary_or_zero none = 0
boundary_or_zero (some t) = t

abbrev pub choose_boundary : Option ℕ → Option ℕ → ℕ
choose_boundary none after = boundary_or_zero after
choose_boundary (some zero) after = boundary_or_zero after
choose_boundary (some (suc t)) after = suc t

unfoldable pub find_safe_boundary : List Message → ℕ → ℕ
unfolding parse_turn_boundaries backward_of first_after
find_safe_boundary history target =
    let turns = parse_turn_boundaries history in
    if is_empty history
    then 0
    else if target == 0
    then 0
    else if leb (length history) target
    then length history
    else if is_empty turns
    then target
    else choose_boundary (backward_of target none turns) (first_after target turns)

-- turns[i], where it is in range
unfoldable pub turn_at : ℕ → List ℕ → ℕ
turn_at i [] = 0
turn_at zero (t ∷ turns) = t
turn_at (suc i) (t ∷ turns) = turn_at i turns

unfoldable pub middle : List Message → ℕ
unfolding parse_turn_boundaries turn_at find_safe_boundary
middle history =
    let turns = parse_turn_boundaries history in
    if leb 2 (length turns)
    then turn_at (length turns / 2) turns
    else find_safe_boundary history (length history / 2)

-- The last user message, alone.
unfoldable pub last_user : List Message → List Message
last_user [] = []
last_user (msg ∷ msgs) =
    let rest = last_user msgs in
    if is_empty rest then (if is_user msg then msg ∷ [] else []) else rest

unfoldable pub kept_history : List Message → List Message
unfolding middle last_user
kept_history history =
    if middle history == 0 then last_user history else drop (middle history) history

-- compressionNote, with the number of dropped messages in decimal.
unfoldable pub compression_note : Text → Text → Text
compression_note existing dropped =
    let note =
      codes "[Emergency compression dropped "
      ++ (dropped ++ codes " oldest messages due to context limit]") in
    if is_empty existing then note else existing ++ (codes "\n\n" ++ note)

-- CompressionResult
pub record CompressionResult : Type 0 where
  pub dropped_messages : ℕ
  pub remaining_messages : ℕ

-- forceCompression
unfoldable pub force_compression :
    Text → ℕ → SessionManager → Option CompressionResult × SessionManager
force_compression key now sm =
    let history = get_history key sm in
    let kept = kept_history history in
    let dropped = length history - length kept in
    let note = compression_note (get_summary key sm) (decimal dropped) in
    if leb (length history) 2 then (none, sm) else (
      some (record { dropped_messages = dropped; remaining_messages = length kept }),
      set_history key kept now (set_summary key note now sm),
    )
