-- ===== src/Context.antt =====
-- pkg/utils/context.go and Truncate of pkg/utils/string.go. json.Marshal is the parameter `marshal`,
-- `none` where it fails. Sizes are not negative; a limit that is, is outside the model.
pub mod Keep
use ebiclaw.Prelude.{
  ℕ, zero, suc, ◌+◌, ◌-◌, ◌*◌, ◌/◌, ◌%◌, reverse, Bool, true, false, Option, none, some, List, [],
  ◌∷◌, ◌++◌, if◌then◌else◌, length, take, leb, ltb, ◌==◌, is_empty,
}
use ebiclaw.Strings.{Text, codes, text_eq}
use ebiclaw.Protocol.{JsonFields, ToolCall, Message, plain}

-- CalculateDefaultMaxContextRunes; 75% of a window of ℕ tokens is exact in float64 below 2^53.
unfoldable pub calculate_default_max_context_runes : ℕ → ℕ
calculate_default_max_context_runes context_window =
    if context_window == 0 then 8000 else context_window * 3 / 4 * 3

-- A configured limit: given, switched off (-1), or not set, which is any other value below 1.
pub data Limit : Type 0 where
  unset off : Limit
  given : ℕ → Limit

-- ResolveMaxContextRunes
unfoldable pub resolve_max_context_runes : Limit → ℕ → Limit
unfolding calculate_default_max_context_runes
resolve_max_context_runes unset context_window =
    given (calculate_default_max_context_runes context_window)
resolve_max_context_runes off context_window = off
resolve_max_context_runes (given zero) context_window =
    given (calculate_default_max_context_runes context_window)
resolve_max_context_runes (given (suc n)) context_window = given (suc n)

-- Truncate, over the flag that switches truncation off.
unfoldable pub truncate : Bool → Text → ℕ → Text
truncate disabled s max_len =
    if disabled
    then s
    else if max_len == 0
    then []
    else if leb (length s) max_len
    then s
    else if leb max_len 3
    then take max_len s
    else take (max_len - 3) s ++ codes "..."

-- fmt's %d, by the digits from the last; the fuel is the number itself.
unfoldable pub decimal_from : ℕ → ℕ → Text → Text
decimal_from zero n acc = (48 + n) ∷ acc
decimal_from (suc fuel) n acc =
    let rest = decimal_from fuel (n / 10) ((48 + n % 10) ∷ acc) in
    if ltb n 10 then (48 + n) ∷ acc else rest

unfoldable pub decimal : ℕ → Text
unfolding decimal_from
decimal n = decimal_from n n []

unfoldable pub is_system : Message → Bool
is_system m = text_eq m.role (codes "system")

-- The two lists that the messages are separated into.
unfoldable pub system_messages : List Message → List Message
unfolding is_system
system_messages [] = []
system_messages (m ∷ ms) = let rest = system_messages ms in if is_system m then m ∷ rest else rest

unfoldable pub other_messages : List Message → List Message
unfolding is_system
other_messages [] = []
other_messages (m ∷ ms) = let rest = other_messages ms in if is_system m then rest else m ∷ rest

unfoldable pub system_runes : List Message → ℕ
system_runes [] = 0
system_runes (m ∷ ms) = length m.content + length m.reasoning_content + system_runes ms

-- The notice of a truncation.
unfoldable pub notice : ℕ → Message
unfolding decimal
notice dropped = plain (codes "system") (
    codes "[Context truncated: "
    ++ (decimal dropped ++ codes " earlier messages omitted to stay within context limits]"))

module _ (marshal : JsonFields → Option Text) where
  unfoldable pub argument_runes : Option Text → ℕ
  argument_runes none = 100
  argument_runes (some s) = length s

  unfoldable pub tool_call_runes : List ToolCall → ℕ
  unfolding argument_runes
  tool_call_runes [] = 0
  tool_call_runes (tc ∷ tcs) =
      length tc.name + argument_runes (marshal tc.arguments) + tool_call_runes tcs

  unfoldable pub message_runes : Message → ℕ
  unfolding tool_call_runes
  message_runes m =
      length m.content
      + length m.reasoning_content
      + tool_call_runes m.tool_calls
      + length m.tool_call_id

  -- MeasureContextRunes
  unfoldable pub measure_context_runes : List Message → ℕ
  unfolding message_runes
  measure_context_runes [] = 0
  measure_context_runes (m ∷ ms) = message_runes m + measure_context_runes ms

  -- The loop from the last message to the first, over the messages in reverse order.
  unfoldable pub keep_recent : ℕ → List Message → ℕ → List Message → List Message
  unfolding message_runes
  keep_recent remaining [] current kept = kept
  keep_recent remaining (m ∷ ms) current kept =
      let more = keep_recent remaining ms (current + message_runes m) (m ∷ kept) in
      if ltb remaining (current + message_runes m) then kept else more

  -- TruncateContextSmart
  unfoldable pub truncate_context_smart : List Message → ℕ → List Message
  unfolding keep_recent system_messages other_messages system_runes
  truncate_context_smart messages max_runes =
      let systems = system_messages messages in
      let others = other_messages messages in
      let reserved = system_runes systems + 80 in
      let kept = keep_recent (max_runes - reserved) (reverse others) 0 [] in
      let mark =
        if ltb (length kept) (length others)
        then notice (length others - length kept) ∷ []
        else [] in
      if is_empty messages
      then messages
      else if leb max_runes reserved
      then systems
      else systems ++ (mark ++ kept)
