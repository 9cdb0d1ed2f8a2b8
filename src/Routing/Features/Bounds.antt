-- ===== src/Routing/Features/Bounds.antt =====
-- Bounds of the features.
use ebiclaw.Prelude.{
  ◌+◌, ◌-◌, ◌/◌, ◌≤◌, ◌≡◌, List, [], ◌∷◌, ◌++◌, length, drop, arith, refl, Bool-cases, inl, inr,
  length-append,
}
use ebiclaw.Strings.{Text}
use ebiclaw.Protocol.{Message}
use ebiclaw.Routing.Features.{
  is_cjk, count_cjk, estimate_tokens, sum_tool_calls, count_recent_tool_calls, lookback_window,
}

count_cjk-le-length : (msg : Text) → count_cjk msg ≤ length msg
unfolding count_cjk
count_cjk-le-length [] = omega arith
count_cjk-le-length (r ∷ s) = elim (Bool-cases (is_cjk r)) [
  | inl e ↦ rw e (omega (arith, count_cjk-le-length s))
  | inr e ↦ rw e (omega (arith, count_cjk-le-length s))
]

count_cjk-append : (s t : Text) → count_cjk (s ++ t) ≡ count_cjk s + count_cjk t
unfolding count_cjk
count_cjk-append [] t = omega arith
count_cjk-append (r ∷ s) t = elim (Bool-cases (is_cjk r)) [
  | inl e ↦ rw e (omega (arith, count_cjk-append s t))
  | inr e ↦ rw e (omega (arith, count_cjk-append s t))
]

-- The estimate lies between a quarter of the code points, rounded down, and all of them; it is at
-- least the number of CJK code points; and text that is added never lowers it.
pub estimate_tokens_bounds :
    (s t : Text)
    → (length s / 4 ≤ estimate_tokens s)
      × (estimate_tokens s ≤ length s)
      × (count_cjk s ≤ estimate_tokens s)
      × (estimate_tokens s ≤ estimate_tokens (s ++ t))
unfolding estimate_tokens
estimate_tokens_bounds s t = (
  omega (arith, count_cjk-le-length s),
  omega (arith, count_cjk-le-length s),
  omega arith,
  omega (
    arith,
    count_cjk-le-length s,
    count_cjk-le-length t,
    count_cjk-append s t,
    length-append s t,
  ),
)

-- drop passes the whole of what stands in front.
drop-append : (old new : List Message) → drop (length old) (old ++ new) ≡ new
drop-append [] new = refl
drop-append (m ∷ old) new = drop-append old new

sum_tool_calls-append :
    (xs ys : List Message) → sum_tool_calls (xs ++ ys) ≡ sum_tool_calls xs + sum_tool_calls ys
unfolding sum_tool_calls
sum_tool_calls-append [] ys = omega arith
sum_tool_calls-append (m ∷ xs) ys = omega (arith, sum_tool_calls-append xs ys)

-- Only the last six messages of the history count: what stands in front of six messages changes
-- nothing.
pub count_recent_tool_calls-append :
    (old new : List Message)
    → length new ≡ lookback_window
    → count_recent_tool_calls (old ++ new) ≡ sum_tool_calls new
unfolding count_recent_tool_calls
count_recent_tool_calls-append old new h =
    let start : length (old ++ new) - lookback_window ≡ length old =
      omega (arith, length-append old new) in
    rw start (rw (drop-append old new) refl)
