-- ===== src/Routing/Classifier.antt =====
-- pkg/routing/classifier.go. A score is a float64: it is given as its exact multiple of 2^-56, the
-- last place of the smallest weight, and each addition rounds to 53 significant bits, ties to even,
-- as Go's does. The rounding is exact for sums below 2, which the scores stay below.
pub mod Classes
pub mod Order
use ebiclaw.Prelude.{ℕ, ◌+◌, ◌*◌, ◌/◌, ◌%◌, Bool, true, false, ltb, ◌==◌, if◌then◌else◌}
use ebiclaw.Routing.Features.{Features}

-- s rounded to a multiple of u.
unfoldable pub round_to : ℕ → ℕ → ℕ
round_to u s =
    let q = s / u in
    let r = s % u in
    if ltb (2 * r) u then q * u else if ltb u (2 * r) then (q + 1) * u else (q + q % 2) * u

-- The sum of two float64 values.
unfoldable pub add_float : ℕ → ℕ → ℕ
unfolding round_to
add_float a b =
    let s = a + b in
    if ltb s 9007199254740992
    then s
    else if ltb s 18014398509481984
    then round_to 2 s
    else if ltb s 36028797018963968
    then round_to 4 s
    else if ltb s 72057594037927936
    then round_to 8 s
    else round_to 16 s

-- 1.0, 0.35, 0.15, 0.40, 0.25 and 0.10
abbrev pub one : ℕ
one = 72057594037927936

abbrev pub w35 : ℕ
w35 = 25220157913274776

abbrev pub w15 : ℕ
w15 = 10808639105689190

abbrev pub w40 : ℕ
w40 = 28823037615171176

abbrev pub w25 : ℕ
w25 = 18014398509481984

abbrev pub w10 : ℕ
w10 = 7205759403792794

unfoldable pub add_tokens : Features → ℕ → ℕ
unfolding add_float
add_tokens f score =
    if ltb 200 f.token_estimate
    then add_float score w35
    else if ltb 50 f.token_estimate
    then add_float score w15
    else score

unfoldable pub add_code : Features → ℕ → ℕ
unfolding add_float
add_code f score = if ltb 0 f.code_block_count then add_float score w40 else score

unfoldable pub add_tools : Features → ℕ → ℕ
unfolding add_float
add_tools f score =
    if ltb 3 f.recent_tool_calls
    then add_float score w25
    else if ltb 0 f.recent_tool_calls
    then add_float score w10
    else score

unfoldable pub add_depth : Features → ℕ → ℕ
unfolding add_float
add_depth f score = if ltb 10 f.conversation_depth then add_float score w10 else score

unfoldable pub cap_score : ℕ → ℕ
cap_score score = if ltb one score then one else score

-- RuleClassifier.Score
unfoldable pub score : Features → ℕ
unfolding add_tokens add_code add_tools add_depth cap_score
score f =
    if f.has_attachments
    then one
    else cap_score (add_depth f (add_tools f (add_code f (add_tokens f 0))))
