-- ===== src/Routing/Classifier/Classes.antt =====
-- The score depends on the class of each signal alone, so that a law of it is a check over the 36
-- classes.
use ebiclaw.Prelude.{
  ℕ, ◌<◌, ◌≡◌, inl, inr, Bool, true, ltb, if◌then◌else◌, arith, refl, Bool-cases, ◌==◌, every_below,
  every_below_sound,
}
use ebiclaw.Routing.Features.{Features}
use ebiclaw.Routing.Classifier.{
  add_float, one, w35, w15, w40, w25, w10, add_tokens, add_code, add_tools, add_depth, cap_score,
  score,
}

abbrev pub token_class : Features → ℕ
token_class f = if ltb 200 f.token_estimate then 2 else if ltb 50 f.token_estimate then 1 else 0

abbrev pub code_class : Features → ℕ
code_class f = if ltb 0 f.code_block_count then 1 else 0

abbrev pub tool_class : Features → ℕ
tool_class f = if ltb 3 f.recent_tool_calls then 2 else if ltb 0 f.recent_tool_calls then 1 else 0

abbrev pub depth_class : Features → ℕ
depth_class f = if ltb 10 f.conversation_depth then 1 else 0

-- The additions, by class.
unfoldable pub tokens_at : ℕ → ℕ → ℕ
unfolding add_float
tokens_at t s = if t == 2 then add_float s w35 else if t == 1 then add_float s w15 else s

unfoldable pub code_at : ℕ → ℕ → ℕ
unfolding add_float
code_at c s = if c == 1 then add_float s w40 else s

unfoldable pub tools_at : ℕ → ℕ → ℕ
unfolding add_float
tools_at k s = if k == 2 then add_float s w25 else if k == 1 then add_float s w10 else s

unfoldable pub depth_at : ℕ → ℕ → ℕ
unfolding add_float
depth_at d s = if d == 1 then add_float s w10 else s

unfoldable pub class_score : ℕ → ℕ → ℕ → ℕ → ℕ
unfolding cap_score tokens_at code_at tools_at depth_at
class_score t c k d = cap_score (depth_at d (tools_at k (code_at c (tokens_at t 0))))

add_tokens-at : (f : Features) (s : ℕ) → add_tokens f s ≡ tokens_at (token_class f) s
unfolding add_tokens tokens_at
add_tokens-at f s = elim (Bool-cases (ltb 200 f.token_estimate)) [
  | inl e ↦ rw e refl
  | inr e ↦
      rw e (elim (Bool-cases (ltb 50 f.token_estimate)) [ inl d ↦ rw d refl | inr d ↦ rw d refl ])
]

add_code-at : (f : Features) (s : ℕ) → add_code f s ≡ code_at (code_class f) s
unfolding add_code code_at
add_code-at f s = elim (Bool-cases (ltb 0 f.code_block_count)) [
  | inl d ↦ rw d refl
  | inr d ↦ rw d refl
]

add_tools-at : (f : Features) (s : ℕ) → add_tools f s ≡ tools_at (tool_class f) s
unfolding add_tools tools_at
add_tools-at f s = elim (Bool-cases (ltb 3 f.recent_tool_calls)) [
  | inl e ↦ rw e refl
  | inr e ↦
      rw e (elim (Bool-cases (ltb 0 f.recent_tool_calls)) [ inl d ↦ rw d refl | inr d ↦ rw d refl ])
]

add_depth-at : (f : Features) (s : ℕ) → add_depth f s ≡ depth_at (depth_class f) s
unfolding add_depth depth_at
add_depth-at f s = elim (Bool-cases (ltb 10 f.conversation_depth)) [
  | inl d ↦ rw d refl
  | inr d ↦ rw d refl
]

pub score-class_score :
    (f : Features)
    → score f ≡ (
        if f.has_attachments
        then one
        else class_score (token_class f) (code_class f) (tool_class f) (depth_class f))
unfolding score class_score
score-class_score f = simp (add_tokens-at f, add_code-at f, add_tools-at f, add_depth-at f)

-- A test of the score checked at every class.
unfoldable pub every_class : (ℕ → ℕ → ℕ → ℕ → Bool) → Bool
unfolding every_below
every_class p =
    every_below 3 (λ t. every_below 2 (λ c. every_below 3 (λ k. every_below 2 (λ d. p t c k d))))

pub every_class_sound :
    (p : ℕ → ℕ → ℕ → ℕ → Bool) (t c k d : ℕ)
    → every_class p ≡ true
    → t < 3
    → c < 2
    → k < 3
    → d < 2
    → p t c k d ≡ true
unfolding every_class
every_class_sound p t c k d h ht hc hk hd =
    every_below_sound 2 (λ y. p t c k y) d
      (every_below_sound 3 (λ x. every_below 2 (λ y. p t c x y)) k
        (every_below_sound 2 (λ b. every_below 3 (λ x. every_below 2 (λ y. p t b x y))) c
          (every_below_sound 3
            (λ a. every_below 2 (λ b. every_below 3 (λ x. every_below 2 (λ y. p a b x y)))) t h ht)
          hc)
        hk)
      hd

pub token_class-lt : (f : Features) → token_class f < 3
token_class-lt f = ground arith

pub code_class-lt : (f : Features) → code_class f < 2
code_class-lt f = ground arith

pub tool_class-lt : (f : Features) → tool_class f < 3
tool_class-lt f = ground arith

pub depth_class-lt : (f : Features) → depth_class f < 2
depth_class-lt f = ground arith
