-- ===== src/Channels/Split/Fence.antt =====
-- A text that begins with a code fence: what the searches find in it.
use ebiclaw.Prelude.{
  ℕ, zero, suc, ◌+◌, ◌-◌, ◌≡◌, ◌≤◌, Bool, false, Option, none, some, [], ◌∷◌, ◌++◌, is_empty,
  length, take, drop, ◌==◌, arith, refl, ap, ◌∙◌, Option-cases, inl, inr, All,
}
use ebiclaw.Strings.{Text, has_prefix, trim_space, trim_left, trim_right, is_space, keep_unless}
use ebiclaw.Channels.Split.{
  code_fence, is_newline, is_blank, last_from, find_last_in_range, or_if_zero, index_or,
  natural_split, code_block_buffer, effective_limit, unclosed_from, closing_from, newline_from,
}

-- The first code points, of which none passes the test.
abbrev Fails : (ℕ → Bool) → ℕ → Text → Type 0
Fails test zero s = Unit
Fails test (suc k) [] = Unit
Fails test (suc k) (c ∷ s) = (test c ≡ false) × Fails test k s

module _ (test : ℕ → Bool) where
  Fails-take : (m k : ℕ) (s : Text) → Fails test k s → Fails test k (take m s)
  Fails-take m zero s h = tt
  Fails-take zero (suc k) s h = tt
  Fails-take (suc m) (suc k) [] h = tt
  Fails-take (suc m) (suc k) (c ∷ s) h = (h.0, Fails-take m k s h.1)

  Fails-tail : (k : ℕ) (s : Text) → Fails test (suc k) s → Fails test k (drop 1 s)
  Fails-tail zero s h = tt
  Fails-tail (suc k) [] h = tt
  Fails-tail (suc k) (c ∷ s) h = h.1

  Fails-second : (s : Text) → Fails test 3 s → Fails test 1 (drop 2 s)
  Fails-second [] h = tt
  Fails-second (c ∷ []) h = tt
  Fails-second (c ∷ d ∷ []) h = tt
  Fails-second (c ∷ d ∷ e ∷ s) h = h.1.1

  last_from-le : (i j : ℕ) (s : Text) → last_from test i s ≡ some j → i ≤ j
  unfolding last_from
  last_from-le i j [] e = cc
  last_from-le i j (c ∷ s) e = elim (Option-cases (last_from test (suc i) s)) [
    | inl n ↦ ground arith
    | inr (k, n) ↦ ground (arith, last_from-le (suc i) k s n)
  ]

  last_from-Fails :
      (k i j : ℕ) (s : Text) → Fails test k s → last_from test i s ≡ some j → i + k ≤ j
  unfolding last_from
  last_from-Fails zero i j s h e = omega (arith, last_from-le i j s e)
  last_from-Fails (suc k) i j [] h e = cc
  last_from-Fails (suc k) i j (c ∷ s) h e = elim (Option-cases (last_from test (suc i) s)) [
    | inl n ↦ ground (arith, h.0)
    | inr (m, n) ↦ ground (arith, last_from-Fails k (suc i) m s h.1 n)
  ]

  find_last_in_range-Fails :
      (runes : Text) (end window j : ℕ)
      → Fails test 3 runes
      → find_last_in_range test runes end window ≡ some j
      → 3 ≤ j
  unfolding find_last_in_range
  find_last_in_range-Fails runes end window j h e = from_end (end - window) e
    where
      part : ℕ → Text
      part n = take (end - n) (drop n runes)

      from_end :
          (from : ℕ) → last_from test from (take (end - from) (drop from runes)) ≡ some j → 3 ≤ j
      from_end zero q = last_from-Fails 3 0 j (part 0) (Fails-take (end - 0) 3 runes h) q
      from_end (suc zero) q =
          last_from-Fails 2 1 j (part 1)
            (Fails-take (end - 1) 2 (drop 1 runes) (Fails-tail 2 runes h)) q
      from_end (suc (suc zero)) q =
          last_from-Fails 1 2 j (part 2)
            (Fails-take (end - 2) 1 (drop 2 runes) (Fails-second runes h)) q
      from_end (suc (suc (suc n))) q =
          omega (arith, last_from-le (suc (suc (suc n))) j (part (suc (suc (suc n)))) q)

index_or-ge :
    (d : ℕ) (o p : Option ℕ)
    → 3 ≤ d
    → ((j : ℕ) → o ≡ some j → 3 ≤ j)
    → ((j : ℕ) → p ≡ some j → 3 ≤ j)
    → 3 ≤ index_or d (or_if_zero o p)
index_or-ge d none none h f g = h
index_or-ge d none (some zero) h f g = h
index_or-ge d none (some (suc j)) h f g = g (suc j) refl
index_or-ge d (some zero) none h f g = h
index_or-ge d (some zero) (some zero) h f g = h
index_or-ge d (some zero) (some (suc j)) h f g = g (suc j) refl
index_or-ge d (some (suc j)) p h f g = f (suc j) refl

pub natural_split-ge :
    (end : ℕ) (s : Text) → 3 ≤ end → 3 ≤ index_or end (natural_split (code_fence ++ s) end)
unfolding natural_split
natural_split-ge end s h =
    index_or-ge end (find_last_in_range is_newline (code_fence ++ s) end 200)
      (find_last_in_range is_blank (code_fence ++ s) end 100) h
      (λ j e.
        find_last_in_range-Fails is_newline (code_fence ++ s) end 200 j (refl, (refl, (refl, tt)))
          e)
      (λ j e.
        find_last_in_range-Fails is_blank (code_fence ++ s) end 100 j (refl, (refl, (refl, tt))) e)

pub effective_limit-ge : (max_len : ℕ) → 5 ≤ max_len → 3 ≤ effective_limit max_len
unfolding effective_limit code_block_buffer
effective_limit-ge max_len h = omega arith

-- Neither a backtick nor the end of a line.
abbrev pub InLine : ℕ → Type 0
InLine c = ((c == 96) ≡ false) × ((c == 10) ≡ false)

pub unclosed_from-InLine :
    (i : ℕ) (o : Option ℕ) (s : Text) → All InLine s → unclosed_from 0 i o s ≡ o
unfolding unclosed_from has_prefix
unclosed_from-InLine i o [] h = refl
unclosed_from-InLine i o (c ∷ s) h = rw (h.0.0) (unclosed_from-InLine (suc i) o s h.1)

closing_from-le : (i k : ℕ) (s : Text) → closing_from i s ≡ some k → i + 3 ≤ k
unfolding closing_from
closing_from-le i k [] e = cc
closing_from-le i k (c ∷ s) e = ground (arith, closing_from-le (suc i) k s)

pub closing_from-InLine :
    (i k : ℕ) (a s : Text) → All InLine a → closing_from i (a ++ s) ≡ some k → i + length a + 3 ≤ k
unfolding closing_from has_prefix
closing_from-InLine i k [] s h e = omega (arith, closing_from-le i k s e)
closing_from-InLine i k (c ∷ a) s h e =
    omega (arith, closing_from-InLine (suc i) k a s h.1 (rw (h.0.0) at e))

pub newline_from-InLine :
    (i : ℕ) (a s : Text) → All InLine a → newline_from i (a ++ (10 ∷ s)) ≡ some (i + length a)
unfolding newline_from
newline_from-InLine i [] s h = ap (λ (n : ℕ). some n) (omega arith)
newline_from-InLine i (c ∷ a) s h =
    rw (h.0.1) (newline_from-InLine (suc i) a s h.1 ∙ ap (λ (n : ℕ). some n) (omega arith))

pub take-append : (a s : Text) → take (length a) (a ++ s) ≡ a
take-append [] s = refl
take-append (c ∷ a) s = ap (λ (r : Text). c ∷ r) (take-append a s)

pub All-drop : (n : ℕ) (a : Text) → All InLine a → All InLine (drop n a)
All-drop zero a h = h
All-drop (suc n) [] h = h
All-drop (suc n) (c ∷ a) h = All-drop n a h.1

pub length-drop_le : (n : ℕ) (a : Text) → n ≤ length a → n + length (drop n a) ≡ length a
length-drop_le zero a h = omega arith
length-drop_le (suc n) [] h = absurd (omega arith)
length-drop_le (suc n) (c ∷ a) h = omega (arith, length-drop_le n a (omega arith))

-- A text that ends with something that is not cut off.
pub trim_right-append :
    (p : ℕ → Bool) (s t : Text)
    → is_empty t ≡ false
    → trim_right p t ≡ t
    → trim_right p (s ++ t) ≡ s ++ t
unfolding trim_right
trim_right-append p [] t h e = e
trim_right-append p (c ∷ s) t h e = rw (trim_right-append p s t h e) (kept (s ++ t) (nonempty s))
  where
    nonempty : (s : Text) → is_empty (s ++ t) ≡ false
    nonempty [] = h
    nonempty (d ∷ s) = refl

    kept : (r : Text) → is_empty r ≡ false → keep_unless p c r ≡ c ∷ r
    kept [] k = cc
    kept (d ∷ r) k = unfold keep_unless in refl

trim_left-solid : (p : ℕ → Bool) (c : ℕ) (s : Text) → p c ≡ false → trim_left p (c ∷ s) ≡ c ∷ s
unfolding trim_left
trim_left-solid p c s h = rw h refl

pub trim_space-fenced :
    (s t : Text)
    → is_empty t ≡ false
    → trim_right is_space t ≡ t
    → trim_space (code_fence ++ (s ++ t)) ≡ code_fence ++ (s ++ t)
unfolding trim_space is_space
trim_space-fenced s t h e =
    ap (λ (r : Text). trim_right is_space r) (trim_left-solid is_space 96 (96 ∷ 96 ∷ (s ++ t)) refl)
    ∙ trim_right-append is_space (code_fence ++ s) t h e
