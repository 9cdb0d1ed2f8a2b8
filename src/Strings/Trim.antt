-- ===== src/Strings/Trim.antt =====
-- Laws of trimming: what is left begins and ends with no space, and trimming twice is trimming once.
use ebiclaw.Prelude.{ℕ, ◌≡◌, Bool, false, [], ◌∷◌, ◌++◌, refl, ap, ◌∙◌, Bool-cases, inl, inr}
use ebiclaw.Strings.{Text, to_lower, is_space, trim_left, trim_right, trim_space, keep_unless}
use ebiclaw.Strings.Case.{is_space-lower_rune}

-- The first code point fails the test.
abbrev pub Starts : (ℕ → Bool) → Text → Type 0
Starts p [] = Unit
Starts p (c ∷ s) = p c ≡ false

-- The last code point fails the test.
abbrev pub Ends : (ℕ → Bool) → Text → Type 0
Ends p [] = Unit
Ends p (c ∷ []) = p c ≡ false
Ends p (c ∷ d ∷ s) = Ends p (d ∷ s)

module _ (p : ℕ → Bool) where
  pub trim_left-Starts : (s : Text) → Starts p (trim_left p s)
  unfolding trim_left
  trim_left-Starts [] = tt
  trim_left-Starts (c ∷ s) = elim (Bool-cases (p c)) [
    | inl e ↦ rw e (trim_left-Starts s)
    | inr e ↦ rw e e
  ]

  pub trim_left_id : (s : Text) → Starts p s → trim_left p s ≡ s
  unfolding trim_left
  trim_left_id [] h = refl
  trim_left_id (c ∷ s) h = rw h refl

  keep_unless-Starts : (c : ℕ) (r : Text) → p c ≡ false → Starts p (keep_unless p c r)
  unfolding keep_unless
  keep_unless-Starts c [] h = rw h h
  keep_unless-Starts c (d ∷ r) h = h

  pub trim_right-Starts : (s : Text) → Starts p s → Starts p (trim_right p s)
  unfolding trim_right
  trim_right-Starts [] h = tt
  trim_right-Starts (c ∷ s) h = keep_unless-Starts c (trim_right p s) h

  keep_unless-Ends : (c : ℕ) (r : Text) → Ends p r → Ends p (keep_unless p c r)
  unfolding keep_unless
  keep_unless-Ends c [] h = elim (Bool-cases (p c)) [ inl e ↦ rw e tt | inr e ↦ rw e e ]
  keep_unless-Ends c (d ∷ r) h = h

  pub trim_right-Ends : (s : Text) → Ends p (trim_right p s)
  unfolding trim_right
  trim_right-Ends [] = tt
  trim_right-Ends (c ∷ s) = keep_unless-Ends c (trim_right p s) (trim_right-Ends s)

  pub trim_right_id : (s : Text) → Ends p s → trim_right p s ≡ s
  unfolding trim_right
  trim_right_id [] h = refl
  trim_right_id (c ∷ []) h = rw h refl
  trim_right_id (c ∷ d ∷ s) h = ap (keep_unless p c) (trim_right_id (d ∷ s) h)

  pub Ends-append : (s : Text) (c : ℕ) (t : Text) → Ends p (c ∷ t) → Ends p (s ++ (c ∷ t))
  Ends-append [] c t h = h
  Ends-append (a ∷ []) c t h = h
  Ends-append (a ∷ b ∷ s) c t h = Ends-append (b ∷ s) c t h

-- Trimmed on both sides.
pub record IsTrimmed (s : Text) : Type 0 where
  pub starts : Starts is_space s
  pub ends : Ends is_space s

pub trim_space-IsTrimmed : (s : Text) → IsTrimmed (trim_space s)
unfolding trim_space
trim_space-IsTrimmed s = record {
  starts = trim_right-Starts is_space (trim_left is_space s) (trim_left-Starts is_space s);
  ends = trim_right-Ends is_space (trim_left is_space s);
}

pub trim_space_id : (s : Text) → IsTrimmed s → trim_space s ≡ s
unfolding trim_space
trim_space_id s h = rw (trim_left_id is_space s h.starts) (trim_right_id is_space s h.ends)

pub trim_space-trim_space : (s : Text) → trim_space (trim_space s) ≡ trim_space s
trim_space-trim_space s = trim_space_id (trim_space s) (trim_space-IsTrimmed s)

to_lower-Starts : (s : Text) → Starts is_space s → Starts is_space (to_lower s)
unfolding to_lower
to_lower-Starts [] h = tt
to_lower-Starts (c ∷ s) h = is_space-lower_rune c ∙ h

pub to_lower-Ends : (s : Text) → Ends is_space s → Ends is_space (to_lower s)
unfolding to_lower
to_lower-Ends [] h = tt
to_lower-Ends (c ∷ []) h = is_space-lower_rune c ∙ h
to_lower-Ends (c ∷ d ∷ s) h = to_lower-Ends (d ∷ s) h

pub to_lower-IsTrimmed : (s : Text) → IsTrimmed s → IsTrimmed (to_lower s)
to_lower-IsTrimmed s h = record {
  starts = to_lower-Starts s h.starts;
  ends = to_lower-Ends s h.ends;
}
