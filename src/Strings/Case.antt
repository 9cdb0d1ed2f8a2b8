-- ===== src/Strings/Case.antt =====
-- Laws of ToLower.
use ebiclaw.Prelude.{ℕ, ◌≡◌, false, [], ◌∷◌, ◌++◌, ◌&&◌, arith, refl, leb, All}
use ebiclaw.Strings.{Text, lower_rune, to_lower, is_space}

-- No ASCII capital is left.
abbrev pub NotCapital : ℕ → Type 0
NotCapital c = (leb 65 c && leb c 90) ≡ false

lower_rune-NotCapital : (c : ℕ) → NotCapital (lower_rune c)
unfolding lower_rune
lower_rune-NotCapital c = ground arith

lower_rune_id : (c : ℕ) → NotCapital c → lower_rune c ≡ c
unfolding lower_rune
lower_rune_id c h = ground arith

pub to_lower-NotCapital : (s : Text) → All NotCapital (to_lower s)
unfolding to_lower
to_lower-NotCapital [] = tt
to_lower-NotCapital (c ∷ s) = (lower_rune-NotCapital c, to_lower-NotCapital s)

pub to_lower_id : (s : Text) → All NotCapital s → to_lower s ≡ s
unfolding to_lower
to_lower_id [] h = refl
to_lower_id (c ∷ s) h = rw (lower_rune_id c h.0, to_lower_id s h.1) refl

pub to_lower-to_lower : (s : Text) → to_lower (to_lower s) ≡ to_lower s
to_lower-to_lower s = to_lower_id (to_lower s) (to_lower-NotCapital s)

pub to_lower-append : (s t : Text) → to_lower (s ++ t) ≡ to_lower s ++ to_lower t
unfolding to_lower
to_lower-append [] t = refl
to_lower-append (c ∷ s) t = rw (to_lower-append s t) refl

pub is_space-lower_rune : (c : ℕ) → is_space (lower_rune c) ≡ is_space c
unfolding is_space lower_rune
is_space-lower_rune c = ground arith
