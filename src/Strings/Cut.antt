-- ===== src/Strings/Cut.antt =====
-- Laws of cutting a text at a separator.
use ebiclaw.Prelude.{ℕ, suc, ◌≡◌, true, false, some, none, [], ◌∷◌, ◌++◌, ◌==◌, refl, ==-refl, All}
use ebiclaw.Strings.{Text, cut, split_n, has_prefix}

-- No code point is the separator.
abbrev pub Without : ℕ → Text → Type 0
Without c = All (λ d. (d == c) ≡ false)

pub cut-append : (c : ℕ) (s t : Text) → Without c s → cut c (s ++ (c ∷ t)) ≡ some (s, t)
unfolding cut
cut-append c [] t h = rw (==-refl c) refl
cut-append c (d ∷ s) t h = rw (h.0, cut-append c s t h.1) refl

pub cut-Without : (c : ℕ) (s : Text) → Without c s → cut c s ≡ none
unfolding cut
cut-Without c [] h = refl
cut-Without c (d ∷ s) h = rw (h.0, cut-Without c s h.1) refl

pub split_n-append :
    (n c : ℕ) (s t : Text)
    → Without c s
    → split_n (suc (suc n)) c (s ++ (c ∷ t)) ≡ s ∷ split_n (suc n) c t
unfolding split_n
split_n-append n c s t h = rw (cut-append c s t h, split_n) refl

pub has_prefix-append : (s t : Text) → has_prefix (s ++ t) s ≡ true
unfolding has_prefix
has_prefix-append [] [] = refl
has_prefix-append [] (c ∷ t) = refl
has_prefix-append (c ∷ s) t = rw (==-refl c) (has_prefix-append s t)
