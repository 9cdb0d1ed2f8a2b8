-- ===== src/Strings/Equal.antt =====
-- Comparison of texts.
use ebiclaw.Prelude.{
  ◌≡◌, ◌↔◌, ◌≢◌, ◌⊎◌, true, false, [], ◌∷◌, ◌==◌, &&-eq-true, &&-intro, ==_iff, ==-refl, refl,
  Bool-cases, inl, inr,
}
use ebiclaw.Strings.{Text, text_eq}

pub eq_of_text_eq : (s t : Text) → text_eq s t ≡ true → s ≡ t
unfolding text_eq
eq_of_text_eq [] [] h = refl
eq_of_text_eq [] (b ∷ t) h = cc
eq_of_text_eq (a ∷ s) [] h = cc
eq_of_text_eq (a ∷ s) (b ∷ t) h =
    let (p, q) = &&-eq-true (a == b) (text_eq s t) h in cc ((==_iff a b).0 p, eq_of_text_eq s t q)

pub text_eq_refl : (s : Text) → text_eq s s ≡ true
unfolding text_eq
text_eq_refl [] = refl
text_eq_refl (a ∷ s) = &&-intro (a == a) (text_eq s s) (==-refl a) (text_eq_refl s)

-- The form that the tactics read.
pub text_eq_iff : (s t : Text) → (text_eq s t ≡ true) ↔ (s ≡ t)
text_eq_iff s t = (eq_of_text_eq s t, λ e. rw e (text_eq_refl t))

pub text_eq-cases : (s t : Text) → (s ≡ t) × (text_eq s t ≡ true) ⊎ (s ≢ t) × (text_eq s t ≡ false)
text_eq-cases s t = elim (Bool-cases (text_eq s t)) [
  | inl e ↦ inl (eq_of_text_eq s t e, e)
  | inr e ↦ inr (λ p. cc (text_eq_refl t), e)
]
