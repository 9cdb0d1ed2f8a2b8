-- ===== src/Providers/Fallback/Distinct.antt =====
-- The candidates of a model configuration.
use ebiclaw.Prelude.{
  ◌≡◌, ◌≢◌, true, false, Option, none, some, List, [], ◌∷◌, All, refl, sym, ◌∙◌, ap, arith,
  Bool-cases, Option-cases, inl, inr,
}
use ebiclaw.Strings.{Text, trim_space}
use ebiclaw.Strings.Equal.{text_eq_refl}
use ebiclaw.Providers.ModelRef.{ModelRef, model_key, parse_model_ref}
use ebiclaw.Providers.Fallback.{FallbackCandidate}
use ebiclaw.Providers.Fallback.Candidates.{is_seen, add_candidates, resolve_candidates_with_lookup}

abbrev pub key_of : FallbackCandidate → Text
key_of c = model_key c.provider c.model

-- No two candidates have the same key.
abbrev pub Distinct : List FallbackCandidate → Type 0
Distinct [] = Unit {0}
Distinct (c ∷ cs) = All (λ (d : FallbackCandidate). key_of d ≢ key_of c) cs × Distinct cs

seen_tail :
    (k key : Text) (seen : List Text) → is_seen k seen ≡ true → is_seen k (key ∷ seen) ≡ true
unfolding is_seen
seen_tail k key seen h = ground (arith, h)

seen_head : (key : Text) (seen : List Text) → is_seen key (key ∷ seen) ≡ true
unfolding is_seen
seen_head key seen = rw (text_eq_refl key) refl

unlike : (a k : Text) (seen : List Text) → is_seen k seen ≡ true → is_seen a seen ≡ false → a ≢ k
unlike a k seen h n e = absurd (different (sym h ∙ ap (λ x. is_seen x seen) (sym e) ∙ n))
  where
    different : ¬ (true ≡ false)
    different p = cc

module _ (lookup : Text → Option Text) (default_provider : Text) where
  abbrev resolved : Text → Text
  resolved raw = elim (lookup (trim_space raw)) [ none ↦ trim_space raw | some r ↦ r ]

  abbrev ref_of : Text → Option ModelRef
  ref_of raw = parse_model_ref (resolved raw) default_provider

  -- A key that was seen is the key of no candidate that follows.
  add_candidates-All :
      (k : Text) (seen raws : List Text)
      → is_seen k seen ≡ true
      → All
          (λ (d : FallbackCandidate). key_of d ≢ k)
          (add_candidates lookup default_provider seen raws)
  unfolding add_candidates
  add_candidates-All k seen [] h = tt
  add_candidates-All k seen (raw ∷ raws) h = elim (Option-cases (ref_of raw)) [
    | inl n ↦ rw (n, add_candidates) (add_candidates-All k seen raws h)
    | inr (ref, f) ↦
        let key = model_key ref.provider ref.model in
        elim (Bool-cases (is_seen key seen)) [
          | inl e ↦ rw (f, e, add_candidates) (add_candidates-All k seen raws h)
          | inr e ↦
              rw (f, e, add_candidates)
                ((
                  unlike key k seen h e,
                  add_candidates-All k (key ∷ seen) raws (seen_tail k key seen h),
                ))
        ]
  ]

  add_candidates-Distinct :
      (seen raws : List Text) → Distinct (add_candidates lookup default_provider seen raws)
  unfolding add_candidates
  add_candidates-Distinct seen [] = tt
  add_candidates-Distinct seen (raw ∷ raws) = elim (Option-cases (ref_of raw)) [
    | inl n ↦ rw (n, add_candidates) (add_candidates-Distinct seen raws)
    | inr (ref, f) ↦
        let key = model_key ref.provider ref.model in
        elim (Bool-cases (is_seen key seen)) [
          | inl e ↦ rw (f, e, add_candidates) (add_candidates-Distinct seen raws)
          | inr e ↦
              rw (f, e, add_candidates)
                ((
                  add_candidates-All key (key ∷ seen) raws (seen_head key seen),
                  add_candidates-Distinct (key ∷ seen) raws,
                ))
        ]
  ]

-- Whatever the primary model, the fallbacks and the lookup of aliases: no two candidates have the
-- same ModelKey.
pub resolve_candidates-Distinct :
    (primary : Text) (fallbacks : List Text) (default_provider : Text) (lookup : Text → Option Text)
    → Distinct (resolve_candidates_with_lookup primary fallbacks default_provider lookup)
unfolding resolve_candidates_with_lookup
resolve_candidates-Distinct primary fallbacks default_provider lookup =
    add_candidates-Distinct lookup default_provider [] (primary ∷ fallbacks)
