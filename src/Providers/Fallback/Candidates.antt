-- ===== src/Providers/Fallback/Candidates.antt =====
-- ResolveCandidates and ResolveCandidatesWithLookup of pkg/providers/fallback.go.
use ebiclaw.Prelude.{Bool, false, ◌||◌, Option, none, some, List, [], ◌∷◌, if◌then◌else◌}
use ebiclaw.Strings.{Text, trim_space, text_eq}
use ebiclaw.Providers.ModelRef.{parse_model_ref, model_key}
use ebiclaw.Providers.Fallback.{FallbackCandidate}

-- seen[key]
unfoldable pub is_seen : Text → List Text → Bool
is_seen key [] = false
is_seen key (k ∷ ks) = text_eq k key || is_seen key ks

-- The candidates after those whose keys were seen. With no lookup the function is `λ r. none`.
unfoldable pub add_candidates :
    (Text → Option Text) → Text → List Text → List Text → List FallbackCandidate
unfolding is_seen
add_candidates lookup default_provider seen [] = []
add_candidates lookup default_provider seen (raw ∷ raws) =
    let resolved : Text = elim (lookup (trim_space raw)) [ none ↦ trim_space raw | some r ↦ r ] in
    elim (parse_model_ref resolved default_provider) [
      | none ↦ add_candidates lookup default_provider seen raws
      | some ref ↦
          let key = model_key ref.provider ref.model in
          let skip = add_candidates lookup default_provider seen raws in
          let rest = add_candidates lookup default_provider (key ∷ seen) raws in
          let c : FallbackCandidate = record {
            provider = ref.provider;
            model = ref.model;
            rpm = 0;
            identity_key = [];
          } in
          if is_seen key seen then skip else c ∷ rest
    ]

unfoldable pub resolve_candidates_with_lookup :
    Text → List Text → Text → (Text → Option Text) → List FallbackCandidate
unfolding add_candidates
resolve_candidates_with_lookup primary fallbacks default_provider lookup =
    add_candidates lookup default_provider [] (primary ∷ fallbacks)

unfoldable pub resolve_candidates : Text → List Text → Text → List FallbackCandidate
unfolding resolve_candidates_with_lookup
resolve_candidates primary fallbacks default_provider =
    resolve_candidates_with_lookup primary fallbacks default_provider (λ raw. none)
