-- ===== src/Routing/Router.antt =====
-- pkg/routing/router.go. A threshold is an integer multiple of 2^-56, as a score is; one between two
-- multiples compares with every score as the next multiple above it does.
pub mod Decision
use ebiclaw.Prelude.{ℕ, zero, suc, Bool, true, false, List, ltb, if◌then◌else◌}
use ebiclaw.Strings.{Text}
use ebiclaw.Protocol.{Message}
use ebiclaw.Routing.Features.{Features, extract_features}
use ebiclaw.Routing.Classifier.{score, w35}

-- `negsuc n` is -(n + 1).
pub data ℤ : Type 0 where
  pos : ℕ → ℤ
  negsuc : ℕ → ℤ

abbrev pub default_threshold : ℤ
default_threshold = pos w35

pub record RouterConfig : Type 0 where
  pub light_model : Text
  pub threshold : ℤ

pub record Router : Type 0 where
  pub cfg : RouterConfig
  pub classifier : Features → ℕ

-- `if threshold <= 0 { threshold = defaultThreshold }`
unfoldable pub or_default : ℤ → ℤ
or_default (pos zero) = default_threshold
or_default (pos (suc n)) = pos (suc n)
or_default (negsuc n) = default_threshold

unfoldable pub new_with_classifier : RouterConfig → (Features → ℕ) → Router
unfolding or_default
new_with_classifier cfg c = record {
  cfg = record cfg { threshold = or_default cfg.threshold };
  classifier = c;
}

unfoldable pub new : RouterConfig → Router
unfolding or_default
new cfg = record { cfg = record cfg { threshold = or_default cfg.threshold }; classifier = score }

-- score < threshold
unfoldable pub below_threshold : ℕ → ℤ → Bool
below_threshold s (pos t) = ltb s t
below_threshold s (negsuc t) = false

-- The model, whether it is the light one, and the score.
unfoldable pub select_model : Router → Text → List Message → Text → Text × Bool × ℕ
unfolding below_threshold
select_model r msg history primary_model =
    let s = r.classifier (extract_features msg history) in
    if below_threshold s r.cfg.threshold
    then (r.cfg.light_model, true, s)
    else (primary_model, false, s)
