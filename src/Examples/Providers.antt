-- ===== src/Examples/Providers.antt =====
-- pkg/providers: a chain of two models of which the first one fails, and a limiter of two requests.
use ebiclaw.Prelude.{
  ℕ, ◌+◌, ◌-◌, ◌*◌, ◌/◌, min, ◌≡◌, ◌≢◌, ◌≤◌, ◌<◌, ◌↔◌, Bool, true, false, none, some, List, [], ◌∷◌,
  map, refl, arith, if◌then◌else◌,
}
use native.Mathlib.Nat.{zero-mul, div-le_self}
use ebiclaw.Strings.{Text, codes, text_eq, trim_space}
use ebiclaw.Maps.{get, put}
use ebiclaw.Providers.Reason.{
  rate_limit, billing, canceled, deadline_exceeded, message, FailoverError, timeout,
}
use ebiclaw.Providers.Cooldown.{
  CooldownTracker, new_cooldown_tracker, mark_failure, is_available, cooldown_remaining,
  error_count, failure_count, standard_cooldown, billing_cooldown,
}
use ebiclaw.Providers.Cooldown.Availability.{
  cooldown_of, is_available-cooldown_remaining, mark_failure-is_available,
}
use ebiclaw.Providers.Cooldown.Counting.{Event, failed, succeeded, run, total, error_count-total}
use ebiclaw.Providers.RateLimiter.{Float64, new_rate_limiter, Clock}
use ebiclaw.Providers.RateLimiter.Bound.{
  IsFloat64, granted, after, at_once, granted-le, granted-min,
}
use ebiclaw.Providers.Fallback.{
  FallbackCandidate, Env, Chain, Reply, answer, failure, execute, stable_key, gave_up, exhausted,
}
use ebiclaw.Providers.Fallback.Attempts.{Explains, execute-Explains}
use ebiclaw.Providers.Fallback.Candidates.{resolve_candidates_with_lookup}
use ebiclaw.Providers.Fallback.Distinct.{Distinct, resolve_candidates-Distinct}
use ebiclaw.Providers.Fallback.Image.{execute_image}
use ebiclaw.Providers.Fallback.ImageAttempts.{execute_image-Explains}
use ebiclaw.Providers.Fallback.Cooling.{cooling_attempt, execute-cooling}
use ebiclaw.Providers.ErrorClassifier.{classify_error}
use ebiclaw.Providers.ErrorClassifier.Reasons.{IsGiven, classify_error_sound}

-- Numbers in units of a billionth, for want of a real float64.
abbrev fixed : Float64
fixed = record {
  of_int = λ n. n * 1000000000;
  to_duration = λ x. x / 1000000000;
  add = λ x y. x + y;
  sub = λ x y. x - y;
  mul = λ x y. x * y / 1000000000;
  div = λ x y. x * 1000000000 / y;
}

-- The world is the time; a sleep lasts one nanosecond longer than asked for.
abbrev steady : Clock ℕ
steady = record { now = λ w. w; sleep = λ d w. (none, w + d + 1) }

abbrev reply_of : Bool → Reply Text
reply_of true = failure (message (codes "rate limit exceeded"))
reply_of false = answer (codes "hello")

abbrev world : Env Text ℕ
world = record {
  clock = steady;
  float64 = fixed;
  is_canceled = λ w. false;
  run = λ provider model w. (reply_of (text_eq provider (codes "openai")), w + 10);
  rounds = 2;
}

abbrev gpt : FallbackCandidate
gpt = record { provider = codes "openai"; model = codes "gpt"; rpm = 2; identity_key = codes "k1" }

abbrev claude : FallbackCandidate
claude = record {
  provider = codes "anthropic";
  model = codes "claude";
  rpm = 0;
  identity_key = codes "k2";
}

abbrev rested : Chain ℕ
rested = record { cooldown = new_cooldown_tracker; rl = none; world = 100 }

execute-Explains_example : Explains (gpt ∷ claude ∷ []) (execute world (gpt ∷ claude ∷ []) rested).0
execute-Explains_example = execute-Explains world (gpt ∷ claude ∷ []) rested

abbrev tired : CooldownTracker
tired =
    mark_failure (codes "k2") rate_limit 100
      (mark_failure (codes "k1") billing 50 new_cooldown_tracker)

abbrev cooling : Chain ℕ
cooling = record { cooldown = tired; rl = none; world = 100 }

k1_cooling : is_available tired (stable_key gpt) 100 ≡ false
unfolding is_available mark_failure stable_key get put text_eq trim_space new_cooldown_tracker
    billing_cooldown
k1_cooling = refl

k2_cooling : is_available tired (stable_key claude) 100 ≡ false
unfolding is_available mark_failure stable_key get put text_eq trim_space new_cooldown_tracker
    standard_cooldown
k2_cooling = refl

execute-cooling_example :
    execute world (gpt ∷ claude ∷ []) cooling
    ≡ (gave_up (exhausted (map (cooling_attempt world cooling) (gpt ∷ claude ∷ []))), cooling)
execute-cooling_example =
    execute-cooling world cooling gpt (claude ∷ []) refl (k1_cooling, (k2_cooling, tt))

fixed-IsFloat64 : IsFloat64 fixed
fixed-IsFloat64 = record {
  add_zero = λ x. omega arith;
  zero_mul = λ n. rw (zero-mul (n * 1000000000)) refl;
  zero_div = λ n h. omega (arith, div-le_self 0 (n * 1000000000));
  le-add = λ x y. omega arith;
  of_int_mono = λ m n h. omega arith;
  of_int-pred = λ n h. omega arith;
  sub_mono = λ x y h k. omega arith;
  zero-lt-one = omega arith;
}

granted-le_example :
    granted fixed
      (at_once 5 9000000000)
      (after fixed (1000000000 ∷ 2000000000 ∷ []) (new_rate_limiter fixed 2 5))
    ≤ 2
granted-le_example =
    granted-le fixed fixed-IsFloat64 2 5 (1000000000 ∷ 2000000000 ∷ []) 5 9000000000 (omega arith)

granted-min_example : granted fixed (at_once 5 900) (new_rate_limiter fixed 2 5) ≡ min 5 2
granted-min_example = granted-min fixed fixed-IsFloat64 2 5 5 900 (omega arith)

is_available-cooldown_remaining_example :
    ((is_available tired (codes "k1") 100 ≡ true) ↔ (cooldown_remaining tired (codes "k1") 100 ≡ 0))
    × (is_available tired (codes "k1") (100 + cooldown_remaining tired (codes "k1") 100) ≡ true)
is_available-cooldown_remaining_example = is_available-cooldown_remaining tired (codes "k1") 100

k_distinct : text_eq (codes "k1") (codes "k2") ≡ false
unfolding text_eq
k_distinct = refl

soon :
    7
    < 5
      + cooldown_of rate_limit
          (error_count (mark_failure (codes "k1") rate_limit 5 new_cooldown_tracker) (codes "k1"))
          (failure_count
            (mark_failure (codes "k1") rate_limit 5 new_cooldown_tracker)
            (codes "k1")
            billing)
unfolding error_count mark_failure get put text_eq standard_cooldown new_cooldown_tracker
soon = omega arith

mark_failure-is_available_example :
    (is_available (mark_failure (codes "k1") rate_limit 5 new_cooldown_tracker) (codes "k1") 7
      ≡ false)
    × (is_available (mark_failure (codes "k1") rate_limit 5 new_cooldown_tracker) (codes "k2") 7
        ≡ is_available new_cooldown_tracker (codes "k2") 7)
mark_failure-is_available_example =
    mark_failure-is_available new_cooldown_tracker (codes "k1") rate_limit 5 7 (codes "k2") soon
      k_distinct

abbrev timed_out : FailoverError
timed_out = record {
  reason = timeout;
  provider = codes "openai";
  model = codes "gpt";
  status = 0;
  wrapped = deadline_exceeded;
}

deadline : classify_error (some deadline_exceeded) (codes "openai") (codes "gpt") ≡ some timed_out
unfolding classify_error
deadline = refl

classify_error_sound_example :
    (some deadline_exceeded ≡ some timed_out.wrapped)
    × (timed_out.wrapped ≢ canceled)
    × (timed_out.provider ≡ codes "openai")
    × (timed_out.model ≡ codes "gpt")
    × IsGiven timed_out.reason
classify_error_sound_example =
    classify_error_sound (some deadline_exceeded) (codes "openai") (codes "gpt") deadline

abbrev calls : List Event
calls =
    failed (codes "k1") rate_limit 5
    ∷ failed (codes "k1") billing 9
    ∷ succeeded (codes "k2")
    ∷ failed (codes "k1") timeout 12
    ∷ []

error_count-total_example :
    error_count (run calls new_cooldown_tracker) (codes "k1")
    ≡ total (λ r. failure_count (run calls new_cooldown_tracker) (codes "k1") r)
error_count-total_example = error_count-total calls (codes "k1")

resolve_candidates-Distinct_example : Distinct (
    resolve_candidates_with_lookup
      (codes "gpt/a")
      (codes "openai/A" ∷ codes "fast" ∷ [])
      (codes "glm")
      (λ raw. if text_eq raw (codes "fast") then some (codes "claude/b") else none))
resolve_candidates-Distinct_example =
    resolve_candidates-Distinct (codes "gpt/a") (codes "openai/A" ∷ codes "fast" ∷ []) (codes "glm")
      (λ raw. if text_eq raw (codes "fast") then some (codes "claude/b") else none)

execute_image-Explains_example :
    Explains (gpt ∷ claude ∷ []) (execute_image world (gpt ∷ claude ∷ []) rested).0
execute_image-Explains_example = execute_image-Explains world (gpt ∷ claude ∷ []) rested
