-- ===== src/Providers/Fallback.antt =====
-- pkg/providers/fallback.go. What the chain calls outside itself (the context, the clock, the model)
-- is a record over a state of the world; time passes in calls of the model and in sleeps. The error
-- texts are data. `still_waiting` is Execute that has not returned, since the rounds of a wait that
-- were asked for are used up.
pub mod Candidates
pub mod Image
pub mod Attempts
pub mod Cooling
pub mod Distinct
pub mod ImageAttempts
use ebiclaw.Prelude.{
  ℕ, ◌+◌, ◌-◌, Bool, true, false, ◌||◌, not, Option, none, some, List, [], ◌∷◌, ◌++◌, if◌then◌else◌,
  is_empty, ltb, ◌==◌,
}
use ebiclaw.Strings.{Text, codes, trim_space, to_lower, text_eq}
use ebiclaw.Maps.{Map}
use ebiclaw.Providers.Reason.{
  FailoverReason, unset, rate_limit, format, GoError, error_text, FailoverError, is_retriable,
}
use ebiclaw.Providers.Cooldown.{
  CooldownTracker, is_available, cooldown_remaining, mark_failure, mark_success,
}
use ebiclaw.Providers.ModelRef.{parse_model_ref, model_key}
use ebiclaw.Providers.ErrorClassifier.{
  classify_error, is_image_dimension_error, is_image_size_error,
}
use ebiclaw.Providers.RateLimiter.{
  Clock, Float64, WaitResult, acquired, stopped, still_waiting, Registry, register,
  registry_try_acquire, registry_wait,
}

pub record FallbackCandidate : Type 0 where
  pub provider : Text
  pub model : Text
  pub rpm : ℕ
  pub identity_key : Text

unfoldable pub stable_key : FallbackCandidate → Text
stable_key c =
    let key = trim_space c.identity_key in
    if is_empty key then model_key c.provider c.model else key

-- What the attempts record as their errors.
pub data AttemptError : Type 0 where
  in_cooldown : Text → ℕ → AttemptError
  rate_limited : Text → AttemptError
  failed_with : GoError → AttemptError
  classified : FailoverError → AttemptError

pub record FallbackAttempt : Type 0 where
  pub provider : Text
  pub model : Text
  pub error : AttemptError
  pub reason : FailoverReason
  pub duration : ℕ
  pub skipped : Bool

pub data ExecuteError : Type 0 where
  no_candidates : ExecuteError
  cancelled : ExecuteError
  wait_failed : GoError → ExecuteError
  unclassified : Text → Text → GoError → ExecuteError
  failover : FailoverError → ExecuteError
  exhausted : List FallbackAttempt → ExecuteError
  not_returned : ExecuteError

unfoldable pub register_candidates : Float64 → List FallbackCandidate → ℕ → Registry → Registry
unfolding stable_key
register_candidates fl [] now r = r
register_candidates fl (c ∷ cs) now r =
    register_candidates fl cs now (if c.rpm == 0 then r else register fl (stable_key c) c.rpm now r)

-- What a call of the model gives.
pub data Reply (R : Type 0) : Type 0 where
  answer : R → Reply R
  failure : GoError → Reply R

pub record Env (R W : Type 0) : Type 0 where
  pub clock : Clock W
  pub float64 : Float64
  pub is_canceled : W → Bool
  pub run : Text → Text → W → Reply R × W
  pub rounds : ℕ

pub record Chain (W : Type 0) : Type 0 where
  pub cooldown : CooldownTracker
  pub rl : Option Registry
  pub world : W

pub record FallbackResult (R : Type 0) : Type 0 where
  pub response : R
  pub provider : Text
  pub model : Text
  pub attempts : List FallbackAttempt

pub data Outcome (R : Type 0) : Type 0 where
  succeeded : FallbackResult R → Outcome R
  gave_up : ExecuteError → Outcome R

-- What the block on the rate limit decides.
pub data Admission : Type 0 where
  admitted : Admission
  saturated : Admission
  aborted : GoError → Admission
  blocked : Admission

unfoldable pub skipped_attempt : FallbackCandidate → AttemptError → FallbackAttempt
skipped_attempt c e = record {
  provider = c.provider;
  model = c.model;
  error = e;
  reason = rate_limit;
  duration = 0;
  skipped = true;
}

unfoldable pub failed_attempt :
    FallbackCandidate → AttemptError → FailoverReason → ℕ → FallbackAttempt
failed_attempt c e reason elapsed = record {
  provider = c.provider;
  model = c.model;
  error = e;
  reason = reason;
  duration = elapsed;
  skipped = false;
}

module _ {R W : Type 0} (env : Env R W) where
  -- The wait of the last candidate, in a registry.
  unfoldable pub await : Text → Registry → Chain W → Admission × Chain W
  unfolding registry_wait
  await key r s =
      let (result, r', w) = registry_wait env.float64 env.clock env.rounds key r s.world in
      let s' = record s { rl = some r'; world = w } in
      elim result [
        | acquired ↦ (admitted, s')
        | stopped e ↦ (aborted e, s')
        | still_waiting ↦ (blocked, s')
      ]

  unfoldable pub admit_with : Option Registry → Bool → Text → Chain W → Admission × Chain W
  unfolding registry_try_acquire await
  admit_with none last key s = (admitted, s)
  admit_with (some r) last key s =
      let (granted, r') = registry_try_acquire env.float64 key (env.clock.now s.world) r in
      let s' = record s { rl = some r' } in
      let waited = await key r' s' in
      if granted then (admitted, s') else if last then waited else (saturated, s')

  -- `if fc.rl != nil { … }`
  unfoldable pub admit : Bool → Text → Chain W → Admission × Chain W
  unfolding admit_with
  admit last key s = admit_with s.rl last key s

  abbrev pub Next : Type 0
  Next = List FallbackAttempt → Chain W → Outcome R × Chain W

  -- What follows an error of the model, when the context was not canceled.
  unfoldable pub after_error :
      Next
      → Bool
      → FallbackCandidate
      → List FallbackAttempt
      → GoError
      → ℕ
      → Chain W
      → Outcome R × Chain W
  unfolding failed_attempt stable_key
  after_error next last c attempts err elapsed s =
      elim (classify_error (some err) c.provider c.model) [
        | none ↦ (gave_up (unclassified c.provider c.model err), s)
        | some fail_err ↦
            let marked = record s {
              cooldown =
                  mark_failure (stable_key c) fail_err.reason (env.clock.now s.world) s.cooldown;
            } in
            let attempts' =
              attempts ++ (failed_attempt c (classified fail_err) fail_err.reason elapsed ∷ []) in
            let continued = next attempts' marked in
            if not (is_retriable fail_err)
            then (gave_up (failover fail_err), s)
            else if last
            then (gave_up (exhausted attempts'), marked)
            else continued
      ]

  -- The call of the model, and what follows.
  unfoldable pub call_model :
      Next → Bool → FallbackCandidate → List FallbackAttempt → Chain W → Outcome R × Chain W
  unfolding after_error stable_key
  call_model next last c attempts s =
      let start = env.clock.now s.world in
      let (reply, w) = env.run c.provider c.model s.world in
      let s' = record s { world = w } in
      elim reply [
        | answer r ↦ (
          succeeded (record {
            response = r;
            provider = c.provider;
            model = c.model;
            attempts = attempts;
          }),
          record s' { cooldown = mark_success (stable_key c) s'.cooldown },
        )
        | failure err ↦
            let handled = after_error next last c attempts err (env.clock.now w - start) s' in
            if env.is_canceled w then (gave_up cancelled, s') else handled
      ]

  -- The body of the loop of Execute.
  unfoldable pub try_candidate :
      Next → Bool → FallbackCandidate → List FallbackAttempt → Chain W → Outcome R × Chain W
  unfolding call_model admit skipped_attempt stable_key
  try_candidate next last c attempts s =
      let key = stable_key c in
      let now = env.clock.now s.world in
      let cooling = in_cooldown key (cooldown_remaining s.cooldown key now) in
      let skip = next (attempts ++ (skipped_attempt c cooling ∷ [])) s in
      let (admission, s') = admit last key s in
      let proceed : Outcome R × Chain W = elim admission [
        | admitted ↦ call_model next last c attempts s'
        | saturated ↦ next (attempts ++ (skipped_attempt c (rate_limited key) ∷ [])) s'
        | aborted e ↦ (gave_up (wait_failed e), s')
        | blocked ↦ (gave_up not_returned, s')
      ] in
      if env.is_canceled s.world
      then (gave_up cancelled, s)
      else if not (is_available s.cooldown key now)
      then skip
      else proceed

  unfoldable pub execute_loop : List FallbackCandidate → Next
  unfolding try_candidate
  execute_loop [] attempts s = (gave_up (exhausted attempts), s)
  execute_loop (c ∷ cs) attempts s = try_candidate (execute_loop cs) (is_empty cs) c attempts s

  unfoldable pub execute : List FallbackCandidate → Chain W → Outcome R × Chain W
  unfolding execute_loop
  execute [] s = (gave_up no_candidates, s)
  execute (c ∷ cs) s = execute_loop (c ∷ cs) [] s
