-- ===== src/Providers/Fallback/Image.antt =====
-- ExecuteImage of pkg/providers/fallback.go.
use ebiclaw.Prelude.{◌-◌, Bool, ◌||◌, List, [], ◌∷◌, ◌++◌, if◌then◌else◌, is_empty}
use ebiclaw.Strings.{to_lower}
use ebiclaw.Providers.Reason.{unset, format, error_text, FailoverError}
use ebiclaw.Providers.ErrorClassifier.{is_image_dimension_error, is_image_size_error}
use ebiclaw.Providers.Fallback.{
  FallbackCandidate, FallbackAttempt, rate_limited, failed_with, no_candidates, cancelled,
  wait_failed, failover, exhausted, not_returned, Env, Chain, Outcome, succeeded, gave_up, answer,
  failure, admitted, saturated, aborted, blocked, stable_key, skipped_attempt, failed_attempt,
  admit, Next,
}

module _ {R W : Type 0} (env : Env R W) where
  -- The body of the loop of ExecuteImage, from the call of the model.
  unfoldable pub call_image :
      Next env → Bool → FallbackCandidate → List FallbackAttempt → Chain W → Outcome R × Chain W
  unfolding failed_attempt
  call_image next last c attempts s =
      let start = env.clock.now s.world in
      let (reply, w) = env.run c.provider c.model s.world in
      let s' = record s { world = w } in
      elim reply [
        | answer r ↦ (
          succeeded (record {
            response = r;
            provider = c.provider;
            model = c.model;
            attempts = attempts;
          }),
          s',
        )
        | failure err ↦
            let msg = to_lower (error_text err) in
            let attempts' =
              attempts
              ++ (failed_attempt c (failed_with err) unset (env.clock.now w - start) ∷ []) in
            let rejected : FailoverError = record {
              reason = format;
              provider = c.provider;
              model = c.model;
              status = 0;
              wrapped = err;
            } in
            let continued = next attempts' s' in
            if env.is_canceled w
            then (gave_up cancelled, s')
            else if is_image_dimension_error msg || is_image_size_error msg
            then (gave_up (failover rejected), s')
            else if last
            then (gave_up (exhausted attempts'), s')
            else continued
      ]

  unfoldable pub try_image :
      Next env → Bool → FallbackCandidate → List FallbackAttempt → Chain W → Outcome R × Chain W
  unfolding call_image admit skipped_attempt stable_key
  try_image next last c attempts s =
      let key = stable_key c in
      let (admission, s') = admit env last key s in
      let proceed : Outcome R × Chain W = elim admission [
        | admitted ↦ call_image next last c attempts s'
        | saturated ↦ next (attempts ++ (skipped_attempt c (rate_limited key) ∷ [])) s'
        | aborted e ↦ (gave_up (wait_failed e), s')
        | blocked ↦ (gave_up not_returned, s')
      ] in
      if env.is_canceled s.world then (gave_up cancelled, s) else proceed

  unfoldable pub image_loop : List FallbackCandidate → Next env
  unfolding try_image
  image_loop [] attempts s = (gave_up (exhausted attempts), s)
  image_loop (c ∷ cs) attempts s = try_image (image_loop cs) (is_empty cs) c attempts s

  unfoldable pub execute_image : List FallbackCandidate → Chain W → Outcome R × Chain W
  unfolding image_loop
  execute_image [] s = (gave_up no_candidates, s)
  execute_image (c ∷ cs) s = image_loop (c ∷ cs) [] s
