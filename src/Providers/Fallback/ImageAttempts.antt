-- ===== src/Providers/Fallback/ImageAttempts.antt =====
-- The attempts that ExecuteImage records mirror the candidates too.
use ebiclaw.Prelude.{
  ℕ, ◌-◌, ◌≡◌, ◌||◌, Bool, true, List, [], ◌∷◌, ◌++◌, is_empty, map, refl, ap, ◌∙◌, sym,
  append_assoc, append-nil, Bool-cases, inl, inr,
}
use ebiclaw.Strings.{to_lower}
use ebiclaw.Providers.Reason.{GoError, error_text, unset}
use ebiclaw.Providers.ErrorClassifier.{is_image_dimension_error, is_image_size_error}
use ebiclaw.Providers.Fallback.{
  FallbackCandidate, FallbackAttempt, rate_limited, failed_with, Env, Chain, Outcome, gave_up,
  wait_failed, not_returned, Reply, answer, failure, Admission, admitted, saturated, aborted,
  blocked, stable_key, skipped_attempt, failed_attempt, admit, Next,
}
use ebiclaw.Providers.Fallback.Image.{call_image, try_image, image_loop, execute_image}
use ebiclaw.Providers.Fallback.Attempts.{attempted, named, Explains, extend}

module _ {R W : Type 0} (env : Env R W) (all before after : List FallbackCandidate)
    (c : FallbackCandidate) (next : Next env) (last : Bool) (shape : all ≡ before ++ (c ∷ after))
    (ends : last ≡ true → all ≡ before ++ (c ∷ []))
    (goes_on : (attempts : List FallbackAttempt) (s : Chain W)
      → map attempted attempts ≡ map named (before ++ (c ∷ []))
      → Explains all (next attempts s).0) where
  abbrev failed_image : GoError → ℕ → FallbackAttempt
  failed_image err elapsed = failed_attempt c (failed_with err) unset elapsed

  call_image-Explains :
      (attempts : List FallbackAttempt) (s : Chain W)
      → map attempted attempts ≡ map named before
      → Explains all (call_image env next last c attempts s).0
  unfolding call_image failed_attempt
  call_image-Explains attempts s h = by_reply (env.run c.provider c.model s.world).0 refl
    where
      elapsed : ℕ
      elapsed = env.clock.now (env.run c.provider c.model s.world).1 - env.clock.now s.world

      by_reply :
          (reply : Reply R)
          → (env.run c.provider c.model s.world).0 ≡ reply
          → Explains all (call_image env next last c attempts s).0
      by_reply (answer r) e = rw (e, call_image) (before, c, after, shape, h, refl, refl)
      by_reply (failure err) e =
          rw (e, call_image)
            (elim (Bool-cases (env.is_canceled (env.run c.provider c.model s.world).1)) [
              | inl b ↦ rw b tt
              | inr b ↦
                  rw b
                    (elim (Bool-cases (
                      is_image_dimension_error (to_lower (error_text err))
                      || is_image_size_error (to_lower (error_text err)))) [
                        | inl i ↦ rw i tt
                        | inr i ↦ rw i (elim (Bool-cases last) [
                          | inl l ↦ rw l (
                              extend before c attempts (failed_image err elapsed) h refl
                              ∙ ap (map named) (sym (ends l)))
                          | inr l ↦ rw l (
                              goes_on (attempts ++ (failed_image err elapsed ∷ []))
                                (record s { world = (env.run c.provider c.model s.world).1 })
                                (extend before c attempts (failed_image err elapsed) h refl))
                        ])
                      ])
            ])

  try_image-Explains :
      (attempts : List FallbackAttempt) (s : Chain W)
      → map attempted attempts ≡ map named before
      → Explains all (try_image env next last c attempts s).0
  unfolding try_image skipped_attempt
  try_image-Explains attempts s h = elim (Bool-cases (env.is_canceled s.world)) [
    | inl x ↦ rw x tt
    | inr x ↦
        rw x (by_admission (admit env last (stable_key c) s).0 (admit env last (stable_key c) s).1)
  ]
    where
      by_admission :
          (admission : Admission) (s' : Chain W)
          → Explains all (
              let proceed : Outcome R × Chain W = elim admission [
                | admitted ↦ call_image env next last c attempts s'
                | saturated ↦
                    next (attempts ++ (skipped_attempt c (rate_limited (stable_key c)) ∷ [])) s'
                | aborted e ↦ (gave_up (wait_failed e), s')
                | blocked ↦ (gave_up not_returned, s')
              ] in
              proceed.0)
      by_admission admitted s' = call_image-Explains attempts s' h
      by_admission saturated s' =
          goes_on (attempts ++ (skipped_attempt c (rate_limited (stable_key c)) ∷ [])) s'
            (extend before c attempts (skipped_attempt c (rate_limited (stable_key c))) h refl)
      by_admission (aborted e) s' = tt
      by_admission blocked s' = tt

module _ {R W : Type 0} (env : Env R W) where
  image_loop-Explains :
      (cs all before : List FallbackCandidate) (attempts : List FallbackAttempt) (s : Chain W)
      → all ≡ before ++ cs
      → map attempted attempts ≡ map named before
      → Explains all (image_loop env cs attempts s).0
  unfolding image_loop
  image_loop-Explains [] all before attempts s e h =
      h ∙ ap (map named) (sym (append-nil before)) ∙ ap (map named) (sym e)
  image_loop-Explains (c ∷ cs) all before attempts s e h =
      try_image-Explains env all before cs c (image_loop env cs) (is_empty cs) e (last_one cs e)
        (λ as' s' k.
          image_loop-Explains cs all (before ++ (c ∷ [])) as' s'
            (e ∙ sym (append_assoc before (c ∷ []) cs)) k)
        attempts s h
    where
      last_one :
          (rest : List FallbackCandidate)
          → all ≡ before ++ (c ∷ rest)
          → is_empty rest ≡ true
          → all ≡ before ++ (c ∷ [])
      last_one [] p q = p
      last_one (d ∷ rest) p q = cc

  -- Where ExecuteImage succeeds, the answer is of one of the candidates, and the attempts recorded are
  -- on exactly the candidates in front of it, in order; where it reports that all failed, there is
  -- exactly one attempt for each candidate, in order.
  pub execute_image-Explains :
      (cs : List FallbackCandidate) (s : Chain W) → Explains cs (execute_image env cs s).0
  unfolding execute_image
  execute_image-Explains [] s = tt
  execute_image-Explains (c ∷ cs) s = image_loop-Explains (c ∷ cs) (c ∷ cs) [] [] s refl refl
