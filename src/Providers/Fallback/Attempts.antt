-- ===== src/Providers/Fallback/Attempts.antt =====
-- The attempts that Execute records mirror the candidates that it went through.
use ebiclaw.Prelude.{
  ℕ, ◌-◌, ◌≡◌, Bool, true, some, List, [], ◌∷◌, ◌++◌, is_empty, map, refl, ap, ◌∙◌, sym,
  append_assoc, append-nil, map-append, Bool-cases, Option-cases, inl, inr,
}
use ebiclaw.Strings.{Text}
use ebiclaw.Providers.Reason.{GoError, is_retriable}
use ebiclaw.Providers.ErrorClassifier.{classify_error}
use ebiclaw.Providers.Cooldown.{is_available, cooldown_remaining, mark_failure}
use ebiclaw.Providers.Fallback.{
  FallbackCandidate, FallbackAttempt, AttemptError, in_cooldown, rate_limited, classified, Env,
  Chain, Outcome, succeeded, gave_up, wait_failed, exhausted, not_returned, Reply, answer, failure,
  Admission, admitted, saturated, aborted, blocked, stable_key, skipped_attempt, failed_attempt,
  after_error, call_model, try_candidate, execute_loop, execute, admit, Next,
}

abbrev pub Names : Type 0
Names = Text × Text

abbrev pub attempted : FallbackAttempt → Names
attempted a = (a.provider, a.model)

abbrev pub named : FallbackCandidate → Names
named c = (c.provider, c.model)

-- What an outcome says of the candidates: a success comes from one of them, after attempts on exactly
-- those in front of it, and an exhausted chain has attempts on exactly all of them, both in order.
abbrev pub Explains : {R : Type 0} → List FallbackCandidate → Outcome R → Type 0
Explains all (succeeded r) =
    (before : List FallbackCandidate) × (c : FallbackCandidate) × (after : List FallbackCandidate)
    × (all ≡ before ++ (c ∷ after))
    × (map attempted r.attempts ≡ map named before)
    × (r.provider ≡ c.provider)
    × (r.model ≡ c.model)
Explains all (gave_up (exhausted attempts)) = map attempted attempts ≡ map named all
Explains all (gave_up other) = Unit {0}

-- One more attempt, on the next candidate.
pub extend :
    (before : List FallbackCandidate) (c : FallbackCandidate) (attempts : List FallbackAttempt)
    (a : FallbackAttempt)
    → map attempted attempts ≡ map named before
    → attempted a ≡ named c
    → map attempted (attempts ++ (a ∷ [])) ≡ map named (before ++ (c ∷ []))
extend before c attempts a h e =
    map-append attempted attempts (a ∷ [])
    ∙ ap (λ (l : List Names). l ++ (attempted a ∷ [])) h
    ∙ ap (λ (n : Names). map named before ++ (n ∷ [])) e
    ∙ sym (map-append named before (c ∷ []))

module _ {R W : Type 0} (env : Env R W) (all before after : List FallbackCandidate)
    (c : FallbackCandidate) (next : Next env) (last : Bool) (shape : all ≡ before ++ (c ∷ after))
    (ends : last ≡ true → all ≡ before ++ (c ∷ []))
    (goes_on : (attempts : List FallbackAttempt) (s : Chain W)
      → map attempted attempts ≡ map named (before ++ (c ∷ []))
      → Explains all (next attempts s).0) where
  after_error-Explains :
      (attempts : List FallbackAttempt) (err : GoError) (elapsed : ℕ) (s : Chain W)
      → map attempted attempts ≡ map named before
      → Explains all (after_error env next last c attempts err elapsed s).0
  unfolding after_error failed_attempt
  after_error-Explains attempts err elapsed s h =
      elim (Option-cases (classify_error (some err) c.provider c.model)) [
        | inl e ↦ rw (e, after_error) tt
        | inr (f, e) ↦
            rw (e, after_error)
              (elim (Bool-cases (is_retriable f)) [
                | inr b ↦ rw b tt
                | inl b ↦ rw b (elim (Bool-cases last) [
                  | inl l ↦ rw l (
                      extend before c attempts (failed_attempt c (classified f) f.reason elapsed) h
                        refl
                      ∙ ap (map named) (sym (ends l)))
                  | inr l ↦ rw l (
                      goes_on (attempts ++ (failed_attempt c (classified f) f.reason elapsed ∷ []))
                        (record s {
                          cooldown =
                              mark_failure (stable_key c) f.reason (env.clock.now s.world)
                                s.cooldown;
                        })
                        (extend before c attempts (failed_attempt c (classified f) f.reason elapsed)
                          h refl))
                ])
              ])
      ]

  call_model-Explains :
      (attempts : List FallbackAttempt) (s : Chain W)
      → map attempted attempts ≡ map named before
      → Explains all (call_model env next last c attempts s).0
  unfolding call_model
  call_model-Explains attempts s h = by_reply (env.run c.provider c.model s.world).0 refl
    where
      by_reply :
          (reply : Reply R)
          → (env.run c.provider c.model s.world).0 ≡ reply
          → Explains all (call_model env next last c attempts s).0
      by_reply (answer r) e = rw (e, call_model) (before, c, after, shape, h, refl, refl)
      by_reply (failure err) e =
          rw (e, call_model)
            (elim (Bool-cases (env.is_canceled (env.run c.provider c.model s.world).1)) [
              | inl b ↦ rw b tt
              | inr b ↦ rw b (
                  after_error-Explains attempts err
                    (env.clock.now (env.run c.provider c.model s.world).1 - env.clock.now s.world)
                    (record s { world = (env.run c.provider c.model s.world).1 }) h)
            ])

  try_candidate-Explains :
      (attempts : List FallbackAttempt) (s : Chain W)
      → map attempted attempts ≡ map named before
      → Explains all (try_candidate env next last c attempts s).0
  unfolding try_candidate skipped_attempt
  try_candidate-Explains attempts s h = elim (Bool-cases (env.is_canceled s.world)) [
    | inl x ↦ rw x tt
    | inr x ↦
        rw x (elim (Bool-cases (is_available s.cooldown (stable_key c) (env.clock.now s.world))) [
          | inr a ↦ rw a (
              goes_on (attempts ++ (skipped_attempt c cooling ∷ [])) s
                (extend before c attempts (skipped_attempt c cooling) h refl))
          | inl a ↦
              rw a (
                by_admission (admit env last (stable_key c) s).0
                  (admit env last (stable_key c) s).1)
        ])
  ]
    where
      cooling : AttemptError
      cooling =
          in_cooldown (stable_key c)
            (cooldown_remaining s.cooldown (stable_key c) (env.clock.now s.world))

      by_admission :
          (admission : Admission) (s' : Chain W)
          → Explains all (
              let proceed : Outcome R × Chain W = elim admission [
                | admitted ↦ call_model env next last c attempts s'
                | saturated ↦
                    next (attempts ++ (skipped_attempt c (rate_limited (stable_key c)) ∷ [])) s'
                | aborted e ↦ (gave_up (wait_failed e), s')
                | blocked ↦ (gave_up not_returned, s')
              ] in
              proceed.0)
      by_admission admitted s' = call_model-Explains attempts s' h
      by_admission saturated s' =
          goes_on (attempts ++ (skipped_attempt c (rate_limited (stable_key c)) ∷ [])) s'
            (extend before c attempts (skipped_attempt c (rate_limited (stable_key c))) h refl)
      by_admission (aborted e) s' = tt
      by_admission blocked s' = tt

module _ {R W : Type 0} (env : Env R W) where
  execute_loop-Explains :
      (cs all before : List FallbackCandidate) (attempts : List FallbackAttempt) (s : Chain W)
      → all ≡ before ++ cs
      → map attempted attempts ≡ map named before
      → Explains all (execute_loop env cs attempts s).0
  unfolding execute_loop
  execute_loop-Explains [] all before attempts s e h =
      h ∙ ap (map named) (sym (append-nil before)) ∙ ap (map named) (sym e)
  execute_loop-Explains (c ∷ cs) all before attempts s e h =
      try_candidate-Explains env all before cs c (execute_loop env cs) (is_empty cs) e
        (last_one cs e)
        (λ as' s' k.
          execute_loop-Explains cs all (before ++ (c ∷ [])) as' s'
            (e ∙ sym (append_assoc before (c ∷ []) cs)) k)
        attempts s h
    where
      last_one :
          (rest : List FallbackCandidate)
          → all ≡ before ++ (c ∷ rest)
          → is_empty rest ≡ true
          → all ≡ before ++ (c ∷ [])
      last_one [] p q = p
      last_one (d ∷ rest) p q = cc

  -- Whatever the models, the limits, the cooldowns and the context do: where Execute succeeds, the
  -- answer is of one of the candidates, and the attempts recorded are on exactly the candidates in
  -- front of it, in order; where it reports that all failed, there is exactly one attempt for each
  -- candidate, in order.
  pub execute-Explains :
      (cs : List FallbackCandidate) (s : Chain W) → Explains cs (execute env cs s).0
  unfolding execute
  execute-Explains [] s = tt
  execute-Explains (c ∷ cs) s = execute_loop-Explains (c ∷ cs) (c ∷ cs) [] [] s refl refl
