-- ===== src/Providers/Fallback/Cooling.antt =====
-- Candidates in cooldown are not called.
use ebiclaw.Prelude.{
  ◌≡◌, false, List, [], ◌∷◌, ◌++◌, All, map, refl, ap, ◌∙◌, append_assoc, append-nil,
}
use ebiclaw.Providers.Cooldown.{is_available, cooldown_remaining}
use ebiclaw.Providers.Fallback.{
  FallbackCandidate, FallbackAttempt, in_cooldown, Env, Chain, gave_up, exhausted, stable_key,
  skipped_attempt, try_candidate, execute_loop, execute,
}

module _ {R W : Type 0} (env : Env R W) (s : Chain W) where
  -- The attempt that records that a candidate was skipped.
  abbrev pub cooling_attempt : FallbackCandidate → FallbackAttempt
  cooling_attempt c =
      let now = env.clock.now s.world in
      skipped_attempt c
        (in_cooldown (stable_key c) (cooldown_remaining s.cooldown (stable_key c) now))

  abbrev pub IsCooling : FallbackCandidate → Type 0
  IsCooling c = is_available s.cooldown (stable_key c) (env.clock.now s.world) ≡ false

  execute_loop-cooling :
      (cs : List FallbackCandidate) (attempts : List FallbackAttempt)
      → env.is_canceled s.world ≡ false
      → All IsCooling cs
      → execute_loop env cs attempts s
        ≡ (gave_up (exhausted (attempts ++ map cooling_attempt cs)), s)
  unfolding execute_loop try_candidate
  execute_loop-cooling [] attempts live h = rw append-nil refl
  execute_loop-cooling (c ∷ cs) attempts live h =
      rw (live, h.0)
        (execute_loop-cooling cs (attempts ++ (cooling_attempt c ∷ [])) live h.1
          ∙ ap (λ (l : List FallbackAttempt). (gave_up (exhausted l), s))
              (append_assoc attempts (cooling_attempt c ∷ []) (map cooling_attempt cs)))

  -- Where the context is not canceled and every candidate is in cooldown, Execute calls no model,
  -- takes no token and marks nothing (its state is as before), and gives up with one skipped attempt
  -- for each candidate, in order, which says how long its cooldown lasts.
  pub execute-cooling :
      (c : FallbackCandidate) (cs : List FallbackCandidate)
      → env.is_canceled s.world ≡ false
      → All IsCooling (c ∷ cs)
      → execute env (c ∷ cs) s ≡ (gave_up (exhausted (map cooling_attempt (c ∷ cs))), s)
  unfolding execute
  execute-cooling c cs live h = execute_loop-cooling (c ∷ cs) [] live h
