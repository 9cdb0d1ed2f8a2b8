-- ===== src/Cron/Wake.antt =====
-- When the loop of the service wakes up.
use ebiclaw.Prelude.{
  ℕ, ◌≡◌, Bool, true, false, ◌||◌, not, Option, none, some, List, [], ◌∷◌, if◌then◌else◌, is_empty,
  arith, refl, ap, ◌∙◌,
}
use ebiclaw.Cron.{CronJob, next_of, is_due_at, due_ids, earlier, next_wake, get_next_wake_ms}

is_due_at-earlier :
    (now : ℕ) (a b : Option ℕ) → is_due_at now (earlier a b) ≡ (is_due_at now a || is_due_at now b)
is_due_at-earlier now none b = refl
is_due_at-earlier now (some a) none = ground arith
is_due_at-earlier now (some a) (some b) = ground arith

next_wake-due :
    (now : ℕ) (wake : Option ℕ) (jobs : List CronJob)
    → is_due_at now (next_wake wake jobs)
      ≡ (is_due_at now wake || not (is_empty (due_ids now jobs)))
unfolding next_wake due_ids
next_wake-due now wake [] = ground arith
next_wake-due now wake (job ∷ jobs) =
    next_wake-due now (earlier wake (next_of job)) jobs
    ∙ ap (λ (b : Bool). b || not (is_empty (due_ids now jobs)))
        (is_due_at-earlier now wake (next_of job))
    ∙ joined (is_due_at now wake) (is_due_at now (next_of job))
  where
    joined :
        (a b : Bool)
        → ((a || b) || not (is_empty (due_ids now jobs)))
          ≡ (a || not (is_empty (if b then job.id ∷ due_ids now jobs else due_ids now jobs)))
    joined true b = refl
    joined false true = refl
    joined false false = refl

-- The time that the loop sleeps until has come exactly when some job is due: it wakes for the first
-- of the enabled jobs that has a next run, and not for a job that is disabled or has none.
pub get_next_wake_ms-due :
    (now : ℕ) (jobs : List CronJob)
    → is_due_at now (get_next_wake_ms jobs) ≡ not (is_empty (due_ids now jobs))
unfolding get_next_wake_ms
get_next_wake_ms-due now jobs = next_wake-due now none jobs
