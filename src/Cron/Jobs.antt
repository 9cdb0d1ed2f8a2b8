-- ===== src/Cron/Jobs.antt =====
-- What is true of every job in the list stays true of each.
use ebiclaw.Prelude.{
  ℕ, ◌≡◌, true, List, [], ◌∷◌, if◌then◌else◌, All, Bool-cases, inl, inr, Option, none, Bool, false,
}
use ebiclaw.Strings.{Text, text_eq}
use ebiclaw.Cron.{
  CronJob, NextTick, with_next, has_id, clear_next_runs, change_job, without_job,
  recompute_next_runs, compute_next_run,
}

module _ (Q : CronJob → Type 0) where
  pub All-clear_next_runs :
      (ids : List Text) (jobs : List CronJob)
      → ((job : CronJob) → Q job → Q (with_next none job))
      → All Q jobs
      → All Q (clear_next_runs ids jobs)
  unfolding clear_next_runs
  All-clear_next_runs ids [] g h = tt
  All-clear_next_runs ids (job ∷ jobs) g h =
      (by_test (has_id job.id ids), All-clear_next_runs ids jobs g h.1)
    where
      by_test : (b : Bool) → Q (if b then with_next none job else job)
      by_test true = g job h.0
      by_test false = h.0

  pub All-recompute_next_runs :
      (next_tick : NextTick) (now : ℕ) (jobs : List CronJob)
      → ((next : Option ℕ) (job : CronJob) → Q job → Q (with_next next job))
      → All Q jobs
      → All Q (recompute_next_runs next_tick now jobs)
  unfolding recompute_next_runs
  All-recompute_next_runs next_tick now [] g h = tt
  All-recompute_next_runs next_tick now (job ∷ jobs) g h =
      (by_test job.enabled, All-recompute_next_runs next_tick now jobs g h.1)
    where
      by_test :
          (b : Bool)
          → Q (if b then with_next (compute_next_run next_tick job.schedule now) job else job)
      by_test true = g _ job h.0
      by_test false = h.0

  pub All-change_job :
      (j : Text) (f : CronJob → CronJob) (jobs : List CronJob)
      → ((job : CronJob) → text_eq job.id j ≡ true → Q job → Q (f job))
      → All Q jobs
      → All Q (change_job j f jobs)
  unfolding change_job
  All-change_job j f [] g h = tt
  All-change_job j f (job ∷ jobs) g h = elim (Bool-cases (text_eq job.id j)) [
    | inl e ↦ rw e (g job e h.0, h.1)
    | inr e ↦ rw e (h.0, All-change_job j f jobs g h.1)
  ]

  pub All-without_job : (j : Text) (jobs : List CronJob) → All Q jobs → All Q (without_job j jobs)
  unfolding without_job
  All-without_job j [] h = tt
  All-without_job j (job ∷ jobs) h = elim (Bool-cases (text_eq job.id j)) [
    | inl e ↦ rw e (All-without_job j jobs h.1)
    | inr e ↦ rw e (h.0, All-without_job j jobs h.1)
  ]
