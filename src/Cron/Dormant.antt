-- ===== src/Cron/Dormant.antt =====
-- Jobs that no check finds due.
use ebiclaw.Prelude.{
  ℕ, ◌≡◌, Bool, true, false, none, List, [], ◌∷◌, if◌then◌else◌, refl, ap, All, Bool-cases, inl,
  inr,
}
use ebiclaw.Strings.{Text, text_eq}
use ebiclaw.Strings.Equal.{eq_of_text_eq}
use ebiclaw.Cron.{CronJob, with_next, next_of, is_due_at, due_ids, has_id, clear_next_runs}

-- It has another id, or no next run.
abbrev pub IsIdle : Text → CronJob → Type 0
IsIdle id job = text_eq job.id id ≡ true → next_of job ≡ none

-- No enabled job with the id has a next run.
abbrev pub IsDormant : Text → List CronJob → Type 0
IsDormant id jobs = All (IsIdle id) jobs

pub IsDormant-due :
    (id : Text) (now : ℕ) (jobs : List CronJob)
    → IsDormant id jobs
    → has_id id (due_ids now jobs) ≡ false
unfolding due_ids has_id
IsDormant-due id now [] h = refl
IsDormant-due id now (job ∷ jobs) h = elim (Bool-cases (text_eq job.id id)) [
  | inl e ↦ rw (h.0 e) (IsDormant-due id now jobs h.1)
  | inr e ↦ by_due (is_due_at now (next_of job)) e (IsDormant-due id now jobs h.1)
]
  where
    by_due :
        (b : Bool)
        → text_eq job.id id ≡ false
        → has_id id (due_ids now jobs) ≡ false
        → has_id id (if b then job.id ∷ due_ids now jobs else due_ids now jobs) ≡ false
    by_due true e rest = rw e rest
    by_due false e rest = rest

pub unplanned : (job : CronJob) → next_of (with_next none job) ≡ none
unplanned job = elim (Bool-cases job.enabled) [ inl e ↦ rw e refl | inr e ↦ rw e refl ]

-- Checking makes the jobs that it runs dormant, and wakes none.
pub clear_next_runs-IsDormant :
    (id : Text) (ids : List Text) (jobs : List CronJob)
    → has_id id ids ≡ true
    → IsDormant id (clear_next_runs ids jobs)
unfolding clear_next_runs
clear_next_runs-IsDormant id ids [] h = tt
clear_next_runs-IsDormant id ids (job ∷ jobs) h =
    (by_id (has_id job.id ids) refl, clear_next_runs-IsDormant id ids jobs h)
  where
    by_id :
        (b : Bool)
        → has_id job.id ids ≡ b
        → text_eq (if b then with_next none job else job).id id ≡ true
        → next_of (if b then with_next none job else job) ≡ none
    by_id true p e = unplanned job
    by_id false p e =
        absurd (let q = ap (λ (i : Text). has_id i ids) (eq_of_text_eq job.id id e) in cc)
