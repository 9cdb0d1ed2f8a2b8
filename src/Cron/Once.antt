-- ===== src/Cron/Once.antt =====
-- A job is not run a second time for the same time.
use ebiclaw.Prelude.{
  ℕ, ◌≡◌, Bool, true, false, Option, some, List, [], ◌∷◌, refl, ap, sym, ◌∙◌, All, Bool-cases, inl,
  inr,
}
use ebiclaw.Strings.{Text, codes, text_eq}
use ebiclaw.Strings.Equal.{eq_of_text_eq}
use ebiclaw.Cron.{
  CronJob, CronService, NextTick, due_ids, has_id, check_jobs, save_store, find_job, without_job,
  remove_job, finished, finish_job, enable,
}
use ebiclaw.Cron.Dormant.{IsIdle, IsDormant, IsDormant-due, unplanned, clear_next_runs-IsDormant}
use ebiclaw.Cron.Events.{
  Event, check, finish, add, update, remove, set_enabled, begin, reload, halt, happen_all, Stays,
  remove_job-jobs, Keeps, happen_all-Stays,
}

-- Whether an event leaves a job that runs as it is: it does not end its run, enable or update it,
-- make another with its id, or start the service; it reads the file only if the flag is set.
abbrev pub Leaves : Text → Bool → Bool × Event → Type 0
Leaves id f (saves, check now) = Unit
Leaves id f (saves, finish j error started now) = text_eq j id ≡ false
Leaves id f (saves, add job) = text_eq job.id id ≡ false
Leaves id f (saves, update job now) = text_eq job.id id ≡ false
Leaves id f (saves, remove j) = Unit
Leaves id f (saves, set_enabled j enabled now) = text_eq j id ≡ false
Leaves id f (saves, begin loads now) = ⊥
Leaves id f (saves, reload loads) = f ≡ true
Leaves id f (saves, halt) = Unit

-- Whether an event brings no job with the id: it does not add one, and reads the file only if the
-- flag is set.
abbrev pub BringsNone : Text → Bool → Bool × Event → Type 0
BringsNone id f (saves, add job) = text_eq job.id id ≡ false
BringsNone id f (saves, begin loads now) = f ≡ true
BringsNone id f (saves, reload loads) = f ≡ true
BringsNone id f (saves, e) = Unit

IsOther : Text → CronJob → Type 0
IsOther id job = text_eq job.id id ≡ false

without_job-IsOther : (id : Text) (jobs : List CronJob) → All (IsOther id) (without_job id jobs)
unfolding without_job IsOther
without_job-IsOther id [] = tt
without_job-IsOther id (job ∷ jobs) = elim (Bool-cases (text_eq job.id id)) [
  | inl e ↦ rw e (without_job-IsOther id jobs)
  | inr e ↦ rw e (e, without_job-IsOther id jobs)
]

IsOther-IsDormant : (id : Text) (jobs : List CronJob) → All (IsOther id) jobs → IsDormant id jobs
unfolding IsOther
IsOther-IsDormant id [] h = tt
IsOther-IsDormant id (job ∷ jobs) h =
    ((λ e. absurd (let q = h.0 in cc)), IsOther-IsDormant id jobs h.1)

module _ (next_tick : NextTick) where
  keeps_id :
      (j id : Text) (job : CronJob)
      → text_eq j id ≡ false
      → text_eq job.id j ≡ true
      → text_eq job.id id ≡ false
  keeps_id j id job h e = ap (λ (i : Text). text_eq i id) (eq_of_text_eq job.id j e) ∙ h

  finished-id :
      (error : Option Text) (started now : ℕ) (job : CronJob)
      → (finished next_tick error started now job).id ≡ job.id
  unfolding finished
  finished-id error started now job = elim (Bool-cases (text_eq job.schedule.kind (codes "at"))) [
    | inl e ↦ rw e refl
    | inr e ↦ rw e refl
  ]

  Leaves-Keeps :
      (id : Text) (f : Bool) (e : Bool × Event) → Leaves id f e → Keeps next_tick (IsIdle id) f e
  Leaves-Keeps id f (saves, check now) l = λ job h e. unplanned job
  Leaves-Keeps id f (saves, finish j error started now) l = λ job e h k. absurd (
      let p = ap (λ (i : Text). text_eq i id) (finished-id error started now job) in
      let q = keeps_id j id job l e in cc)
  Leaves-Keeps id f (saves, add job) l = λ k. absurd (let q = l in cc)
  Leaves-Keeps id f (saves, update job now) l = λ k e h m. absurd (let q = l in cc)
  Leaves-Keeps id f (saves, remove j) l = tt
  Leaves-Keeps id f (saves, set_enabled j enabled now) l = λ job e h k.
      absurd (
        let p : text_eq job.id id ≡ true = unfold enable in k in
        let q = keeps_id j id job l e in cc)
  Leaves-Keeps id f (saves, begin loads now) l = absurd l
  Leaves-Keeps id f (saves, reload loads) l = l
  Leaves-Keeps id f (saves, halt) l = tt

  BringsNone-Keeps :
      (id : Text) (f : Bool) (e : Bool × Event)
      → BringsNone id f e
      → Keeps next_tick (IsOther id) f e
  unfolding IsOther
  BringsNone-Keeps id f (saves, check now) l = λ job h. h
  BringsNone-Keeps id f (saves, finish j error started now) l =
      λ job e h. ap (λ (i : Text). text_eq i id) (finished-id error started now job) ∙ h
  BringsNone-Keeps id f (saves, add job) l = l
  BringsNone-Keeps id f (saves, update job now) l =
      λ k e h. ap (λ (i : Text). text_eq i id) (sym (eq_of_text_eq k.id job.id e)) ∙ h
  BringsNone-Keeps id f (saves, remove j) l = tt
  BringsNone-Keeps id f (saves, set_enabled j enabled now) l = λ job e h. unfold enable in h
  BringsNone-Keeps id f (saves, begin loads now) l = ((λ next job h. h), l)
  BringsNone-Keeps id f (saves, reload loads) l = l
  BringsNone-Keeps id f (saves, halt) l = tt

  All-Keeps :
      (P : Bool × Event → Type 0) (Q : CronJob → Type 0) (f : Bool)
      → ((e : Bool × Event) → P e → Keeps next_tick Q f e)
      → (es : List (Bool × Event)) → All P es
      → All (Keeps next_tick Q f) es
  All-Keeps P Q f g [] h = tt
  All-Keeps P Q f g (e ∷ es) h = (g e h.0, All-Keeps P Q f g es h.1)

  -- What a dormant job is spared.
  none_due :
      (id : Text) (saves : Bool) (now : ℕ) (cs : CronService)
      → IsDormant id cs.jobs
      → has_id id (check_jobs saves now cs).0 ≡ false
  unfolding check_jobs
  none_due id saves now cs h = elim (Bool-cases cs.running) [
    | inl r ↦ rw r (IsDormant-due id now cs.jobs h)
    | inr r ↦ rw r (unfold has_id in refl)
  ]

  saved-Stays :
      (Q : CronJob → Type 0) (saves : Bool) (cs : CronService)
      → All Q cs.jobs
      → Stays Q saves (save_store saves cs)
  unfolding save_store
  saved-Stays Q true cs h = (h, λ e. h)
  saved-Stays Q false cs h = (h, λ e. absurd (let q = e in cc))

  check_jobs-Stays :
      (id : Text) (saves : Bool) (now : ℕ) (cs : CronService)
      → has_id id (check_jobs saves now cs).0 ≡ true
      → Stays (IsIdle id) saves (check_jobs saves now cs).1
  unfolding check_jobs
  check_jobs-Stays id saves now cs h = elim (Bool-cases cs.running) [
    | inl r ↦ rw r (
        saved-Stays (IsIdle id) saves _
          (clear_next_runs-IsDormant id (due_ids now cs.jobs) cs.jobs (rw r at h)))
    | inr r ↦ absurd (unfold has_id in let q : false ≡ true = rw r at h in cc)
  ]

  -- A job that a check has found due and runs is not found due by a later check, at any time and
  -- whether the file could be written or not, if between the two there were only further checks,
  -- the ends of other jobs' runs, other jobs added, updated, enabled or disabled, removals, stops,
  -- and, if the first check could write the file, loads of the file.
  pub check_jobs-not_again :
      (id : Text) (saves saves' : Bool) (now now' : ℕ) (cs : CronService) (es : List (Bool × Event))
      → has_id id (check_jobs saves now cs).0 ≡ true
      → All (Leaves id saves) es
      → has_id id (check_jobs saves' now' (happen_all next_tick es (check_jobs saves now cs).1)).0
        ≡ false
  check_jobs-not_again id saves saves' now now' cs es h l =
      none_due id saves' now' (happen_all next_tick es (check_jobs saves now cs).1)
        (happen_all-Stays next_tick (IsIdle id) saves es (check_jobs saves now cs).1
          (All-Keeps (Leaves id saves) (IsIdle id) saves (Leaves-Keeps id saves) es l)
          (check_jobs-Stays id saves now cs h)).0

  -- A job with a single time that is to be deleted is not found due any more once a run of it has
  -- ended, with or without an error, at any later time and after any calls in between, unless a job
  -- with its id is added again, or the file could not be written at the end of the run and is read
  -- again by a start or a load.
  pub finish_job-not_again :
      (id : Text) (saves saves' : Bool) (error : Option Text) (started now now' : ℕ)
      (cs : CronService) (job : CronJob) (es : List (Bool × Event))
      → find_job id cs.jobs ≡ some job
      → text_eq job.schedule.kind (codes "at") ≡ true
      → job.delete_after_run ≡ true
      → All (BringsNone id saves) es
      → has_id id
          (check_jobs saves' now'
            (happen_all next_tick es (finish_job next_tick saves id error started now cs))).0
        ≡ false
  finish_job-not_again id saves saves' error started now now' cs job es f k d l =
      none_due id saves' now' (happen_all next_tick es gone) (
        IsOther-IsDormant id (happen_all next_tick es gone).jobs
          (happen_all-Stays next_tick (IsOther id) saves es gone
            (All-Keeps (BringsNone id saves) (IsOther id) saves (BringsNone-Keeps id saves) es l)
            stays).0)
    where
      gone : CronService
      gone = finish_job next_tick saves id error started now cs

      stays : Stays (IsOther id) saves gone
      stays =
          unfold finish_job in
          rw (f, k, d, finish_job)
            (saved-Stays (IsOther id) saves (remove_job saves id cs).1
              (rw (remove_job-jobs saves id cs) (without_job-IsOther id cs.jobs)))
