-- ===== src/Cron/Events.antt =====
-- What may happen to the service, and what it keeps true of every job.
use ebiclaw.Prelude.{
  ℕ, ◌≡◌, Bool, true, false, ◌&&◌, Option, none, List, [], ◌∷◌, ◌++◌, if◌then◌else◌, length, ltb,
  refl, All, All-append, Bool-cases, Option-cases, inl, inr,
}
use ebiclaw.Strings.{Text, codes, text_eq}
use ebiclaw.Cron.{
  CronJob, CronService, NextTick, with_next, due_ids, check_jobs, save_store, load_store, start,
  find_job, change_job, without_job, remove_job, finished, finish_job, add_job, update_job, enable,
  enable_job, stop, recompute_next_runs,
}
use ebiclaw.Cron.Jobs.{
  All-clear_next_runs, All-recompute_next_runs, All-change_job, All-without_job,
}

-- `begin` is Start and `reload` is Load, with whether the file can be read.
pub data Event : Type 0 where
  check : ℕ → Event
  finish : Text → Option Text → ℕ → ℕ → Event
  add : CronJob → Event
  update : CronJob → ℕ → Event
  remove : Text → Event
  set_enabled : Text → Bool → ℕ → Event
  begin : Bool → ℕ → Event
  reload : Bool → Event
  halt : Event

module _ (next_tick : NextTick) where
  -- The flag says whether the file can be written.
  pub happen : Bool × Event → CronService → CronService
  happen (saves, check now) cs = (check_jobs saves now cs).1
  happen (saves, finish id error started now) cs =
      finish_job next_tick saves id error started now cs
  happen (saves, add job) cs = (add_job saves job cs).1
  happen (saves, update job now) cs = (update_job saves job now cs).1
  happen (saves, remove id) cs = (remove_job saves id cs).1
  happen (saves, set_enabled id enabled now) cs = (enable_job next_tick saves id enabled now cs).1
  happen (saves, begin loads now) cs = start next_tick loads saves now cs
  happen (saves, reload loads) cs = load_store loads cs
  happen (saves, halt) cs = stop cs

  pub happen_all : List (Bool × Event) → CronService → CronService
  happen_all [] cs = cs
  happen_all (e ∷ es) cs = happen_all es (happen e cs)

save_store-jobs : (saves : Bool) (cs : CronService) → (save_store saves cs).jobs ≡ cs.jobs
unfolding save_store
save_store-jobs true cs = refl
save_store-jobs false cs = refl

pub remove_job-jobs :
    (saves : Bool) (id : Text) (cs : CronService)
    → (remove_job saves id cs).1.jobs ≡ without_job id cs.jobs
unfolding remove_job
remove_job-jobs saves id cs =
    elim (Bool-cases (ltb (length (without_job id cs.jobs)) (length cs.jobs))) [
      | inl e ↦ rw e (save_store-jobs saves (record cs { jobs = without_job id cs.jobs }))
      | inr e ↦ rw e refl
    ]

module _ (Q : CronJob → Type 0) where
  -- Every job in memory has it, and if the flag is set, every job of the file.
  abbrev pub Stays : Bool → CronService → Type 0
  Stays f cs = All Q cs.jobs × (f ≡ true → All Q cs.saved)

  pub save_store-Stays :
      (f saves : Bool) (cs : CronService) → Stays f cs → Stays f (save_store saves cs)
  unfolding save_store
  save_store-Stays f true cs h = (h.0, λ e. h.0)
  save_store-Stays f false cs h = h

  pub remove_job-Stays :
      (f saves : Bool) (id : Text) (cs : CronService)
      → Stays f cs
      → Stays f (remove_job saves id cs).1
  unfolding remove_job
  remove_job-Stays f saves id cs h =
      elim (Bool-cases (ltb (length (without_job id cs.jobs)) (length cs.jobs))) [
        | inl e ↦ rw e (save_store-Stays f saves _ (All-without_job Q id cs.jobs h.0, h.1))
        | inr e ↦ rw e (All-without_job Q id cs.jobs h.0, h.1)
      ]

module _ (next_tick : NextTick) (Q : CronJob → Type 0) where
  -- What the event does to a job it finds, or adds, keeps this true; and if the event reads the
  -- file, then the flag is set.
  abbrev pub Keeps : Bool → Bool × Event → Type 0
  Keeps f (saves, check now) = (job : CronJob) → Q job → Q (with_next none job)
  Keeps f (saves, finish j error started now) =
      (job : CronJob)
      → text_eq job.id j ≡ true
      → Q job
      → Q (finished next_tick error started now job)
  Keeps f (saves, add job) = Q job
  Keeps f (saves, update job now) =
      (k : CronJob) → text_eq k.id job.id ≡ true → Q k → Q (record job { updated_at_ms = now })
  Keeps f (saves, remove j) = Unit
  Keeps f (saves, set_enabled j enabled now) =
      (job : CronJob) → text_eq job.id j ≡ true → Q job → Q (enable next_tick enabled now job)
  Keeps f (saves, begin loads now) =
      ((next : Option ℕ) (job : CronJob) → Q job → Q (with_next next job)) × (f ≡ true)
  Keeps f (saves, reload loads) = f ≡ true
  Keeps f (saves, halt) = Unit

  loaded-Stays :
      (f loads : Bool) (cs : CronService)
      → f ≡ true
      → Stays Q f cs
      → All Q (load_store loads cs).jobs
  unfolding load_store
  loaded-Stays f true cs e h = h.1 e
  loaded-Stays f false cs e h = tt

  start-Stays :
      (f loads saves : Bool) (now : ℕ) (cs : CronService)
      → ((next : Option ℕ) (job : CronJob) → Q job → Q (with_next next job)) × (f ≡ true)
      → Stays Q f cs
      → Stays Q f (start next_tick loads saves now cs)
  unfolding start
  start-Stays f loads saves now cs k h = by_tests cs.running loads (loaded-Stays f loads cs k.1 h)
    where
      loaded : CronService
      loaded = load_store loads cs

      same_file : loaded.saved ≡ cs.saved
      same_file = unfold load_store in refl

      by_tests :
          (running b : Bool)
          → All Q loaded.jobs
          → Stays Q f (
              if running
              then cs
              else if b
              then save_store saves (record loaded {
                jobs = recompute_next_runs next_tick now loaded.jobs;
                running = saves;
              })
              else loaded)
      by_tests true b g = h
      by_tests false true g =
          save_store-Stays Q f saves _
            (All-recompute_next_runs Q next_tick now loaded.jobs k.0 g, rw same_file h.1)
      by_tests false false g = (g, rw same_file h.1)

  pub happen-Stays :
      (f : Bool) (e : Bool × Event) (cs : CronService)
      → Keeps f e
      → Stays Q f cs
      → Stays Q f (happen next_tick e cs)
  unfolding happen check_jobs finish_job add_job update_job enable_job stop
  happen-Stays f (saves, check now) cs k h = elim (Bool-cases cs.running) [
    | inl r ↦ rw r (
        save_store-Stays Q f saves _
          (All-clear_next_runs Q (due_ids now cs.jobs) cs.jobs k h.0, h.1))
    | inr r ↦ rw r h
  ]
  happen-Stays f (saves, finish j error started now) cs k h =
      elim (Option-cases (find_job j cs.jobs)) [
        | inl e ↦ rw (e, finish_job) h
        | inr (job, e) ↦
            rw (e, finish_job)
              (save_store-Stays Q f saves _
                (by_kind (text_eq job.schedule.kind (codes "at") && job.delete_after_run)))
      ]
    where
      by_kind :
          (b : Bool)
          → Stays Q f (
              if b then (remove_job saves j cs).1 else record cs {
                jobs = change_job j (λ k. finished next_tick error started now k) cs.jobs;
              })
      by_kind true = remove_job-Stays Q f saves j cs h
      by_kind false =
          (All-change_job Q j (λ k. finished next_tick error started now k) cs.jobs k h.0, h.1)
  happen-Stays f (saves, add job) cs k h = by_save saves
    where
      added : All Q (cs.jobs ++ (job ∷ []))
      added = All-append Q cs.jobs (job ∷ []) h.0 (k, tt)

      by_save : (b : Bool) → Stays Q f (add_job b job cs).1
      by_save true = unfold save_store in (added, λ e. added)
      by_save false = (added, h.1)
  happen-Stays f (saves, update job now) cs k h = elim (Option-cases (find_job job.id cs.jobs)) [
    | inl e ↦ rw (e, happen, update_job) h
    | inr (old, e) ↦
        rw (e, happen, update_job)
          (save_store-Stays Q f saves _
            (All-change_job Q job.id (λ j. record job { updated_at_ms = now }) cs.jobs k h.0, h.1))
  ]
  happen-Stays f (saves, remove j) cs k h = remove_job-Stays Q f saves j cs h
  happen-Stays f (saves, set_enabled j enabled now) cs k h =
      elim (Option-cases (find_job j cs.jobs)) [
        | inl e ↦ rw (e, happen, enable_job) h
        | inr (job, e) ↦
            rw (e, happen, enable_job)
              (save_store-Stays Q f saves _
                (All-change_job Q j (λ k. enable next_tick enabled now k) cs.jobs k h.0, h.1))
      ]
  happen-Stays f (saves, begin loads now) cs k h = start-Stays f loads saves now cs k h
  happen-Stays f (saves, reload loads) cs k h =
      (loaded-Stays f loads cs k h, unfold load_store in h.1)
  happen-Stays f (saves, halt) cs k h = h

  pub happen_all-Stays :
      (f : Bool) (es : List (Bool × Event)) (cs : CronService)
      → All (Keeps f) es
      → Stays Q f cs
      → Stays Q f (happen_all next_tick es cs)
  unfolding happen_all
  happen_all-Stays f [] cs k h = h
  happen_all-Stays f (e ∷ es) cs k h =
      happen_all-Stays f es (happen next_tick e cs) k.1 (happen-Stays f e cs k.0 h)
