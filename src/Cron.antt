-- ===== src/Cron.antt =====
-- pkg/cron/service.go: the jobs, and what the service does with them. A method that holds the mutex
-- is one step. A run of a job is two: the job is copied, its handler is called without the mutex,
-- and then its state is updated, so that other calls may come between. Times are milliseconds.
pub mod Wake
pub mod Dormant
pub mod Jobs
pub mod Events
pub mod Once
use ebiclaw.Prelude.{
  ℕ, ◌+◌, Bool, true, false, ◌&&◌, not, Option, none, some, List, [], ◌∷◌, ◌++◌, if◌then◌else◌,
  is_empty, length, leb, ltb, ◌==◌,
}
use ebiclaw.Strings.{Text, codes, text_eq}

-- A period of 0 also stands for a negative one.
pub record CronSchedule : Type 0 where
  pub kind : Text
  pub at_ms : Option ℕ
  pub every_ms : Option ℕ
  pub expr : Text
  pub tz : Text

pub record CronPayload : Type 0 where
  pub kind : Text
  pub message : Text
  pub command : Text
  pub channel : Text
  pub to : Text

pub record CronJobState : Type 0 where
  pub next_run_at_ms : Option ℕ
  pub last_run_at_ms : Option ℕ
  pub last_status : Text
  pub last_error : Text

pub record CronJob : Type 0 where
  pub id : Text
  pub name : Text
  pub enabled : Bool
  pub schedule : CronSchedule
  pub payload : CronPayload
  pub state : CronJobState
  pub created_at_ms : ℕ
  pub updated_at_ms : ℕ
  pub delete_after_run : Bool

abbrev pub payload_kind_agent_turn : Text
payload_kind_agent_turn = codes "agent_turn"

-- The jobs in memory, and those of the file.
pub record CronService : Type 0 where
  pub jobs : List CronJob
  pub saved : List CronJob
  pub running : Bool

-- saveStoreUnsafe, which may fail
unfoldable pub save_store : Bool → CronService → CronService
save_store saves cs = if saves then record cs { saved = cs.jobs } else cs

-- gronx.NextTickAfter
abbrev pub NextTick : Type 0
NextTick = Text → ℕ → Option ℕ

unfoldable pub compute_next_run : NextTick → CronSchedule → ℕ → Option ℕ
compute_next_run next_tick schedule now =
    let at : Option ℕ = elim schedule.at_ms [
      | none ↦ none
      | some t ↦ if ltb now t then some t else none
    ] in
    let every : Option ℕ = elim schedule.every_ms [
      | none ↦ none
      | some t ↦ if t == 0 then none else some (now + t)
    ] in
    let cron : Option ℕ = if is_empty schedule.expr then none else next_tick schedule.expr now in
    if text_eq schedule.kind (codes "at")
    then at
    else if text_eq schedule.kind (codes "every")
    then every
    else if text_eq schedule.kind (codes "cron")
    then cron
    else none

abbrev pub with_next : Option ℕ → CronJob → CronJob
with_next next job = record job { state = record job.state { next_run_at_ms = next } }

unfoldable pub recompute_next_runs : NextTick → ℕ → List CronJob → List CronJob
unfolding compute_next_run
recompute_next_runs next_tick now [] = []
recompute_next_runs next_tick now (job ∷ jobs) =
    (if job.enabled then with_next (compute_next_run next_tick job.schedule now) job else job)
    ∷ recompute_next_runs next_tick now jobs

-- loadStore: the flag says whether the file can be read. If not, then no jobs are left in memory.
unfoldable pub load_store : Bool → CronService → CronService
load_store loads cs = record cs { jobs = if loads then cs.saved else [] }

-- Start: if the jobs cannot be loaded, or cannot be saved, then the service is not running.
unfoldable pub start : NextTick → Bool → Bool → ℕ → CronService → CronService
unfolding load_store recompute_next_runs save_store
start next_tick loads saves now cs =
    let loaded = load_store loads cs in
    let jobs = recompute_next_runs next_tick now loaded.jobs in
    if cs.running
    then cs
    else if loads
    then save_store saves (record loaded { jobs = jobs; running = saves })
    else loaded

unfoldable pub stop : CronService → CronService
stop cs = record cs { running = false }

-- The next run of a job that can be due.
abbrev pub next_of : CronJob → Option ℕ
next_of job = if job.enabled then job.state.next_run_at_ms else none

abbrev pub is_due_at : ℕ → Option ℕ → Bool
is_due_at now none = false
is_due_at now (some t) = leb t now

unfoldable pub due_ids : ℕ → List CronJob → List Text
due_ids now [] = []
due_ids now (job ∷ jobs) =
    let rest = due_ids now jobs in if is_due_at now (next_of job) then job.id ∷ rest else rest

-- dueMap
unfoldable pub has_id : Text → List Text → Bool
has_id id [] = false
has_id id (i ∷ ids) = let rest = has_id id ids in if text_eq i id then true else rest

unfoldable pub clear_next_runs : List Text → List CronJob → List CronJob
unfolding has_id
clear_next_runs ids [] = []
clear_next_runs ids (job ∷ jobs) =
    (if has_id job.id ids then with_next none job else job) ∷ clear_next_runs ids jobs

-- checkJobs, up to the runs: the jobs that it runs, in this order.
unfoldable pub check_jobs : Bool → ℕ → CronService → List Text × CronService
unfolding due_ids clear_next_runs save_store
check_jobs saves now cs =
    let ids = due_ids now cs.jobs in
    if cs.running
    then (ids, save_store saves (record cs { jobs = clear_next_runs ids cs.jobs }))
    else ([], cs)

unfoldable pub find_job : Text → List CronJob → Option CronJob
find_job id [] = none
find_job id (job ∷ jobs) =
    let rest = find_job id jobs in if text_eq job.id id then some job else rest

-- The first job with an id, changed.
unfoldable pub change_job : Text → (CronJob → CronJob) → List CronJob → List CronJob
change_job id f [] = []
change_job id f (job ∷ jobs) =
    let rest = change_job id f jobs in if text_eq job.id id then f job ∷ jobs else job ∷ rest

unfoldable pub without_job : Text → List CronJob → List CronJob
without_job id [] = []
without_job id (job ∷ jobs) =
    let rest = without_job id jobs in if text_eq job.id id then rest else job ∷ rest

-- removeJobUnsafe
unfoldable pub remove_job : Bool → Text → CronService → Bool × CronService
unfolding without_job save_store
remove_job saves id cs =
    let left = record cs { jobs = without_job id cs.jobs } in
    if ltb (length left.jobs) (length cs.jobs) then (true, save_store saves left) else (false, left)

-- What a run has told: the state after it, with the error if there was one.
abbrev pub after_run : Option Text → ℕ → CronJobState → CronJobState
after_run none started state = record state {
  last_run_at_ms = some started;
  last_status = codes "ok";
  last_error = [];
}
after_run (some e) started state = record state {
  last_run_at_ms = some started;
  last_status = codes "error";
  last_error = e;
}

-- The end of a run, for the job itself.
unfoldable pub finished : NextTick → Option Text → ℕ → ℕ → CronJob → CronJob
unfolding compute_next_run
finished next_tick error started now job =
    let ran = record job { state = after_run error started job.state; updated_at_ms = now } in
    if text_eq job.schedule.kind (codes "at")
    then record (with_next none ran) { enabled = false }
    else with_next (compute_next_run next_tick job.schedule now) ran

-- executeJobByID, after the handler.
unfoldable pub finish_job : NextTick → Bool → Text → Option Text → ℕ → ℕ → CronService → CronService
unfolding find_job change_job finished remove_job save_store
finish_job next_tick saves id error started now cs = elim (find_job id cs.jobs) [
  | none ↦ cs
  | some job ↦ save_store saves (
      if text_eq job.schedule.kind (codes "at") && job.delete_after_run
      then (remove_job saves id cs).1
      else record cs { jobs = change_job id (λ j. finished next_tick error started now j) cs.jobs })
]

abbrev pub earlier : Option ℕ → Option ℕ → Option ℕ
earlier none b = b
earlier (some a) none = some a
earlier (some a) (some b) = some (if ltb b a then b else a)

-- The loop of getNextWakeMS
unfoldable pub next_wake : Option ℕ → List CronJob → Option ℕ
next_wake wake [] = wake
next_wake wake (job ∷ jobs) = next_wake (earlier wake (next_of job)) jobs

unfoldable pub get_next_wake_ms : List CronJob → Option ℕ
unfolding next_wake
get_next_wake_ms jobs = next_wake none jobs

unfoldable pub new_job : NextTick → Text → Text → CronSchedule → Text → Text → Text → ℕ → CronJob
unfolding compute_next_run
new_job next_tick id name schedule message channel to now = record {
  id = id;
  name = name;
  enabled = true;
  schedule = schedule;
  payload = record {
    kind = payload_kind_agent_turn;
    message = message;
    command = [];
    channel = channel;
    to = to;
  };
  state = record {
    next_run_at_ms = compute_next_run next_tick schedule now;
    last_run_at_ms = none;
    last_status = [];
    last_error = [];
  };
  created_at_ms = now;
  updated_at_ms = now;
  delete_after_run = text_eq schedule.kind (codes "at");
}

-- AddJob for a job that new_job has made: a failure to save it is returned, and the job stays.
unfoldable pub add_job : Bool → CronJob → CronService → Option CronJob × CronService
unfolding save_store
add_job saves job cs =
    let added = record cs { jobs = cs.jobs ++ (job ∷ []) } in
    if saves then (some job, save_store true added) else (none, added)

unfoldable pub update_job : Bool → CronJob → ℕ → CronService → Bool × CronService
unfolding find_job change_job save_store
update_job saves job now cs = elim (find_job job.id cs.jobs) [
  | none ↦ (false, cs)
  | some old ↦ (
    saves,
    save_store saves
        (record cs { jobs = change_job job.id (λ j. record job { updated_at_ms = now }) cs.jobs }),
  )
]

unfoldable pub enable : NextTick → Bool → ℕ → CronJob → CronJob
unfolding compute_next_run
enable next_tick enabled now job =
    with_next (if enabled then compute_next_run next_tick job.schedule now else none)
      (record job { enabled = enabled; updated_at_ms = now })

unfoldable pub enable_job :
    NextTick → Bool → Text → Bool → ℕ → CronService → Option CronJob × CronService
unfolding find_job change_job enable save_store
enable_job next_tick saves id enabled now cs = elim (find_job id cs.jobs) [
  | none ↦ (none, cs)
  | some job ↦ (
    some (enable next_tick enabled now job),
    save_store saves
        (record cs { jobs = change_job id (λ j. enable next_tick enabled now j) cs.jobs }),
  )
]

unfoldable pub enabled_jobs : List CronJob → List CronJob
enabled_jobs [] = []
enabled_jobs (job ∷ jobs) = let rest = enabled_jobs jobs in if job.enabled then job ∷ rest else rest

unfoldable pub list_jobs : Bool → CronService → List CronJob
unfolding enabled_jobs
list_jobs include_disabled cs = if include_disabled then cs.jobs else enabled_jobs cs.jobs
