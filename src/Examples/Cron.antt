-- ===== src/Examples/Cron.antt =====
-- pkg/cron/service.go: a job that runs every minute and one with a single time.
use ebiclaw.Prelude.{◌≡◌, Bool, true, false, not, none, some, List, [], ◌∷◌, is_empty, refl}
use ebiclaw.Strings.{codes, text_eq}
use ebiclaw.Cron.{
  CronJob, CronService, NextTick, new_job, is_due_at, due_ids, has_id, check_jobs, finish_job,
  find_job, get_next_wake_ms,
}
use ebiclaw.Cron.Wake.{get_next_wake_ms-due}
use ebiclaw.Cron.Events.{Event, check, finish, remove, begin, reload, halt, happen_all}
use ebiclaw.Cron.Once.{check_jobs-not_again, finish_job-not_again}

abbrev never : NextTick
never expr now = none

abbrev minutely : CronJob
minutely =
    new_job never (codes "m") (codes "minutely")
      (record { kind = codes "every"; at_ms = none; every_ms = some 60000; expr = []; tz = [] })
      (codes "look") (codes "cli") (codes "me") 0

abbrev reminder : CronJob
reminder =
    new_job never (codes "r") (codes "reminder")
      (record { kind = codes "at"; at_ms = some 5000; every_ms = none; expr = []; tz = [] })
      (codes "leave") (codes "cli") (codes "me") 0

abbrev service : CronService
service = record { jobs = minutely ∷ reminder ∷ []; saved = []; running = true }

get_next_wake_ms-due_example :
    is_due_at 7000 (get_next_wake_ms service.jobs) ≡ not (is_empty (due_ids 7000 service.jobs))
get_next_wake_ms-due_example = get_next_wake_ms-due 7000 service.jobs

abbrev later : List (Bool × Event)
later =
    (true, check 6000)
    ∷ (false, finish (codes "m") none 60000 60001)
    ∷ (true, remove (codes "x"))
    ∷ (true, reload true)
    ∷ []

abbrev restart : List (Bool × Event)
restart = (true, halt) ∷ (true, begin true 7000) ∷ (true, finish (codes "r") none 7000 7001) ∷ []

reminder_due : has_id (codes "r") (check_jobs true 5000 service).0 ≡ true
unfolding check_jobs has_id new_job text_eq
reminder_due = refl

check_jobs-not_again_example :
    has_id
      (codes "r")
      (check_jobs true 9000 (happen_all never later (check_jobs true 5000 service).1)).0
    ≡ false
check_jobs-not_again_example =
    check_jobs-not_again never (codes "r") true true 5000 9000 service later reminder_due
      (tt, (unfold text_eq in refl, (tt, (refl, tt))))

reminder_found : find_job (codes "r") service.jobs ≡ some reminder
unfolding find_job new_job text_eq
reminder_found = refl

at_kind : text_eq (codes "at") (codes "at") ≡ true
unfolding text_eq
at_kind = refl

finish_job-not_again_example :
    has_id
      (codes "r")
      (check_jobs true 9000 (
        happen_all never restart
          (finish_job never true (codes "r") (some (codes "no")) 5000 5001 service))).0
    ≡ false
unfolding new_job
finish_job-not_again_example =
    finish_job-not_again never (codes "r") true true (some (codes "no")) 5000 5001 9000 service
      reminder restart reminder_found at_kind at_kind (tt, (refl, (tt, tt)))
