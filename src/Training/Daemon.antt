-- ===== src/Training/Daemon.antt =====
-- training/daemon.js: class TrainingDaemon, over the tables of the database. A transaction is one
-- step; an error in it leaves the tables as they were. Queries that only one connection makes run
-- one after the other, so that the failing of dependents is a recursion in the order of the rows.
pub mod Schedule
pub mod Fails
pub mod Completion
mod Tests
use genie_cloud.Base.{
  ℕ, zero, suc, ◌+◌, Bool, true, false, not, ◌&&◌, ◌||◌, List, [], ◌∷◌, ◌++◌, map, Option, none,
  some, Text, codes, text_eq, has_text, if◌then◌else◌, ◌==◌, lookup, insert, remove,
}
use genie_cloud.Training.Jobs.{
  Row, Db, JobStatus, error, started, is_started, update_row, get_dependents, release_dependents,
  get_next_job, get_for_update, get_all_in_progress,
}
use genie_cloud.Training.Job.{Job}
use genie_cloud.Training.Job

-- The tables, the job that runs of each type, and the jobs that a mail was sent about.
pub record Daemon : Type 0 where
  pub db : Db
  pub current_jobs : List (Text × Job)
  pub mails : List ℕ

abbrev pub is_error : JobStatus → Bool
is_error error = true
is_error _ = false

abbrev pub message_is : Option Text → Text → Bool
message_is none t = false
message_is (some m) t = text_eq m t

-- A failure that the administrator hears of.
unfoldable pub notifies : Row → Bool
notifies row =
    is_error row.status
    && not (message_is row.error_message (codes "Dependency failed"))
    && not (message_is row.error_message (codes "Killed"))
    && not (message_is row.error_message (codes "The kubernetes job was deleted"))

-- The tables and the mails, which `_recordJobCompletion` changes.
abbrev pub State : Type 0
State = Db × List ℕ

abbrev pub notify : Row → List ℕ → List ℕ
notify row mails = if notifies row then mails ++ row.id ∷ [] else mails

-- The update of the row that completed.
abbrev pub completed : Row → Row → Row
completed row r = record r {
  status = row.status;
  error_message = row.error_message;
  end_time = row.end_time;
}

abbrev pub failed_dependent : Row → Row
failed_dependent r = record r { status = error; error_message = some (codes "Dependency failed") }

-- Each of some rows, one after the other; `none` is a recursion that ran out of fuel.
unfoldable pub each : (Row → State → Option State) → List Row → State → Option State
each f [] s = some s
each f (r ∷ rs) s = elim (f r s) [ none ↦ none | some s' ↦ each f rs s' ]

abbrev pub released_state : ℕ → Option State → Option State
released_state id none = none
released_state id (some s) = some (release_dependents id s.0, s.1)

-- `_recordJobCompletion`
unfoldable pub record_job_completion : ℕ → Row → State → Option State
unfolding each
record_job_completion zero row s = none
record_job_completion (suc fuel) row s =
    let db = update_row row.id (completed row) s.0 in
    let s' : State = (db, notify row s.1) in
    let failing =
      each (λ dep. record_job_completion fuel (failed_dependent dep)) (get_dependents row.id db)
        s' in
    released_state row.id (if is_error row.status then failing else some s')

abbrev pub with_state : Daemon → Option State → Option Daemon
with_state d none = none
with_state d (some s) = some (record d { db = s.0; mails = s.1 })

abbrev pub is_current : Daemon → Text → ℕ → Bool
is_current d job_type id = elim (lookup job_type d.current_jobs) [
  | none ↦ false
  | some job ↦ job.row.id == id
]

-- `jobComplete`; a job object is known by the id of its row.
unfoldable pub job_complete : ℕ → Job → Daemon → Option Daemon
unfolding record_job_completion
job_complete fuel job d =
    let d' = record d { current_jobs = remove job.row.job_type d.current_jobs } in
    let done = with_state d' (record_job_completion fuel job.row (d.db, d.mails)) in
    if is_current d job.row.job_type job.row.id then done else some d

-- `_startNextJob`, with `Job.start` up to the running of its tasks.
unfoldable pub start_next_job : ℕ → Text → Daemon → Daemon
start_next_job now job_type d = elim (lookup job_type d.current_jobs) [
  | some job ↦ d
  | none ↦ elim (get_next_job job_type d.db) [
    | none ↦ d
    | some next ↦
        let job = Job.do_start now (Job.new next) in
        record d {
          current_jobs = insert job_type job d.current_jobs;
          db = update_row next.id (λ r. record r { start_time = some now; status = started }) d.db;
        }
  ]
]

-- `_startAll`, at its `setImmediate`
unfoldable pub start_all : ℕ → List Text → Daemon → Daemon
unfolding start_next_job
start_all now [] d = d
start_all now (t ∷ types) d = start_all now types (start_next_job now t d)

abbrev pub master_failed : Row → Row
master_failed r = record r { status = error; error_message = some (codes "Master process failed") }

-- `checkExistingJobs`, in its transaction.
unfoldable pub check_existing_jobs : ℕ → Daemon → Option Daemon
unfolding each record_job_completion
check_existing_jobs fuel d = with_state d (
    each (λ r. record_job_completion fuel (master_failed r)) (get_all_in_progress d.db)
      (d.db, d.mails))

abbrev pub killed_row : Row → Row
killed_row r = record r { status = error; error_message = some (codes "Killed") }

abbrev pub kill_current : Text → Daemon → Daemon
kill_current job_type d = elim (lookup job_type d.current_jobs) [
  | none ↦ d
  | some job ↦ record d { current_jobs = insert job_type (Job.kill job) d.current_jobs }
]

-- `killJob`; `none` is an id that the table has not, for which the query throws, or lack of fuel.
unfoldable pub kill_job : ℕ → ℕ → Daemon → Option Daemon
unfolding record_job_completion
kill_job fuel id d = elim (get_for_update id d.db) [
  | none ↦ none
  | some job ↦
      if is_started job.status && is_current d job.job_type id
      then some (kill_current job.job_type d)
      else with_state d (record_job_completion fuel (killed_row job) (d.db, d.mails))
]
