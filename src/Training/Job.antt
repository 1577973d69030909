-- ===== src/Training/Job.antt =====
-- training/training_job.js: one job, which runs its tasks in their order. What a task does is an
-- outcome; a kill may come while a task runs.
pub mod Outcome
mod Tests
use genie_cloud.Base.{
  ℕ, suc, ◌+◌, Bool, true, false, not, ◌||◌, ◌&&◌, List, [], ◌∷◌, ◌++◌, Option, none, some, Text,
  codes, if◌then◌else◌, Result, ok, err,
}
use genie_cloud.Training.Jobs.{JobStatus, started, success, error, Row}

-- The job: its copy of the row, and whether it was killed.
pub record Job : Type 0 where
  pub row : Row
  pub killed : Bool
  pub child : Bool

unfoldable pub new : Row → Job
new row = record { row = row; killed = false; child = false }

-- `_doStart`
unfoldable pub do_start : ℕ → Job → Job
do_start now job = record job { row = record job.row { start_time = some now; status = started } }

-- `kill`: the child, where there is one, gets the signal.
unfoldable pub kill : Job → Job
kill job = record job { killed = true }

-- A task of the specification: one of the daemon itself, or one of the backend.
pub record TaskSpec : Type 0 where
  pub name : Text
  pub is_local : Bool

-- What happens while a task runs: whether a kill comes, and the error that it ends with.
pub record TaskRun : Type 0 where
  pub killed_meanwhile : Bool
  pub failed : Option Text

-- The start of a task, and its end.
unfoldable pub begin_task : ℕ → TaskSpec → Job → Job
begin_task i spec job = record job {
  row = record job.row { task_index = some i; task_name = some spec.name };
  child = not spec.is_local;
}

unfoldable pub end_task : TaskRun → Job → Job
end_task run job = record job { child = false; killed = job.killed || run.killed_meanwhile }

-- The loop of `_doRun`: the job, the tasks that were recorded, and the error that stopped it.
unfoldable pub run_tasks : ℕ → List TaskSpec → (ℕ → TaskRun) → Job → Job × List Text × Option Text
unfolding begin_task end_task
run_tasks i [] runs job = (job, [], if job.killed then some (codes "Killed") else none)
run_tasks i (spec ∷ specs) runs job =
    let begun = begin_task i spec job in
    let ended = end_task (runs i) begun in
    let rest = run_tasks (suc i) specs runs ended in
    if job.killed then (job, [], some (codes "Killed")) else elim (runs i).failed [
      | some e ↦ (record begun { killed = ended.killed }, [], some e)
      | none ↦ (rest.0, spec.name ∷ rest.1, rest.2)
    ]

-- `complete`, up to the call of the daemon.
unfoldable pub complete : ℕ → Job → Job
complete now job = record job { row = record job.row { end_time = some now } }

unfoldable pub fail : ℕ → Text → Job → Job
unfolding complete
fail now message job =
    complete now
      (record job { row = record job.row { status = error; error_message = some message } })

-- The end of `_doRun`, and the `catch` of `start`.
abbrev pub settle : ℕ → Job × List Text × Option Text → Job × List Text
unfolding complete fail
settle now (job, tasks, none) =
    (complete now (record job { row = record job.row { status = success } }), tasks)
settle now (job, tasks, some e) = (fail now e job, tasks)

-- `_doRun`: the job as it is when the daemon is told, and the tasks recorded.
unfoldable pub do_run : ℕ → List TaskSpec → (ℕ → TaskRun) → Job → Job × List Text
unfolding run_tasks
do_run now specs runs job = settle now (run_tasks 0 specs runs job)
