-- ===== src/Training/Job/Tests.antt =====
-- training/training_job.js: a run of two tasks.
use genie_cloud.Base.{ℕ, ◌≡◌, true, false, not, ◌&&◌, List, [], ◌∷◌, none, codes, ◌==◌}
use genie_cloud.Training.Jobs.{Row, queued}
use genie_cloud.Training.Job.{Job, TaskSpec, TaskRun, do_run}
use genie_cloud.Training.Job
use genie_cloud.Training.Job.Outcome.{is_success, all_clean, do_run-success}

abbrev a_row : Row
a_row = record {
  id = 7;
  depends_on = none;
  job_type = codes "update-dataset";
  owner = none;
  language = codes "en";
  model_tag = none;
  all_devices = true;
  status = queued;
  task_index = none;
  task_name = none;
  error_message = none;
  start_time = none;
  end_time = none;
  config = codes "{}";
}

abbrev two_tasks : List TaskSpec
two_tasks =
    record { name = codes "update-dataset"; is_local = false }
    ∷ record { name = codes "reloading-exact"; is_local = true }
    ∷ []

-- A kill comes while the second task runs.
abbrev late_kill : ℕ → TaskRun
late_kill i = record { killed_meanwhile = not (i == 0); failed = none }

do_run-success_example :
    is_success (do_run 5 two_tasks late_kill (Job.do_start 4 (Job.new a_row))).0.row.status
    ≡ (true && all_clean 0 two_tasks late_kill)
unfolding Job.new Job.do_start
do_run-success_example = do_run-success 5 two_tasks late_kill (Job.do_start 4 (Job.new a_row))
