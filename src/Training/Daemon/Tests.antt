-- ===== src/Training/Daemon/Tests.antt =====
-- training/daemon.js: runs at concrete tables.
use genie_cloud.Base.{
  ℕ, ◌≡◌, refl, ◌≤◌, ◌<◌, List, [], ◌∷◌, Option, none, some, Text, codes, Bool, true, false, arith,
  All, ok, err,
}
use genie_cloud.Training.Jobs.{Row, Db, JobStatus, queued, error, depends, get_next_of_type}
use genie_cloud.Training.Daemon.{State, record_job_completion}
use genie_cloud.Training.Daemon.Fails.{InOrder, Marks}
use genie_cloud.Training.Daemon.Completion.{record_total, record_fails}
use genie_cloud.Training.Daemon.Schedule.{JobTemplate, ModelInfo, schedule_job}
use genie_cloud.Training.Daemon.Schedule.Order.{Ordered, schedule_job-Ordered}

abbrev row : ℕ → Option ℕ → Text → JobStatus → Row
row id waits t status = record {
  id = id;
  depends_on = waits;
  job_type = t;
  owner = none;
  language = codes "en";
  model_tag = none;
  all_devices = true;
  status = status;
  task_index = none;
  task_name = none;
  error_message = none;
  start_time = none;
  end_time = none;
  config = codes "{}";
}

-- A job, one that waits for it, and one that waits for the second.
abbrev chain : List Row
chain =
    row 1 none (codes "update-dataset") queued
    ∷ row 2 (some 1) (codes "train") queued
    ∷ row 3 (some 2) (codes "train") queued
    ∷ []

abbrev tables : Db
tables = record { rows = chain; next_id = 4; for_devices = []; history = [] }

chain-InOrder : All (InOrder 4) chain
chain-InOrder = (
  record { below = omega arith; earlier = tt },
  (
    record { below = omega arith; earlier = omega arith },
    (record { below = omega arith; earlier = omega arith }, tt),
  ),
)

abbrev failed_row : Row
failed_row = row 1 none (codes "update-dataset") error

record_total_example :
    (s' : State) × (record_job_completion 3 failed_row (tables, []) ≡ some s')
    × All (λ r. depends 1 r ≡ false) s'.0.rows
record_total_example =
    record_total 4 3 failed_row (tables, []) (omega arith) (omega arith) chain-InOrder

record_fails_example :
    Marks (failed_row ∷ []) (tables, []) (record_job_completion 3 failed_row (tables, []))
record_fails_example =
    record_fails 4 3 failed_row (tables, []) refl (omega arith) (omega arith) chain-InOrder

abbrev request : JobTemplate
request = record {
  job_type = codes "update-dataset,train";
  language = codes "en";
  owner = none;
  for_devices = some (codes "com.a" ∷ []);
  config = none;
}

abbrev model : ModelInfo
model = record { tag = codes "default"; config = codes "{}"; contextual = false }

abbrev all_known : Text → Bool
all_known kind = true

abbrev scheduled : Db
scheduled = elim (schedule_job all_known (model ∷ []) request tables) [
  | ok db ↦ db
  | err e ↦ tables
]

schedule_job-Ordered_example : Ordered scheduled
unfolding schedule_job genie_cloud.Base.text_eq
    genie_cloud.Training.Daemon.Schedule.job_type_is_mergeable get_next_of_type
schedule_job-Ordered_example =
    schedule_job-Ordered all_known (model ∷ []) request tables scheduled chain-InOrder refl
