-- ===== src/Training/Job/Outcome.antt =====
-- training/training_job.js: how a job ends, by what its tasks did.
use genie_cloud.Base.{
  ℕ, suc, ◌≡◌, refl, ◌∙◌, Bool, true, false, not, ◌||◌, ◌&&◌, List, [], ◌∷◌, Option, none, some,
  Text, codes, if◌then◌else◌, arith,
}
use genie_cloud.Training.Jobs.{JobStatus, success}
use genie_cloud.Training.Job.{
  Job, TaskSpec, TaskRun, begin_task, end_task, run_tasks, complete, fail, settle, do_run,
}

abbrev pub is_success : JobStatus → Bool
is_success success = true
is_success _ = false

abbrev pub is_none {ℓ} : {A : Type ℓ} → Option A → Bool
is_none none = true
is_none (some a) = false

-- Whether the tasks from an index on all end without an error, and no kill comes meanwhile.
unfoldable pub all_clean : ℕ → List TaskSpec → (ℕ → TaskRun) → Bool
all_clean i [] runs = true
all_clean i (spec ∷ specs) runs =
    not (runs i).killed_meanwhile && is_none (runs i).failed && all_clean (suc i) specs runs

-- One task, before the rest of them.
clean_step :
    (killed meanwhile clean : Bool) (failed e : Option Text) (k : Text)
    → is_none e ≡ (not (killed || meanwhile) && clean)
    → is_none (if killed then some k else elim failed [ some f ↦ some f | none ↦ e ])
      ≡ (not killed && (not meanwhile && is_none failed && clean))
clean_step true m c o e k h = refl
clean_step false true c none e k h = h
clean_step false true c (some f) e k h = refl
clean_step false false c none e k h = h
clean_step false false c (some f) e k h = refl

-- The error of the loop, by the first task.
run_tasks-error :
    (i : ℕ) (spec : TaskSpec) (specs : List TaskSpec) (runs : ℕ → TaskRun) (job : Job)
    → (run_tasks i (spec ∷ specs) runs job).2 ≡ (
        if job.killed then some (codes "Killed") else elim (runs i).failed [
          | some f ↦ some f
          | none ↦ (run_tasks (suc i) specs runs (end_task (runs i) (begin_task i spec job))).2
        ])
unfolding run_tasks begin_task end_task
run_tasks-error i spec specs runs job = ground arith

run_tasks-clean :
    (i : ℕ) (specs : List TaskSpec) (runs : ℕ → TaskRun) (job : Job)
    → is_none (run_tasks i specs runs job).2 ≡ (not job.killed && all_clean i specs runs)
unfolding run_tasks all_clean begin_task end_task
run_tasks-clean i [] runs job = ground arith
run_tasks-clean i (spec ∷ specs) runs job = rw (run_tasks-error i spec specs runs job) (
    clean_step job.killed (runs i).killed_meanwhile (all_clean (suc i) specs runs) (runs i).failed _
      (codes "Killed")
      (run_tasks-clean (suc i) specs runs (end_task (runs i) (begin_task i spec job))))

-- A job that is run succeeds exactly if it was not killed before, no kill came while its tasks ran,
-- and each of them ended without an error.
pub do_run-success :
    (now : ℕ) (specs : List TaskSpec) (runs : ℕ → TaskRun) (job : Job)
    → is_success (do_run now specs runs job).0.row.status
      ≡ (not job.killed && all_clean 0 specs runs)
unfolding do_run complete fail
do_run-success now specs runs job =
    status_of (run_tasks 0 specs runs job) ∙ run_tasks-clean 0 specs runs job
  where
    status_of :
        (ran : Job × List Text × Option Text)
        → is_success (settle now ran).0.row.status ≡ is_none ran.2
    status_of (j, ts, none) = refl
    status_of (j, ts, some e) = refl
