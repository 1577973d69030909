-- ===== src/Training/Daemon/Schedule.antt =====
-- training/daemon.js: the queueing of jobs, in the transaction of `scheduleJob`. The models that a
-- request affects are what the table of models answers, an argument.
pub mod Order
use genie_cloud.Base.{
  ℕ, Bool, true, false, not, ◌&&◌, ◌||◌, List, [], ◌∷◌, Option, none, some, Text, codes, text_eq,
  any_of, if◌then◌else◌, Result, ok, err, ◌>>=◌,
}
use genie_cloud.Training.Jobs.{
  Row, Db, DbError, get_next_of_type, update_row, make_for_all_devices, add_for_devices, create,
}

pub record JobTemplate : Type 0 where
  pub job_type : Text
  pub language : Text
  pub owner : Option ℕ
  pub for_devices : Option (List Text)
  pub config : Option Text

pub record ModelInfo : Type 0 where
  pub tag : Text
  pub config : Text
  pub contextual : Bool

-- The errors that the transaction ends with: those of the checks, of the assertions and of the tables.
pub data ScheduleError : Type 0 where
  bad_devices bad_language bad_job_type invalid_job_type assertion : ScheduleError
  bad_query : DbError → ScheduleError

-- `_getJobConfig`, with the assertion of its caller that there is one.
unfoldable pub get_job_config : JobTemplate → Text → Option ModelInfo → Result ScheduleError Text
get_job_config template job_type model = elim template.config [
  | some c ↦ ok c
  | none ↦ elim model [
    | some m ↦ if text_eq m.config [] then err assertion else ok m.config
    | none ↦ if text_eq job_type (codes "update-dataset") then ok (codes "{}") else err assertion
  ]
]

unfoldable pub job_type_is_mergeable : Text → Bool
job_type_is_mergeable t = text_eq t (codes "train") || text_eq t (codes "update-dataset")

abbrev pub tag_of : Option ModelInfo → Option Text
tag_of none = none
tag_of (some m) = some m.tag

abbrev pub is_null {ℓ} : {A : Type ℓ} → Option A → Bool
is_null none = true
is_null (some a) = false

abbrev pub or_empty : Option (List Text) → List Text
or_empty none = []
or_empty (some ds) = ds

-- The devices of a request, added to a queued job.
unfoldable pub merge_devices : (Text → Bool) → ℕ → Option (List Text) → Db → Result ScheduleError Db
unfolding make_for_all_devices
merge_devices known id none db = elim (make_for_all_devices id db) [
  | ok db' ↦ ok db'
  | err e ↦ err (bad_query e)
]
merge_devices known id (some kinds) db = ok (add_for_devices known id kinds db)

abbrev pub update_config : Row → Text → Db → Db
update_config candidate config db =
    if text_eq candidate.config config
    then db
    else update_row candidate.id (λ r. record r { config = config }) db

-- The merge with a queued job.
unfoldable pub merge_job :
    (Text → Bool) → JobTemplate → Text → Row → Db → Result ScheduleError (ℕ × Db)
unfolding merge_devices
merge_job known template config candidate db =
    let db' = update_config candidate config db in
    if candidate.all_devices
    then ok (candidate.id, db')
    else merge_devices known candidate.id template.for_devices db' >>= λ db''.
        ok (candidate.id, db'')

unfoldable pub new_job :
    (Text → Bool) → JobTemplate → Text → Option ModelInfo → Option ℕ → Text → Db → ℕ × Db
new_job known template job_type model depends_on config db = (
  db.next_id,
  create known
      (record {
        job_type = job_type;
        owner = template.owner;
        language = template.language;
        model_tag = tag_of model;
        config = config;
        depends_on = depends_on;
        all_devices = is_null template.for_devices;
      })
      (or_empty template.for_devices) db,
)

abbrev pub candidate_of : JobTemplate → Text → Option ModelInfo → Option ℕ → Db → Option Row
candidate_of template job_type model depends_on db =
    if is_null depends_on && job_type_is_mergeable job_type
    then get_next_of_type job_type template.language (tag_of model) db
    else none

-- `_queueOrMergeJob`: the id of the job, and the tables.
unfoldable pub queue_or_merge_job :
    (Text → Bool)
    → JobTemplate
    → Text
    → Option ModelInfo
    → Option ℕ
    → Db
    → Result ScheduleError (ℕ × Db)
unfolding get_job_config merge_job new_job
queue_or_merge_job known template job_type model depends_on db =
    get_job_config template job_type model >>= λ config.
    elim (candidate_of template job_type model depends_on db) [
      | some candidate ↦ merge_job known template config candidate db
      | none ↦ ok (new_job known template job_type model depends_on config db)
    ]

-- The loop over the affected models.
unfoldable pub train_models :
    (Text → Bool) → JobTemplate → Option ℕ → List ModelInfo → Db → Result ScheduleError Db
unfolding queue_or_merge_job
train_models known template depends_on [] db = ok db
train_models known template depends_on (m ∷ ms) db =
    if m.contextual
    then train_models known template depends_on ms db
    else queue_or_merge_job known template (codes "train") (some m) depends_on db >>= λ r.
        train_models known template depends_on ms r.1

-- The types of jobs that have a specification.
abbrev pub job_types : List Text
job_types = codes "update-dataset" ∷ []

unfoldable pub check_template : JobTemplate → Result ScheduleError (Unit {0})
check_template template =
    if elim template.for_devices [ none ↦ false | some [] ↦ true | some (d ∷ ds) ↦ false ]
    then err bad_devices
    else if text_eq template.language []
    then err bad_language
    else if text_eq template.job_type []
    then err bad_job_type
    else ok tt

-- `scheduleJob`; on an error the transaction leaves the tables as they were.
unfoldable pub schedule_job :
    (Text → Bool) → List ModelInfo → JobTemplate → Db → Result ScheduleError Db
unfolding check_template train_models queue_or_merge_job
schedule_job known affected template db = check_template template >>= λ _.
    if text_eq template.job_type (codes "update-dataset,train")
    then (queue_or_merge_job known template (codes "update-dataset") none none db >>= λ r.
        train_models known template (some r.0) affected r.1)
    else if text_eq template.job_type (codes "train")
    then train_models known template none affected db
    else if any_of (text_eq template.job_type) job_types
    then (queue_or_merge_job known template template.job_type none none db >>= λ r. ok r.1)
    else err invalid_job_type
