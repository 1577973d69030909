-- ===== src/Training/Jobs.antt =====
-- model/training_job.ts: the table of training jobs, as the statements of SQL read and change it.
-- The rows stand in the order of their ids, which the database counts up. The columns that only
-- display anything (progress, eta, metrics) are left out.
use genie_cloud.Base.{
  ℕ, ◌+◌, Bool, true, false, ◌&&◌, ◌||◌, List, [], ◌∷◌, ◌++◌, map, Option, none, some, Text,
  text_eq, if◌then◌else◌, ◌==◌, any_of, filter_of, Result, err,
}

pub data JobStatus : Type 0 where
  queued started success error : JobStatus

abbrev pub is_queued : JobStatus → Bool
is_queued queued = true
is_queued started = false
is_queued success = false
is_queued error = false

abbrev pub is_started : JobStatus → Bool
is_started queued = false
is_started started = true
is_started success = false
is_started error = false

pub record Row : Type 0 where
  pub id : ℕ
  pub depends_on : Option ℕ
  pub job_type : Text
  pub owner : Option ℕ
  pub language : Text
  pub model_tag : Option Text
  pub all_devices : Bool
  pub status : JobStatus
  pub task_index : Option ℕ
  pub task_name : Option Text
  pub error_message : Option Text
  pub start_time : Option ℕ
  pub end_time : Option ℕ
  pub config : Text

-- The tables of jobs, of the devices of a job and of the tasks that were done.
pub record Db : Type 0 where
  pub rows : List Row
  pub next_id : ℕ
  pub for_devices : List (ℕ × Text)
  pub history : List (ℕ × Text)

abbrev pub depends : ℕ → Row → Bool
depends id r = elim r.depends_on [ none ↦ false | some d ↦ d == id ]

abbrev pub is_free : Row → Bool
is_free r = elim r.depends_on [ none ↦ true | some d ↦ false ]

-- `update training_jobs set ? where id = ?`
abbrev pub at_id : ℕ → (Row → Row) → Row → Row
at_id id f r = if r.id == id then f r else r

unfoldable pub update_row : ℕ → (Row → Row) → Db → Db
update_row id f db = record db { rows = map (at_id id f) db.rows }

-- `insert ignore into training_job_for_devices`
abbrev pub has_device : List (ℕ × Text) → ℕ → Text → Bool
has_device ds id kind = any_of (λ d. d.0 == id && text_eq d.1 kind) ds

abbrev pub add_devices : List (ℕ × Text) → ℕ → List Text → List (ℕ × Text)
add_devices ds id [] = ds
add_devices ds id (k ∷ ks) =
    add_devices (if has_device ds id k then ds else (ds ++ (id, k) ∷ [])) id ks

-- `addForDevices`, of the kinds that the table of devices knows.
unfoldable pub add_for_devices : (Text → Bool) → ℕ → List Text → Db → Db
add_for_devices known id kinds db = record db {
  for_devices = add_devices db.for_devices id (filter_of known kinds);
}

pub data DbError : Type 0 where
  unknown_column : DbError

-- `makeForAllDevices`: its second statement names a column that the table has not.
unfoldable pub make_for_all_devices : ℕ → Db → Result DbError Db
make_for_all_devices id db = err unknown_column

-- `recordTask`: `replace into`
unfoldable pub record_task : ℕ → Text → Db → Db
record_task id name db = record db {
  history =
      if any_of (λ h. h.0 == id && text_eq h.1 name) db.history
      then db.history
      else (id, name) ∷ db.history;
}

abbrev pub released : ℕ → Row → Row
released id r = if depends id r then record r { depends_on = none } else r

unfoldable pub release_dependents : ℕ → Db → Db
release_dependents id db = record db { rows = map (released id) db.rows }

unfoldable pub get_dependents : ℕ → Db → List Row
get_dependents id db = filter_of (depends id) db.rows

unfoldable pub get_all_in_progress : Db → List Row
get_all_in_progress db = filter_of (λ r. is_started r.status) db.rows

-- `order by id limit 1`
abbrev pub find_row : (Row → Bool) → List Row → Option Row
find_row p [] = none
find_row p (r ∷ rs) = let rest = find_row p rs in if p r then some r else rest

abbrev pub is_next : Text → Row → Bool
is_next job_type r = is_queued r.status && text_eq r.job_type job_type && is_free r

unfoldable pub get_next_job : Text → Db → Option Row
get_next_job job_type db = find_row (is_next job_type) db.rows

abbrev pub same_tag : Option Text → Option Text → Bool
same_tag none none = true
same_tag none (some t) = false
same_tag (some s) none = false
same_tag (some s) (some t) = text_eq s t

unfoldable pub get_next_of_type : Text → Text → Option Text → Db → Option Row
get_next_of_type job_type language tag db =
    find_row
      (λ r.
        is_queued r.status
        && text_eq r.job_type job_type
        && text_eq r.language language
        && same_tag r.model_tag tag)
      db.rows

unfoldable pub get_for_update : ℕ → Db → Option Row
get_for_update id db = find_row (λ r. r.id == id) db.rows

-- `create`, with the defaults of the columns.
pub record NewJob : Type 0 where
  pub job_type : Text
  pub owner : Option ℕ
  pub language : Text
  pub model_tag : Option Text
  pub config : Text
  pub depends_on : Option ℕ
  pub all_devices : Bool

unfoldable pub create : (Text → Bool) → NewJob → List Text → Db → Db
unfolding add_for_devices
create known job kinds db = add_for_devices known db.next_id kinds (record db {
  rows =
      db.rows
      ++ (record {
        id = db.next_id;
        depends_on = job.depends_on;
        job_type = job.job_type;
        owner = job.owner;
        language = job.language;
        model_tag = job.model_tag;
        all_devices = job.all_devices;
        status = queued;
        task_index = none;
        task_name = none;
        error_message = none;
        start_time = none;
        end_time = none;
        config = job.config;
      })
        ∷ [];
  next_id = db.next_id + 1;
})

-- `getQueue`
unfoldable pub get_queue : Db → List Row
get_queue db = filter_of (λ r. is_started r.status || is_queued r.status) db.rows

-- `getForDevice`
unfoldable pub get_for_device : Text → Text → Db → List Row
get_for_device language device db =
    filter_of
      (λ r.
        text_eq r.language language
        && (is_started r.status || is_queued r.status)
        && (r.all_devices || has_device db.for_devices r.id device))
      db.rows

unfoldable pub read_for_devices : ℕ → Db → List Text
read_for_devices id db = map (λ d. d.1) (filter_of (λ d. d.0 == id) db.for_devices)
