-- ===== src/Training/Daemon/Schedule/Order.antt =====
-- training/daemon.js: about the ids of the table, and the jobs that wait for others, when jobs are queued.
use genie_cloud.Base.{
  ℕ, ◌+◌, ◌≡◌, refl, subst, ◌≤◌, ◌<◌, Bool, ◌&&◌, List, [], ◌∷◌, ◌++◌, map, Option, none, some,
  some-injective, Text, codes, if-elim, ok, OnOk, OnOk-bind, OnOk-ok, OnOk-any, All, All-imp, arith,
  ◌==◌, text_eq, any_of,
}
use genie_cloud.Training.Jobs.{
  Row, Db, find_row, at_id, update_row, create, get_next_of_type, add_for_devices,
  make_for_all_devices,
}
use genie_cloud.Training.Daemon.Fails.{Earlier, InOrder}
use genie_cloud.Training.Daemon.Schedule.{
  JobTemplate, ModelInfo, get_job_config, merge_devices, update_config, merge_job, new_job,
  candidate_of, queue_or_merge_job, train_models, check_template, schedule_job, is_null,
  job_type_is_mergeable, job_types,
}

abbrev pub Ordered : Db → Type 0
Ordered db = All (InOrder db.next_id) db.rows

-- A dependency on a job that the table has had.
abbrev pub Known : ℕ → Option ℕ → Type 0
Known n none = Unit
Known n (some d) = d < n

-- The tables after a job was queued.
pub record Queued (db : Db) (id : ℕ) (db' : Db) : Type 0 where
  pub ordered : Ordered db'
  pub known : id < db'.next_id
  pub counts : db.next_id ≤ db'.next_id

InOrder-mono : (m n : ℕ) → m ≤ n → (r : Row) → InOrder m r → InOrder n r
InOrder-mono m n h r o = record { below = omega (arith, h, o.below); earlier = o.earlier }

find_row-All :
    (P : Row → Type 0) (p : Row → Bool) (rs : List Row) (r : Row)
    → All P rs
    → find_row p rs ≡ some r
    → P r
find_row-All P p [] r a e = absurd (ground arith)
find_row-All P p (x ∷ rs) r a e =
    if-elim (λ o. o ≡ some r → P r) (p x) (λ h q. subst P (some-injective _ _ q) a.0)
      (λ h. find_row-All P p rs r a.1) e

update_row-Ordered :
    (id : ℕ) (c : Text) (db : Db)
    → Ordered db
    → Ordered (update_row id (λ r. record r { config = c }) db)
unfolding update_row
update_row-Ordered id c db o = go db.rows o
  where
    one :
        (r : Row)
        → InOrder db.next_id r
        → InOrder db.next_id (at_id id (λ r. record r { config = c }) r)
    one r h =
        if-elim (InOrder db.next_id) (r.id == id)
          (λ e. record { below = h.below; earlier = h.earlier }) (λ e. h)

    go :
        (rs : List Row)
        → All (InOrder db.next_id) rs
        → All (InOrder db.next_id) (map (at_id id (λ r. record r { config = c })) rs)
    go [] a = tt
    go (r ∷ rs) a = (one r a.0, go rs a.1)

All-snoc : (P : Row → Type 0) (rs : List Row) (r : Row) → All P rs → P r → All P (rs ++ r ∷ [])
All-snoc P [] r a p = (p, tt)
All-snoc P (x ∷ rs) r a p = (a.0, All-snoc P rs r a.1 p)

new_job-Queued :
    (known : Text → Bool) (t : JobTemplate) (ty : Text) (m : Option ModelInfo) (d : Option ℕ)
    (c : Text) (db : Db)
    → Ordered db
    → Known db.next_id d
    → Queued db (new_job known t ty m d c db).0 (new_job known t ty m d c db).1
unfolding new_job create add_for_devices
new_job-Queued known t ty m d c db o k = record {
  ordered =
      All-snoc _ db.rows _
        (All-imp _ _ (InOrder-mono db.next_id (db.next_id + 1) (omega arith)) db.rows o)
        (record { below = omega arith; earlier = earlier d k });
  known = omega arith;
  counts = omega arith;
}
  where
    earlier : (d : Option ℕ) → Known db.next_id d → Earlier db.next_id d
    earlier none k = tt
    earlier (some i) k = k

-- A change that keeps the rows in order and the counter.
abbrev Keeps : Db → Db → Type 0
Keeps db db' = Ordered db' × (db'.next_id ≡ db.next_id)

update_config-Keeps : (r : Row) (c : Text) (db : Db) → Ordered db → Keeps db (update_config r c db)
unfolding update_row
update_config-Keeps r c db o =
    if-elim (Keeps db) (text_eq r.config c) (λ e. (o, refl))
      (λ e. (update_row-Ordered r.id c db o, refl))

merge_devices-Keeps :
    (known : Text → Bool) (id : ℕ) (ds : Option (List Text)) (db : Db)
    → Ordered db
    → OnOk (Keeps db) (merge_devices known id ds db)
unfolding merge_devices make_for_all_devices add_for_devices
merge_devices-Keeps known id none db o = tt
merge_devices-Keeps known id (some ds) db o = (o, refl)

abbrev QueuedOf : Db → ℕ × Db → Type 0
QueuedOf db r = Queued db r.0 r.1

merge_job-Queued :
    (known : Text → Bool) (t : JobTemplate) (c : Text) (r : Row) (db : Db)
    → Ordered db
    → r.id < db.next_id
    → OnOk (QueuedOf db) (merge_job known t c r db)
unfolding merge_job
merge_job-Queued known t c r db o b =
    let k = update_config-Keeps r c db o in
    if-elim (OnOk (QueuedOf db)) r.all_devices
      (λ e. record { ordered = k.0; known = omega (arith, k.1, b); counts = omega (arith, k.1) })
      (λ e.
        OnOk-bind (Keeps (update_config r c db)) (QueuedOf db)
          (merge_devices known r.id t.for_devices (update_config r c db)) _
          (merge_devices-Keeps known r.id t.for_devices (update_config r c db) k.0)
          (λ db' k'. record {
            ordered = k'.0;
            known = omega (arith, k.1, k'.1, b);
            counts = omega (arith, k.1, k'.1);
          }))

candidate-known :
    (t : JobTemplate) (ty : Text) (m : Option ModelInfo) (d : Option ℕ) (db : Db) (r : Row)
    → Ordered db
    → candidate_of t ty m d db ≡ some r
    → r.id < db.next_id
unfolding get_next_of_type
candidate-known t ty m d db r o =
    if-elim (λ o. o ≡ some r → r.id < db.next_id) (is_null d && job_type_is_mergeable ty)
      (λ h e. (find_row-All (InOrder db.next_id) _ db.rows r o e).below)
      (λ h e. absurd (ground arith))

queue_or_merge_job-Queued :
    (known : Text → Bool) (t : JobTemplate) (ty : Text) (m : Option ModelInfo) (d : Option ℕ)
    (db : Db)
    → Ordered db
    → Known db.next_id d
    → OnOk (QueuedOf db) (queue_or_merge_job known t ty m d db)
unfolding queue_or_merge_job
queue_or_merge_job-Queued known t ty m d db o k =
    OnOk-bind (λ c. Unit) (QueuedOf db) (get_job_config t ty m) _ (OnOk-any (get_job_config t ty m))
      (λ c u. with_candidate c (candidate_of t ty m d db) (λ r. candidate-known t ty m d db r o))
  where
    with_candidate :
        (c : Text) (found : Option Row)
        → ((r : Row) → found ≡ some r → r.id < db.next_id)
        → OnOk (QueuedOf db) (elim found [
          | some candidate ↦ merge_job known t c candidate db
          | none ↦ ok (new_job known t ty m d c db)
        ])
    with_candidate c none h = new_job-Queued known t ty m d c db o k
    with_candidate c (some r) h = merge_job-Queued known t c r db o (h r refl)

Known-mono : (m n : ℕ) → m ≤ n → (d : Option ℕ) → Known m d → Known n d
Known-mono m n h none k = tt
Known-mono m n h (some d) k = omega (arith, h, k)

train_models-Ordered :
    (known : Text → Bool) (t : JobTemplate) (d : Option ℕ) (ms : List ModelInfo) (db : Db)
    → Ordered db
    → Known db.next_id d
    → OnOk Ordered (train_models known t d ms db)
unfolding train_models
train_models-Ordered known t d [] db o k = o
train_models-Ordered known t d (m ∷ ms) db o k =
    if-elim (OnOk Ordered) m.contextual (λ e. train_models-Ordered known t d ms db o k)
      (λ e.
        OnOk-bind (QueuedOf db) Ordered (queue_or_merge_job known t (codes "train") (some m) d db) _
          (queue_or_merge_job-Queued known t (codes "train") (some m) d db o k)
          (λ r q. train_models-Ordered known t d ms r.1 q.ordered (Known-mono _ _ q.counts d k)))

schedule_job-OnOk :
    (known : Text → Bool) (affected : List ModelInfo) (t : JobTemplate) (db : Db)
    → Ordered db
    → OnOk Ordered (schedule_job known affected t db)
unfolding schedule_job
schedule_job-OnOk known affected t db o =
    OnOk-bind (λ u. Unit) Ordered (check_template t) _ (OnOk-any (check_template t))
      (λ u v.
        if-elim (OnOk Ordered) (text_eq t.job_type (codes "update-dataset,train"))
          (λ e.
            OnOk-bind (QueuedOf db) Ordered
              (queue_or_merge_job known t (codes "update-dataset") none none db) _
              (queue_or_merge_job-Queued known t (codes "update-dataset") none none db o tt)
              (λ r q. train_models-Ordered known t (some r.0) affected r.1 q.ordered q.known))
          (λ e.
            if-elim (OnOk Ordered) (text_eq t.job_type (codes "train"))
              (λ e. train_models-Ordered known t none affected db o tt)
              (λ e.
                if-elim (OnOk Ordered) (any_of (text_eq t.job_type) job_types)
                  (λ e.
                    OnOk-bind (QueuedOf db) Ordered
                      (queue_or_merge_job known t t.job_type none none db) _
                      (queue_or_merge_job-Queued known t t.job_type none none db o tt)
                      (λ r q. q.ordered))
                  (λ e. tt))))

-- A request that is queued keeps every id below the counter, and every job waiting for one of a
-- smaller id.
pub schedule_job-Ordered :
    (known : Text → Bool) (affected : List ModelInfo) (t : JobTemplate) (db db' : Db)
    → Ordered db
    → schedule_job known affected t db ≡ ok db'
    → Ordered db'
schedule_job-Ordered known affected t db db' o e =
    OnOk-ok Ordered (schedule_job known affected t db) db' (schedule_job-OnOk known affected t db o)
      e
