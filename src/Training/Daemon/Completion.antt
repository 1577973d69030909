-- ===== src/Training/Daemon/Completion.antt =====
-- training/daemon.js: what the end of a job does to the jobs that wait for it.
use genie_cloud.Base.{
  ℕ, zero, suc, ◌+◌, ◌≤◌, ◌<◌, ◌≡◌, refl, sym, ap, ◌∙◌, subst, inl, inr, Bool, true, false, not,
  ◌&&◌, List, [], ◌∷◌, map, Option, none, some, some-injective, if◌then◌else◌, ◌==◌, ==_iff,
  filter_of, All, Zip, Zip-map, Zip-trans, if-elim, All-imp, All-map, Bool-cases, arith,
}
use genie_cloud.Training.Jobs.{
  Row, depends, at_id, released, update_row, get_dependents, release_dependents,
}
use genie_cloud.Training.Daemon.{
  State, is_error, notify, completed, failed_dependent, released_state, record_job_completion,
}
use genie_cloud.Training.Daemon.Fails.{
  Fails, Fails-refl, Fails-trans, forced, reached, Earlier, InOrder, Rows-InOrder, named, Marked,
  Rows-Marked, Marks, each-Marks,
}

==_refl : (n : ℕ) → (n == n) ≡ true
==_refl n = ground arith

==_comm : (m n : ℕ) → (m == n) ≡ (n == m)
==_comm m n = ground arith

named-cons : (i : ℕ) (d : Row) (ds : List Row) → (d.id == i) ≡ true → named i (d ∷ ds) ≡ true
unfolding named
named-cons i d ds h = rw h refl

module _ (p : Row → Bool) where
  abbrev pub Found : List Row → Row → Type 0
  Found ds r = (p r && not (named r.id ds)) ≡ false

  Found-cons : (d : Row) (ds : List Row) (r : Row) → Found ds r → Found (d ∷ ds) r
  unfolding named
  Found-cons d ds r h = elim (Bool-cases (d.id == r.id)) [
    | inl e ↦ reached (p r) _ (named-cons r.id d ds e)
    | inr e ↦ rw e h
  ]

  named-filter_of : (rs : List Row) → All (Found (filter_of p rs)) rs
  named-filter_of [] = tt
  named-filter_of (r ∷ rs) =
      let rest = named-filter_of rs in
      if-elim (λ ds. All (Found ds) (r ∷ rs)) (p r)
        (λ e. (
          reached (p r) _ (named-cons r.id r _ (==_refl r.id)),
          All-imp _ _ (Found-cons r (filter_of p rs)) rs rest,
        ))
        (λ e. (rw e refl, rest))

-- The update of the row that failed.
update-Fails :
    (row : Row) → is_error row.status ≡ true → (r : Row) → Fails r (at_id row.id (completed row) r)
update-Fails row e r =
    if-elim (Fails r) (r.id == row.id)
      (λ h. record { same_id = refl; stays = reached (is_error r.status) _ e; link = inl refl })
      (λ h. Fails-refl r)

update-Marked :
    (row : Row)
    → is_error row.status ≡ true
    → (r : Row) → Marked (row ∷ []) (at_id row.id (completed row) r)
unfolding named
update-Marked row e r =
    if-elim (Marked (row ∷ [])) (r.id == row.id) (λ h. reached _ _ e)
      (λ h. rw (==_comm row.id r.id ∙ h) refl)

abbrev depends_on_is : ℕ → Option ℕ → Bool
depends_on_is id o = elim o [ none ↦ false | some d ↦ d == id ]

-- What waited for the row is an error by now, so that it may stop waiting.
released-Fails :
    (id : ℕ) (ds : List Row) (x y : Row)
    → Fails x y
    → Found (depends id) ds x
    → Marked ds y
    → Fails x (released id y)
released-Fails id ds x y f h m =
    if-elim (Fails x) (depends id y)
      (λ e. record { same_id = f.same_id; stays = f.stays; link = inr (refl, error_of e) }) (λ e. f)
  where
    error_of : depends id y ≡ true → is_error y.status ≡ true
    error_of e = elim f.link [
      | inr q ↦ q.1
      | inl q ↦
          let waits : depends id x ≡ true = ap (depends_on_is id) (sym q) ∙ e in
          let found = forced _ _ h waits in
          forced _ _ m (subst (λ i. named i ds ≡ true) (sym f.same_id) found)
    ]

released-free : (id : ℕ) (r : Row) → depends id (released id r) ≡ false
released-free id r = if-elim (λ r'. depends id r' ≡ false) (depends id r) (λ e. refl) (λ e. e)

rows-released :
    (id : ℕ) (ds xs ys : List Row)
    → Zip Fails xs ys
    → All (Found (depends id) ds) xs
    → All (Marked ds) ys
    → Zip Fails xs (map (released id) ys)
rows-released id ds [] [] z f m = tt
rows-released id ds (x ∷ xs) (y ∷ ys) z f m =
    (released-Fails id ds x y z.0 f.0 m.0, rows-released id ds xs ys z.1 f.1 m.1)
rows-released id ds [] (y ∷ ys) z f m = elim z [ ]
rows-released id ds (x ∷ xs) [] z f m = elim z [ ]

-- The dependents of a row in order come after it.
dependents-later :
    (id bound fuel : ℕ) (rs : List Row)
    → bound ≤ id + suc fuel
    → All (InOrder bound) rs
    → All (λ r. (r.id < bound) × (bound ≤ r.id + fuel)) (filter_of (depends id) rs)
dependents-later id bound fuel [] h o = tt
dependents-later id bound fuel (r ∷ rs) h o =
    let rest = dependents-later id bound fuel rs h o.1 in
    if-elim (All (λ d. (d.id < bound) × (bound ≤ d.id + fuel))) (depends id r)
      (λ e. ((o.0.below, later r.id r.depends_on o.0.earlier e), rest)) (λ e. rest)
  where
    later : (i : ℕ) (w : Option ℕ) → Earlier i w → depends_on_is id w ≡ true → bound ≤ i + fuel
    later i none a e = ground arith
    later i (some d) a e = omega (arith, a, (==_iff d id).0 e, h)

-- The marks of a dependent whose row was changed to an error.
failed_dependent-Marks :
    (d : Row) (s : State) (out : Option State)
    → Marks (failed_dependent d ∷ []) s out
    → Marks (d ∷ []) s out
unfolding named
failed_dependent-Marks d s out m = record {
  result = m.result;
  ends = m.ends;
  fails = m.fails;
  marked = m.marked;
}

-- The step around the recursion: the update before it, and the release after it.
around-Marks :
    (bound : ℕ) (row : Row) (s : State) (out : Option State)
    → is_error row.status ≡ true
    → (let db = update_row row.id (completed row) s.0 in
        Marks (get_dependents row.id db) (db, notify row s.1) out)
    → Marks (row ∷ []) s (
        released_state row.id (
          if is_error row.status
          then out
          else some (update_row row.id (completed row) s.0, notify row s.1)))
unfolding update_row get_dependents release_dependents
around-Marks bound row s out e m =
    let after = rows-released row.id _ _ _ m.fails (named-filter_of (depends row.id) _) m.marked in
    record {
      result = (release_dependents row.id m.result.0, m.result.1);
      ends = rw (e, m.ends) refl;
      fails =
          Zip-trans Fails Fails-trans _ _ _ (Zip-map Fails _ (update-Fails row e) s.0.rows) after;
      marked =
          Rows-Marked (row ∷ []) _ _ after
            (All-map (Marked (row ∷ [])) _ (update-Marked row e) s.0.rows);
    }

-- Where a job fails, every id is below a bound, every job waits for one of a smaller id, and the fuel
-- reaches from the id of the job to the bound: `_recordJobCompletion` ends; every row keeps its id, an
-- error stays one, a row keeps what it waits for or has failed, and the row of the job is an error.
pub record_fails :
    (bound fuel : ℕ) (row : Row) (s : State)
    → is_error row.status ≡ true
    → row.id < bound
    → bound ≤ row.id + fuel
    → All (InOrder bound) s.0.rows
    → Marks (row ∷ []) s (record_job_completion fuel row s)
unfolding record_job_completion update_row get_dependents release_dependents
record_fails bound zero row s e b h o = absurd (omega (arith, b, h))
record_fails bound (suc fuel) row s e b h o =
    let db = update_row row.id (completed row) s.0 in
    let start : State = (db, notify row s.1) in
    let in_order = Rows-InOrder bound _ _ (Zip-map Fails _ (update-Fails row e) s.0.rows) o in
    around-Marks bound row s _ e (
      each-Marks bound _ (get_dependents row.id db)
        (All-imp _ _
          (λ d lim t ord.
            failed_dependent-Marks d t _
              (record_fails bound fuel (failed_dependent d) t refl lim.0 lim.1 ord))
          _ (dependents-later row.id bound fuel _ h in_order))
        start in_order)

-- A completion that returns some state leaves no row that waits for the completed one.
released_state-free :
    (id : ℕ) (out : Option State) (s : State)
    → released_state id out ≡ some s
    → All (λ r. depends id r ≡ false) s.0.rows
unfolding release_dependents
released_state-free id none s e = absurd (ground arith)
released_state-free id (some t) s e =
    subst (λ u. All (λ r. depends id r ≡ false) u.0.rows) (some-injective _ _ e)
      (All-map (λ r. depends id r ≡ false) (released id) (released-free id) t.0.rows)

record_free :
    (fuel : ℕ) (row : Row) (s s' : State)
    → record_job_completion fuel row s ≡ some s'
    → All (λ r. depends row.id r ≡ false) s'.0.rows
unfolding record_job_completion
record_free zero row s s' e = absurd (ground arith)
record_free (suc fuel) row s s' e = released_state-free row.id _ s' e

-- A job that did not fail only frees the jobs that wait for it.
record_succeeds :
    (bound fuel : ℕ) (row : Row) (s : State)
    → is_error row.status ≡ false
    → row.id < bound
    → bound ≤ row.id + fuel
    → (s' : State) × (record_job_completion fuel row s ≡ some s')
unfolding record_job_completion
record_succeeds bound zero row s e b h = absurd (omega (arith, b, h))
record_succeeds bound (suc fuel) row s e b h =
    ((release_dependents row.id (update_row row.id (completed row) s.0), notify row s.1), rw e refl)

-- Where every id is below a bound, every job waits for one of a smaller id, and the fuel reaches from
-- the id of the completed job to the bound, `_recordJobCompletion` ends, and no job waits for the
-- completed one any more.
pub record_total :
    (bound fuel : ℕ) (row : Row) (s : State)
    → row.id < bound
    → bound ≤ row.id + fuel
    → All (InOrder bound) s.0.rows
    → (s' : State) × (record_job_completion fuel row s ≡ some s')
      × All (λ r. depends row.id r ≡ false) s'.0.rows
record_total bound fuel row s b h o = elim (Bool-cases (is_error row.status)) [
  | inl e ↦
      let m = record_fails bound fuel row s e b h o in
      (m.result, m.ends, record_free fuel row s m.result m.ends)
  | inr e ↦
      let r = record_succeeds bound fuel row s e b h in (r.0, r.1, record_free fuel row s r.0 r.1)
]
