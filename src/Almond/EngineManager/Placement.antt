-- ===== src/Almond/EngineManager/Placement.antt =====
-- About the place of a user's engine, and about stopping.
use genie_cloud.Base.{
  ℕ, ◌+◌, ◌%◌, ◌<◌, ◌≡◌, refl, Bool, true, false, not, ◌&&◌, ◌||◌, ◌⊎◌, List, [], ◌∷◌, Option, none,
  some, get_elem?-below, arith, if◌then◌else◌, Bool-cases, Option-cases, inl, inr, ◌∙◌, update, All,
  All-get, get_elem?, length,
}
use genie_cloud.Almond.EngineProcess.{
  ProcessId, user_process, EngineProcess, Effect, emit_exit, emit_removed, Step, new_process, start,
}
use genie_cloud.Almond.EngineManager.{
  id_eq, find_process, User, Listener, forget_process, restart_process, die_of, Manager, die,
  unlisten, drop_engine, hear_exit, hear_exits, fire_exit, is_shared, hear_removed, fire_removed,
  deliver, on_process,
}
use genie_cloud.Almond.EngineManager.Processes.{find_process-put_process}
use genie_cloud.Almond.EngineManager.Users.{find_process_for_user, create_process, is_none}

-- The processes of the round robin are shared, and its cursor is within them.
pub record IsRoundRobin (m : Manager) : Type 0 where
  pub cursor : m.next_process < length m.rrproc
  pub all_shared : All (λ r. is_shared (m.procs r) ≡ true) m.rrproc

abbrev pub id_of : Option EngineProcess → Option ProcessId
id_of none = none
id_of (some p) = some p.id

-- A user is placed on the shared process at the cursor, which moves on by one, round and round.
pub record PlacedShared (m n : Manager) (user : User) (child : ℕ) : Type 0 where
  pub no_key : is_none user.developer_key ≡ true
  pub not_forced : user.force_separate_process ≡ false
  pub at_cursor : get_elem? m.rrproc m.next_process ≡ some child
  pub shared : is_shared (n.procs child) ≡ true
  pub cursor : n.next_process ≡ (m.next_process + 1) % length m.rrproc
  pub circle : n.rrproc ≡ m.rrproc
  pub listed : n.processes ≡ m.processes

-- A user gets a process of their own: a new one, of their id, which is listed under that id and under
-- no other, and whose death is heard.
pub record PlacedAlone (m n : Manager) (user : User) (child : ℕ) (other : ProcessId) : Type 0 where
  pub asked : (not (is_none user.developer_key) || user.force_separate_process) ≡ true
  pub is_new : (child ≡ m.next_ref) × (child < n.next_ref)
  pub named : id_of (n.procs child) ≡ some (user_process user.id)
  pub alone : is_shared (n.procs child) ≡ false
  pub listed :
      find_process other n.processes
      ≡ (if id_eq (user_process user.id) other then some child else find_process other m.processes)
  pub heard : n.on_exit child ≡ forget_process user.id ∷ []
  pub cursor : n.next_process ≡ m.next_process
  pub circle : n.rrproc ≡ m.rrproc

-- Where the round robin is in order, a process is found for every user. A user with a developer key, or
-- one who asks for it, gets a new process of their own, named after them and listed under their id and
-- no other; any other user gets the shared process at the cursor, which then moves on by one, round and
-- round.
pub find_process_for_user_lem :
    (d : Bool) (m : Manager) (user : User) (other : ProcessId)
    → IsRoundRobin m
    → (n : Manager) × (child : ℕ) × (find_process_for_user d m user ≡ some (n, child))
      × (PlacedShared m n user child ⊎ PlacedAlone m n user child other)
unfolding find_process_for_user create_process new_process start
find_process_for_user_lem d m user other rr =
    elim (Bool-cases (is_none user.developer_key && not user.force_separate_process)) [
      | inl common ↦
          let (c, there) = get_elem?-below m.rrproc m.next_process rr.cursor in
          (
            record m { next_process = (m.next_process + 1) % length m.rrproc },
            c,
            rw (common, there) refl,
            inl (record {
              no_key = ground arith;
              not_forced = ground arith;
              at_cursor = there;
              shared = All-get _ m.rrproc m.next_process rr.all_shared there;
              cursor = refl;
              circle = refl;
              listed = refl;
            }),
          )
      | inr own ↦ (
        create_process d m (user_process user.id) (some user.cloud_id) (forget_process user.id),
        m.next_ref,
        rw own refl,
        inr (record {
          asked = ground arith;
          is_new = (refl, omega arith);
          named = ground arith;
          alone = ground arith;
          listed = find_process-put_process (user_process user.id) other m.next_ref m.processes;
          heard = ground arith;
          cursor = refl;
          circle = refl;
        }),
      )
    ]

-- Where the round robin is in order and a process is found, the cursor stays within the shared
-- processes.
pub find_process_for_user-cursor :
    (d : Bool) (m n : Manager) (user : User) (child : ℕ)
    → IsRoundRobin m
    → find_process_for_user d m user ≡ some (n, child)
    → n.next_process < length n.rrproc
unfolding find_process_for_user create_process
find_process_for_user-cursor d m n user child rr e =
    elim (Bool-cases (is_none user.developer_key && not user.force_separate_process)) [
      | inl common ↦ elim (Option-cases (get_elem? m.rrproc m.next_process)) [
        | inl missing ↦ absurd (ground arith)
        | inr (c, there) ↦
            let same : n ≡ record m { next_process = (m.next_process + 1) % length m.rrproc } =
              ground arith in
            rw same (omega (arith, rr.cursor))
      ]
      | inr own ↦
          let same : (n.next_process ≡ m.next_process) × (n.rrproc ≡ m.rrproc) = ground arith in
          rw same.0 (rw same.1 rr.cursor)
    ]

-- Once the manager is stopped, no death sets a timer that would start something again.
module _ (m : Manager) (stopped : m.stopped ≡ true) where
  die-timers :
      (r : ℕ) (manual : Bool)
      → ((die m r manual).user_restarts ≡ m.user_restarts)
        × ((die m r manual).process_restarts ≡ m.process_restarts)
        × ((die m r manual).stopped ≡ true)
  unfolding die unlisten drop_engine
  die-timers r manual = ground arith

  hear_exit-timers :
      (p : ℕ) (manual : Bool) (l : Listener)
      → ((hear_exit m p manual l).user_restarts ≡ m.user_restarts)
        × ((hear_exit m p manual l).process_restarts ≡ m.process_restarts)
        × ((hear_exit m p manual l).stopped ≡ true)
  unfolding hear_exit
  hear_exit-timers p manual (forget_process u) = ground arith
  hear_exit-timers p manual restart_process = ground arith
  hear_exit-timers p manual (die_of r) = die-timers r manual

-- Nothing is to start again.
pub record Quiet (m n : Manager) : Type 0 where
  pub users : n.user_restarts ≡ m.user_restarts
  pub processes : n.process_restarts ≡ m.process_restarts
  pub stopped : n.stopped ≡ true

Quiet-trans : {k m n : Manager} → Quiet k m → Quiet m n → Quiet k n
Quiet-trans a b = record {
  users = b.users ∙ a.users;
  processes = b.processes ∙ a.processes;
  stopped = b.stopped;
}

hear_exits-Quiet :
    (ls : List Listener) (m : Manager) (p : ℕ) (manual : Bool)
    → m.stopped ≡ true
    → Quiet m (hear_exits m p manual ls)
unfolding hear_exits
hear_exits-Quiet [] m p manual s = record { users = refl; processes = refl; stopped = s }
hear_exits-Quiet (l ∷ ls) m p manual s =
    let (a, b, c) = hear_exit-timers m s p manual l in
    Quiet-trans (record { users = a; processes = b; stopped = c })
      (hear_exits-Quiet ls (hear_exit m p manual l) p manual c)

if-Quiet :
    (b : Bool) (m : Manager) (r : ℕ) → m.stopped ≡ true → Quiet m (if b then die m r true else m)
if-Quiet true m r s =
    let (a, b, c) = die-timers m s r true in record { users = a; processes = b; stopped = c }
if-Quiet false m r s = record { users = refl; processes = refl; stopped = s }

hear_removed-Quiet :
    (rs : List ℕ) (m : Manager) (u : ℕ) → m.stopped ≡ true → Quiet m (hear_removed m u rs)
unfolding hear_removed
hear_removed-Quiet [] m u s = record { users = refl; processes = refl; stopped = s }
hear_removed-Quiet (r ∷ rs) m u s =
    let q = if-Quiet _ m r s in Quiet-trans q (hear_removed-Quiet rs _ u q.stopped)

deliver-Quiet :
    (es : List Effect) (m : Manager) (p : ℕ) → m.stopped ≡ true → Quiet m (deliver m p es)
unfolding deliver fire_exit fire_removed
deliver-Quiet [] m p s = record { users = refl; processes = refl; stopped = s }
deliver-Quiet (emit_exit manual ∷ es) m p s =
    let q = hear_exits-Quiet (m.on_exit p) m p manual s in
    Quiet-trans q (deliver-Quiet es _ p q.stopped)
deliver-Quiet (emit_removed u ∷ es) m p s =
    let q = hear_removed-Quiet (m.on_removed p) m u s in
    Quiet-trans q (deliver-Quiet es _ p q.stopped)
deliver-Quiet (_ ∷ es) m p s = deliver-Quiet es m p s

-- Where the manager is stopped, what a process does leaves it stopped, and adds no timer that would
-- start a user or a process again.
pub on_process-Quiet :
    (m : Manager) (p : ℕ) (s : Step) → m.stopped ≡ true → Quiet m (on_process m p s)
unfolding on_process
on_process-Quiet m p (q, es) s =
    let r = deliver-Quiet es (record m { procs = update m.procs p (some q) }) p s in
    record { users = r.users; processes = r.processes; stopped = r.stopped }
