-- ===== src/Almond/EngineManager/Locked.antt =====
-- almond/enginemanager.ts, class EngineManager: the operations that hold the lock of their user. A caller
-- is a call of one of them, with what it has still to do; a step is what happens between two `await`s.
-- The removal of a directory leaves the manager as it is; the row of a user is an argument.
pub mod Moves
pub mod Alone
mod Tests
use genie_cloud.Base.{
  ℕ, suc, ◌≡◌, Bool, true, false, not, List, [], ◌∷◌, Option, none, some, Text, if◌then◌else◌,
  NatMap, update, ◌==◌, Result, ok, err,
}
use genie_cloud.Util.Lock.{Lock, new, acquire, acquired, unlock, queue_fulfilled}
use genie_cloud.Almond.EngineManager.{Manager, User}
use genie_cloud.Almond.EngineManager.Users.{
  begin_user, with_proxy, attach_user, run_user_engine, kill_user_locked, send_socket,
}

pub data Operation : Type 0 where
  start_user kill_user restart_user delete_user clear_cache restart_user_without_cache : Operation
  socket_sent : Text → Operation

-- What is done under the lock, between two `await`s each.
pub data Action : Type 0 where
  kill_engine look_up_dir remove_dir remove_cache begin_engine : Action
  attach_engine : ℕ → ℕ → Action
  send_message : Text → Action

-- The bodies of the operations, inside their `try`.
unfoldable pub plan_of : Operation → List Action
plan_of start_user = begin_engine ∷ []
plan_of kill_user = kill_engine ∷ []
plan_of restart_user = kill_engine ∷ begin_engine ∷ []
plan_of delete_user = kill_engine ∷ look_up_dir ∷ remove_dir ∷ []
plan_of clear_cache = look_up_dir ∷ remove_cache ∷ []
plan_of restart_user_without_cache = kill_engine ∷ look_up_dir ∷ remove_cache ∷ begin_engine ∷ []
plan_of (socket_sent message) = send_message message ∷ []

unfoldable pub deletes_lock : Operation → Bool
deletes_lock start_user = false
deletes_lock kill_user = false
deletes_lock restart_user = false
deletes_lock delete_user = true
deletes_lock clear_cache = false
deletes_lock restart_user_without_cache = false
deletes_lock (socket_sent message) = false

-- A call, with its lock and its turn there.
pub record Caller : Type 0 where
  pub user : ℕ
  pub operation : Operation
  pub lock : ℕ
  pub turn : ℕ
  pub entered : Bool
  pub released : Bool
  pub plan : List Action

-- The manager with its locks; locks are shared by reference.
pub record Office : Type 0 where
  pub manager : Manager
  pub locks : NatMap ℕ
  pub heap : ℕ → Lock
  pub next_lock : ℕ
  pub callers : NatMap Caller
  pub next_caller : ℕ

unfoldable pub new_office : Manager → Office
new_office m = record {
  manager = m;
  locks = λ u. none;
  heap = λ l. new;
  next_lock = 0;
  callers = λ c. none;
  next_caller = 0;
}

abbrev pub set_lock : (ℕ → Lock) → ℕ → Lock → ℕ → Lock
set_lock heap l lock k = if k == l then lock else heap k

-- The lock of a user, which is made where there is none.
unfoldable pub lock_of : ℕ → Option ℕ → Office → Office × ℕ
lock_of user (some l) o = (o, l)
lock_of user none o = (
  record o {
    locks = update o.locks user (some o.next_lock);
    heap = set_lock o.heap o.next_lock new;
    next_lock = suc o.next_lock;
  },
  o.next_lock,
)

-- A call up to the `await` of `acquire`.
unfoldable pub queue_caller : Operation → ℕ → ℕ → Office → Office
unfolding plan_of
queue_caller op user l o = record o {
  heap = set_lock o.heap l (acquire (o.heap l));
  callers = update o.callers o.next_caller (
      some (record {
        user = user;
        operation = op;
        lock = l;
        turn = (o.heap l).turns;
        entered = false;
        released = false;
        plan = plan_of op;
      }));
  next_caller = suc o.next_caller;
}

-- `_lockUser`, for an operation
unfoldable pub call : Operation → ℕ → Office → Office
unfolding lock_of queue_caller
call op user o =
    let locked = lock_of user (o.locks user) o in queue_caller op user locked.1 locked.0

-- The caller gets the lock.
unfoldable pub enter : ℕ → Caller → Office → Office
enter c caller o = record o {
  heap = set_lock o.heap caller.lock (acquired caller.turn (o.heap caller.lock));
  callers = update o.callers c (some (record caller { entered = true }));
}

abbrev pub then_plan : Manager × Bool → List Action → Manager × Option (List Action)
then_plan (m, threw) plan = (m, if threw then none else some plan)

-- One action: the manager, and what is still to be done behind it; none is a rejection, which leaves
-- what was done before it.
unfoldable pub act :
    (ℕ → Option User)
    → Bool
    → Bool
    → Manager
    → ℕ
    → Action
    → List Action
    → Manager × Option (List Action)
act get_user embedded disable_sandbox m user kill_engine rest =
    then_plan (kill_user_locked m user) rest
act get_user embedded disable_sandbox m user look_up_dir rest =
    then_plan
      (elim (m.engines user) [
        | none ↦ elim (get_user user) [ none ↦ (m, true) | some row ↦ (m, false) ]
        | some r ↦ kill_user_locked m user
      ])
      rest
act get_user embedded disable_sandbox m user remove_dir rest = (m, some rest)
act get_user embedded disable_sandbox m user remove_cache rest = (m, some rest)
act get_user embedded disable_sandbox m user begin_engine rest = elim (get_user user) [
  | none ↦ (m, none)
  | some row ↦ elim (begin_user disable_sandbox m row) [
    | none ↦ (with_proxy m row, none)
    | some (m', child, r) ↦ (m', some (attach_engine child r ∷ rest))
  ]
]
act get_user embedded disable_sandbox m user (attach_engine child r) rest = elim (get_user user) [
  | none ↦ (m, none)
  | some row ↦ then_plan (run_user_engine (attach_user embedded m row child r) row child) rest
]
act get_user embedded disable_sandbox m user (send_message message) rest =
    elim (send_socket m user message) [ ok m' ↦ (m', some rest) | err e ↦ (m, none) ]

-- A caller after an action; a rejection ends its plan.
unfoldable pub acted : ℕ → Caller → Manager × Option (List Action) → Office → Office
acted c caller (m, none) o = record o {
  manager = m;
  callers = update o.callers c (some (record caller { plan = [] }));
}
acted c caller (m, some plan) o = record o {
  manager = m;
  callers = update o.callers c (some (record caller { plan = plan }));
}

-- The `finally` of an operation.
unfoldable pub release : ℕ → Caller → Office → Office
unfolding deletes_lock
release c caller o = record o {
  heap = set_lock o.heap caller.lock (unlock caller.turn (o.heap caller.lock));
  locks = if deletes_lock caller.operation then update o.locks caller.user none else o.locks;
  callers = update o.callers c (some (record caller { released = true }));
}

abbrev pub IsActive : Caller → Type 0
IsActive caller = (caller.entered ≡ true) × (caller.released ≡ false)

module _ (allowed : Operation → Bool) (get_user : ℕ → Option User)
    (embedded disable_sandbox : Bool) where
  pub data Step : Office → Office → Type 0 where
    call_step :
        (o : Office) (op : Operation) (user : ℕ) → allowed op ≡ true → Step o (call op user o)
    enter_step :
        (o : Office) (c : ℕ) (caller : Caller)
        → o.callers c ≡ some caller
        → caller.entered ≡ false
        → queue_fulfilled (o.heap caller.lock) caller.turn ≡ true
        → Step o (enter c caller o)
    act_step :
        (o : Office) (c : ℕ) (caller : Caller) (a : Action) (rest : List Action)
        → o.callers c ≡ some caller
        → IsActive caller
        → caller.plan ≡ a ∷ rest
        → Step o
            (acted c caller (act get_user embedded disable_sandbox o.manager caller.user a rest) o)
    release_step :
        (o : Office) (c : ℕ) (caller : Caller)
        → o.callers c ≡ some caller
        → IsActive caller
        → caller.plan ≡ []
        → Step o (release c caller o)
    -- what processes and timers do to the manager
    manager_step : (o : Office) (m : Manager) → Step o (record o { manager = m })

  pub data Reachable : Office → Type 0 where
    opened : (m : Manager) → Reachable (new_office m)
    stepped : {o p : Office} → Reachable o → Step o p → Reachable p
