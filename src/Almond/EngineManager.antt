-- ===== src/Almond/EngineManager.antt =====
-- almond/enginemanager.ts, class EngineManager: the users' engines, the processes that run them, and
-- the listeners that tie the two. Processes and the `EngineProxy` objects are shared by reference, so
-- they lie in a store; a method runs between two of its `await`s.
pub mod Users
pub mod Locked
pub mod Death
pub mod Tied
pub mod Processes
pub mod Placement
mod Tests
use genie_cloud.Base.{
  ℕ, suc, ◌+◌, ◌%◌, Bool, true, false, not, ◌&&◌, ◌||◌, List, [], ◌∷◌, ◌++◌, Option, none, some,
  Text, codes, if◌then◌else◌, ◌==◌, ltb, text_eq, NatMap, update, get_elem?, length, filter_of,
  Result, ok, err,
}
use genie_cloud.Almond.EngineProcess.{
  EngineProcess, ProcessId, user_process, shared_process, Effect, emit_exit, emit_removed, Step,
  new_process, run_engine, kill, kill_engine, restart, start,
}

-- The columns of a user's row that the manager reads.
pub record User : Type 0 where
  pub id : ℕ
  pub cloud_id : Text
  pub developer_key : Option Text
  pub force_separate_process : Bool

-- `EngineProxy`, with the user that its listeners close over.
pub record EngineProxy : Type 0 where
  pub user_id : ℕ
  pub cloud_id : Text
  pub process : Option ℕ
  pub thingpedia_client : Bool

-- The listeners of the event `exit`: of a user's own process, of a shared process, and the `die` of
-- a proxy.
pub data Listener : Type 0 where
  forget_process : ℕ → Listener
  restart_process : Listener
  die_of : ℕ → Listener

pub record Manager : Type 0 where
  pub shard_id : ℕ
  pub processes : List (ProcessId × ℕ)
  pub rrproc : List ℕ
  pub next_process : ℕ
  pub engines : NatMap ℕ
  pub stopped : Bool
  -- the store
  pub procs : NatMap EngineProcess
  pub on_exit : ℕ → List Listener
  pub on_removed : ℕ → List ℕ
  pub proxies : NatMap EngineProxy
  pub next_ref : ℕ
  -- the timers that were set: restarts of users, and of shared processes
  pub user_restarts : List ℕ
  pub process_restarts : List ℕ
  -- the clients that were freed
  pub freed : List ℕ

unfoldable pub new_manager : ℕ → Manager
new_manager shard_id = record {
  shard_id = shard_id;
  processes = [];
  rrproc = [];
  next_process = 0;
  engines = λ u. none;
  stopped = false;
  procs = λ r. none;
  on_exit = λ r. [];
  on_removed = λ r. [];
  proxies = λ r. none;
  next_ref = 0;
  user_restarts = [];
  process_restarts = [];
  freed = [];
}

abbrev pub id_eq : ProcessId → ProcessId → Bool
id_eq (user_process a) (user_process b) = a == b
id_eq (shared_process a) (shared_process b) = text_eq a b
id_eq _ _ = false

unfoldable pub find_process : ProcessId → List (ProcessId × ℕ) → Option ℕ
find_process k [] = none
find_process k ((j, r) ∷ m) = if id_eq j k then some r else find_process k m

pub drop_process : ProcessId → List (ProcessId × ℕ) → List (ProcessId × ℕ)
drop_process k [] = []
drop_process k ((j, r) ∷ m) = if id_eq j k then m else (j, r) ∷ drop_process k m

unfoldable pub put_process : ProcessId → ℕ → List (ProcessId × ℕ) → List (ProcessId × ℕ)
put_process k r [] = (k, r) ∷ []
put_process k r ((j, q) ∷ m) = if id_eq j k then (j, r) ∷ m else (j, q) ∷ put_process k r m

abbrev pub is_die_of : ℕ → Listener → Bool
is_die_of r (die_of q) = q == r
is_die_of r _ = false

-- A value at one key of a total map.
abbrev pub put_at {ℓ} : {A : Type ℓ} → (ℕ → A) → ℕ → A → ℕ → A
put_at f k v j = if j == k then v else f j

abbrev pub is_shared : Option EngineProcess → Bool
is_shared none = false
is_shared (some p) = p.shared

-- `removeListener`, for both listeners of a proxy, and `$free` of its client.
unfoldable pub unlisten : Manager → ℕ → ℕ → Bool → Manager
unlisten m r p client = record m {
  on_exit = put_at m.on_exit p (filter_of (λ l. not (is_die_of r l)) (m.on_exit p));
  on_removed = put_at m.on_removed p (filter_of (λ q. not (q == r)) (m.on_removed p));
  freed = if client then r ∷ m.freed else m.freed;
}

-- `delete engines[user.id]`, and the restart of a user who fell victim to another.
unfoldable pub drop_engine : Manager → ℕ → ℕ → Bool → Manager
drop_engine m user_id p manual = record m {
  engines = update m.engines user_id none;
  user_restarts =
      if not (manual || m.stopped) && is_shared (m.procs p)
      then user_id ∷ m.user_restarts
      else m.user_restarts;
}

-- `engines[user.id] === obj`
abbrev pub is_engine : Manager → ℕ → ℕ → Bool
is_engine m user_id r = elim (m.engines user_id) [ none ↦ false | some q ↦ q == r ]

-- The closure `die` of `_runUser`.
unfoldable pub die : Manager → ℕ → Bool → Manager
unfolding unlisten drop_engine
die m r manual = elim (m.proxies r) [
  | none ↦ m
  | some obj ↦ elim obj.process [
    | none ↦ m
    | some p ↦
        let m' = unlisten m r p obj.thingpedia_client in
        if is_engine m' obj.user_id r then drop_engine m' obj.user_id p manual else m'
  ]
]

-- `restart` of a shared process, which is at once without a child, and its timer.
abbrev pub restart_later : Manager → ℕ → Manager
restart_later m p = record m {
  process_restarts = p ∷ m.process_restarts;
  procs = elim (m.procs p) [
    | none ↦ m.procs
    | some proc ↦ update m.procs p (some (restart proc 5000))
  ];
}

-- One listener of the event `exit` of process `p`.
unfoldable pub hear_exit : Manager → ℕ → Bool → Listener → Manager
unfolding die find_process drop_process
hear_exit m p manual (forget_process user_id) =
    let key = user_process user_id in
    let same : Bool = elim (find_process key m.processes) [ none ↦ false | some q ↦ q == p ] in
    if same then record m { processes = drop_process key m.processes } else m
hear_exit m p manual restart_process = if m.stopped then m else restart_later m p
hear_exit m p manual (die_of r) = die m r manual

-- The event `exit`: the listeners that stand at that moment, in their order.
unfoldable pub hear_exits : Manager → ℕ → Bool → List Listener → Manager
unfolding hear_exit
hear_exits m p manual [] = m
hear_exits m p manual (l ∷ ls) = hear_exits (hear_exit m p manual l) p manual ls

unfoldable pub fire_exit : Manager → ℕ → Bool → Manager
unfolding hear_exits
fire_exit m p manual = hear_exits m p manual (m.on_exit p)

-- The event `engine-removed`, with the closure `onRemoved`.
unfoldable pub hear_removed : Manager → ℕ → List ℕ → Manager
unfolding die
hear_removed m dead_user_id [] = m
hear_removed m dead_user_id (r ∷ rs) =
    let mine : Bool = elim (m.proxies r) [
      | none ↦ false
      | some obj ↦ obj.user_id == dead_user_id
    ] in
    hear_removed (if mine then die m r true else m) dead_user_id rs

unfoldable pub fire_removed : Manager → ℕ → ℕ → Manager
unfolding hear_removed
fire_removed m p dead_user_id = hear_removed m dead_user_id (m.on_removed p)

-- The events among the effects of a process reach the listeners.
unfoldable pub deliver : Manager → ℕ → List Effect → Manager
unfolding fire_exit fire_removed
deliver m p [] = m
deliver m p (emit_exit manual ∷ es) = deliver (fire_exit m p manual) p es
deliver m p (emit_removed user_id ∷ es) = deliver (fire_removed m p user_id) p es
deliver m p (_ ∷ es) = deliver m p es

-- A method or handler of process `p`.
unfoldable pub on_process : Manager → ℕ → Step → Manager
unfolding deliver
on_process m p (q, es) = deliver (record m { procs = update m.procs p (some q) }) p es
