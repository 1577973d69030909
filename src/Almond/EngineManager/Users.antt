-- ===== src/Almond/EngineManager/Users.antt =====
-- almond/enginemanager.ts, class EngineManager: the methods.
use genie_cloud.Base.{
  ℕ, zero, suc, ◌+◌, ◌*◌, ◌%◌, Bool, true, false, not, ◌&&◌, List, [], ◌∷◌, ◌++◌, Option, none,
  some, Text, codes, if◌then◌else◌, update, get_elem?, length, Result, ok, err,
}
use genie_cloud.Almond.EngineProcess.{
  Attempt, ProcessId, user_process, shared_process, new_process, run_engine, kill, kill_engine,
  start, send,
}
use genie_cloud.Almond.EngineManager.{
  User, EngineProxy, Listener, forget_process, restart_process, die_of, Manager, put_process,
  put_at, on_process,
}

-- `new EngineProcess(…)`, with a listener, and `start()`. The new process is the next reference.
unfoldable pub create_process : Bool → Manager → ProcessId → Option Text → Listener → Manager
unfolding put_process
create_process disable_sandbox m id cloud_id listener = record m {
  procs = update m.procs m.next_ref (some (start (new_process disable_sandbox id cloud_id).0));
  on_exit = put_at m.on_exit m.next_ref (listener ∷ []);
  on_removed = put_at m.on_removed m.next_ref [];
  processes = put_process id m.next_ref m.processes;
  next_ref = suc m.next_ref;
}

abbrev pub is_none {ℓ} : {A : Type ℓ} → Option A → Bool
is_none none = true
is_none (some a) = false

-- `_findProcessForUser`, up to the promise that it returns; `none` is the type error of a manager
-- with no shared process.
unfoldable pub find_process_for_user : Bool → Manager → User → Option (Manager × ℕ)
unfolding create_process
find_process_for_user disable_sandbox m user =
    if is_none user.developer_key && not user.force_separate_process
    then (elim (get_elem? m.rrproc m.next_process) [
      | none ↦ none
      | some child ↦
          some (record m { next_process = (m.next_process + 1) % length m.rrproc }, child)
    ])
    else some (
      create_process disable_sandbox m (user_process user.id) (some user.cloud_id)
          (forget_process user.id),
      m.next_ref,
    )

-- `_runUser` up to its `await`: the proxy, with no process yet. The third result is its reference.
unfoldable pub begin_user : Bool → Manager → User → Option (Manager × ℕ × ℕ)
unfolding find_process_for_user
begin_user disable_sandbox m user =
    let obj : EngineProxy = record {
      user_id = user.id;
      cloud_id = user.cloud_id;
      process = none;
      thingpedia_client = false;
    } in
    let r = m.next_ref in
    let m' : Manager = record m {
      proxies = update m.proxies r (some obj);
      engines = update m.engines user.id (some r);
      next_ref = suc r;
    } in
    elim (find_process_for_user disable_sandbox m' user) [
      | none ↦ none
      | some (m'', child) ↦ some (m'', child, r)
    ]

-- The manager just after `_runUser` has set the user's proxy.
unfoldable pub with_proxy : Manager → User → Manager
with_proxy m user = record m {
  proxies = update m.proxies m.next_ref (
      some (record {
        user_id = user.id;
        cloud_id = user.cloud_id;
        process = none;
        thingpedia_client = false;
      }));
  engines = update m.engines user.id (some m.next_ref);
  next_ref = suc m.next_ref;
}

-- `_runUser` behind its `await`: the proxy gets its process, and the listeners stand.
unfoldable pub attach_user : Bool → Manager → User → ℕ → ℕ → Manager
attach_user embedded m user child r = record m {
  proxies = update m.proxies r (
      some (record {
        user_id = user.id;
        cloud_id = user.cloud_id;
        process = some child;
        thingpedia_client = embedded;
      }));
  on_removed = put_at m.on_removed child (m.on_removed child ++ r ∷ []);
  on_exit = put_at m.on_exit child (m.on_exit child ++ die_of r ∷ []);
}

-- What a call of a process does to the manager, and whether it throws.
unfoldable pub attempted : Manager → ℕ → Attempt → Manager × Bool
attempted m p a = (on_process m p a.step, a.threw)

-- The call of `runEngine` that ends `_runUser`, and whether it throws.
unfoldable pub run_user_engine : Manager → User → ℕ → Manager × Bool
unfolding attempted
run_user_engine m user child = elim (m.procs child) [
  | none ↦ (m, true)
  | some p ↦ attempted m child (run_engine p user.id user.cloud_id)
]

abbrev pub process_of : Manager → ℕ → Option ℕ
process_of m user_id = elim (m.engines user_id) [
  | none ↦ none
  | some r ↦ elim (m.proxies r) [ none ↦ none | some obj ↦ obj.process ]
]

unfoldable pub is_running : Manager → ℕ → Bool
is_running m user_id = not (is_none (process_of m user_id))

-- `getProcessId`; `none` is -1.
unfoldable pub get_process_id : Manager → ℕ → Option ProcessId
get_process_id m user_id = elim (process_of m user_id) [
  | none ↦ none
  | some p ↦ elim (m.procs p) [ none ↦ none | some proc ↦ some proc.id ]
]

pub data SocketError : Type 0 where
  invalid_user engine_dead type_error : SocketError

-- `sendSocket`: the checks, and the message once the lock is held.
unfoldable pub send_socket : Manager → ℕ → Text → Result SocketError Manager
send_socket m user_id message = elim (m.engines user_id) [
  | none ↦ err invalid_user
  | some r ↦ elim (process_of m user_id) [
    | none ↦ err engine_dead
    | some p ↦ elim (m.procs p) [
      | none ↦ err type_error
      | some proc ↦ elim (send proc message) [
        | none ↦ err type_error
        | some s ↦ ok (on_process m p s)
      ]
    ]
  ]
]

-- The name of a shared process: the shard's number and its own.
abbrev pub digits_of : (ℕ → Text) → ℕ → ℕ → Text
digits_of print shard i = print shard ++ (codes "/S" ++ print i)

-- The loop of `_startSharedProcesses`, from index `i` on.
unfoldable pub start_shared_from : (ℕ → Text) → Manager → ℕ → ℕ → Manager
unfolding create_process
start_shared_from print m i zero = m
start_shared_from print m i (suc n) =
    let m' =
      create_process false m (shared_process (digits_of print m.shard_id i)) none restart_process in
    start_shared_from print (record m' { rrproc = m.rrproc ++ m.next_ref ∷ [] }) (suc i) n

unfoldable pub start_shared_processes : (ℕ → Text) → Manager → ℕ → Manager
unfolding start_shared_from
start_shared_processes print m n =
    start_shared_from print (record m { rrproc = []; next_process = 0 }) 0 n

-- `_getNProcesses`, with shared processes enabled.
unfoldable pub get_n_processes : ℕ → ℕ
get_n_processes ncpus = 2 * ncpus

abbrev pub and_also : User → ℕ → ℕ → Manager × List (User × ℕ × ℕ) → Manager × List (User × ℕ × ℕ)
and_also user child r rest = (rest.0, (user, child, r) ∷ rest.1)

-- The loop of `start` over the rows of its users, up to the `await` of each: an engine that fails to
-- start leaves its proxy. The second result is what is awaited.
unfoldable pub begin_users : Bool → Manager → List User → Manager × List (User × ℕ × ℕ)
unfolding begin_user with_proxy
begin_users d m [] = (m, [])
begin_users d m (user ∷ rows) = elim (begin_user d m user) [
  | none ↦ begin_users d (with_proxy m user) rows
  | some (n, child, r) ↦ and_also user child r (begin_users d n rows)
]

-- `start`, where nothing else happens while the shared processes get ready.
unfoldable pub start_manager :
    Bool → (ℕ → Text) → ℕ → List User → Manager → Manager × List (User × ℕ × ℕ)
unfolding start_shared_processes begin_users get_n_processes
start_manager d print ncpus rows m =
    begin_users d (start_shared_processes print m (get_n_processes ncpus)) rows

-- `_killUserLocked`, and whether it throws.
unfoldable pub kill_user_locked : Manager → ℕ → Manager × Bool
unfolding attempted
kill_user_locked m user_id = elim (process_of m user_id) [
  | none ↦ (m, false)
  | some p ↦ elim (m.procs p) [
    | none ↦ (m, true)
    | some proc ↦ attempted m p (kill_engine proc user_id)
  ]
]

-- The loop of `killAllUsers`.
unfoldable pub kill_processes : Manager → List (ProcessId × ℕ) → Manager
kill_processes m [] = m
kill_processes m ((k, p) ∷ rest) =
    kill_processes (elim (m.procs p) [ none ↦ m | some proc ↦ on_process m p (kill proc) ]) rest

unfoldable pub kill_all_users : Manager → Manager
unfolding kill_processes
kill_all_users m = kill_processes m m.processes

unfoldable pub stop : Manager → Manager
unfolding kill_all_users
stop m = kill_all_users (record m { stopped = true })
