-- ===== src/Almond/EngineProcess.antt =====
-- almond/enginemanager.ts, class EngineProcess: a worker process that runs the engines of one user,
-- or of several (`shared`). Promises, signals, messages and events are effects, in their order.
pub mod Spawn
pub mod Lifetime
mod Tests
use genie_cloud.Base.{
  ℕ, ℤ, pos, incr, decr, Bool, true, false, not, ◌&&◌, ◌||◌, List, [], ◌∷◌, ◌++◌, Option, none,
  some, Text, codes, if◌then◌else◌, ◌==◌, text_eq, join, ◌≡◌,
}

-- A process id is a user's id or the name of a shared process.
pub data ProcessId : Type 0 where
  user_process : ℕ → ProcessId
  shared_process : Text → ProcessId

-- `_starting`: no promise, the delay of a restart, or a process that is not ready.
pub data Starting : Type 0 where
  not_starting : Starting
  delayed : ℕ → Starting
  pending : Starting

pub data Effect : Type 0 where
  -- the events `exit` and `engine-removed`
  emit_exit : Bool → Effect
  emit_removed : ℕ → Effect
  -- the promises `_starting` and `_deadPromise`
  start_resolved start_rejected : Effect
  dead_resolved : Option ℕ → Effect
  dead_rejected : Effect
  -- signals and messages to the child
  sent_exit terminated : Effect
  killed_child : Effect
  killed_pid : ℕ → Effect
  sent : Text → Effect
  call_run_engine call_kill_engine : ℕ → Effect
  rpc_data : Text → Effect
  made_directory : Text → Effect
  cleared_timeout : Effect

pub record Child : Type 0 where
  pub connected : Bool

pub record EngineProcess : Type 0 where
  pub id : ProcessId
  pub use_count : ℤ
  pub shared : Bool
  pub cwd : Text
  pub child : Option Child
  pub rpc_socket : Bool
  pub rpc_id : Option ℕ
  pub sandboxed : Bool
  pub sandboxed_pid : Option ℕ
  pub had_exit : Bool
  pub starting : Starting
  -- `_deadPromise` and `_deadCallback` are set together
  pub dead_promise : Bool
  pub dying_timeout : Bool

abbrev pub Step : Type 0
Step = EngineProcess × List Effect

-- The constructor; a process with no cloud id is shared.
unfoldable pub new_process : Bool → ProcessId → Option Text → Step
new_process disable_sandbox id cloud_id = (
  record {
    id = id;
    use_count = pos 0;
    shared = shared;
    cwd = cwd;
    child = none;
    rpc_socket = false;
    rpc_id = none;
    sandboxed = not shared && not disable_sandbox;
    sandboxed_pid = none;
    had_exit = false;
    starting = not_starting;
    dead_promise = false;
    dying_timeout = false;
  },
  made_directory cwd ∷ [],
)
  where
    shared : Bool
    shared = elim cloud_id [ none ↦ true | some c ↦ false ]

    cwd : Text
    cwd = elim cloud_id [ none ↦ codes "./" | some c ↦ codes "./" ++ c ]

-- What a method has done, and whether it then threw the type error of a call without a socket.
pub record Attempt : Type 0 where
  pub step : Step
  pub threw : Bool

-- `runEngine`, as far as the state and the files go
unfoldable pub run_engine : EngineProcess → ℕ → Text → Attempt
run_engine p user_id cloud_id = record {
  step = (
    record p { use_count = incr p.use_count },
    (if p.shared then made_directory (p.cwd ++ codes "/" ++ cloud_id) ∷ [] else [])
        ++ (if p.rpc_socket then call_run_engine user_id ∷ [] else []),
  );
  threw = not p.rpc_socket;
}

-- `kill`
unfoldable pub kill : EngineProcess → Step
kill p = elim p.child [
  | none ↦ (p, [])
  | some c ↦ (
    record p { dead_promise = true; dying_timeout = true; had_exit = true },
    (if p.sandboxed && c.connected then sent_exit else terminated) ∷ emit_exit true ∷ [],
  )
]

-- The timeout of `kill`, after thirty seconds.
unfoldable pub dying_timeout_fires : EngineProcess → Step
dying_timeout_fires p = elim p.sandboxed_pid [
  | some pid ↦ (record p { sandboxed_pid = none }, killed_pid pid ∷ dead_rejected ∷ [])
  | none ↦ elim p.child [
    | some c ↦ (p, killed_child ∷ dead_rejected ∷ [])
    | none ↦ (p, dead_rejected ∷ [])
  ]
]

-- `killEngine`; the event follows when the call returns, also when it fails.
unfoldable pub kill_engine : EngineProcess → ℕ → Attempt
unfolding kill
kill_engine p user_id =
    if p.shared
    then record {
      step = (
        record p { use_count = decr p.use_count },
        if p.rpc_socket then call_kill_engine user_id ∷ [] else [],
      );
      threw = not p.rpc_socket;
    }
    else record { step = kill p; threw = false }

unfoldable pub kill_engine_returns : EngineProcess → ℕ → Step
kill_engine_returns p user_id = (p, emit_removed user_id ∷ [])

-- `restart`; the delay is over when `start` is called.
unfoldable pub restart : EngineProcess → ℕ → EngineProcess
restart p ms = record p { child = none; rpc_socket = false; rpc_id = none; starting = delayed ms }

-- `start`, as far as the state goes.
unfoldable pub start : EngineProcess → EngineProcess
start p = record p {
  rpc_socket = true;
  starting = pending;
  child = some (record { connected = true });
}

-- `waitReady`: what the caller waits for.
unfoldable pub wait_ready : EngineProcess → Starting
wait_ready p = p.starting

-- `waitDead`: whether there is a death to wait for.
unfoldable pub wait_dead : EngineProcess → Bool
wait_dead p = p.dead_promise

-- `send`; `none` is the type error of a call on `null`.
unfoldable pub send : EngineProcess → Text → Option Step
send p msg = elim p.child [ none ↦ none | some c ↦ some (p, sent msg ∷ []) ]

-- The pid that the sandbox reports.
unfoldable pub on_info : EngineProcess → ℕ → EngineProcess
on_info p pid = record p { sandboxed_pid = some pid }

-- The handlers that `start` installs on the child.
unfoldable pub on_error : EngineProcess → Step
on_error p = (p, start_rejected ∷ [])

unfoldable pub on_disconnect : EngineProcess → Step
on_disconnect p = (
  record p { child = disconnected p.child; had_exit = true },
  if p.had_exit then [] else emit_exit false ∷ [],
)
  where
    disconnected : Option Child → Option Child
    disconnected none = none
    disconnected (some c) = some (record { connected = false })

unfoldable pub on_exit : EngineProcess → Option ℕ → Step
on_exit p code = (
  record p { sandboxed_pid = none; child = none; dying_timeout = false; had_exit = true },
  (if p.dying_timeout then cleared_timeout ∷ [] else [])
      ++ start_rejected
        ∷ ((if p.dead_promise then dead_resolved code ∷ [] else [])
            ++ (if p.had_exit then [] else emit_exit false ∷ [])),
)

pub data Message : Type 0 where
  ready : ℕ → Message
  rpc : Text → Message

unfoldable pub on_message : EngineProcess → Message → Step
on_message p (ready rpc_id) =
    (record p { rpc_id = some rpc_id; starting = not_starting }, start_resolved ∷ [])
on_message p (rpc payload) = (p, rpc_data payload ∷ [])
