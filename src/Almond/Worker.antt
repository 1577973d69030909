-- ===== src/Almond/Worker.antt =====
-- almond/worker.ts: the table of engines of a worker. The object that a call of `runEngine` makes is a
-- number with its state; an event is a call of the master, a socket, or a step of the promises of an
-- engine. A step is taken where what is waited for ends well, and `fail` where it does not.
pub mod Killing
pub mod Tables
mod Tests
use genie_cloud.Base.{
  ℕ, suc, Bool, true, false, not, ◌||◌, List, [], ◌∷◌, ◌++◌, map, Option, none, some, Text,
  if◌then◌else◌, ◌==◌, filter_of, NatMap, update,
}

-- What the promises of `runEngine` wait for.
pub data Phase : Type 0 where
  initializing opening engine_running closing finished : Phase

pub record EngineState : Type 0 where
  pub user_id : ℕ
  pub running : Bool
  pub sockets : List ℕ
  pub stopped : Bool
  pub has_engine : Bool
  pub phase : Phase

pub record Worker : Type 0 where
  pub engines : List (ℕ × ℕ)
  pub objects : NatMap EngineState
  pub next_object : ℕ
  pub stopped : Bool
  pub exited : Bool

pub data Effect : Type 0 where
  open_engine run_engine_of stop_engine close_engine end_socket : ℕ → Effect
  reply_ready reply_error : ℕ → Text → Effect
  disconnect schedule_exit exit_process : Effect

unfoldable pub new_worker : Worker
new_worker = record {
  engines = [];
  objects = λ r. none;
  next_object = 0;
  stopped = false;
  exited = false;
}

-- `Map.get`, `Map.set` and `Map.delete` of `_engines`.
unfoldable pub get_engine : ℕ → List (ℕ × ℕ) → Option ℕ
get_engine user [] = none
get_engine user ((u, r) ∷ es) = let rest = get_engine user es in if u == user then some r else rest

unfoldable pub set_engine : ℕ → ℕ → List (ℕ × ℕ) → List (ℕ × ℕ)
set_engine user r [] = (user, r) ∷ []
set_engine user r ((u, q) ∷ es) =
    let rest = set_engine user r es in if u == user then (u, r) ∷ es else (u, q) ∷ rest

unfoldable pub delete_engine : ℕ → List (ℕ × ℕ) → List (ℕ × ℕ)
delete_engine user [] = []
delete_engine user ((u, r) ∷ es) =
    let rest = delete_engine user es in if u == user then rest else (u, r) ∷ rest

abbrev pub new_state : ℕ → EngineState
new_state user = record {
  user_id = user;
  running = false;
  sockets = [];
  stopped = false;
  has_engine = false;
  phase = initializing;
}

-- `runEngine`
unfoldable pub run_engine : ℕ → Worker → Worker
unfolding set_engine
run_engine user w = record w {
  engines = set_engine user w.next_object w.engines;
  objects = update w.objects w.next_object (some (new_state user));
  next_object = suc w.next_object;
}

-- The next of the functions that `runEngine` gives to `then`.
unfoldable pub resolve : ℕ → Bool → Phase → EngineState → List Effect × EngineState
resolve r halted initializing obj =
    (if halted then [] else open_engine r ∷ [], record obj { has_engine = true; phase = opening })
resolve r halted opening obj =
    if halted
    then ([], record obj { phase = engine_running })
    else (run_engine_of r ∷ [], record obj { running = true; phase = engine_running })
resolve r halted engine_running obj = (close_engine r ∷ [], record obj { phase = closing })
resolve r halted closing obj = ([], record obj { phase = finished })
resolve r halted finished obj = ([], obj)

unfoldable pub advance_found : ℕ → Option EngineState → Worker → List Effect × Worker
unfolding resolve
advance_found r none w = ([], w)
advance_found r (some obj) w =
    let out = resolve r (w.stopped || obj.stopped) obj.phase obj in
    (out.0, record w { objects = update w.objects r (some out.1) })

-- Whether the promises of an engine still wait.
abbrev pub is_finished : Phase → Bool
is_finished initializing = false
is_finished opening = false
is_finished engine_running = false
is_finished closing = false
is_finished finished = true

-- The function given to `catch`.
unfoldable pub fail_found : Option EngineState → Worker → List Effect × Worker
unfolding delete_engine
fail_found none w = ([], w)
fail_found (some obj) w = if is_finished obj.phase then ([], w) else (
  exit_process ∷ [],
  record w { engines = delete_engine obj.user_id w.engines; exited = true },
)

-- `killEngine`, once the object is found.
unfoldable pub kill_object : ℕ → ℕ → Option EngineState → Worker → List Effect × Worker
unfolding delete_engine
kill_object user r none w = ([], w)
kill_object user r (some obj) w = (
  if obj.has_engine then stop_engine r ∷ map end_socket obj.sockets else [],
  record w {
    engines = delete_engine user w.engines;
    objects = update w.objects r (some (record obj { stopped = true }));
  },
)

unfoldable pub kill_found : ℕ → Option ℕ → Worker → List Effect × Worker
unfolding kill_object
kill_found user none w = ([], w)
kill_found user (some r) w = kill_object user r (w.objects r) w

-- `killEngine`
unfoldable pub kill_engine : ℕ → Worker → List Effect × Worker
unfolding kill_found get_engine
kill_engine user w = kill_found user (get_engine user w.engines) w

-- `handleSignal`: one of its engines.
unfoldable pub stop_object :
    ℕ → Option EngineState → NatMap EngineState → List Effect × NatMap EngineState
stop_object r none objects = ([], objects)
stop_object r (some obj) objects = (
  (if obj.running then stop_engine r ∷ [] else []) ++ map end_socket obj.sockets,
  update objects r (some (record obj { stopped = true })),
)

unfoldable pub stop_objects : List (ℕ × ℕ) → NatMap EngineState → List Effect × NatMap EngineState
unfolding stop_object
stop_objects [] objects = ([], objects)
stop_objects ((u, r) ∷ es) objects =
    let first = stop_object r (objects r) objects in
    let rest = stop_objects es first.1 in (first.0 ++ rest.0, rest.1)

-- `handleSignal`, by whether the process is connected.
unfoldable pub handle_signal : Bool → Worker → List Effect × Worker
unfolding stop_objects
handle_signal connected w =
    let out = stop_objects w.engines w.objects in
    (
      out.0 ++ ((if connected then disconnect ∷ [] else []) ++ schedule_exit ∷ []),
      record w { objects = out.1; stopped = true },
    )

-- `handleDirectSocket`, for a socket and its reply id.
unfoldable pub direct_object : ℕ → ℕ → Text → Option EngineState → Worker → List Effect × Worker
direct_object r socket reply none w = (reply_error socket reply ∷ end_socket socket ∷ [], w)
direct_object r socket reply (some obj) w =
    if obj.has_engine
    then (
      reply_ready socket reply ∷ [],
      record w {
        objects = update w.objects r (some (record obj { sockets = obj.sockets ++ socket ∷ [] }));
      },
    )
    else (reply_error socket reply ∷ end_socket socket ∷ [], w)

unfoldable pub direct_found : ℕ → Text → Option ℕ → Worker → List Effect × Worker
unfolding direct_object
direct_found socket reply none w = (reply_error socket reply ∷ end_socket socket ∷ [], w)
direct_found socket reply (some r) w = direct_object r socket reply (w.objects r) w

-- The listener of its `close`.
unfoldable pub forget_socket : ℕ → ℕ → Option EngineState → Worker → Worker
forget_socket r socket none w = w
forget_socket r socket (some obj) w = record w {
  objects =
      update w.objects r
        (some (record obj { sockets = filter_of (λ s. not (s == socket)) obj.sockets }));
}

pub data Event : Type 0 where
  run_requested kill_requested advance fail : ℕ → Event
  signal : Bool → Event
  direct : ℕ → Text → ℕ → Event
  socket_closed : ℕ → ℕ → Event

unfoldable pub on_event : Event → Worker → List Effect × Worker
unfolding run_engine kill_engine advance_found fail_found handle_signal direct_found forget_socket
    get_engine
on_event (run_requested user) w = ([], run_engine user w)
on_event (kill_requested user) w = kill_engine user w
on_event (advance r) w = advance_found r (w.objects r) w
on_event (fail r) w = fail_found (w.objects r) w
on_event (signal connected) w = handle_signal connected w
on_event (direct user reply socket) w = direct_found socket reply (get_engine user w.engines) w
on_event (socket_closed r socket) w = ([], forget_socket r socket (w.objects r) w)

-- Nothing happens once the process has exited.
unfoldable pub step : Event → Worker → List Effect × Worker
unfolding on_event
step e w = if w.exited then ([], w) else on_event e w

unfoldable pub run : List Event → Worker → List Effect × Worker
unfolding step
run [] w = ([], w)
run (e ∷ es) w = let first = step e w in let rest = run es first.1 in (first.0 ++ rest.0, rest.1)
