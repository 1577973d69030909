-- ===== src/Almond/Master.antt =====
-- almond/master.ts: class ControlSocket and class ControlSocketServer, on the side of the master. The
-- token is of the configuration; a connection is a number; the engine manager answers to what is
-- recorded as an effect.
pub mod Guarded
pub mod Dialogue
mod Tests
use genie_cloud.Base.{
  ℕ, zero, suc, ◌+◌, Bool, true, false, not, ◌&&◌, ◌||◌, List, [], ◌∷◌, ◌++◌, map, Option, none,
  some, Text, codes, text_eq, if◌then◌else◌, ◌==◌, filter_of, NatMap, update, ltb, Result, ok, err,
}

-- `FrontendToMaster`, and what is none of its cases.
pub data Message : Type 0 where
  auth : Text → Message
  direct : ℕ → Text → Message
  master new_object unknown : Message

-- A socket: whether `_socket` is set, and whether the first listener is on.
pub record ControlSocket : Type 0 where
  pub has_socket : Bool
  pub authenticated : Bool
  pub listening : Bool

pub data Effect : Type 0 where
  emit_close pause_socket end_socket serve_manager : Effect
  write_error : Text → Effect
  send_socket : ℕ → Text → Effect

abbrev pub is_null : Option Text → Bool
is_null none = true
is_null (some t) = false

unfoldable pub new_control : Option Text → ControlSocket
new_control token = record { has_socket = true; authenticated = is_null token; listening = true }

abbrev pub token_is : Option Text → Text → Bool
token_is none t = false
token_is (some s) t = text_eq t s

-- A refusal: the error is written, and the listener taken off.
abbrev pub refuse : Text → ControlSocket → List Effect × ControlSocket
refuse message c =
    (emit_close ∷ write_error message ∷ end_socket ∷ [], record c { listening = false })

-- What an authenticated socket does with its first message.
unfoldable pub dispatch : Message → ControlSocket → List Effect × ControlSocket
dispatch new_object c = ([], c)
dispatch (direct target reply_id) c = (
  pause_socket ∷ emit_close ∷ send_socket target reply_id ∷ [],
  record c { listening = false; has_socket = false },
)
dispatch master c = (serve_manager ∷ [], record c { listening = false })
dispatch unknown c = refuse (codes "invalid initialization message") c
dispatch (auth t) c = ([], c)

-- `initListener`, while it is on.
unfoldable pub init_listener : Option Text → Message → ControlSocket → List Effect × ControlSocket
unfolding dispatch
init_listener token (auth t) c =
    if token_is token t
    then ([], record c { authenticated = true })
    else refuse (codes "invalid authentication token") c
init_listener token (direct target reply_id) c =
    if c.authenticated
    then dispatch (direct target reply_id) c
    else refuse (codes "expected authentication") c
init_listener token master c =
    if c.authenticated then dispatch master c else refuse (codes "expected authentication") c
init_listener token new_object c =
    if c.authenticated then dispatch new_object c else refuse (codes "expected authentication") c
init_listener token unknown c =
    if c.authenticated then dispatch unknown c else refuse (codes "expected authentication") c

unfoldable pub on_data : Option Text → Message → ControlSocket → List Effect × ControlSocket
unfolding init_listener
on_data token m c = if c.listening then init_listener token m c else ([], c)

-- All messages of a connection, in their order.
unfoldable pub on_messages :
    Option Text → List Message → ControlSocket → List Effect × ControlSocket
unfolding on_data
on_messages token [] c = ([], c)
on_messages token (m ∷ ms) c =
    let first = on_data token m c in
    let rest = on_messages token ms first.1 in (first.0 ++ rest.0, rest.1)

-- The answer where `sendSocket` rejects.
unfoldable pub send_failed : Text → List Effect
send_failed message = write_error message ∷ end_socket ∷ []

-- `end`
unfoldable pub end_control : ControlSocket → List Effect
end_control c = if c.has_socket then end_socket ∷ [] else []

-- The server: its connections, and the state of every socket.
pub record ControlSocketServer : Type 0 where
  pub connections : List ℕ
  pub controls : NatMap ControlSocket
  pub next_connection : ℕ
  pub is_open : Bool

unfoldable pub new_server : ControlSocketServer
new_server = record { connections = []; controls = λ i. none; next_connection = 0; is_open = true }

-- The listener of `connection`
unfoldable pub on_connection : Option Text → ControlSocketServer → ControlSocketServer
unfolding new_control
on_connection token s = record s {
  connections = s.connections ++ s.next_connection ∷ [];
  controls = update s.controls s.next_connection (some (new_control token));
  next_connection = suc s.next_connection;
}

abbrev pub closes : List Effect → Bool
closes [] = false
closes (emit_close ∷ es) = true
closes (pause_socket ∷ es) = closes es
closes (end_socket ∷ es) = closes es
closes (serve_manager ∷ es) = closes es
closes (write_error t ∷ es) = closes es
closes (send_socket u t ∷ es) = closes es

abbrev pub forget : ℕ → List ℕ → List ℕ
forget i cs = filter_of (λ j. not (j == i)) cs

-- A message on a connection: what the socket does, and its `close` to the server.
abbrev pub answer_found :
    Option Text
    → ℕ
    → Message
    → Option ControlSocket
    → ControlSocketServer
    → List Effect × ControlSocketServer
unfolding on_data
answer_found token i m none s = ([], s)
answer_found token i m (some c) s =
    let out = on_data token m c in
    (
      out.0,
      record s {
        connections = if closes out.0 then forget i s.connections else s.connections;
        controls = update s.controls i (some out.1);
      },
    )

unfoldable pub on_message :
    Option Text → ℕ → Message → ControlSocketServer → List Effect × ControlSocketServer
unfolding answer_found
on_message token i m s = answer_found token i m (s.controls i) s

-- `stop`: the connections that are ended.
abbrev pub ended_of : ControlSocketServer → List ℕ → List ℕ
ended_of s [] = []
ended_of s (i ∷ is) =
    let rest = ended_of s is in
    elim (s.controls i) [ none ↦ rest | some c ↦ if c.has_socket then i ∷ rest else rest ]

unfoldable pub stop : ControlSocketServer → List ℕ × ControlSocketServer
stop s = (ended_of s s.connections, record s { is_open = false })

-- The check of the shard number in `main`; none is what is no number.
unfoldable pub check_shard : ℕ → Option ℕ → Result Text ℕ
check_shard n_shards none = err (codes "E_INVALID_CONFIG")
check_shard n_shards (some shard) =
    if ltb shard n_shards then ok shard else err (codes "E_INVALID_CONFIG")
