-- ===== src/Almond/Master/Guarded.antt =====
-- almond/master.ts: about the messages that reach the engine manager.
use genie_cloud.Base.{
  ℕ, ◌≡◌, ◌≤◌, ◌+◌, Bool, false, ◌&&◌, ◌||◌, List, [], ◌∷◌, ◌++◌, Option, Text, if◌then◌else◌,
  any_of, arith,
}
use genie_cloud.Almond.Master.{
  Message, auth, direct, master, new_object, unknown, ControlSocket, Effect, emit_close,
  pause_socket, end_socket, serve_manager, write_error, send_socket, is_null, token_is, new_control,
  dispatch, init_listener, on_data, on_messages,
}

-- How often the engine manager is handed a socket.
abbrev pub handed : List Effect → ℕ
handed [] = 0
handed (emit_close ∷ es) = handed es
handed (pause_socket ∷ es) = handed es
handed (end_socket ∷ es) = handed es
handed (serve_manager ∷ es) = 1 + handed es
handed (write_error t ∷ es) = handed es
handed (send_socket u t ∷ es) = 1 + handed es

abbrev pub is_token : Option Text → Message → Bool
is_token token (auth t) = token_is token t
is_token token (direct u r) = false
is_token token master = false
is_token token new_object = false
is_token token unknown = false

abbrev pub budget : Bool → ℕ
budget b = if b then 1 else 0

handed-append : (es fs : List Effect) → handed (es ++ fs) ≡ handed es + handed fs
handed-append [] fs = omega arith
handed-append (emit_close ∷ es) fs = handed-append es fs
handed-append (pause_socket ∷ es) fs = handed-append es fs
handed-append (end_socket ∷ es) fs = handed-append es fs
handed-append (serve_manager ∷ es) fs = omega (arith, handed-append es fs)
handed-append (write_error t ∷ es) fs = handed-append es fs
handed-append (send_socket u t ∷ es) fs = omega (arith, handed-append es fs)

-- One message, with whether a later one shows the token: a socket is handed on only where the listener
-- is on and the token was shown, and then the listener is off.
step_budget :
    (token : Option Text) (m : Message) (c : ControlSocket) (later : Bool)
    → handed (on_data token m c).0
        + budget ((on_data token m c).1.listening && ((on_data token m c).1.authenticated || later))
      ≤ budget (c.listening && (c.authenticated || (is_token token m || later)))
unfolding on_data init_listener dispatch
step_budget token (auth t) c later = ground arith
step_budget token (direct u r) c later = ground arith
step_budget token master c later = ground arith
step_budget token new_object c later = ground arith
step_budget token unknown c later = ground arith

on_messages-budget :
    (token : Option Text) (ms : List Message) (c : ControlSocket)
    → handed (on_messages token ms c).0
      ≤ budget (c.listening && (c.authenticated || any_of (is_token token) ms))
unfolding on_messages
on_messages-budget token [] c = omega arith
on_messages-budget token (m ∷ ms) c =
    let first = on_data token m c in
    omega (
      arith,
      handed-append first.0 (on_messages token ms first.1).0,
      on_messages-budget token ms first.1,
      step_budget token m c (any_of (is_token token) ms),
    )

-- Whatever is sent on a new connection, the engine manager is handed a socket at most once, and not at
-- all where a token is asked for and no message shows it.
pub on_messages-guarded :
    (token : Option Text) (ms : List Message)
    → handed (on_messages token ms (new_control token)).0
      ≤ budget (is_null token || any_of (is_token token) ms)
unfolding new_control
on_messages-guarded token ms = on_messages-budget token ms (new_control token)
