-- ===== src/Almond/Master/Dialogue.antt =====
-- almond/master.ts and almond/enginemanagerclient.ts: what a client sends, and what the master does.
use genie_cloud.Base.{
  ℕ, zero, suc, ap, true, ◌≡◌, refl, List, [], ◌∷◌, Option, none, some, Text, text_eq_refl,
}
use genie_cloud.Almond.ManagerClient.{
  Client, get_engine, engine_by, connect, connect_by, cached_socket, connect_to_master,
}
use genie_cloud.Almond.ManagerClient
use genie_cloud.Almond.Master.{
  Message, ControlSocket, auth, direct, master, new_object, emit_close, pause_socket, serve_manager,
  send_socket, new_control, on_data, on_messages, init_listener, dispatch,
}

-- The messages of the rpc socket that a client lays on a connection, before its own.
abbrev pub new_objects : ℕ → List Message → List Message
new_objects zero ms = ms
new_objects (suc n) ms = new_object ∷ new_objects n ms

-- The messages that a client sends. The id of a reply is the one that its socket gave to the stub;
-- the rpc socket stands behind the authentication, and sends some `new-object` messages.
unfoldable pub sent : (ℕ → Text) → (ℕ → ℕ) → List ManagerClient.Effect → List Message
sent reply objects [] = []
sent reply objects (ManagerClient.send_auth s t ∷ es) = auth t ∷ sent reply objects es
sent reply objects (ManagerClient.send_direct s user ∷ es) =
    new_objects (objects s) (direct user (reply s) ∷ sent reply objects es)
sent reply objects (ManagerClient.send_master s shard ∷ es) =
    new_objects (objects s) (master ∷ sent reply objects es)
sent reply objects (ManagerClient.connect_to s shard ∷ es) = sent reply objects es
sent reply objects (ManagerClient.socket_closed user ∷ es) = sent reply objects es
sent reply objects (ManagerClient.reconnect_later shard ∷ es) = sent reply objects es
sent reply objects (ManagerClient.end_socket s ∷ es) = sent reply objects es
sent reply objects (ManagerClient.call shard k user ∷ es) = sent reply objects es

-- A socket that takes messages ignores the new objects.
abbrev authenticated : ControlSocket
authenticated = record { has_socket = true; authenticated = true; listening = true }

on_messages-new_objects :
    (token : Option Text) (n : ℕ) (ms : List Message)
    → on_messages token (new_objects n ms) authenticated ≡ on_messages token ms authenticated
unfolding on_messages on_data init_listener dispatch
on_messages-new_objects token zero ms = refl
on_messages-new_objects token (suc n) ms = on_messages-new_objects token n ms

engine-served :
    (reply : ℕ → Text) (objects : ℕ → ℕ) (n_shards : ℕ) (token : Option Text) (user : ℕ)
    (c : Client)
    → (on_messages token
        (sent reply objects (engine_by n_shards token none user c).0)
        (new_control token)).0
      ≡ pause_socket ∷ emit_close ∷ send_socket user (reply c.next_socket) ∷ []
unfolding engine_by sent on_messages on_data init_listener dispatch new_control
engine-served reply objects n_shards none user c =
    ap (λ out. out.0) (on_messages-new_objects none (objects c.next_socket) _)
engine-served reply objects n_shards (some t) user c =
    rw (text_eq_refl t)
      (ap (λ out. out.0) (on_messages-new_objects (some t) (objects c.next_socket) _))

control-served :
    (reply : ℕ → Text) (objects : ℕ → ℕ) (n_shards : ℕ) (token : Option Text) (shard : ℕ)
    (c : Client)
    → (on_messages token
        (sent reply objects (connect_by n_shards token none shard c).0)
        (new_control token)).0
      ≡ serve_manager ∷ []
unfolding connect_by sent on_messages on_data init_listener dispatch new_control
control-served reply objects n_shards none shard c =
    ap (λ out. out.0) (on_messages-new_objects none (objects c.next_socket) _)
control-served reply objects n_shards (some t) shard c =
    rw (text_eq_refl t)
      (ap (λ out. out.0) (on_messages-new_objects (some t) (objects c.next_socket) _))

-- With one token on both sides, a client that asks for an engine that is not cached has its socket sent
-- on to the process of that user, with its reply id, and a client that connects a control is served,
-- however many `new-object` messages the rpc socket of the client sends first.
pub get_engine-served :
    (reply : ℕ → Text) (objects : ℕ → ℕ) (n_shards : ℕ) (token : Option Text) (user shard : ℕ)
    (c : Client)
    → cached_socket c.cached_engines user ≡ none
    → c.rpc_controls shard ≡ none
    → ((on_messages token
          (sent reply objects (get_engine n_shards token user c).0)
          (new_control token)).0
        ≡ pause_socket ∷ emit_close ∷ send_socket user (reply c.next_socket) ∷ [])
      × ((on_messages token
            (sent reply objects (connect n_shards token shard c).0)
            (new_control token)).0
          ≡ serve_manager ∷ [])
unfolding get_engine connect
get_engine-served reply objects n_shards token user shard c h k =
    rw (h, k)
      (
        engine-served reply objects n_shards token user c,
        control-served reply objects n_shards token shard c,
      )
