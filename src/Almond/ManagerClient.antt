-- ===== src/Almond/ManagerClient.antt =====
-- almond/enginemanagerclient.ts: class EngineManagerClientImpl. Sockets are numbers, in the order in
-- which they are connected; a closure over a socket is the record of its link. The number of shards
-- and the token are of the configuration; the proxy of a control is the id that it was made for.
pub mod Sockets
pub mod Links
pub mod Cached
mod Tests
use genie_cloud.Base.{
  ℕ, zero, suc, ◌+◌, Bool, true, false, not, ◌&&◌, ◌||◌, List, [], ◌∷◌, ◌++◌, map, Option, none,
  some, Text, codes, if◌then◌else◌, ◌==◌, filter_of, NatMap, update, Result, ok, err,
}
use genie_cloud.Util.Sharding.{user_to_shard_id}

pub data Role : Type 0 where
  direct : ℕ → Role
  control : ℕ → Role

-- The promise of an engine.
pub data Reply : Type 0 where
  pending resolved : Reply
  rejected : Text → Reply

-- A connection: whether its listener waits for the first answer, whether it was closed, and the
-- `deleted` of its close handler.
pub record Link : Type 0 where
  pub role : Role
  pub waiting : Bool
  pub closed : Bool
  pub deleted : Bool
  pub reply : Reply

pub record Client : Type 0 where
  pub cached_engines : List (ℕ × ℕ)
  pub expect_close : Bool
  pub rpc_controls : NatMap Text
  pub rpc_sockets : NatMap ℕ
  pub links : NatMap Link
  pub next_socket : ℕ

unfoldable pub new : Client
new = record {
  cached_engines = [];
  expect_close = false;
  rpc_controls = λ i. none;
  rpc_sockets = λ i. none;
  links = λ s. none;
  next_socket = 0;
}

pub data Call : Type 0 where
  kill_all is_running get_process_id start_user kill_user delete_user clear_cache restart_user
        restart_without_cache :
      Call

-- The calls that drop the cached engine of their user.
abbrev pub uncaches : Call → Bool
uncaches kill_all = false
uncaches is_running = false
uncaches get_process_id = false
uncaches start_user = false
uncaches kill_user = true
uncaches delete_user = true
uncaches clear_cache = true
uncaches restart_user = true
uncaches restart_without_cache = true

pub data Effect : Type 0 where
  connect_to : ℕ → ℕ → Effect
  send_auth : ℕ → Text → Effect
  send_direct send_master : ℕ → ℕ → Effect
  socket_closed : ℕ → Effect
  reconnect_later : ℕ → Effect
  end_socket : ℕ → Effect
  call : ℕ → Call → ℕ → Effect

abbrev pub cached_socket : List (ℕ × ℕ) → ℕ → Option ℕ
cached_socket [] user = none
cached_socket (e ∷ es) user =
    let rest = cached_socket es user in if e.0 == user then some e.1 else rest

abbrev pub uncache : ℕ → List (ℕ × ℕ) → List (ℕ × ℕ)
uncache user es = filter_of (λ e. not (e.0 == user)) es

abbrev pub new_link : Role → Link
new_link role = record {
  role = role;
  waiting = true;
  closed = false;
  deleted = false;
  reply = pending;
}

abbrev pub with_link : ℕ → Link → Client → Client
with_link s l c = record c { links = update c.links s (some l) }

-- A new socket with its link.
abbrev pub opened : Role → Client → Client
opened role c = record (with_link c.next_socket (new_link role) c) {
  next_socket = suc c.next_socket;
}

module _ (n_shards : ℕ) (authentication : Option Text) where
  -- `connectToMaster`
  unfoldable pub connect_to_master : ℕ → ℕ → List Effect
  connect_to_master socket shard =
      connect_to socket shard
      ∷ elim authentication [ none ↦ [] | some token ↦ send_auth socket token ∷ [] ]

  -- `getEngine`, by what is cached: the socket of the engine.
  unfoldable pub engine_by : Option ℕ → ℕ → Client → List Effect × Client × ℕ
  unfolding connect_to_master
  engine_by (some s) user c = ([], c, s)
  engine_by none user c = (
    connect_to_master c.next_socket (user_to_shard_id n_shards user)
        ++ send_direct c.next_socket user ∷ [],
    record (opened (direct user) c) {
      cached_engines = c.cached_engines ++ (user, c.next_socket) ∷ [];
    },
    c.next_socket,
  )

  unfoldable pub get_engine : ℕ → Client → List Effect × Client × ℕ
  unfolding engine_by
  get_engine user c = engine_by (cached_socket c.cached_engines user) user c

  -- `_connect`, by the control that there is.
  unfoldable pub connect_by : Option Text → ℕ → Client → List Effect × Client
  unfolding connect_to_master
  connect_by (some rpc) shard c = ([], c)
  connect_by none shard c = (
    connect_to_master c.next_socket shard ++ send_master c.next_socket shard ∷ [],
    record (opened (control shard) c) {
      rpc_sockets = update c.rpc_sockets shard (some c.next_socket);
    },
  )

  unfoldable pub connect : ℕ → Client → List Effect × Client
  unfolding connect_by
  connect shard c = connect_by (c.rpc_controls shard) shard c

  -- The loop of `start`, from some shards on.
  unfoldable pub start_from : ℕ → ℕ → Client → List Effect × Client
  unfolding connect
  start_from zero shard c = ([], c)
  start_from (suc n) shard c =
      let first = connect shard c in
      let rest = start_from n (suc shard) first.1 in (first.0 ++ rest.0, rest.1)

  unfoldable pub start : Client → List Effect × Client
  unfolding start_from
  start c = start_from n_shards 0 c

  abbrev pub end_sockets : ℕ → ℕ → Client → List Effect
  end_sockets zero shard c = []
  end_sockets (suc n) shard c =
      elim (c.rpc_sockets shard) [ none ↦ [] | some s ↦ end_socket s ∷ [] ]
      ++ end_sockets n (suc shard) c

  unfoldable pub stop : Client → List Effect × Client
  stop c = (
    map (λ e. end_socket e.1) c.cached_engines ++ end_sockets n_shards 0 c,
    record c { expect_close = true; cached_engines = [] },
  )

  -- `killUser`, `deleteUser`, `clearCache` and the two restarts: the engine is no longer cached, also
  -- where there is no control.
  unfoldable pub uncached_call : Call → ℕ → Client → Result Text (List Effect) × Client
  uncached_call k user c = (
    elim (c.rpc_controls (user_to_shard_id n_shards user)) [
      | none ↦ err (codes "EngineManager died")
      | some rpc ↦ ok (call (user_to_shard_id n_shards user) k user ∷ [])
    ],
    record c { cached_engines = uncache user c.cached_engines },
  )

  -- `startUser`, which leaves the client as it is
  unfoldable pub start_user_call : ℕ → Client → Result Text (List Effect)
  start_user_call user c = elim (c.rpc_controls (user_to_shard_id n_shards user)) [
    | none ↦ err (codes "EngineManager died")
    | some rpc ↦ ok (call (user_to_shard_id n_shards user) start_user user ∷ [])
  ]

  -- `isRunning` and `getProcessId`, by what the manager answers; `none` is false, and minus one.
  unfoldable pub ask : {A : Type 0} → (ℕ → A) → ℕ → Client → Option A
  ask answer user c = elim (c.rpc_controls (user_to_shard_id n_shards user)) [
    | none ↦ none
    | some rpc ↦ some (answer user)
  ]

  -- The loop of `killAllUsers`, by what each shard answers.
  unfoldable pub kill_all_from : (ℕ → Bool) → ℕ → ℕ → Client → Bool
  kill_all_from answer zero shard c = true
  kill_all_from answer (suc n) shard c =
      let rest = kill_all_from answer n (suc shard) c in
      elim (c.rpc_controls shard) [ none ↦ false | some rpc ↦ answer shard ] && rest

  unfoldable pub kill_all_users : (ℕ → Bool) → Client → Bool
  unfolding kill_all_from
  kill_all_users answer c = kill_all_from answer n_shards 0 c
