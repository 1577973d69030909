-- ===== src/Almond/ManagerClient/Sockets.antt =====
-- almond/enginemanagerclient.ts: the handlers of a socket, and a run of any calls and events.
use genie_cloud.Base.{
  ℕ, Bool, true, false, not, ◌&&◌, ◌||◌, List, [], ◌∷◌, Option, none, some, Text, if◌then◌else◌,
  update,
}
use genie_cloud.Almond.ManagerClient.{
  Role, direct, control, Reply, pending, resolved, rejected, Link, Client, Call, Effect,
  socket_closed, reconnect_later, uncache, with_link, get_engine, connect, start, stop,
  uncached_call, uncaches,
}

-- The close handlers, of an engine and of a control.
unfoldable pub close_by : Role → ℕ → Link → Client → List Effect × Client
close_by (direct user) s l c =
    if c.expect_close || l.deleted then ([], with_link s (record l { closed = true }) c) else (
      socket_closed user ∷ [],
      record (with_link s (record l { closed = true; deleted = true }) c) {
        cached_engines = uncache user c.cached_engines;
      },
    )
close_by (control shard) s l c = (
  if c.expect_close then [] else reconnect_later shard ∷ [],
  record (with_link s (record l { closed = true }) c) {
    rpc_sockets = update c.rpc_sockets shard none;
    rpc_controls = update c.rpc_controls shard none;
  },
)

unfoldable pub close_found : Option Link → ℕ → Client → List Effect × Client
unfolding close_by
close_found none s c = ([], c)
close_found (some l) s c = close_by l.role s l c

unfoldable pub on_close : ℕ → Client → List Effect × Client
unfolding close_found
on_close s c = close_found (c.links s) s c

abbrev pub settle : Reply → Reply → Reply
settle pending r = r
settle resolved r = resolved
settle (rejected e) r = rejected e

-- The first answer: `ready` of the stub, or the message of a control.
unfoldable pub ready_by : Role → ℕ → Link → Text → Client → Client
ready_by (direct user) s l rpc c =
    with_link s (record l { waiting = false; reply = settle l.reply resolved }) c
ready_by (control shard) s l rpc c =
    if l.waiting
    then record (with_link s (record l { waiting = false }) c) {
      rpc_controls = update c.rpc_controls shard (some rpc);
    }
    else c

unfoldable pub ready_found : Option Link → ℕ → Text → Client → Client
unfolding ready_by
ready_found none s rpc c = c
ready_found (some l) s rpc c = ready_by l.role s l rpc c

unfoldable pub on_ready : ℕ → Text → Client → Client
unfolding ready_found
on_ready s rpc c = ready_found (c.links s) s rpc c

-- An error of the socket or of the stub, or a message with an error, which only the listener hears.
unfoldable pub fail_by : Role → ℕ → Link → Bool → Text → Client → Client
fail_by (control shard) s l is_message message c = c
fail_by (direct user) s l is_message message c =
    if is_message && not l.waiting
    then c
    else with_link s (record l { reply = settle l.reply (rejected message) }) c

unfoldable pub fail_found : Option Link → ℕ → Bool → Text → Client → Client
unfolding fail_by
fail_found none s is_message message c = c
fail_found (some l) s is_message message c = fail_by l.role s l is_message message c

unfoldable pub on_error : ℕ → Bool → Text → Client → Client
unfolding fail_found
on_error s is_message message c = fail_found (c.links s) s is_message message c

-- What may happen: a call of a method, what a socket does, or the timer of a reconnection.
pub data Event : Type 0 where
  get_of : ℕ → Event
  start_called stop_called : Event
  called : Call → ℕ → Event
  closed_socket : ℕ → Event
  answered : ℕ → Text → Event
  failed : ℕ → Bool → Text → Event
  reconnect : ℕ → Event

module _ (n_shards : ℕ) (authentication : Option Text) where
  unfoldable pub step : Event → Client → Client
  unfolding get_engine connect start stop uncached_call on_close on_ready on_error
  step (get_of user) c = (get_engine n_shards authentication user c).1
  step start_called c = (start n_shards authentication c).1
  step stop_called c = (stop n_shards authentication c).1
  step (called k user) c =
      if uncaches k then (uncached_call n_shards authentication k user c).1 else c
  step (closed_socket s) c = (on_close s c).1
  step (answered s rpc) c = on_ready s rpc c
  step (failed s is_message message) c = on_error s is_message message c
  step (reconnect shard) c = (connect n_shards authentication shard c).1

  -- A run from a state.
  unfoldable pub run : List Event → Client → Client
  unfolding step
  run [] c = c
  run (e ∷ es) c = run es (step e c)
