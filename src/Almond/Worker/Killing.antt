-- ===== src/Almond/Worker/Killing.antt =====
-- almond/worker.ts: about an engine that was stopped.
use genie_cloud.Base.{
  ℕ, ◌≡◌, ◌<◌, ◌+◌, refl, sym, ap, ◌∙◌, Bool, true, false, ◌||◌, List, [], ◌∷◌, ◌++◌, map, Option,
  none, some, Text, if◌then◌else◌, ◌==◌, ==_iff, NatMap, update, Bool-cases, inl, inr, arith,
}
use genie_cloud.Almond.Worker.{
  Phase, initializing, opening, engine_running, closing, finished, EngineState, Worker, Effect,
  open_engine, run_engine_of, stop_engine, close_engine, end_socket, reply_ready, reply_error,
  disconnect, schedule_exit, exit_process, Event, run_requested, kill_requested, advance, fail,
  signal, direct, socket_closed, run_engine, resolve, advance_found, fail_found, kill_object,
  kill_found, kill_engine, stop_object, stop_objects, handle_signal, direct_object, direct_found,
  forget_socket, on_event, step, run, new_state, is_finished,
}

-- How often the engine of an object is opened or run.
abbrev pub starts : ℕ → List Effect → ℕ
starts r [] = 0
starts r (open_engine q ∷ es) = (if q == r then 1 else 0) + starts r es
starts r (run_engine_of q ∷ es) = (if q == r then 1 else 0) + starts r es
starts r (stop_engine q ∷ es) = starts r es
starts r (close_engine q ∷ es) = starts r es
starts r (end_socket s ∷ es) = starts r es
starts r (reply_ready s t ∷ es) = starts r es
starts r (reply_error s t ∷ es) = starts r es
starts r (disconnect ∷ es) = starts r es
starts r (schedule_exit ∷ es) = starts r es
starts r (exit_process ∷ es) = starts r es

abbrev pub is_halted : Bool → Option EngineState → Bool
is_halted stopped none = false
is_halted stopped (some obj) = stopped || obj.stopped

-- An object that was made, and is stopped with or without its worker.
abbrev pub Halted : Worker → ℕ → Type 0
Halted w r = (is_halted w.stopped (w.objects r) ≡ true) × (r < w.next_object)

starts-append : (r : ℕ) (es fs : List Effect) → starts r (es ++ fs) ≡ starts r es + starts r fs
starts-append r [] fs = omega arith
starts-append r (open_engine q ∷ es) fs = omega (arith, starts-append r es fs)
starts-append r (run_engine_of q ∷ es) fs = omega (arith, starts-append r es fs)
starts-append r (stop_engine q ∷ es) fs = starts-append r es fs
starts-append r (close_engine q ∷ es) fs = starts-append r es fs
starts-append r (end_socket s ∷ es) fs = starts-append r es fs
starts-append r (reply_ready s t ∷ es) fs = starts-append r es fs
starts-append r (reply_error s t ∷ es) fs = starts-append r es fs
starts-append r (disconnect ∷ es) fs = starts-append r es fs
starts-append r (schedule_exit ∷ es) fs = starts-append r es fs
starts-append r (exit_process ∷ es) fs = starts-append r es fs

starts-end_socket : (r : ℕ) (ss : List ℕ) → starts r (map end_socket ss) ≡ 0
starts-end_socket r [] = refl
starts-end_socket r (s ∷ ss) = starts-end_socket r ss

-- An object that is written keeps what is halted so, where it is halted itself.
is_halted-update :
    (b : Bool) (m : NatMap EngineState) (q r : ℕ) (obj : EngineState)
    → is_halted b (m r) ≡ true
    → ((r == q) ≡ true → (b || obj.stopped) ≡ true)
    → is_halted b (update m q (some obj) r) ≡ true
is_halted-update b m q r obj h k = elim (Bool-cases (r == q)) [
  | inl same ↦ rw same (k same)
  | inr other ↦ rw other h
]

-- What an event keeps, and how often it starts the engine.
abbrev Keeps : ℕ → List Effect × Worker → Type 0
Keeps r out = Halted out.1 r × (starts r out.0 ≡ 0)

-- The object that is found at the place of a halted one is halted.
at_same :
    (w : Worker) (q r : ℕ) (obj : EngineState)
    → w.objects q ≡ some obj
    → Halted w r
    → (r == q) ≡ true
    → (w.stopped || obj.stopped) ≡ true
at_same w q r obj e h same =
    ap (is_halted w.stopped) (sym (ap w.objects ((==_iff r q).0 same) ∙ e)) ∙ h.0

resolve-stopped :
    (r : ℕ) (halted : Bool) (p : Phase) (obj : EngineState)
    → (resolve r halted p obj).1.stopped ≡ obj.stopped
unfolding resolve
resolve-stopped r halted initializing obj = refl
resolve-stopped r halted opening obj = ground arith
resolve-stopped r halted engine_running obj = refl
resolve-stopped r halted closing obj = refl
resolve-stopped r halted finished obj = refl

-- A step of an object starts its own engine at most, and not if it is halted.
resolve-starts :
    (r q : ℕ) (halted : Bool) (p : Phase) (obj : EngineState)
    → ((r == q) ≡ true → halted ≡ true)
    → starts r (resolve q halted p obj).0 ≡ 0
unfolding resolve
resolve-starts r q halted initializing obj h = ground arith
resolve-starts r q halted opening obj h = ground arith
resolve-starts r q halted engine_running obj h = refl
resolve-starts r q halted closing obj h = refl
resolve-starts r q halted finished obj h = refl

advance_found-Keeps :
    (w : Worker) (r q : ℕ) (o : Option EngineState)
    → w.objects q ≡ o
    → Halted w r
    → Keeps r (advance_found q o w)
unfolding advance_found
advance_found-Keeps w r q none e h = (h, refl)
advance_found-Keeps w r q (some obj) e h =
    let halted = w.stopped || obj.stopped in
    (
      (
        is_halted-update w.stopped w.objects q r _ h.0 (λ same.
            ap (λ b. w.stopped || b) (resolve-stopped q halted obj.phase obj)
            ∙ at_same w q r obj e h same),
        h.1,
      ),
      resolve-starts r q halted obj.phase obj (at_same w q r obj e h),
    )

fail_found-Keeps :
    (w : Worker) (r : ℕ) (o : Option EngineState) → Halted w r → Keeps r (fail_found o w)
unfolding fail_found
fail_found-Keeps w r none h = (h, refl)
fail_found-Keeps w r (some obj) h = elim (Bool-cases (is_finished obj.phase)) [
  | inl done ↦ rw done (h, refl)
  | inr waits ↦ rw waits (h, refl)
]

pub or_true : (a b : Bool) → b ≡ true → (a || b) ≡ true
or_true true b h = refl
or_true false b h = h

kill_found-Keeps :
    (w : Worker) (user r : ℕ) (o : Option ℕ) → Halted w r → Keeps r (kill_found user o w)
unfolding kill_found
kill_found-Keeps w user r none h = (h, refl)
kill_found-Keeps w user r (some q) h = by_object (w.objects q)
  where
    ends :
        (obj : EngineState) (b : Bool)
        → starts r (if b then stop_engine q ∷ map end_socket obj.sockets else []) ≡ 0
    ends obj true = starts-end_socket r obj.sockets
    ends obj false = refl

    by_object : (o : Option EngineState) → Keeps r (kill_object user q o w)
    by_object none = (h, refl)
    by_object (some obj) = (
      (
        is_halted-update w.stopped w.objects q r (record obj { stopped = true }) h.0
            (λ same. or_true w.stopped true refl),
        h.1,
      ),
      ends obj obj.has_engine,
    )

-- Stopping all engines leaves what is halted so, and it halts what is there.
stop_objects-halted :
    (es : List (ℕ × ℕ)) (m : NatMap EngineState) (b : Bool) (r : ℕ)
    → is_halted b (m r) ≡ true
    → (is_halted true ((stop_objects es m).1 r) ≡ true) × (starts r (stop_objects es m).0 ≡ 0)
unfolding stop_objects
stop_objects-halted [] m b r h = (there (m r) h, refl)
  where
    there : (o : Option EngineState) → is_halted b o ≡ true → is_halted true o ≡ true
    there none k = absurd cc
    there (some obj) k = refl
stop_objects-halted ((u, q) ∷ es) m b r h =
    let first = stop_object q (m q) m in
    let rest = stop_objects-halted es first.1 b r (by_object (m q)).0 in
    (
      rest.0,
      starts-append r first.0 (stop_objects es first.1).0
          ∙ ap (λ n. starts r first.0 + n) rest.1
          ∙ omega (arith, (by_object (m q)).1),
    )
  where
    by_object :
        (o : Option EngineState)
        → (is_halted b ((stop_object q o m).1 r) ≡ true) × (starts r (stop_object q o m).0 ≡ 0)
    by_object none = (h, refl)
    by_object (some obj) = (
      is_halted-update b m q r (record obj { stopped = true }) h (λ same. or_true b true refl),
      ends obj.running,
    )
      where
        ends :
            (c : Bool)
            → starts r ((if c then stop_engine q ∷ [] else []) ++ map end_socket obj.sockets) ≡ 0
        ends true = starts-end_socket r obj.sockets
        ends false = starts-end_socket r obj.sockets

handle_signal-Keeps :
    (w : Worker) (connected : Bool) (r : ℕ) → Halted w r → Keeps r (handle_signal connected w)
unfolding handle_signal
handle_signal-Keeps w connected r h =
    let out = stop_objects-halted w.engines w.objects w.stopped r h.0 in
    (
      (out.0, h.1),
      starts-append r (stop_objects w.engines w.objects).0
            ((if connected then disconnect ∷ [] else []) ++ schedule_exit ∷ [])
          ∙ omega (arith, out.1, ends connected),
    )
  where
    ends : (c : Bool) → starts r ((if c then disconnect ∷ [] else []) ++ schedule_exit ∷ []) ≡ 0
    ends true = refl
    ends false = refl

direct_found-Keeps :
    (w : Worker) (socket : ℕ) (reply : Text) (r : ℕ) (o : Option ℕ)
    → Halted w r
    → Keeps r (direct_found socket reply o w)
unfolding direct_found direct_object
direct_found-Keeps w socket reply r none h = (h, refl)
direct_found-Keeps w socket reply r (some q) h = by_object (w.objects q) refl
  where
    by_object :
        (o : Option EngineState) → w.objects q ≡ o → Keeps r (direct_object q socket reply o w)
    by_object none e = (h, refl)
    by_object (some obj) e = elim (Bool-cases obj.has_engine) [
      | inl there ↦
          rw there
            ((is_halted-update w.stopped w.objects q r _ h.0 (at_same w q r obj e h), h.1), refl)
      | inr missing ↦ rw missing (h, refl)
    ]

forget_socket-Halted :
    (w : Worker) (q socket r : ℕ) (o : Option EngineState)
    → w.objects q ≡ o
    → Halted w r
    → Halted (forget_socket q socket o w) r
unfolding forget_socket
forget_socket-Halted w q socket r none e h = h
forget_socket-Halted w q socket r (some obj) e h =
    (is_halted-update w.stopped w.objects q r _ h.0 (at_same w q r obj e h), h.1)

run_engine-Halted : (w : Worker) (user r : ℕ) → Halted w r → Halted (run_engine user w) r
unfolding run_engine
run_engine-Halted w user r h = (
  is_halted-update w.stopped w.objects w.next_object r (new_state user) h.0
      (λ same. absurd (ground (arith, h.1, ==_iff r w.next_object, same))),
  omega (arith, h.1),
)

on_event-Keeps : (e : Event) (w : Worker) (r : ℕ) → Halted w r → Keeps r (on_event e w)
unfolding on_event kill_engine
on_event-Keeps (run_requested user) w r h = (run_engine-Halted w user r h, refl)
on_event-Keeps (kill_requested user) w r h = kill_found-Keeps w user r _ h
on_event-Keeps (advance q) w r h = advance_found-Keeps w r q (w.objects q) refl h
on_event-Keeps (fail q) w r h = fail_found-Keeps w r (w.objects q) h
on_event-Keeps (signal connected) w r h = handle_signal-Keeps w connected r h
on_event-Keeps (direct user reply socket) w r h = direct_found-Keeps w socket reply r _ h
on_event-Keeps (socket_closed q socket) w r h =
    (forget_socket-Halted w q socket r (w.objects q) refl h, refl)

step-Keeps : (e : Event) (w : Worker) (r : ℕ) → Halted w r → Keeps r (step e w)
unfolding step
step-Keeps e w r h = by_exit w.exited
  where
    by_exit : (b : Bool) → Keeps r (if b then ([], w) else on_event e w)
    by_exit true = (h, refl)
    by_exit false = on_event-Keeps e w r h

pub run-starts : (es : List Event) (w : Worker) (r : ℕ) → Halted w r → starts r (run es w).0 ≡ 0
unfolding run
run-starts [] w r h = refl
run-starts (e ∷ es) w r h =
    let k = step-Keeps e w r h in
    starts-append r (step e w).0 (run es (step e w).1).0
    ∙ omega (arith, k.1, run-starts es (step e w).1 r k.0)
