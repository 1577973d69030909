-- ===== src/Almond/EngineProcess/Lifetime.antt =====
-- About the deaths that a process reports, over any sequence of events.
use genie_cloud.Base.{
  ℕ, suc, Bool, Option-cases, inl, inr, ◌+◌, ◌≤◌, ◌≡◌, true, false, List, [], ◌∷◌, ◌++◌, Option,
  none, some, Text, arith, if◌then◌else◌,
}
use genie_cloud.Almond.EngineProcess.{
  EngineProcess, Effect, Step, Message, emit_exit, kill, dying_timeout_fires, kill_engine,
  kill_engine_returns, restart, start, on_info, on_error, on_disconnect, on_exit, on_message,
  run_engine, send, ready, rpc,
}

pub data Event : Type 0 where
  kills times_out restarts starts errors disconnects : Event
  exits : Option ℕ → Event
  informs : ℕ → Event
  says : Message → Event
  runs : ℕ → Text → Event
  kills_engine returns : ℕ → Event
  sends : Text → Event

-- `send` throws before it changes anything.
abbrev or_same : EngineProcess → Option Step → Step
or_same p none = (p, [])
or_same p (some s) = s

unfoldable pub step : EngineProcess → Event → Step
step p kills = kill p
step p times_out = dying_timeout_fires p
step p restarts = (restart p 5000, [])
step p starts = (start p, [])
step p errors = on_error p
step p disconnects = on_disconnect p
step p (exits code) = on_exit p code
step p (informs pid) = (on_info p pid, [])
step p (says m) = on_message p m
step p (runs user_id cloud_id) = (run_engine p user_id cloud_id).step
step p (kills_engine user_id) = (kill_engine p user_id).step
step p (returns user_id) = kill_engine_returns p user_id
step p (sends m) = or_same p (send p m)

unfoldable pub run : EngineProcess → List Event → Step
run p [] = (p, [])
run p (e ∷ es) = let (q, out) = step p e in let (r, more) = run q es in (r, out ++ more)

-- The `exit` events that no `kill` asked for.
unfoldable pub crashes : List Effect → ℕ
crashes [] = 0
crashes (emit_exit false ∷ es) = suc (crashes es)
crashes (_ ∷ es) = crashes es

abbrev pub crashes_left : EngineProcess → ℕ
crashes_left p = if p.had_exit then 0 else 1

crashes-append : (es fs : List Effect) → crashes (es ++ fs) ≡ crashes es + crashes fs
unfolding crashes
crashes-append [] fs = omega arith
crashes-append (emit_exit false ∷ es) fs = omega (arith, crashes-append es fs)
crashes-append (_ ∷ es) fs = crashes-append es fs

step-crashes :
    (p : EngineProcess) (e : Event)
    → crashes (step p e).1 + crashes_left (step p e).0 ≤ crashes_left p
unfolding step crashes kill dying_timeout_fires restart start on_error on_disconnect on_exit on_info
    on_message run_engine kill_engine kill_engine_returns send
step-crashes p kills = ground arith
step-crashes p times_out = ground arith
step-crashes p (says (ready n)) = ground arith
step-crashes p (says (rpc t)) = ground arith
step-crashes p e = ground arith

run-crashes_left : (p : EngineProcess) (es : List Event) → crashes (run p es).1 ≤ crashes_left p
unfolding run
run-crashes_left p [] = unfold crashes in omega arith
run-crashes_left p (e ∷ es) = omega (
  arith,
  crashes-append (step p e).1 (run (step p e).0 es).1,
  step-crashes p e,
  run-crashes_left (step p e).0 es,
)

exit-crashes :
    (p : EngineProcess) (code : Option ℕ)
    → (crashes (on_exit p code).1 ≡ crashes_left p) × ((on_exit p code).0.had_exit ≡ true)
unfolding crashes on_exit
exit-crashes p code = ground arith

crashes_after_exit :
    (p : EngineProcess) (code : Option ℕ) (es : List Event)
    → crashes (run p (exits code ∷ es)).1 ≡ crashes_left p
unfolding run step
crashes_after_exit p code es =
    let (now, dead) = exit-crashes p code in
    let none_later : crashes_left (on_exit p code).0 ≡ 0 = rw dead in
    omega (
      arith,
      crashes-append (on_exit p code).1 (run (on_exit p code).0 es).1,
      run-crashes_left (on_exit p code).0 es,
      none_later,
      now,
    )

-- Whether there is a child to kill.
abbrev pub has_child : EngineProcess → Bool
has_child p = elim p.child [ none ↦ false | some c ↦ true ]

kill-crashes :
    (p : EngineProcess)
    → crashes (kill p).1 + crashes_left (kill p).0 ≤ (if has_child p then 0 else crashes_left p)
unfolding crashes kill
kill-crashes p = elim (Option-cases p.child) [
  | inl none_there ↦ ground arith
  | inr (c, there) ↦ ground arith
]

crashes_after_kill :
    (p : EngineProcess) (es : List Event)
    → crashes (run p (kills ∷ es)).1 ≤ (if has_child p then 0 else crashes_left p)
unfolding run step
crashes_after_kill p es = omega (
  arith,
  crashes-append (kill p).1 (run (kill p).0 es).1,
  run-crashes_left (kill p).0 es,
  kill-crashes p,
)

-- Over any sequence of events, restarts and starts included, a process reports a death of its own at
-- most once, and never if it was marked as exited. Where the first event is the exit of its child, the
-- process reports that death unless it was marked, and no later one; where the first event is a `kill`
-- of a process with a child, no death of its own is reported.
pub run-crashes :
    (p : EngineProcess) (code : Option ℕ) (es : List Event)
    → (crashes (run p es).1 ≤ crashes_left p)
      × (crashes (run p (exits code ∷ es)).1 ≡ crashes_left p)
      × (crashes (run p (kills ∷ es)).1 ≤ (if has_child p then 0 else crashes_left p))
run-crashes p code es =
    (run-crashes_left p es, crashes_after_exit p code es, crashes_after_kill p es)
