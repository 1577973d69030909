-- ===== src/Almond/Worker/Tables.antt =====
-- almond/worker.ts: the table of engines and the objects that were made; what a kill leaves.
use genie_cloud.Base.{
  ℕ, suc, ◌≡◌, ◌<◌, refl, sym, ap, ◌∙◌, subst, Bool, true, false, not, ◌||◌, List, [], ◌∷◌, ◌++◌,
  Option, none, some, Text, if◌then◌else◌, ◌==◌, ==_iff, NatMap, update, Bool-cases, inl, inr,
  arith, filter_of,
}
use genie_cloud.Almond.Worker.{
  EngineState, Worker, Effect, reply_ready, reply_error, end_socket, Event, run_requested,
  kill_requested, advance, fail, signal, direct, socket_closed, new_worker, get_engine, set_engine,
  delete_engine, run_engine, resolve, advance_found, fail_found, kill_object, kill_found,
  kill_engine, stop_object, stop_objects, handle_signal, direct_object, direct_found, forget_socket,
  on_event, step, run, is_finished, new_state,
}
use genie_cloud.Almond.Worker.Killing.{starts, is_halted, Halted, or_true, run-starts}

abbrev is_some : {A : Type 0} → Option A → Bool
is_some none = false
is_some (some a) = true

-- Every engine of the table has an object that was made.
abbrev pub AreMade : Worker → Type 0
AreMade w =
    ((user r : ℕ) → get_engine user w.engines ≡ some r → r < w.next_object)
    × ((r : ℕ) → r < w.next_object → is_some (w.objects r) ≡ true)

get_engine-set :
    (user q u : ℕ) (es : List (ℕ × ℕ))
    → get_engine u (set_engine user q es) ≡ (if u == user then some q else get_engine u es)
unfolding get_engine set_engine
get_engine-set user q u [] = ground arith
get_engine-set user q u ((v, r) ∷ es) = ground (arith, get_engine-set user q u es)

get_engine-delete :
    (user u : ℕ) (es : List (ℕ × ℕ))
    → get_engine u (delete_engine user es) ≡ (if u == user then none else get_engine u es)
unfolding get_engine delete_engine
get_engine-delete user u [] = ground arith
get_engine-delete user u ((v, r) ∷ es) = ground (arith, get_engine-delete user u es)

-- A table with no engine that is new.
abbrev Within : List (ℕ × ℕ) → List (ℕ × ℕ) → Type 0
Within es fs = (u r : ℕ) → get_engine u es ≡ some r → get_engine u fs ≡ some r

not_some : {r : ℕ} → none ≡ some r → ⊥
not_some h = cc

delete-Within : (user : ℕ) (es : List (ℕ × ℕ)) → Within (delete_engine user es) es
delete-Within user es u r e = elim (Bool-cases (u == user)) [
  | inl same ↦ absurd (not_some (sym (rw same refl) ∙ sym (get_engine-delete user u es) ∙ e))
  | inr other ↦ sym (rw other refl) ∙ sym (get_engine-delete user u es) ∙ e
]

is_some-update :
    (m : NatMap EngineState) (q r : ℕ) (obj : EngineState)
    → is_some (m r) ≡ true
    → is_some (update m q (some obj) r) ≡ true
is_some-update m q r obj h = elim (Bool-cases (r == q)) [
  | inl same ↦ rw same refl
  | inr other ↦ rw other h
]

write-AreMade :
    (w : Worker) (es : List (ℕ × ℕ)) (q : ℕ) (obj : EngineState)
    → Within es w.engines
    → AreMade w
    → AreMade (record w { engines = es; objects = update w.objects q (some obj) })
write-AreMade w es q obj k a =
    (λ u r e. a.0 u r (k u r e), λ r less. is_some-update w.objects q r obj (a.1 r less))

run_engine-AreMade : (user : ℕ) (w : Worker) → AreMade w → AreMade (run_engine user w)
unfolding run_engine
run_engine-AreMade user w a = (in_table, in_objects)
  where
    in_table :
        (u r : ℕ)
        → get_engine u (set_engine user w.next_object w.engines) ≡ some r
        → r < suc w.next_object
    in_table u r e = elim (Bool-cases (u == user)) [
      | inl same ↦
          let is_new : some w.next_object ≡ some r =
            sym (rw same refl) ∙ sym (get_engine-set user w.next_object u w.engines) ∙ e in
          omega (arith, some_value {x = w.next_object} {y = r} is_new)
      | inr other ↦
          let old =
            a.0 u r
              (sym (rw other refl) ∙ sym (get_engine-set user w.next_object u w.engines) ∙ e) in
          omega (arith, old)
    ]
      where
        some_value : {x y : ℕ} → some x ≡ some y → x ≡ y
        some_value h = cc

    in_objects :
        (r : ℕ)
        → r < suc w.next_object
        → is_some (update w.objects w.next_object (some (new_state user)) r) ≡ true
    in_objects r less = elim (Bool-cases (r == w.next_object)) [
      | inl same ↦ rw same refl
      | inr other ↦ rw other (a.1 r (ground (arith, ==_iff r w.next_object, less, other)))
    ]

stop_objects-is_some :
    (es : List (ℕ × ℕ)) (m : NatMap EngineState) (r : ℕ)
    → is_some (m r) ≡ true
    → is_some ((stop_objects es m).1 r) ≡ true
unfolding stop_objects stop_object
stop_objects-is_some [] m r h = h
stop_objects-is_some ((u, q) ∷ es) m r h =
    stop_objects-is_some es (stop_object q (m q) m).1 r (by_object (m q))
  where
    by_object : (o : Option EngineState) → is_some ((stop_object q o m).1 r) ≡ true
    by_object none = h
    by_object (some obj) = is_some-update m q r (record obj { stopped = true }) h

advance_found-AreMade :
    (q : ℕ) (o : Option EngineState) (w : Worker) → AreMade w → AreMade (advance_found q o w).1
unfolding advance_found
advance_found-AreMade q none w a = a
advance_found-AreMade q (some obj) w a =
    write-AreMade w w.engines q (resolve q (w.stopped || obj.stopped) obj.phase obj).1 (λ u r e. e)
      a

fail_found-AreMade : (o : Option EngineState) (w : Worker) → AreMade w → AreMade (fail_found o w).1
unfolding fail_found
fail_found-AreMade none w a = a
fail_found-AreMade (some obj) w a = elim (Bool-cases (is_finished obj.phase)) [
  | inl done ↦ rw done a
  | inr waits ↦ rw waits (λ u r e. a.0 u r (delete-Within obj.user_id w.engines u r e), a.1)
]

kill_found-AreMade :
    (user : ℕ) (o : Option ℕ) (w : Worker) → AreMade w → AreMade (kill_found user o w).1
unfolding kill_found kill_object
kill_found-AreMade user none w a = a
kill_found-AreMade user (some q) w a = by_object (w.objects q)
  where
    by_object : (o : Option EngineState) → AreMade (kill_object user q o w).1
    by_object none = a
    by_object (some obj) =
        write-AreMade w (delete_engine user w.engines) q (record obj { stopped = true })
          (delete-Within user w.engines) a

direct_found-AreMade :
    (socket : ℕ) (reply : Text) (o : Option ℕ) (w : Worker)
    → AreMade w
    → AreMade (direct_found socket reply o w).1
unfolding direct_found direct_object
direct_found-AreMade socket reply none w a = a
direct_found-AreMade socket reply (some q) w a = by_object (w.objects q)
  where
    by_object : (o : Option EngineState) → AreMade (direct_object q socket reply o w).1
    by_object none = a
    by_object (some obj) = by_engine obj.has_engine
      where
        by_engine :
            (b : Bool)
            → let out : List Effect × Worker =
                if b
                then (
                  reply_ready socket reply ∷ [],
                  record w {
                    objects =
                        update w.objects q
                          (some (record obj { sockets = obj.sockets ++ socket ∷ [] }));
                  },
                )
                else (reply_error socket reply ∷ end_socket socket ∷ [], w) in
              AreMade out.1
        by_engine true =
            write-AreMade w w.engines q (record obj { sockets = obj.sockets ++ socket ∷ [] })
              (λ u r e. e) a
        by_engine false = a

forget_socket-AreMade :
    (q socket : ℕ) (o : Option EngineState) (w : Worker)
    → AreMade w
    → AreMade (forget_socket q socket o w)
unfolding forget_socket
forget_socket-AreMade q socket none w a = a
forget_socket-AreMade q socket (some obj) w a =
    write-AreMade w w.engines q
      (record obj { sockets = filter_of (λ s. not (s == socket)) obj.sockets }) (λ u r e. e) a

on_event-AreMade : (e : Event) (w : Worker) → AreMade w → AreMade (on_event e w).1
unfolding on_event kill_engine handle_signal
on_event-AreMade (run_requested user) w a = run_engine-AreMade user w a
on_event-AreMade (kill_requested user) w a = kill_found-AreMade user _ w a
on_event-AreMade (advance q) w a = advance_found-AreMade q (w.objects q) w a
on_event-AreMade (fail q) w a = fail_found-AreMade (w.objects q) w a
on_event-AreMade (signal connected) w a =
    (a.0, λ r less. stop_objects-is_some w.engines w.objects r (a.1 r less))
on_event-AreMade (direct user reply socket) w a = direct_found-AreMade socket reply _ w a
on_event-AreMade (socket_closed q socket) w a = forget_socket-AreMade q socket (w.objects q) w a

run-AreMade : (es : List Event) (w : Worker) → AreMade w → AreMade (run es w).1
unfolding run step
run-AreMade [] w a = a
run-AreMade (e ∷ es) w a = run-AreMade es (step e w).1 (by_exit w.exited)
  where
    by_exit : (b : Bool) → AreMade (if b then ([], w) else on_event e w).1
    by_exit true = a
    by_exit false = on_event-AreMade e w a

new_worker-AreMade : AreMade new_worker
unfolding new_worker get_engine
new_worker-AreMade = (λ u r e. absurd (not_some e), λ r less. absurd (omega (arith, less)))

update_self : (m : NatMap EngineState) (r : ℕ) (o : Option EngineState) → update m r o r ≡ o
update_self m r o = rw ((==_iff r r).1 refl) refl

kill_engine-Halted :
    (w : Worker) (user r : ℕ)
    → AreMade w
    → get_engine user w.engines ≡ some r
    → Halted (kill_engine user w).1 r
unfolding kill_engine kill_found kill_object
kill_engine-Halted w user r a e =
    subst (λ o. Halted (kill_found user o w).1 r) (sym e)
      (by_object (w.objects r) (a.1 r (a.0 user r e)))
  where
    by_object : (o : Option EngineState) → is_some o ≡ true → Halted (kill_object user r o w).1 r
    by_object none h = absurd cc
    by_object (some obj) h = (
      ap (is_halted w.stopped) (update_self w.objects r (some (record obj { stopped = true })))
          ∙ or_true w.stopped true refl,
      a.0 user r e,
    )

-- Whatever happens to a new worker, and whatever happens after `killEngine`: the engine that the user had
-- in the table is neither opened nor run any more.
pub kill_engine-starts :
    (before after : List Event) (user r : ℕ)
    → get_engine user (run before new_worker).1.engines ≡ some r
    → starts r (run after (kill_engine user (run before new_worker).1).1).0 ≡ 0
kill_engine-starts before after user r e =
    let w = (run before new_worker).1 in
    run-starts after (kill_engine user w).1 r
      (kill_engine-Halted w user r (run-AreMade before new_worker new_worker-AreMade) e)
