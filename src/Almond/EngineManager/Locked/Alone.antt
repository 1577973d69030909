-- ===== src/Almond/EngineManager/Locked/Alone.antt =====
-- almond/enginemanager.ts: about the operations on one user.
use genie_cloud.Base.{
  ℕ, ◌≡◌, refl, sym, ap, ◌∙◌, subst, inl, inr, Bool, false, Option, none, some, ◌==◌, ==_iff,
  Bool-cases, arith,
}
use genie_cloud.Util.Lock.{
  Lock, new, acquire, acquired, unlock, queue_fulfilled, acquire_step, acquired_step, unlock_step,
}
use genie_cloud.Util.Lock
use genie_cloud.Util.Lock.Exclusion.{Holds-unique, unlocked-turns}
use genie_cloud.Almond.EngineManager.{User}
use genie_cloud.Almond.EngineManager.Locked.{
  Operation, Caller, Office, deletes_lock, new_office, set_lock, lock_of, queue_caller, call,
  IsActive, Step, call_step, enter_step, act_step, release_step, manager_step, Reachable, opened,
  stepped, plan_of,
}
use genie_cloud.Almond.EngineManager.Locked.Moves.{
  AtLock, Kept, written, set_lock-elim, set_lock_self, enter-Kept, acted-Kept, release-Kept,
  keeps_locks,
}

-- A new caller at the lock of its user.
queue_caller-Kept :
    (o : Office) (op : Operation) (user l : ℕ)
    → Kept o
    → o.locks user ≡ some l
    → deletes_lock op ≡ false
    → Kept (queue_caller op user l o)
unfolding queue_caller acquire
queue_caller-Kept o op user l k has_lock keeps = record {
  reached = λ j.
      set_lock-elim Lock.Reachable o.heap l j (acquire (o.heap l))
        (λ e. Lock.then (k.reached l) (acquire_step (o.heap l))) (k.reached j);
  older = λ c b e. elim (written o.callers o.next_caller c new_caller b e) [
    | inl (same, is_new) ↦ omega (arith, same)
    | inr (other, old) ↦ let less = k.older c b old in omega (arith, less)
  ];
  made = k.made;
  known = λ c b e. elim (written o.callers o.next_caller c new_caller b e) [
    | inl (same, is_new) ↦ subst (λ f. o.locks f.user ≡ some f.lock) is_new has_lock
    | inr (other, old) ↦ k.known c b old
  ];
  at_lock = λ c b e. elim (written o.callers o.next_caller c new_caller b e) [
    | inl (same, is_new) ↦
        subst (λ f. AtLock (set_lock o.heap l (acquire (o.heap l)) f.lock) f) is_new
          (subst (λ x. AtLock x new_caller) (sym (set_lock_self o.heap l (acquire (o.heap l))))
            (record {
              taken = omega arith;
              got = λ h. absurd cc;
              held = λ h. unlocked-turns (k.reached l) (o.heap l).turns (omega arith);
            }))
    | inr (other, old) ↦
        let at = k.at_lock c b old in
        set_lock-elim (λ x. AtLock x b) o.heap l b.lock (acquire (o.heap l))
          (λ same. more b (subst (λ j. AtLock (o.heap j) b) same at)) at
  ];
  keeps = λ c b e. elim (written o.callers o.next_caller c new_caller b e) [
    | inl (same, is_new) ↦ subst (λ f. deletes_lock f.operation ≡ false) is_new keeps
    | inr (other, old) ↦ k.keeps c b old
  ];
  apart = λ c d a b e f same_lock same_turn.
      elim (written o.callers o.next_caller c new_caller a e) [
        | inl (is_last, is_new) ↦ elim (written o.callers o.next_caller d new_caller b f) [
          | inl (also_last, also_new) ↦ is_last ∙ sym also_last
          | inr (other, old) ↦ absurd (
              too_late d b old (ap (λ x. x.lock) is_new ∙ same_lock)
                (ap (λ x. x.turn) is_new ∙ same_turn))
        ]
        | inr (other, old) ↦ elim (written o.callers o.next_caller d new_caller b f) [
          | inl (also_last, also_new) ↦ absurd (
              too_late c a old (ap (λ x. x.lock) also_new ∙ sym same_lock)
                (ap (λ x. x.turn) also_new ∙ sym same_turn))
          | inr (later, older) ↦ k.apart c d a b old older same_lock same_turn
        ]
      ];
}
  where
    new_caller : Caller
    new_caller = record {
      user = user;
      operation = op;
      lock = l;
      turn = (o.heap l).turns;
      entered = false;
      released = false;
      plan = plan_of op;
    }

    more : (b : Caller) → AtLock (o.heap l) b → AtLock (acquire (o.heap l)) b
    more b at =
        let t = at.taken in record { taken = omega (arith, t); got = at.got; held = at.held }

    too_late :
        (c : ℕ) (a : Caller) → o.callers c ≡ some a → l ≡ a.lock → (o.heap l).turns ≡ a.turn → ⊥
    too_late c a e at_l at_end =
        let at : AtLock (o.heap l) a =
          subst (λ j. AtLock (o.heap j) a) (sym at_l) (k.at_lock c a e) in
        let t = at.taken in absurd (omega (arith, t, at_end))

not_some : {A : Type 0} {x : A} → ◌≡◌ {A = Option A} none (some x) → ⊥
not_some h = cc

lock_of-Kept :
    (user : ℕ) (l : Option ℕ) (o : Office)
    → o.locks user ≡ l
    → Kept o
    → Kept (lock_of user l o).0 × ((lock_of user l o).0.locks user ≡ some (lock_of user l o).1)
unfolding lock_of
lock_of-Kept user (some l) o e k = (k, e)
lock_of-Kept user none o e k = (
  record {
    reached =
        λ j. set_lock-elim Lock.Reachable o.heap o.next_lock j new (λ h. Lock.start) (k.reached j);
    older = k.older;
    made = λ u l h. elim (Bool-cases (u == user)) [
      | inl same ↦
          let is_next : some o.next_lock ≡ some l = sym (rw same refl) ∙ h in
          let is_last = some_number is_next in omega (arith, is_last)
      | inr other ↦ let less = k.made u l (sym (rw other refl) ∙ h) in omega (arith, less)
    ];
    known = λ c a h. elim (Bool-cases (a.user == user)) [
      | inl same ↦
          absurd (not_some (sym e ∙ ap o.locks (sym ((==_iff a.user user).0 same)) ∙ k.known c a h))
      | inr other ↦ rw other (k.known c a h)
    ];
    at_lock = λ c a h.
        set_lock-elim (λ x. AtLock x a) o.heap o.next_lock a.lock new
          (λ same.
            let less = k.made a.user a.lock (k.known c a h) in absurd (omega (arith, less, same)))
          (k.at_lock c a h);
    keeps = k.keeps;
    apart = k.apart;
  },
  rw ((==_iff user user).1 refl) refl,
)
  where
    some_number : {x y : ℕ} → some x ≡ some y → x ≡ y
    some_number h = cc

call-Kept :
    (op : Operation) (user : ℕ) (o : Office)
    → deletes_lock op ≡ false
    → Kept o
    → Kept (call op user o)
unfolding call
call-Kept op user o keeps k =
    let locked = lock_of-Kept user (o.locks user) o refl k in
    queue_caller-Kept (lock_of user (o.locks user) o).0 op user (lock_of user (o.locks user) o).1
      locked.0 locked.1 keeps

module _ (get_user : ℕ → Option User) (embedded disable_sandbox : Bool) where
  step-Kept :
      {o p : Office} → Step keeps_locks get_user embedded disable_sandbox o p → Kept o → Kept p
  step-Kept (call_step o op user allowed) k = call-Kept op user o (ground arith) k
  step-Kept (enter_step o c a there waits free) k = enter-Kept o c a k there waits free
  step-Kept (act_step o c a action rest there active planned) k = acted-Kept o c a _ k there
  step-Kept (release_step o c a there active planned) k = release-Kept o c a k there active
  step-Kept (manager_step o m) k = record {
    reached = k.reached;
    older = k.older;
    made = k.made;
    known = k.known;
    at_lock = k.at_lock;
    keeps = k.keeps;
    apart = k.apart;
  }

  reachable-Kept : {o : Office} → Reachable keeps_locks get_user embedded disable_sandbox o → Kept o
  unfolding new_office
  reachable-Kept (opened m) = record {
    reached = λ l. Lock.start;
    older = λ c a e. absurd (not_some e);
    made = λ u l e. absurd (not_some e);
    known = λ c a e. absurd (not_some e);
    at_lock = λ c a e. absurd (not_some e);
    keeps = λ c a e. absurd (not_some e);
    apart = λ c d a b e f h t. absurd (not_some e);
  }
  reachable-Kept (stepped r s) = step-Kept s (reachable-Kept r)

  -- While no user is deleted, two operations on one user that have the lock and have not released it are
  -- one and the same.
  pub active-alone :
      {o : Office} (r : Reachable keeps_locks get_user embedded disable_sandbox o) (c d : ℕ)
      (a b : Caller)
      → o.callers c ≡ some a
      → o.callers d ≡ some b
      → a.user ≡ b.user
      → IsActive a
      → IsActive b
      → c ≡ d
  active-alone {o} r c d a b e f same_user active also =
      let k = reachable-Kept r in
      let first = k.at_lock c a e in
      let same_lock : a.lock ≡ b.lock =
        some_number (sym (k.known c a e) ∙ ap o.locks same_user ∙ k.known d b f) in
      let second : AtLock (o.heap a.lock) b =
        subst (λ l. AtLock (o.heap l) b) (sym same_lock) (k.at_lock d b f) in
      k.apart c d a b e f same_lock (
        Holds-unique (k.reached a.lock) a.turn b.turn (first.got active.0, first.held active.1)
          (second.got also.0, second.held also.1))
    where
      some_number : {x y : ℕ} → some x ≡ some y → x ≡ y
      some_number h = cc
