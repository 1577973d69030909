-- ===== src/Almond/EngineManager/Locked/Moves.antt =====
-- almond/enginemanager.ts: what the callers keep at their locks, while one of them goes on.
use genie_cloud.Base.{
  ℕ, ◌≡◌, ◌<◌, refl, sym, ap, ◌∙◌, subst, ◌⊎◌, inl, inr, Bool, true, false, not, ◌||◌, List, [],
  Option, none, some, if◌then◌else◌, if-elim, NatMap, update, ◌==◌, ==_iff, Bool-cases, arith,
}
use genie_cloud.Util.Lock.{
  Lock, new, acquire, acquired, unlock, queue_fulfilled, acquire_step, acquired_step, unlock_step,
}
use genie_cloud.Util.Lock
use genie_cloud.Almond.EngineManager.{Manager}
use genie_cloud.Almond.EngineManager.Locked.{
  Operation, Action, Caller, Office, deletes_lock, set_lock, enter, acted, release, IsActive,
}

abbrev pub keeps_locks : Operation → Bool
keeps_locks op = not (deletes_lock op)

-- What holds of a caller at its lock.
pub record AtLock (lock : Lock) (a : Caller) : Type 0 where
  pub taken : a.turn < lock.turns
  pub got : a.entered ≡ true → lock.returned a.turn ≡ true
  pub held : a.released ≡ false → lock.unlocked a.turn ≡ false

pub record Kept (o : Office) : Type 0 where
  pub reached : (l : ℕ) → Lock.Reachable (o.heap l)
  pub older : (c : ℕ) (a : Caller) → o.callers c ≡ some a → c < o.next_caller
  pub made : (u l : ℕ) → o.locks u ≡ some l → l < o.next_lock
  pub known : (c : ℕ) (a : Caller) → o.callers c ≡ some a → o.locks a.user ≡ some a.lock
  pub at_lock : (c : ℕ) (a : Caller) → o.callers c ≡ some a → AtLock (o.heap a.lock) a
  pub keeps : (c : ℕ) (a : Caller) → o.callers c ≡ some a → deletes_lock a.operation ≡ false
  pub apart :
      (c d : ℕ) (a b : Caller)
      → o.callers c ≡ some a
      → o.callers d ≡ some b
      → a.lock ≡ b.lock
      → a.turn ≡ b.turn
      → c ≡ d

some_caller : {a b : Caller} → some a ≡ some b → a ≡ b
some_caller h = cc

-- A caller of a table in which one was written.
pub written :
    (m : NatMap Caller) (c d : ℕ) (a b : Caller)
    → update m c (some a) d ≡ some b
    → ((d ≡ c) × (a ≡ b)) ⊎ (((d == c) ≡ false) × (m d ≡ some b))
written m c d a b e = elim (Bool-cases (d == c)) [
  | inl same ↦ inl ((==_iff d c).0 same, some_caller {a = a} (sym (rw same refl) ∙ e))
  | inr other ↦ inr (other, sym (rw other refl) ∙ e)
]

pub set_lock-elim :
    (P : Lock → Type 0) (heap : ℕ → Lock) (l k : ℕ) (lock : Lock)
    → (k ≡ l → P lock)
    → P (heap k)
    → P (set_lock heap l lock k)
set_lock-elim P heap l k lock new old =
    if-elim P (k == l) (λ same. new ((==_iff k l).0 same)) (λ other. old)

pub set_lock_self : (heap : ℕ → Lock) (l : ℕ) (lock : Lock) → set_lock heap l lock l ≡ lock
set_lock_self heap l lock = rw ((==_iff l l).1 refl) refl

-- The same caller, as far as its place goes.
record SamePlace (a b : Caller) : Type 0 where
  user : a.user ≡ b.user
  lock : a.lock ≡ b.lock
  turn : a.turn ≡ b.turn
  operation : a.operation ≡ b.operation

-- One caller is written, and its lock moves on.
module _ (o : Office) (k : Kept o) (c : ℕ) (a a' : Caller) (lock : Lock) (heap : ℕ → Lock)
    (m : Manager) (there : o.callers c ≡ some a) (place : SamePlace a a')
    (heap_at : (l : ℕ) → heap l ≡ set_lock o.heap a.lock lock l) (moved : Lock.Reachable lock)
    (own : AtLock lock a')
    (others : (d : ℕ) (b : Caller)
      → (d == c) ≡ false
      → o.callers d ≡ some b
      → b.lock ≡ a.lock
      → AtLock (o.heap a.lock) b
      → AtLock lock b) where
  abbrev next : Office
  next = record o { manager = m; heap = heap; callers = update o.callers c (some a') }

  -- Every caller was there before, at the same place.
  origin :
      (d : ℕ) (b : Caller)
      → next.callers d ≡ some b
      → (b0 : Caller) × (o.callers d ≡ some b0) × SamePlace b0 b
  origin d b e = elim (written o.callers c d a' b e) [
    | inl (same, is_new) ↦ (a, ap o.callers same ∙ there, subst (SamePlace a) is_new place)
    | inr (other, old) ↦
        (b, old, record { user = refl; lock = refl; turn = refl; operation = refl })
  ]

  write-Kept : Kept next
  write-Kept = record {
    reached = λ l.
        subst Lock.Reachable (sym (heap_at l))
          (set_lock-elim Lock.Reachable o.heap a.lock l lock (λ e. moved) (k.reached l));
    older = λ d b e. k.older d (origin d b e).0 (origin d b e).1;
    made = k.made;
    known = λ d b e.
        let from = origin d b e in
        ap o.locks (sym from.2.user) ∙ k.known d from.0 from.1 ∙ ap some from.2.lock;
    at_lock = λ d b e.
        subst (λ l. AtLock l b) (sym (heap_at b.lock))
          (elim (written o.callers c d a' b e) [
            | inl (same, is_new) ↦
                subst (λ f. AtLock (set_lock o.heap a.lock lock f.lock) f) is_new
                  (subst (λ l. AtLock (set_lock o.heap a.lock lock l) a') place.lock
                    (subst (λ l. AtLock l a') (sym (set_lock_self o.heap a.lock lock)) own))
            | inr (other, old) ↦
                set_lock-elim (λ l. AtLock l b) o.heap a.lock b.lock lock
                  (λ at.
                    others d b other old at
                      (subst (λ l. AtLock (o.heap l) b) at (k.at_lock d b old)))
                  (k.at_lock d b old)
          ]);
    keeps = λ d b e.
        let from = origin d b e in ap deletes_lock (sym from.2.operation) ∙ k.keeps d from.0 from.1;
    apart = λ d f b g e h l t.
        let one = origin d b e in
        let two = origin f g h in
        k.apart d f one.0 two.0 one.1 two.1 (one.2.lock ∙ l ∙ sym two.2.lock)
          (one.2.turn ∙ t ∙ sym two.2.turn);
  }

same_place : (a : Caller) → SamePlace a a
same_place a = record { user = refl; lock = refl; turn = refl; operation = refl }

or_right : (a b : Bool) → b ≡ true → (a || b) ≡ true
or_right true b h = refl
or_right false b h = h

or_none : (a b : Bool) → a ≡ false → b ≡ false → (a || b) ≡ false
or_none true b g h = absurd (ground arith)
or_none false b g h = h

pub enter-Kept :
    (o : Office) (c : ℕ) (a : Caller)
    → Kept o
    → o.callers c ≡ some a
    → a.entered ≡ false
    → queue_fulfilled (o.heap a.lock) a.turn ≡ true
    → Kept (enter c a o)
unfolding enter acquired
enter-Kept o c a k there waits free =
    let at = k.at_lock c a there in
    write-Kept o k c a (record a { entered = true }) (acquired a.turn (o.heap a.lock)) _ o.manager
      there (record { user = refl; lock = refl; turn = refl; operation = refl }) (λ l. refl)
      (Lock.then (k.reached a.lock) (acquired_step (o.heap a.lock) a.turn at.taken free))
      (record {
        taken = at.taken;
        got = λ e. ap (λ b. b || (o.heap a.lock).returned a.turn) ((==_iff a.turn a.turn).1 refl);
        held = at.held;
      })
      (λ d b other e same there_too. record {
        taken = there_too.taken;
        got = λ e. or_right _ _ (there_too.got e);
        held = there_too.held;
      })

set_lock_same : (heap : ℕ → Lock) (l k : ℕ) → heap k ≡ set_lock heap l (heap l) k
set_lock_same heap l k = set_lock-elim (λ x. heap k ≡ x) heap l k (heap l) (λ e. ap heap e) refl

replan :
    (o : Office) (c : ℕ) (a : Caller)
    → Kept o
    → o.callers c ≡ some a
    → (plan : List Action) (m : Manager)
    → Kept
        (record o { manager = m; callers = update o.callers c (some (record a { plan = plan })) })
replan o c a k there plan m =
    let at = k.at_lock c a there in
    write-Kept o k c a (record a { plan = plan }) (o.heap a.lock) o.heap m there
      (record { user = refl; lock = refl; turn = refl; operation = refl })
      (set_lock_same o.heap a.lock) (k.reached a.lock)
      (record { taken = at.taken; got = at.got; held = at.held }) (λ d b other e same kept. kept)

pub acted-Kept :
    (o : Office) (c : ℕ) (a : Caller) (out : Manager × Option (List Action))
    → Kept o
    → o.callers c ≡ some a
    → Kept (acted c a out o)
unfolding acted
acted-Kept o c a (m, none) k there = replan o c a k there [] m
acted-Kept o c a (m, some plan) k there = replan o c a k there plan m

not_both : {x : Bool} → x ≡ true → x ≡ false → ⊥
not_both g h = cc

pub release-Kept :
    (o : Office) (c : ℕ) (a : Caller)
    → Kept o
    → o.callers c ≡ some a
    → IsActive a
    → Kept (release c a o)
unfolding release unlock
release-Kept o c a k there active = by_operation (deletes_lock a.operation) (k.keeps c a there)
  where
    at : AtLock (o.heap a.lock) a
    at = k.at_lock c a there

    by_operation :
        (b : Bool)
        → b ≡ false
        → Kept (record o {
          heap = set_lock o.heap a.lock (unlock a.turn (o.heap a.lock));
          locks = if b then update o.locks a.user none else o.locks;
          callers = update o.callers c (some (record a { released = true }));
        })
    by_operation true e = absurd cc
    by_operation false e =
        write-Kept o k c a (record a { released = true }) (unlock a.turn (o.heap a.lock)) _
          o.manager there (record { user = refl; lock = refl; turn = refl; operation = refl })
          (λ l. refl)
          (Lock.then (k.reached a.lock) (unlock_step (o.heap a.lock) a.turn (at.got active.0)))
          (record { taken = at.taken; got = at.got; held = λ e. absurd cc })
          (λ d b other e same there_too. record {
            taken = there_too.taken;
            got = there_too.got;
            held = λ h. or_none _ _ (turns_differ d b other e same) (there_too.held h);
          })
      where
        turns_differ :
            (d : ℕ) (b : Caller)
            → (d == c) ≡ false
            → o.callers d ≡ some b
            → b.lock ≡ a.lock
            → (b.turn == a.turn) ≡ false
        turns_differ d b other e same = elim (Bool-cases (b.turn == a.turn)) [
          | inr differ ↦ differ
          | inl equal ↦ absurd (
              not_both
                ((==_iff d c).1 (k.apart d c b a e there same ((==_iff b.turn a.turn).0 equal)))
                other)
        ]
