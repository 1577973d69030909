-- ===== src/Util/Lock/Exclusion.antt =====
-- util/lock.ts: about the holders of a lock and their turns.
use genie_cloud.Base.{
  ℕ, zero, suc, ◌<◌, ◌≡◌, refl, sym, ◌⊎◌, inl, inr, Bool, true, false, ◌||◌, ◌&&◌, ◌==◌, ==_iff,
  arith, Bool-cases, subst, ℕ_discrete, dec_lt,
}
use genie_cloud.Util.Lock.{
  Lock, new, acquire, queue_fulfilled, acquired, unlock, Step, acquire_step, acquired_step,
  unlock_step, Reachable, start, then, Holds,
}

or_elim : (a b : Bool) → (a || b) ≡ true → (a ≡ true) ⊎ (b ≡ true)
or_elim true b h = inl refl
or_elim false b h = inr h

or_intro : (a b : Bool) → b ≡ true → (a || b) ≡ true
or_intro a b h = ground arith

and_first : (a b : Bool) → (a && b) ≡ true → a ≡ true
and_first a b h = ground arith

and_last : (a b : Bool) → (a && b) ≡ true → b ≡ true
and_last a b h = ground arith

queue_fulfilled-below :
    (l : Lock) (n j : ℕ) → queue_fulfilled l n ≡ true → j < n → l.unlocked j ≡ true
unfolding queue_fulfilled
queue_fulfilled-below l zero j h lt = absurd (omega (arith, lt))
queue_fulfilled-below l (suc n) j h lt = elim (ℕ_discrete j n) [
  | yes e ↦ subst (λ i. l.unlocked i ≡ true) (sym e) (and_last _ _ h)
  | no ne ↦ queue_fulfilled-below l n j (and_first _ _ h) (omega (arith, lt, ne))
]

same : (n k : ℕ) → (n == k) ≡ true → n ≡ k
same n k e = (==_iff n k).0 e

all_fulfilled :
    (l : Lock) (n : ℕ) → ((j : ℕ) → j < n → l.unlocked j ≡ true) → queue_fulfilled l n ≡ true
unfolding queue_fulfilled
all_fulfilled l zero h = refl
all_fulfilled l (suc n) h =
    let rest = all_fulfilled l n (λ j lt. h j (omega (arith, lt))) in
    let last = h n (omega arith) in rw rest last

-- A caller that returned has a turn of the queue, and all turns before it are fulfilled; a turn
-- that is fulfilled is one of a caller that returned.
record Ordered (l : Lock) : Type 0 where
  turn : (k : ℕ) → l.returned k ≡ true → k < l.turns
  earlier : (k j : ℕ) → l.returned k ≡ true → j < k → l.unlocked j ≡ true
  called : (k : ℕ) → l.unlocked k ≡ true → l.returned k ≡ true

step-Ordered : {l m : Lock} → Step l m → Ordered l → Ordered m
unfolding acquire acquired unlock
step-Ordered (acquire_step l) o = record {
  turn = λ k h. let t = o.turn k h in omega (arith, t);
  earlier = o.earlier;
  called = o.called;
}
step-Ordered (acquired_step l k lt q) o = record {
  turn = λ n h. elim (or_elim _ _ h) [ inl e ↦ omega (arith, lt, same n k e) | inr r ↦ o.turn n r ];
  earlier = λ n j h b. elim (or_elim _ _ h) [
    | inl e ↦ queue_fulfilled-below l k j q (omega (arith, b, same n k e))
    | inr r ↦ o.earlier n j r b
  ];
  called = λ n h. or_intro _ _ (o.called n h);
}
step-Ordered (unlock_step l k r) o = record {
  turn = o.turn;
  earlier = λ n j h b. or_intro _ _ (o.earlier n j h b);
  called = λ n h. elim (or_elim _ _ h) [
    | inl e ↦ subst (λ i. l.returned i ≡ true) (sym (same n k e)) r
    | inr u ↦ o.called n u
  ];
}

reachable-Ordered : {l : Lock} → Reachable l → Ordered l
unfolding new
reachable-Ordered start = record { turn = λ k h. cc; earlier = λ k j h b. cc; called = λ k h. h }
reachable-Ordered (then r s) = step-Ordered s (reachable-Ordered r)

-- In a lock that was reached from a new one, a caller that got the lock got it after every caller
-- before it got it and released it.
pub returned-order :
    {l : Lock} (r : Reachable l) (j k : ℕ)
    → j < k
    → l.returned k ≡ true
    → (l.returned j ≡ true) × (l.unlocked j ≡ true)
returned-order r j k lt h =
    let o = reachable-Ordered r in let u = o.earlier k j h lt in (o.called j u, u)

-- Only a turn that was taken is fulfilled.
pub unlocked-turns : {l : Lock} (r : Reachable l) (k : ℕ) → l.turns < suc k → l.unlocked k ≡ false
unlocked-turns {l} r k past = elim (Bool-cases (l.unlocked k)) [
  | inl h ↦ let o = reachable-Ordered r in absurd (omega (arith, past, o.turn k (o.called k h)))
  | inr h ↦ h
]

not_both : {b : Bool} → b ≡ true → b ≡ false → ⊥
not_both h k = cc

-- In a lock that was reached from a new one, two callers that hold it are one.
pub Holds-unique : {l : Lock} (r : Reachable l) (j k : ℕ) → Holds l j → Holds l k → j ≡ k
Holds-unique {l} r j k (a, b) (c, d) = elim (dec_lt j k) [
  | yes lt ↦ absurd (not_both (returned-order r j k lt c).1 b)
  | no ge ↦ elim (dec_lt k j) [
    | yes lt ↦ absurd (not_both (returned-order r k j lt a).1 d)
    | no le ↦ omega (arith, ge, le)
  ]
]

-- The first caller whose turn is not fulfilled holds the lock, or can take the step that gives it
-- the lock.
pub next_turn :
    (l : Lock) (k : ℕ)
    → k < l.turns
    → ((j : ℕ) → j < k → l.unlocked j ≡ true)
    → l.unlocked k ≡ false
    → Holds l k ⊎ Step l (acquired k l)
next_turn l k lt e u = elim (Bool-cases (l.returned k)) [
  | inl r ↦ inl (r, u)
  | inr r ↦ inr (acquired_step l k lt (all_fulfilled l k e))
]
