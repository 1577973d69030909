-- ===== src/Util/Lock.antt =====
-- util/lock.ts: the lock of promises. The n-th call of `acquire` has the n-th turn, a promise that
-- its `unlockCallback` fulfils. The queue that it awaits is the chain of the turns before it, which
-- is fulfilled when all of them are; a caller whose queue is fulfilled goes on at some later step.
pub mod Exclusion
mod Tests
use genie_cloud.Base.{ℕ, zero, suc, ◌+◌, ◌<◌, ◌≡◌, Bool, true, false, ◌||◌, ◌==◌, ◌&&◌}

pub record Lock : Type 0 where
  -- how many turns the queue has
  pub turns : ℕ
  -- the turns that are fulfilled
  pub unlocked : ℕ → Bool
  -- the calls of `acquire` that returned
  pub returned : ℕ → Bool

unfoldable pub new : Lock
new = record { turns = 0; unlocked = λ n. false; returned = λ n. false }

-- `acquire`, up to its `await`: a turn at the back of the queue.
unfoldable pub acquire : Lock → Lock
acquire l = record l { turns = l.turns + 1 }

-- The promise that is the chain of the first turns.
unfoldable pub queue_fulfilled : Lock → ℕ → Bool
queue_fulfilled l zero = true
queue_fulfilled l (suc n) = queue_fulfilled l n && l.unlocked n

-- `acquire`, after its `await`: the caller has the callback.
unfoldable pub acquired : ℕ → Lock → Lock
acquired k l = record l { returned = λ n. n == k || l.returned n }

-- The callback of a turn.
unfoldable pub unlock : ℕ → Lock → Lock
unlock k l = record l { unlocked = λ n. n == k || l.unlocked n }

pub data Step : Lock → Lock → Type 0 where
  acquire_step : (l : Lock) → Step l (acquire l)
  acquired_step :
      (l : Lock) (k : ℕ) → k < l.turns → queue_fulfilled l k ≡ true → Step l (acquired k l)
  -- only who has the callback can call it, and it may do so more than once
  unlock_step : (l : Lock) (k : ℕ) → l.returned k ≡ true → Step l (unlock k l)

pub data Reachable : Lock → Type 0 where
  start : Reachable new
  then : {l m : Lock} → Reachable l → Step l m → Reachable m

-- The caller holds the lock.
abbrev pub Holds : Lock → ℕ → Type 0
Holds l k = (l.returned k ≡ true) × (l.unlocked k ≡ false)
