-- ===== src/Util/Lock/Tests.antt =====
-- util/lock.ts: two callers of one lock.
use genie_cloud.Base.{ℕ, ◌≡◌, refl, ◌⊎◌, arith}
use genie_cloud.Util.Lock.{
  Lock, new, acquire, queue_fulfilled, acquired, unlock, Step, acquire_step, acquired_step,
  unlock_step, Reachable, start, then, Holds,
}
use genie_cloud.Util.Lock.Exclusion.{Holds-unique, next_turn}

abbrev two_callers : Lock
two_callers = acquire (acquire new)

abbrev passed_on : Lock
passed_on = acquired 1 (unlock 0 (acquired 0 two_callers))

reached : Reachable passed_on
unfolding queue_fulfilled acquire acquired unlock new
reached =
    then
      (then
        (then (then (then start (acquire_step new)) (acquire_step (acquire new)))
          (acquired_step two_callers 0 (omega arith) refl))
        (unlock_step (acquired 0 two_callers) 0 refl))
      (acquired_step (unlock 0 (acquired 0 two_callers)) 1 (omega arith) refl)

Holds-unique_example : ◌≡◌ {A = ℕ} 1 1
unfolding acquire acquired unlock new
Holds-unique_example = Holds-unique reached 1 1 (refl, refl) (refl, refl)

next_turn_example : Holds two_callers 0 ⊎ Step two_callers (acquired 0 two_callers)
unfolding acquire new
next_turn_example = next_turn two_callers 0 (omega arith) (λ j lt. absurd (omega (arith, lt))) refl
