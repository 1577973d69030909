-- ===== src/Almond/EngineManager/Locked/Tests.antt =====
-- almond/enginemanager.ts: two operations on one user, and a deletion with another one.
use genie_cloud.Base.{ℕ, ◌≡◌, refl, true, false, Option, none, some}
use genie_cloud.Util.Lock.{new, queue_fulfilled}
use genie_cloud.Almond.EngineManager.{new_manager, User}
use genie_cloud.Almond.EngineManager.Locked.{
  Operation, kill_user, clear_cache, delete_user, start_user, Caller, Office, new_office, call,
  enter, release, Reachable, opened, stepped, call_step, enter_step, plan_of, deletes_lock,
}
use genie_cloud.Almond.EngineManager.Locked.Alone.{active-alone}
use genie_cloud.Almond.EngineManager.Locked.Moves.{keeps_locks}

abbrev no_rows : ℕ → Option User
no_rows u = none

abbrev caller_of : Operation → ℕ → ℕ → Caller
unfolding plan_of
caller_of op lock turn = record {
  user = 3;
  operation = op;
  lock = lock;
  turn = turn;
  entered = false;
  released = false;
  plan = plan_of op;
}

abbrev both_called : Office
both_called = call clear_cache 3 (call kill_user 3 (new_office (new_manager 0)))

abbrev first_entered : Office
first_entered = enter 0 (caller_of kill_user 0 0) both_called

first_entered-reached : Reachable keeps_locks no_rows false false first_entered
unfolding call new_office caller_of deletes_lock new queue_fulfilled
first_entered-reached =
    stepped
      (stepped
        (stepped (opened (new_manager 0)) (call_step (new_office (new_manager 0)) kill_user 3 refl))
        (call_step (call kill_user 3 (new_office (new_manager 0))) clear_cache 3 refl))
      (enter_step both_called 0 (caller_of kill_user 0 0) refl refl refl)

active-alone_example : ◌≡◌ {A = ℕ} 0 0
unfolding call new_office caller_of enter
active-alone_example =
    active-alone no_rows false false first_entered-reached 0 0
      (record (caller_of kill_user 0 0) { entered = true })
      (record (caller_of kill_user 0 0) { entered = true }) refl refl refl (refl, refl) (refl, refl)

-- The second caller waits at the lock that the first one deletes; a third one makes a new lock.
abbrev after_deletion : Office
after_deletion = enter 2 (caller_of start_user 1 0) (
    call start_user 3 (
      enter 1 (caller_of kill_user 0 1) (
        release 0 (record (caller_of delete_user 0 0) { entered = true })
          (enter 0 (caller_of delete_user 0 0)
            (call kill_user 3 (call delete_user 3 (new_office (new_manager 0))))))))

two_active :
    (after_deletion.callers 1 ≡ some (record (caller_of kill_user 0 1) { entered = true }))
    × (after_deletion.callers 2 ≡ some (record (caller_of start_user 1 0) { entered = true }))
unfolding call new_office caller_of enter release
two_active = (refl, refl)
