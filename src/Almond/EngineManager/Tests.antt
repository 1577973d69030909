-- ===== src/Almond/EngineManager/Tests.antt =====
-- The manager on concrete events, and its theorems at concrete inputs.
use genie_cloud.Base.{
  ℕ, ◌≡◌, ◌≢◌, refl, ◌⊎◌, true, false, [], ◌∷◌, none, some, Text, codes, arith, update,
}
use genie_cloud.Almond.EngineProcess.{
  Step, new_process, start, on_exit, shared_process, user_process,
}
use genie_cloud.Almond.EngineManager.{User, Manager, new_manager, on_process, fire_exit}
use genie_cloud.Almond.EngineManager.Users.{
  start_shared_processes, find_process_for_user, begin_user, attach_user, process_of,
}
use genie_cloud.Almond.EngineManager.Death.{IsTied, fire_exit-process_of}
use genie_cloud.Almond.EngineManager.Tied.{
  on_process-IsTied, new_manager-IsTied, start_shared_processes-IsTied, begin_user-IsTied,
  attach_user-IsTied,
}
use genie_cloud.Almond.EngineManager.Placement.{
  IsRoundRobin, PlacedShared, PlacedAlone, find_process_for_user_lem,
}

abbrev bob : User
bob = record { id = 5; cloud_id = codes "c5"; developer_key = none; force_separate_process = false }

abbrev two_shared : Manager
unfolding new_manager start_shared_processes
two_shared = start_shared_processes (λ n. n ∷ []) (new_manager 1) 2

abbrev crash : Step
unfolding new_process start on_exit
crash = on_exit (start (new_process false (shared_process []) none).0) (some 1)

abbrev print : ℕ → Text
print n = n ∷ []

two_shared-IsTied : IsTied two_shared
unfolding two_shared
two_shared-IsTied = start_shared_processes-IsTied print (new_manager 1) 2 (new_manager-IsTied 1)

-- Bob's engine begins on the first shared process, and stands on it.
abbrev begun : Manager
begun = record two_shared {
  proxies = update two_shared.proxies 2 (
      some
        (record { user_id = 5; cloud_id = codes "c5"; process = none; thingpedia_client = false }));
  engines = update two_shared.engines 5 (some 2);
  next_ref = 3;
  next_process = 1;
}

begun-IsTied : IsTied begun
unfolding two_shared begin_user find_process_for_user
begun-IsTied = begin_user-IsTied false two_shared begun bob 0 2 two_shared-IsTied refl

abbrev attached : Manager
unfolding attach_user
attached = attach_user false begun bob 0 2

attached-IsTied : IsTied attached
unfolding two_shared attached
attached-IsTied =
    attach_user-IsTied false begun bob 0 2
      (record { user_id = 5; cloud_id = codes "c5"; process = none; thingpedia_client = false })
      begun-IsTied refl refl (omega arith)

on_process-IsTied_example : IsTied (on_process attached 0 crash)
on_process-IsTied_example = on_process-IsTied attached 0 crash attached-IsTied

fire_exit-process_of_example : process_of (fire_exit attached 0 false) 5 ≢ some 0
fire_exit-process_of_example = fire_exit-process_of attached 0 5 false attached-IsTied

-- Before the death Bob ran there, and afterwards he is to be started again.
bob_ran : process_of attached 5 ≡ some 0
unfolding attached
bob_ran = refl

bob_restarts : (fire_exit attached 0 false).user_restarts ≡ 5 ∷ []
unfolding attached fire_exit two_shared start new_process genie_cloud.Almond.EngineProcess.restart
bob_restarts = refl

two_shared-IsRoundRobin : IsRoundRobin two_shared
unfolding two_shared start new_process
two_shared-IsRoundRobin = record { cursor = omega arith; all_shared = (refl, (refl, tt)) }

find_process_for_user_example :
    (n : Manager) × (child : ℕ) × (find_process_for_user false two_shared bob ≡ some (n, child))
    × (PlacedShared two_shared n bob child ⊎ PlacedAlone two_shared n bob child (user_process 5))
find_process_for_user_example =
    find_process_for_user_lem false two_shared bob (user_process 5) two_shared-IsRoundRobin

abbrev halted : Manager
halted = record attached { stopped = true }
