-- ===== src/Almond/EngineProcess/Tests.antt =====
-- A process on concrete events, and its theorems at concrete inputs.
use genie_cloud.Base.{
  ◌≤◌, ◌≡◌, if◌then◌else◌, refl, false, List, [], ◌∷◌, none, some, codes, lookup, insert,
  starts_with, has_text,
}
use genie_cloud.Almond.EngineProcess.{EngineProcess, shared_process, new_process, start, ready}
use genie_cloud.Almond.EngineProcess.Lifetime.{
  Event, exits, kills, has_child, restarts, starts, says, run, crashes, crashes_left, run-crashes,
}
use genie_cloud.Almond.EngineProcess.Spawn.{Env, Has, env_is_allowed, make_env}

abbrev fresh : EngineProcess
unfolding new_process start
fresh = start (new_process false (shared_process (codes "1/S0")) none).0

abbrev two_crashes : List Event
two_crashes = exits (some 1) ∷ restarts ∷ starts ∷ says (ready 7) ∷ exits (some 1) ∷ []

run-crashes_example :
    (crashes (run fresh two_crashes).1 ≤ crashes_left fresh)
    × (crashes (run fresh (exits (some 1) ∷ two_crashes)).1 ≡ crashes_left fresh)
    × (crashes (run fresh (kills ∷ two_crashes)).1
        ≤ (if has_child fresh then 0 else crashes_left fresh))
run-crashes_example = run-crashes fresh (some 1) two_crashes

abbrev server_env : Env
server_env = (codes "PATH", codes "/bin") ∷ (codes "SECRET", codes "x") ∷ []

abbrev path_of_child : Has (codes "PATH") (make_env server_env [] (codes "3"))
unfolding make_env lookup insert env_is_allowed starts_with has_text
path_of_child = (codes "/bin", refl)
