-- ===== src/Almond/ManagerClient/Tests.antt =====
-- almond/enginemanagerclient.ts: runs with two connections for one user.
use genie_cloud.Base.{◌≡◌, refl, List, [], ◌∷◌, All, none}
use genie_cloud.Almond.ManagerClient.{new, kill_user}
use genie_cloud.Almond.ManagerClient.Sockets.{
  Event, get_of, called, closed_socket, start_called, run,
}
use genie_cloud.Almond.ManagerClient.Links.{Fresh}
use genie_cloud.Almond.ManagerClient.Cached.{run-Fresh}

-- The engine is killed and asked for again before the close of its first connection is heard of.
abbrev asked_again : List Event
asked_again = start_called ∷ get_of 7 ∷ called kill_user 7 ∷ get_of 7 ∷ []

two_connections : (run 2 none asked_again new).cached_engines ≡ (7, 3) ∷ []
unfolding run new
two_connections = refl

late_close : (run 2 none (closed_socket 2 ∷ []) (run 2 none asked_again new)).cached_engines ≡ []
unfolding run new
late_close = refl

run-Fresh_example :
    All
      (Fresh (run 2 none asked_again new).links (run 2 none asked_again new).expect_close)
      (run 2 none asked_again new).cached_engines
run-Fresh_example = run-Fresh 2 none asked_again
