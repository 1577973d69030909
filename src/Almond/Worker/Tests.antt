-- ===== src/Almond/Worker/Tests.antt =====
-- almond/worker.ts: an engine that is killed while it is opened, and one that is never opened.
use genie_cloud.Base.{◌≡◌, refl, List, [], ◌∷◌}
use genie_cloud.Almond.Worker.{
  Event, run_requested, kill_requested, advance, open_engine, run_engine_of, stop_engine,
  close_engine, new_worker, get_engine, kill_engine, run,
}
use genie_cloud.Almond.Worker.Killing.{starts}
use genie_cloud.Almond.Worker.Tables.{kill_engine-starts}

abbrev started : List Event
started = run_requested 7 ∷ advance 0 ∷ []

abbrev later : List Event
later = advance 0 ∷ advance 0 ∷ []

killed_while_opening :
    (run (run_requested 7 ∷ advance 0 ∷ kill_requested 7 ∷ advance 0 ∷ advance 0 ∷ []) new_worker).0
    ≡ (open_engine 0 ∷ stop_engine 0 ∷ close_engine 0 ∷ [])
unfolding run new_worker
killed_while_opening = refl

runs :
    (run (run_requested 7 ∷ advance 0 ∷ advance 0 ∷ advance 0 ∷ []) new_worker).0
    ≡ (open_engine 0 ∷ run_engine_of 0 ∷ close_engine 0 ∷ [])
unfolding run new_worker
runs = refl

kill_engine-starts_example : starts 0 (run later (kill_engine 7 (run started new_worker).1).1).0 ≡ 0
unfolding run new_worker get_engine
kill_engine-starts_example = kill_engine-starts started later 7 0 refl
