-- ===== src/Examples/Lives.antt =====
-- Lives of runs.
use code_forge.Prelude.{◌≡◌, refl, false, none, some, List, [], ◌∷◌}
use code_forge.Prelude.Tables.{find, exists}
use code_forge.Contracts.{RunStatus}
use code_forge.Json.{end}
use code_forge.Store.Schema.{Run, empty_db}
use code_forge.Store.Monad.{World}
use code_forge.Store.Keys.{run_at}
use code_forge.Store.Keyed.{IsKeyed}
use code_forge.Store.History.{RunsEvolve}
use code_forge.Store.Numbering.{IsNumbered, session_seqs}
use code_forge.Store.Traces.{Call, create, accept, claim, move, cancel, perform_all}
use code_forge.Store.Lifecycle.{
  runs_follow_diagram, ended_runs_stay, calls_number_events, reachable_is_sound,
}
use code_forge.Examples.{
  env, request, snapshot, run, queued_world, world_of, db_of, workspace, session,
}

-- Claimed, failed, and then asked to be cancelled.
abbrev calls : List Call
calls =
    claim none "worker" "b" "z"
    ∷ move "s" "r" 1 RunStatus.failed none none none none end none
    ∷ cancel "s" "r" none
    ∷ []

keyed : IsKeyed queued_world.db.runs
unfolding exists
keyed = (refl, tt)

runs_follow_diagram_example : RunsEvolve queued_world.db (perform_all env calls queued_world).db
runs_follow_diagram_example = runs_follow_diagram env calls queued_world keyed

abbrev failed : Run
failed = record run { status = RunStatus.failed; state_version = 3 }

abbrev failed_world : World
failed_world = world_of (db_of workspace session (failed ∷ []))

failed-IsKeyed : IsKeyed failed_world.db.runs
unfolding exists
failed-IsKeyed = (refl, tt)

found_failed : find (run_at "s" "r") failed_world.db.runs ≡ some failed
unfolding find
found_failed = refl

ended_runs_stay_example :
    (s : Run) × (find (run_at "s" "r") (perform_all env calls failed_world).db.runs ≡ some s)
    × (s.status ≡ RunStatus.failed)
ended_runs_stay_example =
    ended_runs_stay env calls failed_world failed-IsKeyed "s" "r" failed found_failed refl

-- A session, and a run in it.
abbrev pub first_calls : List Call
first_calls =
    create "s" "key" "chat" none request.context
    ∷ accept (record request { session_id = "tt" }) "k" "f" snapshot false
    ∷ []

no_events : IsNumbered (world_of empty_db).db
unfolding find session_seqs
no_events = record { at = λ scope id. refl }

calls_number_events_example : IsNumbered (perform_all env first_calls (world_of empty_db)).db
calls_number_events_example = calls_number_events env first_calls (world_of empty_db) no_events

reachable_is_sound_example :
    IsKeyed (perform_all env first_calls (world_of empty_db)).db.runs
    × IsNumbered (perform_all env first_calls (world_of empty_db)).db
reachable_is_sound_example = reachable_is_sound env first_calls (world_of empty_db) refl
