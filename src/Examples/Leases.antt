-- ===== src/Examples/Leases.antt =====
-- Sessions that wait, answers and files.
use code_forge.Prelude.{◌≡◌, refl, none, some, [], ◌∷◌}
use code_forge.Prelude.Tables.{find}
use code_forge.Contracts.{RunStatus}
use code_forge.Contracts.Result.{ok}
use code_forge.Store.Schema.{Run, Session, Workspace}
use code_forge.Store.Monad.{World}
use code_forge.Store.Keys.{session_at}
use code_forge.Store.Content.{write_object, read_object, read_file}
use code_forge.Store.Responses.{respond_to_run}
use code_forge.Store.Claim.{eligible}
use code_forge.Store.Answers.{answered_stays_unclaimed}
use code_forge.Store.Objects.{write_object-read_object}
use code_forge.Examples.{env, run, session, workspace, new_world, world_of, db_of}

-- The run is claimed by attempt "a", whose lease ran until "a".
abbrev leased : Workspace
leased = record workspace {
  active_attempt_id = some "a";
  workspace_epoch = 1;
  lease_until = some "a";
}

abbrev busy : Session
busy = record session { active_run_id = some "r"; execution_epoch = 1 }

abbrev waiting : Run
waiting = record run { status = RunStatus.waiting_user; state_version = 2 }

abbrev waiting_world : World
waiting_world = world_of (db_of leased busy (waiting ∷ []))

found_session : find (session_at "s" "c") waiting_world.db.sessions ≡ some busy
unfolding find
found_session = refl

answered_stays_unclaimed_example :
    eligible (respond_to_run env "s" "r" "p" "key" 2 "yes" "me" waiting_world).1.db "z" none waiting
    ≡ none
answered_stays_unclaimed_example =
    answered_stays_unclaimed env "s" "r" "p" "key" 2 "yes" "me" waiting_world waiting busy "r" "z"
      none found_session refl

write_object-read_object_example :
    (read_object env "/data" "f" (write_object env "/data" "f" "new" new_world).1.files ≡ ok "new")
    × ((write_object env "/data" "f" "new" new_world).0
        ≡ ok (record { ref = "f"; bytes = 3; digest = "new" }))
unfolding read_file
write_object-read_object_example = write_object-read_object env "/data" "f" "new" new_world
