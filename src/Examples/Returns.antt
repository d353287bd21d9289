-- ===== src/Examples/Returns.antt =====
-- Calls that return: a claim, and the failure of the claimed run.
use code_forge.Prelude.{◌≢◌, [], ◌≡◌, refl, none, some}
use code_forge.Prelude.Tables.{find, exists, update_where, count_where}
use code_forge.Json.{obj, field, str, end}
use code_forge.Contracts.{RunStatus}
use code_forge.Contracts.Result.{ok}
use code_forge.StateMachine.{transition, after_transition}
use code_forge.StateMachine.Guards.{Permitted}
use code_forge.Store.Schema.{Run}
use code_forge.Store.Monad.{transaction, select, or_raise, lift, check, update, now, uuid4, pure}
use code_forge.Store.Content.{
  read_object, read_file, put_file, read_message, read_object_json, append_record,
}
use code_forge.Store.Keys.{run_at, event_fits, attempt_fits, insert_attempt}
use code_forge.Store.Events.{
  insert_event_locked, store_event, event_stored, event_row, event_record, base_for_session,
  count_run_event, count_session_event,
}
use code_forge.Store.Runs.{RunView, decode_run, decode_option, get_run, state_of}
use code_forge.Store.Transitions.{
  transition_run, transition_locked, write_output, set_state, transition_data,
}
use code_forge.Store.Claim.{
  Claim, eligible, first_eligible, attempt_row, occupy_session, lease_workspace, start_run,
  enter_lease, claim_binding, record_start, lease_as, take_lease, lease_found, claim_of,
  claim_next_run,
}
use code_forge.Store.Claiming.Serving.{Startable, claim_next_run_serves}
use code_forge.Store.Claiming.{Claims, claim_next_run-Claims}
use code_forge.Store.Refusals.{transition_run-Permitted}
use code_forge.Examples.{env, run, queued_world, session, workspace}

abbrev running : Run
running = record run {
  status = RunStatus.running;
  active_attempt_id = some "t";
  state_version = 1;
  due_at = "z";
  next_event_seq = 2;
  audit = record run.audit { date_updated = "ttt"; updated_by = "system:runtime/worker" };
}

abbrev claimed : Claim
claimed = record {
  run = record {
    row = running;
    execution_context = some (obj (field "content" (str "{}") end));
    config_snapshot = none;
    input = none;
    output = none;
    error = none;
  };
  attempt_id = "t";
  epoch = 1;
  workspace_id = "w";
  workspace_epoch = 1;
  user_binding = none;
  working_directory = none;
}

returned : (claim_next_run env none "worker" "b" "z" queued_world).0 ≡ ok (some claimed)
unfolding claim_next_run first_eligible eligible attempt_row occupy_session lease_workspace
    start_run enter_lease claim_binding record_start lease_as take_lease lease_found claim_of
    insert_event_locked store_event event_stored event_row event_record base_for_session
    count_run_event count_session_event decode_run decode_option get_run event_fits attempt_fits
    insert_attempt read_object read_file put_file read_message read_object_json append_record
    transaction select or_raise lift check update now uuid4 pure find exists update_where
    count_where
returned = refl

claim_next_run-Claims_example : Claims queued_world.db "b" none claimed
claim_next_run-Claims_example =
    claim_next_run-Claims env none "worker" "b" "z" queued_world claimed returned

queued-Startable : Startable queued_world.db "b" none run
unfolding find exists
queued-Startable = record {
  others_before = [];
  others_after = [];
  listed = refl;
  queued = refl;
  due = refl;
  in_scope_asked = refl;
  no_prior = refl;
  view = record { session = session; workspace = workspace };
  joined = refl;
  session_free = refl;
  workspace_free = refl;
}

claim_next_run_serves_example : (claim_next_run env none "worker" "b" "z" queued_world).0 ≢ ok none
claim_next_run_serves_example =
    claim_next_run_serves env none "worker" "b" "z" queued_world run queued-Startable

abbrev cancelling : Run
cancelling = record run {
  status = RunStatus.cancelling;
  state_version = 1;
  next_event_seq = 2;
  audit = record run.audit { date_updated = "ttt"; updated_by = "me" };
}

abbrev moved : RunView
moved = record {
  row = cancelling;
  execution_context = some (obj (field "content" (str "{}") end));
  config_snapshot = none;
  input = none;
  output = none;
  error = none;
}

moved_ok :
    (transition_run env "s" "r" 0 RunStatus.cancelling none none none none end
      (some "me")
      queued_world).0
    ≡ ok (some moved)
unfolding transition_run transition_locked transition after_transition write_output set_state
    transition_data insert_event_locked store_event event_stored event_row event_record
    base_for_session count_run_event count_session_event decode_run decode_option get_run event_fits
    read_object read_file put_file read_message read_object_json append_record transaction select
    or_raise lift check update now uuid4 pure find exists update_where
moved_ok = refl

transition_run-Permitted_example :
    (r : Run) × (find (run_at "s" "r") queued_world.db.runs ≡ some r)
    × Permitted (state_of r) RunStatus.cancelling 0 none none
transition_run-Permitted_example =
    transition_run-Permitted env "s" "r" 0 RunStatus.cancelling none none none none end (some "me")
      queued_world (some moved) moved_ok
