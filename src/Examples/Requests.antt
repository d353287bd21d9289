-- ===== src/Examples/Requests.antt =====
-- Requests accepted again.
use code_forge.Prelude.{◌+◌, ◌≡◌, refl, true, false, none, some, [], ◌∷◌}
use code_forge.Prelude.Tables.{find, exists, update_where}
use code_forge.Contracts.{RunStatus, AcceptedRun}
use code_forge.Contracts.Result.{ok}
use code_forge.Store.Schema.{Run}
use code_forge.Store.Monad.{transaction, select, or_raise, lift, check, update, now, uuid4, pure}
use code_forge.Store.Events.{
  insert_event_locked, store_event, event_stored, event_row, event_record, base_for_session,
  count_run_event, count_session_event,
}
use code_forge.Store.Content.{
  write_message, write_object, write_snapshot, append_record, read_file, put_file,
}
use code_forge.Store.Keys.{request_at, insert_run, run_fits, event_fits}
use code_forge.Store.Runs.{accepted}
use code_forge.Store.Accept.{
  accept_once, accept_found, accept_new, store_run, log_run, run_row, require_session_binding,
  count_run,
}
use code_forge.Store.Traces.{claim, cancel, perform_all}
use code_forge.Store.Idempotency.Replay.{accept_replay}
use code_forge.Examples.{env, run, queued_world, new_world, request, snapshot}

known : find (request_at "s" "c" "k") queued_world.db.runs ≡ some run
unfolding find
known = refl

abbrev first_run : AcceptedRun
first_run = record {
  id = "tt";
  session_id = "c";
  status = RunStatus.queued;
  state_version = 0;
  reused = false;
}

first_accepted : (accept_once env request "k" "f" snapshot false new_world).0 ≡ ok first_run
unfolding accept_once accept_found accept_new store_run log_run run_row require_session_binding
    count_run transaction select or_raise lift check update now uuid4 pure insert_run run_fits
    event_fits insert_event_locked store_event event_stored event_row event_record base_for_session
    count_run_event count_session_event write_message write_object write_snapshot append_record
    read_file put_file find exists update_where
first_accepted = refl

accept_replay_example :
    (r : Run) × (r.id ≡ "tt")
    × (accept_once env request "k" "f" snapshot true (
          perform_all env
            (claim none "worker" "b" "z" ∷ cancel "s" "tt" none ∷ [])
            (accept_once env request "k" "f" snapshot false new_world).1)
        ≡ (
          ok (accepted r true),
          record (perform_all env
              (claim none "worker" "b" "z" ∷ cancel "s" "tt" none ∷ [])
              (accept_once env request "k" "f" snapshot false new_world).1) {
                calls =
                    (perform_all env
                      (claim none "worker" "b" "z" ∷ cancel "s" "tt" none ∷ [])
                      (accept_once env request "k" "f" snapshot false new_world).1).calls
                    + 1;
              },
        ))
accept_replay_example =
    accept_replay env request "k" "f" snapshot false new_world first_run
      (claim none "worker" "b" "z" ∷ cancel "s" "tt" none ∷ []) "f" snapshot true first_accepted
