-- ===== src/Examples/Http.antt =====
-- Requests over HTTP.
use code_forge.Prelude.{
  ◌≢◌, ◌==◌, eq_iff, arith, some, ◌≤◌, true, false, map, ◌+◌, ◌≡◌, refl, none, [], ◌∷◌, List, ℕ,
  String,
}
use code_forge.Json.{Json, obj, null, str, field, end}
use code_forge.Contracts.Result.{Result, ok}
use code_forge.Store.Monad.{World}
use code_forge.Store.Schema.{empty_db}
use code_forge.Store.Traces.{cancel}
use code_forge.Transport.Views.{PublicEvent}
use code_forge.Transport.Vocabulary.{PlatformEventType}
use code_forge.Store.Keyed.{IsKeyed}
use code_forge.Store.Numbering.{IsNumbered}
use code_forge.Store.Owned.{IsOwned}
use code_forge.Store.Lifecycle.{reachable_is_sound}
use code_forge.Store.Pages.Whole.{session_feed_is_complete, calls_keep_owners}
use code_forge.Store.Pages.Numbers.{count_up}
use code_forge.Service.{Ports}
use code_forge.Runtime.{Workspaces}
use code_forge.Transport.Parsing.{QueryItem, int_query}
use code_forge.Transport.Handlers.{Adapter}
use code_forge.Transport.Routes.{do_get}
use code_forge.Transport.Bounds.{message_pages_bounded}
use code_forge.Store.Runs.{RunView}
use code_forge.Store.Pages.Messages.{list_page, run_page}
use code_forge.Transport.Reads.{get_changes_nothing}
use code_forge.Transport.Streams.Delivery.{stream_in_order}
use code_forge.Examples.Lives.{first_calls}
use code_forge.Examples.{run, queued_world, env, world_of, snapshot}
use code_forge.Contracts.Binding.{
  canonical_path, canonical_relative_path, check_storage, project_path_of, check_project,
  make_binding,
}
use code_forge.Prelude.Order.{insert_by, order_by}
use code_forge.Prelude.Tables.{length, find, select_where, exists, update_where, count_where}
use code_forge.StateMachine.{after_transition, transition, request_cancel}
use code_forge.StateMachine.Runs.{run_all}
use code_forge.Store.Accept.{
  count_run, require_session_binding, run_row, log_run, store_run, accept_new, accept_again,
  accept_found, accept_once,
}
use code_forge.Store.Claim.{
  attempt_row, occupy_session, lease_workspace, start_run, enter_lease, claim_binding, record_start,
  lease_as, take_lease, lease_found, claim_of, claim_next_run,
}
use code_forge.Store.Claim.Choice.{eligible, first_eligible}
use code_forge.Store.Content.{
  read_file, put_file, next_file, append_record, write_object, read_object, write_message,
  write_snapshot, read_message, read_object_json,
}
use code_forge.Store.Content.Reading.{bytes_at, read_record, read_verified}
use code_forge.Store.Events.{
  base_for_session, event_record, event_row, count_run_event, count_session_event, event_stored,
  store_event, insert_event_locked, append_event,
}
use code_forge.Store.Keys.{
  workspace_fits, revision_fits, session_fits, session_request_fits, run_fits, attempt_fits,
  tool_fits, event_fits, insert_workspace, insert_revision, insert_session, insert_session_request,
  insert_run, insert_attempt, insert_tool,
}
use code_forge.Store.Monad.{
  pure, fail, lift, select, or_raise, transaction, now, uuid4, update, check,
}
use code_forge.Store.Numbering.{session_seqs, first_numbers}
use code_forge.Store.Pages.{each, from_files, all_ok}
use code_forge.Store.Pages.Events.{
  with_found, event_payload, event_view, list_events, list_session_events, highest, event_cursor,
  session_event_cursor,
}
use code_forge.Store.Schema.{RunEvent}
use code_forge.Store.Pages.Events.{EventItem}
use code_forge.Store.Pages.Feed.{follow, views, mine}
use code_forge.Store.Pages.Messages.{
  list_runs, list_messages_public, get_run_unscoped, get_current_message, open_question, by_date,
  reply_of, get_pending_reply, history_item, history_before, conversation_history, pending_view,
  snapshot_of, get_snapshot,
}
use code_forge.Store.Pages.Rows.{page_end}
use code_forge.Store.Responses.{
  find_pending, resolve, key_is_free, answer_pending, answer_again, respond_to_run,
}
use code_forge.Store.Revisions.{set_revision, record_workspace_revision}
use code_forge.Store.Runs.{decode_run, decode_option, get_run, run_state, find_request}
use code_forge.Store.Sessions.{
  project_workspace, workspace_for, session_of_request, create_session, update_session_title,
}
use code_forge.Store.Sessions.Rows.{
  get_session_unscoped, require_session, bound_workspace, legacy_workspace, move_workspace,
  new_session, retitle,
}
use code_forge.Store.Tools.{
  tool_row, set_tool, finish_data, prepare_new, prepare_again, prepare_found, prepare_tool,
  start_tool, append_tool_output, finish_tool,
}
use code_forge.Store.Traces.{perform, perform_all}
use code_forge.Store.Transitions.{
  write_output, transition_locked, transition_run, cancel_queued, cancel_run, transition_run_locked,
}
use code_forge.Store.Transitions.Changes.{
  set_state, transition_data, end_attempt, free_session, free_workspace, drop_attempt, release,
}
use code_forge.Transport.Streams.{project, ended, stream_turn, stream_loop}
use code_forge.Transport.Views.{public_error, message_view, payload_for, public_event, session_json}
use code_forge.Transport.Vocabulary.{
  platform_event, message_status, domain_refusal, refusal_of, public_code,
}

abbrev shown : Json → String
shown j = ""

abbrev used : World
used = perform_all env first_calls (world_of empty_db)

abbrev streamed : Result (List PublicEvent × ℕ)
streamed = (stream_loop shown env "s" "tt" none ((cancel "s" "ttttt" none ∷ []) ∷ [] ∷ []) 0 used).0

-- The message's life, with a cancellation between two turns.
abbrev events : List PublicEvent
events =
    record {
      event_id = "tttttt";
      session_id = "tt";
      message_id = "ttttt";
      seq = 1;
      event_type = PlatformEventType.message_accepted;
      occurred_at = "tttt";
      payload = field "message_id" (str "ttttt") (field "status" (str "QUEUED") end);
    }
    ∷ record {
      event_id = "ttttttttt";
      session_id = "tt";
      message_id = "ttttt";
      seq = 2;
      event_type = PlatformEventType.message_cancel_requested;
      occurred_at = "tttttttt";
      payload = field "message_id" (str "ttttt") (field "status" (str "CANCELLING") end);
    }
    ∷ record {
      event_id = "tttttttttttt";
      session_id = "tt";
      message_id = "ttttt";
      seq = 3;
      event_type = PlatformEventType.message_finished;
      occurred_at = "ttttttttttt";
      payload = field "message_id" (str "ttttt") (
          field "status" (str "FAILED")
            (field "task_outcome" null (field "output" null (field "error" null end))));
    }
    ∷ []

streamed_events : streamed ≡ ok (events, 3)
unfolding after_transition transition request_cancel canonical_path canonical_relative_path
    check_storage project_path_of check_project make_binding count_run require_session_binding
    run_row log_run store_run accept_new accept_again accept_found accept_once decode_run
    decode_option get_run run_state find_request pure fail lift select or_raise transaction now
    uuid4 update check read_file put_file next_file append_record write_object read_object
    write_message write_snapshot read_message read_object_json project_workspace workspace_for
    session_of_request create_session update_session_title session_seqs first_numbers attempt_row
    occupy_session lease_workspace start_run enter_lease claim_binding record_start lease_as
    take_lease lease_found claim_of claim_next_run each from_files all_ok write_output
    transition_locked transition_run cancel_queued cancel_run transition_run_locked tool_row
    set_tool finish_data prepare_new prepare_again prepare_found prepare_tool start_tool
    append_tool_output finish_tool workspace_fits revision_fits session_fits session_request_fits
    run_fits attempt_fits tool_fits event_fits insert_workspace insert_revision insert_session
    insert_session_request insert_run insert_attempt insert_tool perform perform_all
    base_for_session event_record event_row count_run_event count_session_event event_stored
    store_event insert_event_locked append_event find_pending resolve key_is_free answer_pending
    answer_again respond_to_run set_revision record_workspace_revision bytes_at read_record
    read_verified follow list_runs list_messages_public get_run_unscoped get_current_message
    open_question by_date reply_of get_pending_reply history_item history_before
    conversation_history pending_view snapshot_of get_snapshot with_found event_payload event_view
    list_events list_session_events highest event_cursor session_event_cursor page_end eligible
    first_eligible set_state transition_data end_attempt free_session free_workspace drop_attempt
    release get_session_unscoped require_session bound_workspace legacy_workspace move_workspace
    new_session retitle find select_where exists update_where count_where insert_by order_by
    public_error message_view payload_for public_event session_json project ended stream_turn
    stream_loop platform_event message_status domain_refusal refusal_of public_code run_all
streamed_events = refl

sound : IsKeyed used.db.runs × IsNumbered used.db
sound = reachable_is_sound env first_calls (world_of empty_db) refl

owned : IsOwned used.db
unfolding find
owned =
    calls_keep_owners env first_calls (world_of empty_db)
      (record { one = λ scope id s e. e; owners = tt })

abbrev used_rows : List RunEvent
used_rows = select_where (mine env "tt" used) used.db.events

readable : (items : List EventItem) × (views env "tt" used used_rows ≡ ok items)
unfolding after_transition transition request_cancel canonical_path canonical_relative_path
    check_storage project_path_of check_project make_binding count_run require_session_binding
    run_row log_run store_run accept_new accept_again accept_found accept_once decode_run
    decode_option get_run run_state find_request pure fail lift select or_raise transaction now
    uuid4 update check read_file put_file next_file append_record write_object read_object
    write_message write_snapshot read_message read_object_json project_workspace workspace_for
    session_of_request create_session update_session_title session_seqs first_numbers attempt_row
    occupy_session lease_workspace start_run enter_lease claim_binding record_start lease_as
    take_lease lease_found claim_of claim_next_run each from_files all_ok write_output
    transition_locked transition_run cancel_queued cancel_run transition_run_locked tool_row
    set_tool finish_data prepare_new prepare_again prepare_found prepare_tool start_tool
    append_tool_output finish_tool workspace_fits revision_fits session_fits session_request_fits
    run_fits attempt_fits tool_fits event_fits insert_workspace insert_revision insert_session
    insert_session_request insert_run insert_attempt insert_tool perform perform_all
    base_for_session event_record event_row count_run_event count_session_event event_stored
    store_event insert_event_locked append_event find_pending resolve key_is_free answer_pending
    answer_again respond_to_run set_revision record_workspace_revision bytes_at read_record
    read_verified follow list_runs list_messages_public get_run_unscoped get_current_message
    open_question by_date reply_of get_pending_reply history_item history_before
    conversation_history pending_view snapshot_of get_snapshot with_found event_payload event_view
    list_events list_session_events highest event_cursor session_event_cursor page_end eligible
    first_eligible set_state transition_data end_attempt free_session free_workspace drop_attempt
    release get_session_unscoped require_session bound_workspace legacy_workspace move_workspace
    new_session retitle find select_where exists update_where count_where insert_by order_by
    public_error message_view payload_for public_event session_json project ended stream_turn
    stream_loop platform_event message_status domain_refusal refusal_of public_code run_all
readable = (_, refl)

session_feed_is_complete_example :
    (follow env "tt" 2 (length used_rows) 0 used ≡ (ok readable.0, used))
    × (map (λ (i : EventItem). i.row) readable.0 ≡ used_rows)
    × ((count : ℕ) × (map (λ (i : EventItem). i.row.session_seq) readable.0 ≡ first_numbers count))
session_feed_is_complete_example =
    session_feed_is_complete env first_calls (world_of empty_db) "tt" 1 (length used_rows)
      readable.0 refl (omega arith) readable.1

stream_in_order_example : (map (λ (e : PublicEvent). e.seq) events ≡ count_up 0 3) × (3 ≡ 0 + 3)
stream_in_order_example =
    stream_in_order shown env "s" "tt" ((cancel "s" "ttttt" none ∷ []) ∷ [] ∷ []) 0 used events 3
      sound.1 owned streamed_events

-- Ports that do nothing.
abbrev ports : Ports
ports = record { authorize = λ c a r. pure tt; resolve = λ r. pure snapshot }

abbrev workspaces : Workspaces
workspaces = record {
  ensure_workspace = λ id b. pure tt;
  ensure_user_layout = λ id b. pure tt;
  ensure_session_storage = λ v b. pure tt;
  append_transcript = λ b id fields. pure tt;
  execute = λ c. pure c.run;
}

abbrev adapter : Adapter
adapter = record {
  paths = record { is_absolute = λ s. true; resolve = λ s. ok s; exists = λ s. true };
  shown = shown;
  model_configured = true;
  list_files = λ id b. pure [];
  read_text = λ id path b. pure (record { text = ""; digest = ""; truncated = false });
}

abbrev query : List QueryItem
query = record { name = "session_id"; first = "tt"; others = [] } ∷ []

differ : (s t : String) → (s == t) ≡ false → s ≢ t
differ s t apart e = let same = (eq_iff s t).1 e in absurd (ground (arith, apart, same))

get_changes_nothing_example :
    (do_get env ports workspaces adapter "/v1/get-session-state" query used).1 ≡ used
get_changes_nothing_example =
    get_changes_nothing env ports workspaces adapter "/v1/get-session-state" query used
      (differ _ _ refl) (differ _ _ refl) (differ _ _ refl)

abbrev limited : List QueryItem
limited = record { name = "limit"; first = "ttt"; others = [] } ∷ []

abbrev view : RunView
view = record {
  row = run;
  execution_context = some (obj (field "content" (str "{}") end));
  config_snapshot = none;
  input = none;
  output = none;
  error = none;
}

asked : int_query env "limit" 50 100 limited ≡ ok 2
unfolding int_query
asked = refl

listed : (list_messages_public env "c" none 2 queued_world).0 ≡ ok (view ∷ [], none)
unfolding list_messages_public list_page run_page each decode_run base_for_session read_message
    read_object_json lift select pure find select_where order_by insert_by
listed = refl

message_pages_bounded_example : (length (view ∷ []) ≤ 2) × (length (view ∷ []) ≤ 100)
message_pages_bounded_example =
    message_pages_bounded env limited "c" none queued_world 2 (view ∷ [], none) asked listed
