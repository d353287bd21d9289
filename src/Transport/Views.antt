-- ===== src/Transport/Views.antt =====
-- src/code_forge/transport/server.py: what sessions, messages, errors and events are shown as.
use text.Mathlib.Text.{starts_with}
use code_forge.Prelude.{
  ℕ, String, Bool, false, not, ◌||◌, Option, none, some, nonempty, if◌then◌else◌,
}
use code_forge.Json.{
  Json, null, bool, num, str, obj, Fields, end, field, get_field, value_or_null, text_or,
}
use code_forge.Contracts.{EventType, TaskOutcome, outcome_value, status_value}
use code_forge.Contracts.Result.{Result, ok, err, attribute_error, ◌>>=◌}
use code_forge.Store.Monad.{Env, Tx, pure, lift, ◌>>=◌ as ◌>=>◌}
use code_forge.Store.Schema.{RunEvent}
use code_forge.Store.Runs.{RunView}
use code_forge.Store.Sessions.{SessionView}
use code_forge.Store.Pages.Events.{EventItem, is_truthy}
use code_forge.Store.Pages.Messages.{PendingReply, get_pending_reply}
use code_forge.Transport.Vocabulary.{
  MessageStatus, message_value, message_status, PlatformEventType, platform_event, public_code,
  business_value,
}

-- `str(value)`, where `shown` is Python's `str` of a decoded value that is no text
abbrev shown_text : (Json → String) → Json → String
shown_text shown (str s) = s
shown_text shown j = shown j

-- `value or default`
abbrev or_default : Option Json → Json → Json
or_default none d = d
or_default (some j) d = if is_truthy j then j else d

abbrev or_missing : Option Json → Json → Json
or_missing none d = d
or_missing (some j) d = j

abbrev flag_of : Option Json → Bool
flag_of none = false
flag_of (some j) = is_truthy j

abbrev outcome_json : Option TaskOutcome → Json
outcome_json none = null
outcome_json (some o) = str (outcome_value o)

-- An event as `_public_event` returns it.
pub record PublicEvent : Type 0 where
  pub event_id : String
  pub session_id : String
  pub message_id : String
  pub seq : ℕ
  pub event_type : PlatformEventType
  pub occurred_at : String
  pub payload : Fields

module _ (shown : Json → String) where
  abbrev error_view : Fields → String → Json
  error_view fs message_id = obj (
      field "code" (str (business_value (public_code (text_or "" (get_field "code" fs))))) (
        field "message"
          (str (shown_text shown (or_default (get_field "message" fs) (str "Execution failed"))))
          (field "retryable" (bool (flag_of (get_field "retryable" fs))) (
            field "request_id"
              (str (shown_text shown (or_default (get_field "request_id" fs) (str message_id))))
              end))))

  abbrev error_of : Json → String → Result Json
  error_of (obj fs) message_id = ok (error_view fs message_id)
  error_of (str s) message_id = ok (error_view (field "message" (str s) end) message_id)
  error_of _ message_id = err attribute_error

  -- `_public_error`
  unfoldable pub public_error : Option Json → String → Result Json
  public_error none message_id = ok null
  public_error (some j) message_id = if is_truthy j then error_of j message_id else ok null

  -- `_message_view`
  unfoldable pub message_view : RunView → Result Json
  unfolding public_error message_status
  message_view v = do
    error ← public_error v.error v.row.id
    ok (
        obj (
          field "message_id" (str v.row.id) (
            field "session_id" (str v.row.session_id) (
              field "message_seq" (num v.row.run_seq) (
                field "input" (value_or_null v.input) (
                  field "status" (str (message_value (message_status (status_value v.row.status))))
                    (field "task_outcome" (outcome_json v.row.task_outcome) (
                      field "output" (value_or_null v.output) (
                        field "error" error (
                          field "date_created" (str v.row.audit.date_created)
                            (field "date_updated" (str v.row.audit.date_updated) end)))))))))))

  abbrev status_field : MessageStatus → Fields → Fields
  status_field s rest = field "status" (str (message_value s)) rest

  abbrev status_of_data : Fields → MessageStatus
  status_of_data fields = message_status (text_or "" (get_field "status" fields))

  abbrev pub reply_json : Option PendingReply → Json
  reply_json none = null
  reply_json (some p) = obj (
      field "pending_id" (str p.pending_id) (
        field "message_id" (str p.message_id)
          (field "kind" (str p.kind) (field "prompt" p.prompt end))))

  -- The payload of a public event; a waiting message shows the question that is open.
  unfoldable pub payload_for : Env → EventType → RunEvent → Fields → Tx Fields
  unfolding message_status public_error get_pending_reply
  payload_for env EventType.run_accepted e fields =
      pure (field "message_id" (str e.run_id) (status_field MessageStatus.queued end))
  payload_for env EventType.run_started e fields =
      pure (field "message_id" (str e.run_id) (status_field MessageStatus.running end))
  payload_for env EventType.run_resumed e fields =
      pure (field "message_id" (str e.run_id) (status_field MessageStatus.queued end))
  payload_for env EventType.run_waiting e fields = get_pending_reply env e.session_id >=> λ pending.
      pure (
        field "message_id" (str e.run_id)
          (status_field (status_of_data fields) (field "pending_reply" (reply_json pending) end)))
  payload_for env EventType.run_recovering e fields = pure (
      field "message_id" (str e.run_id)
        (field "reason" (or_missing (get_field "reason" fields) (str "")) end))
  payload_for env EventType.run_cancel_requested e fields =
      pure (field "message_id" (str e.run_id) (status_field MessageStatus.cancelling end))
  payload_for env EventType.run_finished e fields =
      lift (public_error (get_field "error" fields) e.run_id) >=> λ error. pure (
        field "message_id" (str e.run_id) (
          status_field (status_of_data fields) (
            field "task_outcome" (or_missing (get_field "task_outcome" fields) null) (
              field "output" (or_missing (get_field "output" fields) null)
                (field "error" error end)))))
  payload_for env EventType.message_delta e fields =
      pure (field "text" (or_missing (get_field "text" fields) (str "")) end)
  payload_for env EventType.message_completed e fields =
      pure (field "text" (or_missing (get_field "text" fields) (str "")) end)
  payload_for env _ e fields = pure fields

  -- `_public_event`; every event type has a public one
  unfoldable pub public_event : Env → EventItem → Tx PublicEvent
  unfolding platform_event
  public_event env item = payload_for env item.row.event_type item.row item.payload >=> λ payload.
      pure (record {
        event_id = item.row.event_id;
        session_id = item.row.session_id;
        message_id = item.row.run_id;
        seq = item.row.session_seq;
        event_type = platform_event item.row.event_type;
        occurred_at = item.row.occurred_at;
        payload = payload;
      })

-- `_project_rel_path`
abbrev pub project_rel_path : Env → SessionView → String
project_rel_path env v =
    if not (nonempty v.workspace.user_path) || not (nonempty v.workspace.project_path)
    then ""
    else elim (env.paths.relative_to v.workspace.project_path v.workspace.user_path) [
      | none ↦ ""
      | some relative ↦ relative
    ]

-- `_session_view`
unfoldable pub session_json : Env → SessionView → Json
session_json env v = obj (
    field "session_id" (str v.session.id) (
      field "title" (str v.session.title) (
        field "user_rel_path" (str v.workspace.user_rel_path) (
          field "project_ref"
            (if starts_with v.workspace.project_ref "__" then null else str v.workspace.project_ref)
            (field "project_rel_path" (str (project_rel_path env v)) (
              field "date_created" (str v.session.audit.date_created)
                (field "date_updated" (str v.session.audit.date_updated) end)))))))
