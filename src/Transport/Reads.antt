-- ===== src/Transport/Reads.antt =====
-- GET requests that change nothing.
use code_forge.Prelude.{
  if◌then◌else◌, ◌≢◌, ◌==◌, eq_iff, Bool-cases, inl, inr, ℕ, String, ◌≡◌, refl, Bool, true, false,
  Option, none, some, List,
}
use code_forge.Json.{Json, Fields}
use code_forge.Contracts.{EventType}
use code_forge.Contracts.Result.{Result, ok, err}
use code_forge.Store.Pages.Events.{EventItem}
use code_forge.Store.Schema.{Run, RunEvent}
use code_forge.Store.Monad.{Env, Tx, World}
use code_forge.Store.Sessions.{get_session_unscoped}
use code_forge.Store.Runs.{decode_option}
use code_forge.Store.Pages.{IsRead, read_rules}
use code_forge.Store.Pages.Events.{list_session_events, session_event_cursor}
use code_forge.Store.Pages.Feed.{IsRead-event_view}
use code_forge.Store.Pages.Thread.{IsRead-decode_run}
use code_forge.Store.Pages.Messages.{
  OpenQuestion, reply_of, get_pending_reply, get_current_message, get_run_unscoped, run_page,
  list_page, list_messages_public,
}
use code_forge.Store.Pages.Sessions.{session_page, list_sessions_public}
use code_forge.Service.{Ports}
use code_forge.Runtime.{Workspaces}
use code_forge.Transport.Parsing.{QueryItem}
use code_forge.Transport.Views.{payload_for, public_event}
use code_forge.Transport.Handlers.{
  Reply, Adapter, require_session_id, health, get_one_session, get_list_sessions, get_session_state,
  get_message, list_session_messages,
}
use code_forge.Transport.Routes.{get_session_events, get_handler, do_get, get_with, reply_to}

module _ (env : Env) where
  pub IsRead-list_events :
      (session_id : String) (after_seq limit : ℕ)
      → IsRead (list_session_events env session_id after_seq limit)
  unfolding list_session_events
  IsRead-list_events session_id after_seq limit = search (read_rules, IsRead-event_view) depth 10

  pub IsRead-cursor : (session_id : String) → IsRead (session_event_cursor session_id)
  unfolding session_event_cursor
  IsRead-cursor session_id = search read_rules

  pub IsRead-session : (session_id : String) → IsRead (get_session_unscoped session_id)
  unfolding get_session_unscoped
  IsRead-session session_id = search read_rules

  IsRead-decode_option : (o : Option Run) → IsRead (decode_option env o)
  unfolding decode_option
  IsRead-decode_option none = search read_rules
  IsRead-decode_option (some r) = search (read_rules, IsRead-decode_run)

  IsRead-message : (run_id : String) → IsRead (get_run_unscoped env run_id)
  unfolding get_run_unscoped
  IsRead-message run_id = search (read_rules, IsRead-decode_option)

  pub IsRead-current : (session_id : String) → IsRead (get_current_message env session_id)
  unfolding get_current_message
  IsRead-current session_id = search (read_rules, IsRead-decode_option)

  IsRead-reply_of :
      (session_id : String) (o : Option OpenQuestion) → IsRead (reply_of env session_id o)
  unfolding reply_of
  IsRead-reply_of session_id none = search read_rules
  IsRead-reply_of session_id (some q) = search read_rules depth 10

  IsRead-pending : (session_id : String) → IsRead (get_pending_reply env session_id)
  unfolding get_pending_reply
  IsRead-pending session_id = search (read_rules, IsRead-reply_of)

  IsRead-messages :
      (session_id : String) (cursor : Option String) (limit : ℕ)
      → IsRead (list_messages_public env session_id cursor limit)
  unfolding list_messages_public list_page run_page
  IsRead-messages session_id cursor limit = search (read_rules, IsRead-decode_run) depth 10

  IsRead-sessions :
      (user_rel_path project_ref cursor : Option String) (limit : ℕ)
      → IsRead (list_sessions_public user_rel_path project_ref cursor limit)
  unfolding list_sessions_public session_page
  IsRead-sessions user_rel_path project_ref cursor limit = search read_rules depth 10

  module _ (shown : Json → String) where
    IsRead-payload_for :
        (t : EventType) (e : RunEvent) (fields : Fields) → IsRead (payload_for shown env t e fields)
    unfolding payload_for
    IsRead-payload_for EventType.run_accepted e fields = search (read_rules)
    IsRead-payload_for EventType.run_started e fields = search (read_rules)
    IsRead-payload_for EventType.run_waiting e fields = search (read_rules, IsRead-pending)
    IsRead-payload_for EventType.run_resumed e fields = search (read_rules)
    IsRead-payload_for EventType.run_recovering e fields = search (read_rules)
    IsRead-payload_for EventType.run_cancel_requested e fields = search (read_rules)
    IsRead-payload_for EventType.run_finished e fields = search (read_rules)
    IsRead-payload_for EventType.message_delta e fields = search (read_rules)
    IsRead-payload_for EventType.message_completed e fields = search (read_rules)
    IsRead-payload_for EventType.tool_prepared e fields = search (read_rules)
    IsRead-payload_for EventType.tool_started e fields = search (read_rules)
    IsRead-payload_for EventType.tool_output e fields = search (read_rules)
    IsRead-payload_for EventType.tool_finished e fields = search (read_rules)
    IsRead-payload_for EventType.tool_unknown e fields = search (read_rules)
    IsRead-payload_for EventType.skill_activated e fields = search (read_rules)
    IsRead-payload_for EventType.skill_started e fields = search (read_rules)
    IsRead-payload_for EventType.skill_finished e fields = search (read_rules)
    IsRead-payload_for EventType.workspace_committed e fields = search (read_rules)

    pub IsRead-public_event : (item : EventItem) → IsRead (public_event shown env item)
    unfolding public_event
    IsRead-public_event item = search (read_rules, IsRead-payload_for)

ruleset handler_rules = (
  read_rules, IsRead-session, IsRead-messages, IsRead-sessions, IsRead-current, IsRead-pending,
  IsRead-cursor, IsRead-message, IsRead-list_events, IsRead-public_event,
)

module _ (env : Env) (ports : Ports) (workspaces : Workspaces) (adapter : Adapter) where
  IsRead-require_session_id :
      (session_id : String) → IsRead (require_session_id env ports workspaces adapter session_id)
  unfolding require_session_id
  IsRead-require_session_id session_id = search (read_rules, IsRead-session) depth 10

  HandlerReads : Option (List QueryItem → Tx Reply) → Type 0
  HandlerReads none = Unit {0}
  HandlerReads (some handler) = (query : List QueryItem) → IsRead (handler query)

  record ReadsAll (o : Option (List QueryItem → Tx Reply)) : Type 0 where
    holds : HandlerReads o

  ReadsAll-none : ReadsAll none
  unfolding HandlerReads
  ReadsAll-none = record { holds = tt }

  ReadsAll-some :
      (handler : List QueryItem → Tx Reply)
      → ((query : List QueryItem) → IsRead (handler query))
      → ReadsAll (some handler)
  unfolding HandlerReads
  ReadsAll-some handler h = record { holds = h }

  ReadsAll-if :
      (b : Bool) (x y : Option (List QueryItem → Tx Reply))
      → ReadsAll x
      → ReadsAll y
      → ReadsAll (if b then x else y)
  ReadsAll-if true x y h g = h
  ReadsAll-if false x y h g = g

  IsRead-health : (query : List QueryItem) → IsRead (health env ports workspaces adapter)
  unfolding health
  IsRead-health query = search handler_rules

  IsRead-get_one_session :
      (query : List QueryItem) → IsRead (get_one_session env ports workspaces adapter query)
  unfolding get_one_session
  IsRead-get_one_session query = search (handler_rules, IsRead-require_session_id)

  IsRead-get_list_sessions :
      (query : List QueryItem) → IsRead (get_list_sessions env ports workspaces adapter query)
  unfolding get_list_sessions
  IsRead-get_list_sessions query = search handler_rules

  IsRead-get_session_state :
      (query : List QueryItem) → IsRead (get_session_state env ports workspaces adapter query)
  unfolding get_session_state
  IsRead-get_session_state query = search (handler_rules, IsRead-require_session_id) depth 10

  IsRead-get_message :
      (query : List QueryItem) → IsRead (get_message env ports workspaces adapter query)
  unfolding get_message
  IsRead-get_message query = search handler_rules depth 10

  IsRead-list_session_messages :
      (query : List QueryItem) → IsRead (list_session_messages env ports workspaces adapter query)
  unfolding list_session_messages
  IsRead-list_session_messages query = search (handler_rules, IsRead-require_session_id) depth 10

  IsRead-get_session_events :
      (query : List QueryItem) → IsRead (get_session_events env ports workspaces adapter query)
  unfolding get_session_events
  IsRead-get_session_events query = search (handler_rules, IsRead-require_session_id) depth 10

  -- A path that is not asked for.
  ReadsAll-other :
      (path other : String) (x y : Option (List QueryItem → Tx Reply))
      → path ≢ other
      → ReadsAll y
      → ReadsAll (if path == other then x else y)
  ReadsAll-other path other x y apart g = elim (Bool-cases (path == other)) [
    | inl same ↦ absurd (apart ((eq_iff path other).0 same))
    | inr e ↦ rw e g
  ]

  handlers_read :
      (path : String)
      → path ≢ "/v1/stream-session-events"
      → path ≢ "/v1/list-session-files"
      → path ≢ "/v1/read-session-file"
      → ReadsAll (get_handler env ports workspaces adapter path)
  unfolding get_handler
  handlers_read path no_stream no_list no_text =
      search
        (
          ReadsAll-other, ReadsAll-if, ReadsAll-some, ReadsAll-none, no_stream, no_list, no_text,
          IsRead-health, IsRead-get_one_session, IsRead-get_list_sessions, IsRead-get_session_state,
          IsRead-get_message, IsRead-list_session_messages, IsRead-get_session_events,
        )
        depth 20

  replied :
      (w v : World) (r : Result Reply)
      → v ≡ w
      → (reply_to env ports workspaces adapter (r, v)).1 ≡ w
  replied w v (ok a) e = e
  replied w v (err x) e = e

  with_handler :
      (o : Option (List QueryItem → Tx Reply)) (query : List QueryItem) (w : World)
      → ReadsAll o
      → (get_with env ports workspaces adapter o query w).1 ≡ w
  unfolding get_with HandlerReads
  with_handler none query w h = refl
  with_handler (some handler) query w h =
      replied w (handler query w).1 (handler query w).0 ((h.holds query).same w)

  -- No GET request, whatever its path and its query and whether it is answered or refused, changes
  -- the database, the content files or the clock, but for the path of the stream and the two of
  -- workspace files, about which nothing is said.
  pub get_changes_nothing :
      (path : String) (query : List QueryItem) (w : World)
      → path ≢ "/v1/stream-session-events"
      → path ≢ "/v1/list-session-files"
      → path ≢ "/v1/read-session-file"
      → (do_get env ports workspaces adapter path query w).1 ≡ w
  unfolding do_get
  get_changes_nothing path query w no_stream no_list no_text =
      with_handler (get_handler env ports workspaces adapter path) query w
        (handlers_read path no_stream no_list no_text)
