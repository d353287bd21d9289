-- ===== src/Transport/Handlers.antt =====
-- src/code_forge/transport/server.py: the handlers, and `do_GET` and `do_POST`.
use Prim.Native.String.{count, ◌++◌}
use code_forge.Prelude.{
  ℕ, String, Bool, ◌&&◌, Option, none, some, List, [], ◌∷◌, nonempty, leb, is_some,
}
use code_forge.Json.{
  Json, null, bool, num, str, arr, obj, Items, nil, cons, Fields, end, field, get_field, or_null,
}
use code_forge.Contracts.{status_value}
use code_forge.Contracts.Result.{
  Result, ok, err, domain, Failure, invalid_request, session_not_found, run_not_found,
  attribute_error,
}
use code_forge.Contracts.Binding.{make_context, UserBinding, ExecutionContext}
use code_forge.Store.Monad.{Env, Tx, pure, lift, check, or_raise, uuid4, ◌>>=◌, ◌>>◌}
use code_forge.Store.Runs.{RunView}
use code_forge.Store.Sessions.{SessionView, get_session_unscoped, update_session_title}
use code_forge.Store.Pages.{each}
use code_forge.Store.Pages.Events.{session_event_cursor}
use code_forge.Store.Pages.Messages.{
  get_run_unscoped, get_current_message, get_pending_reply, list_messages_public,
}
use code_forge.Store.Pages.Sessions.{list_sessions_public}
use code_forge.Service.{Ports}
use code_forge.Runtime.{Workspaces, open_session, ensure_session_storage}
use code_forge.Transport.Vocabulary.{message_value, message_status, Refusal, platform_value}
use code_forge.Transport.Parsing.{
  ServerPaths, QueryItem, query_value, required_query, int_query, required_string,
  binding_from_payload,
}
use code_forge.Transport.Views.{PublicEvent, message_view, session_json, reply_json}

-- What a handler sends: an answer in JSON, or the headers of a stream, which `_stream` goes on with.
pub data Reply : Type 0 where
  answer : ℕ → Json → Reply
  refuse : Refusal → Reply
  stream : String → String → Option String → ℕ → Reply

-- A file of a workspace, as the workspace port lists and reads it.
pub record FileEntry : Type 0 where
  pub path : String
  pub size_bytes : ℕ
  pub digest : String

pub record FileText : Type 0 where
  pub text : String
  pub digest : String
  pub truncated : Bool

pub record Adapter : Type 0 where
  pub paths : ServerPaths
  pub shown : Json → String
  pub model_configured : Bool
  pub list_files : String → UserBinding → Tx (List FileEntry)
  pub read_text : String → String → UserBinding → Tx FileText

abbrev pub items_of : List Json → Items
items_of [] = nil
items_of (j ∷ js) = cons j (items_of js)

abbrev pub event_json : PublicEvent → Json
event_json e = obj (
    field "event_id" (str e.event_id) (
      field "session_id" (str e.session_id) (
        field "message_id" (str e.message_id) (
          field "seq" (num e.seq) (
            field "type" (str (platform_value e.event_type))
              (field "occurred_at" (str e.occurred_at) (field "data" (obj e.payload) end)))))))

abbrev pub file_json : FileEntry → Json
file_json f = obj (
    field "path" (str f.path)
      (field "size_bytes" (num f.size_bytes) (field "digest" (str ("sha256:" ++ f.digest)) end)))

abbrev pub map_json {ℓ} : {A : Type ℓ} → (A → Json) → List A → List Json
map_json f [] = []
map_json f (x ∷ xs) = f x ∷ map_json f xs

abbrev pub page_json : List Json → Option String → Json
page_json items cursor =
    obj (field "items" (arr (items_of items)) (field "next_cursor" (or_null cursor) end))

-- `1 <= len(text) <= maximum`
abbrev pub has_length : String → ℕ → Bool
has_length text maximum = leb 1 (count text) && leb (count text) maximum

module _ (env : Env) (ports : Ports) (workspaces : Workspaces) (adapter : Adapter) where
  abbrev pub ok_json : Json → Tx Reply
  ok_json j = pure (answer 200 j)

  -- `_require_session_id`
  unfoldable pub require_session_id : String → Tx SessionView
  require_session_id session_id = do
    check (nonempty session_id) (domain invalid_request)
    found ← get_session_unscoped session_id
    or_raise found session_not_found

  -- `_require_session`
  abbrev pub required_session : List QueryItem → Tx SessionView
  required_session query = do
    session_id ← lift (required_query "session_id" query)
    require_session_id session_id

  abbrev pub require_message : String → Tx RunView
  require_message message_id = do
    found ← get_run_unscoped env message_id
    or_raise found run_not_found

  abbrev pub or_failure {ℓ} : {A : Type ℓ} → Option A → Failure → Result A
  or_failure none e = err e
  or_failure (some a) e = ok a

  -- `_health`
  unfoldable pub health : Tx Reply
  health = ok_json (
      obj (
        field "status" (str "ok") (
          field "api_version" (str "1") (
            field "model_configured" (bool adapter.model_configured) (
              field "execution_backend" (str "local_process") (
                field "permission_mode" (str "default_allow")
                  (field "isolation_mode" (str "trusted_logical") end)))))))

  abbrev pub platform_context : UserBinding → Result ExecutionContext
  unfolding make_context
  platform_context b = make_context b.scope_id (some "platform:api") none (some b)

  -- `_create_session`
  unfoldable pub post_create_session : Fields → Tx Reply
  unfolding binding_from_payload
  post_create_session body = do
    binding ← lift (
        binding_from_payload env adapter.paths (get_field "storage_root" body)
          (get_field "user_rel_path" body) (get_field "project_ref" body)
          (get_field "project_rel_path" body))
    context ← lift (platform_context binding)
    key ← uuid4 env
    session ←
        open_session env ports workspaces binding.scope_id ("platform-session:" ++ key) "新会话" none
          context
    pure (answer 201 (session_json env session))

  -- `_update_session`
  unfoldable pub post_update_session : Fields → Tx Reply
  post_update_session body = do
    session_id ← lift (required_string env "session_id" body)
    title ← lift (required_string env "title" body)
    check (has_length title 200) (domain invalid_request)
    there ← get_session_unscoped session_id
    check (is_some there) (domain session_not_found)
    updated ← update_session_title env session_id title "system:runtime/api"
    session ← lift (or_failure updated attribute_error)
    ensure_session_storage env ports workspaces session
    ok_json (session_json env session)

  -- `_get_session`
  unfoldable pub get_one_session : List QueryItem → Tx Reply
  get_one_session query = do session ← required_session query; ok_json (session_json env session)

  -- `_list_sessions`
  unfoldable pub get_list_sessions : List QueryItem → Tx Reply
  get_list_sessions query = do
    limit ← lift (int_query env "limit" 50 100 query)
    page ←
        list_sessions_public (query_value "user_rel_path" query) (query_value "project_ref" query)
          (query_value "cursor" query) limit
    ok_json (page_json (map_json (session_json env) page.0) page.1)

  abbrev current_json : Option RunView → Json
  current_json none = null
  current_json (some v) = obj (
      field "message_id" (str v.row.id)
        (field "status" (str (message_value (message_status (status_value v.row.status)))) end))

  -- `_get_session_state`
  unfoldable pub get_session_state : List QueryItem → Tx Reply
  unfolding message_status
  get_session_state query = do
    session ← required_session query
    current ← get_current_message env session.session.id
    pending ← get_pending_reply env session.session.id
    cursor ← session_event_cursor session.session.id
    ok_json (
        obj (
          field "session" (session_json env session) (
            field "current_message" (current_json current) (
              field "pending_reply" (reply_json adapter.shown pending)
                (field "event_cursor" (str (session.session.id ++ ":" ++ env.show cursor)) end)))))

  -- `_get_message`
  unfoldable pub get_message : List QueryItem → Tx Reply
  get_message query = do
    message_id ← lift (required_query "message_id" query)
    message ← require_message message_id
    view ← lift (message_view adapter.shown message)
    ok_json view

  -- `_list_session_messages`
  unfoldable pub list_session_messages : List QueryItem → Tx Reply
  unfolding each
  list_session_messages query = do
    session ← required_session query
    limit ← lift (int_query env "limit" 50 100 query)
    page ← list_messages_public env session.session.id (query_value "cursor" query) limit
    items ← each (λ v. lift (message_view adapter.shown v)) page.0
    ok_json (page_json items page.1)
