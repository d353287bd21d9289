-- ===== src/Transport/Routes.antt =====
-- src/code_forge/transport/server.py: the handlers of events and files, and the routing.
use Prim.Native.String.{◌++◌}
use code_forge.Prelude.{
  String, Option, none, some, List, nonempty, ltb, nat_eq, if◌then◌else◌, ◌==◌, ℤ, pos, negsuc,
}
use code_forge.Json.{Json, bool, num, str, arr, obj, Fields, end, field}
use code_forge.Contracts.Result.{Result, ok, err, domain, invalid_request, value_error}
use code_forge.Store.Monad.{Env, Tx, World, pure, lift, ◌>>=◌}
use code_forge.Store.Pages.{each}
use code_forge.Store.Pages.Events.{list_session_events}
use code_forge.Service.{Ports}
use code_forge.Runtime.{Workspaces}
use code_forge.Transport.Vocabulary.{BusinessCode, refusal_of}
use code_forge.Transport.Parsing.{QueryItem, int_query, required_query, relative_path}
use code_forge.Transport.Views.{public_event}
use code_forge.Transport.Handlers.{
  Reply, answer, refuse, stream, Adapter, items_of, event_json, file_json, map_json, page_json,
  required_session, health, post_create_session, post_update_session, get_one_session,
  get_list_sessions, get_session_state, get_message, list_session_messages,
}
use code_forge.Transport.Messages.{managed, send_message, post_reply, cancel_message}

module _ (env : Env) (ports : Ports) (workspaces : Workspaces) (adapter : Adapter) where
  -- `_stream_session_events`, up to its stream
  unfoldable pub stream_session_events : List QueryItem → Tx Reply
  stream_session_events query = do
    session ← required_session env ports workspaces adapter query
    after_seq ← lift (int_query env "after_seq" 0 1000000000 query)
    pure (stream session.session.scope_id session.session.id none after_seq)

  -- `_list_session_events`
  unfoldable pub get_session_events : List QueryItem → Tx Reply
  unfolding each
  get_session_events query = do
    session ← required_session env ports workspaces adapter query
    after_seq ← lift (int_query env "after_seq" 0 1000000000 query)
    limit ← lift (int_query env "limit" 200 1000 query)
    page ← list_session_events env session.session.id after_seq limit
    items ← each (public_event adapter.shown env) page.0
    pure (
        answer 200 (
          obj (
            field "items" (arr (items_of (map_json event_json items)))
              (field "next_after_seq" (num page.1) end))))

  -- `_list_session_files`
  unfoldable pub list_session_files : List QueryItem → Tx Reply
  list_session_files query = do
    session ← required_session env ports workspaces adapter query
    binding ← lift (managed env ports workspaces adapter session)
    files ← adapter.list_files session.session.workspace_id binding
    pure (answer 200 (page_json (map_json file_json files) none))

  -- `_read_session_file`
  unfoldable pub read_session_file : List QueryItem → Tx Reply
  unfolding relative_path
  read_session_file query = do
    session ← required_session env ports workspaces adapter query
    path ← lift (required_query "path" query)
    relative ← lift (relative_path env adapter.paths (some (str path)))
    binding ← lift (managed env ports workspaces adapter session)
    file ← adapter.read_text session.session.workspace_id relative binding
    pure (
        answer 200 (
          obj (
            field "path" (str relative) (
              field "content" (str file.text) (
                field "digest" (str ("sha256:" ++ file.digest))
                  (field "truncated" (bool file.truncated) end))))))

  not_found : Reply
  not_found = refuse (record { code = BusinessCode.invalid_request; status = 404 })

  abbrev pub reply_to : Result Reply × World → Reply × World
  reply_to (ok r, w) = (r, w)
  reply_to (err e, w) = (refuse (refusal_of e), w)

  -- The table of `do_GET`.
  unfoldable pub get_handler : String → Option (List QueryItem → Tx Reply)
  get_handler path =
      if path == "/health"
      then some (λ query. health env ports workspaces adapter)
      else if path == "/v1/get-session"
      then some (get_one_session env ports workspaces adapter)
      else if path == "/v1/list-sessions"
      then some (get_list_sessions env ports workspaces adapter)
      else if path == "/v1/get-session-state"
      then some (get_session_state env ports workspaces adapter)
      else if path == "/v1/get-message"
      then some (get_message env ports workspaces adapter)
      else if path == "/v1/list-session-messages"
      then some (list_session_messages env ports workspaces adapter)
      else if path == "/v1/stream-session-events"
      then some stream_session_events
      else if path == "/v1/list-session-events"
      then some get_session_events
      else if path == "/v1/list-session-files"
      then some list_session_files
      else if path == "/v1/read-session-file"
      then some read_session_file
      else none

  -- The table of `do_POST`.
  unfoldable pub post_handler : String → Option (Fields → Tx Reply)
  post_handler path =
      if path == "/v1/create-session"
      then some (post_create_session env ports workspaces adapter)
      else if path == "/v1/update-session"
      then some (post_update_session env ports workspaces adapter)
      else if path == "/v1/send-message"
      then some (send_message env ports workspaces adapter)
      else if path == "/v1/cancel-message"
      then some (cancel_message env ports workspaces adapter)
      else if path == "/v1/reply"
      then some (post_reply env ports workspaces adapter)
      else none

  unfoldable pub get_with :
      Option (List QueryItem → Tx Reply) → List QueryItem → World → Reply × World
  unfolding not_found refusal_of
  get_with none query w = (not_found, w)
  get_with (some handler) query w = reply_to (handler query w)

  -- `do_GET`, on the path and the query that `urlsplit` and `parse_qs` give
  unfoldable pub do_get : String → List QueryItem → World → Reply × World
  unfolding not_found refusal_of
  do_get path query w = get_with (get_handler path) query w

  abbrev or_object : Option Json → Result Fields
  or_object none = err value_error
  or_object (some (obj fs)) = ok fs
  or_object (some _) = err (domain invalid_request)

  abbrev body_of_length : Option ℤ → String → Result Fields
  body_of_length none raw = err value_error
  body_of_length (some (negsuc n)) raw = or_object (env.loads raw)
  body_of_length (some (pos n)) raw =
      if ltb 1000000 n
      then err (domain invalid_request)
      else if nat_eq n 0
      then ok end
      else or_object (env.loads raw)

  -- `_read_body`: the header Content-Length, and what `rfile.read(length)` gives
  unfoldable pub read_body : Option String → String → Result Fields
  read_body none raw = ok end
  read_body (some header) raw =
      if nonempty header then body_of_length (env.int header) raw else ok end

  -- `do_POST`
  unfoldable pub do_post : String → Option String → String → World → Reply × World
  unfolding not_found refusal_of read_body
  do_post path content_length raw w = elim (read_body content_length raw) [
    | err e ↦ (refuse (refusal_of e), w)
    | ok body ↦ elim (post_handler path) [
      | none ↦ (not_found, w)
      | some handler ↦ reply_to (handler body w)
    ]
  ]
