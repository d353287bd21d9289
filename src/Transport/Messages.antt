-- ===== src/Transport/Messages.antt =====
-- src/code_forge/transport/server.py: the handlers that send, answer and cancel messages.
use Prim.Native.String.{◌++◌}
use code_forge.Prelude.{
  ℕ, ◌-◌, String, Bool, true, false, ◌||◌, Option, none, some, List, [], ◌∷◌, nonempty, nat_eq,
  if◌then◌else◌, ◌==◌,
}
use code_forge.Json.{Json, null, str, arr, Items, nil, cons, Fields, get_field}
use code_forge.Contracts.Result.{
  Result, ok, err, domain, invalid_request, state_conflict, type_error,
}
use code_forge.Contracts.Binding.{UserBinding}
use code_forge.Store.Monad.{Env, Tx, pure, lift, check, uuid4, ◌>>=◌, ◌>>◌}
use code_forge.Store.Sessions.{SessionView}
use code_forge.Store.Pages.Events.{is_truthy, session_event_cursor}
use code_forge.Service.{Ports}
use code_forge.Runtime.{Workspaces, submit_run, cancel_known, answer_run}
use code_forge.Transport.Parsing.{required_string, binding_from_session}
use code_forge.Transport.Views.{message_view}
use code_forge.Transport.Handlers.{
  Reply, answer, stream, Adapter, has_length, or_failure, platform_context, require_session_id,
  require_message,
}

abbrev agent_of : (Json → String) → Option Json → String
agent_of shown none = "general@1"
agent_of shown (some (str s)) = if nonempty s then s else "general@1"
agent_of shown (some j) = if is_truthy j then shown j else "general@1"

-- `str(body.get("session_id") or "")`
abbrev session_id_of : (Json → String) → Option Json → String
session_id_of shown none = ""
session_id_of shown (some (str s)) = s
session_id_of shown (some j) = if is_truthy j then shown j else ""

abbrev in_list : String → List String → Bool
in_list p [] = false
in_list p (q ∷ qs) = q == p || in_list p qs

abbrev snoc_new : List String → String → List String
snoc_new ps p = if in_list p ps then ps else append_path ps p
  where
    append_path : List String → String → List String
    append_path [] p = p ∷ []
    append_path (q ∷ qs) p = q ∷ append_path qs p

abbrev length_over : ℕ → Items → Bool
length_over n nil = false
length_over n (cons j js) = if nat_eq n 0 then true else length_over (n - 1) js

module _ (env : Env) (ports : Ports) (workspaces : Workspaces) (adapter : Adapter) where
  abbrev some_paths : Result (List String) → Result (Option (List String))
  some_paths (ok ps) = ok (some ps)
  some_paths (err e) = err e

  -- One path: relative to the storage root where that exists, and to the user's directory else.
  abbrev skill_path : UserBinding → Json → Result String
  skill_path b (str item) =
      if env.paths.is_blank item
      then err (domain invalid_request)
      else if adapter.paths.is_absolute item
      then adapter.paths.resolve item
      else resolved_in (adapter.paths.resolve (env.paths.join b.storage_root item))
          (adapter.paths.resolve (env.paths.join b.user_path item))
    where
      resolved_in : Result String → Result String → Result String
      resolved_in (err e) user = err e
      resolved_in (ok storage) (err e) = err e
      resolved_in (ok storage) (ok user) =
          adapter.paths.resolve (if adapter.paths.exists storage then storage else user)
  skill_path b _ = err (domain invalid_request)

  unfoldable pub skill_paths_from : UserBinding → List String → Items → Result (List String)
  skill_paths_from b found nil = ok found
  skill_paths_from b found (cons j js) = elim (skill_path b j) [
    | err e ↦ err e
    | ok path ↦ skill_paths_from b (snoc_new found path) js
  ]

  -- `_skill_paths`
  unfoldable pub skill_paths : Option Json → UserBinding → Result (Option (List String))
  unfolding skill_paths_from
  skill_paths none b = ok none
  skill_paths (some null) b = ok none
  skill_paths (some (arr items)) b =
      if length_over 30 items
      then err (domain invalid_request)
      else some_paths (skill_paths_from b [] items)
  skill_paths (some _) b = err (domain invalid_request)

  abbrev or_conflict : Option UserBinding → Result UserBinding
  or_conflict none = err (domain state_conflict)
  or_conflict (some b) = ok b

  -- The binding of a session that has a managed workspace.
  abbrev pub managed : SessionView → Result UserBinding
  managed v = elim (binding_from_session env adapter.paths v) [
    | err e ↦ err e
    | ok found ↦ or_conflict found
  ]

  -- `_send_message`, up to its stream
  unfoldable pub send_message : Fields → Tx Reply
  unfolding binding_from_session skill_paths
  send_message body = do
    session ←
        require_session_id env ports workspaces adapter
          (session_id_of adapter.shown (get_field "session_id" body))
    input ← lift (required_string env "input" body)
    check (has_length input 100000) (domain invalid_request)
    binding ← lift (managed session)
    paths ← lift (skill_paths (get_field "skill_paths" body) binding)
    before ← session_event_cursor session.session.id
    context ← lift (platform_context env ports workspaces adapter binding)
    key ← uuid4 env
    accepted ←
        submit_run env ports workspaces session.session.id input
          (agent_of adapter.shown (get_field "agent_ref" body)) [] paths
          ("platform-message:" ++ key) context true
    pure (stream binding.scope_id session.session.id (some accepted.id) before)

  -- `_reply`, up to its stream
  unfoldable pub post_reply : Fields → Tx Reply
  post_reply body = do
    message_id ← lift (required_string env "message_id" body)
    pending_id ← lift (required_string env "pending_id" body)
    text ← lift (required_string env "text" body)
    check (has_length text 100000) (domain invalid_request)
    message ← require_message env ports workspaces adapter message_id
    before ← session_event_cursor message.row.session_id
    answer_run env ports workspaces message.row.scope_id message_id pending_id
        ("platform:" ++ pending_id) message.row.state_version text
    pure (stream message.row.scope_id message.row.session_id (some message_id) before)

  -- `_cancel_message`
  unfoldable pub cancel_message : Fields → Tx Reply
  cancel_message body = do
    message_id ← lift (required_string env "message_id" body)
    message ← require_message env ports workspaces adapter message_id
    cancelled ← cancel_known env ports workspaces message.row.scope_id message_id "platform:api"
    run ← lift (or_failure env ports workspaces adapter cancelled type_error)
    view ← lift (message_view adapter.shown run)
    pure (answer 200 view)
