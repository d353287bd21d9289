-- ===== src/Store/Pages/Events.antt =====
-- src/code_forge/persistence/sqlite_store.py: reading the events of runs and sessions.
use Prim.Native.String.{◌++◌ as ◌<>◌}
use code_forge.Prelude.{
  ℕ, String, Bool, true, false, not, ◌&&◌, Option, none, some, List, [], ◌∷◌, nonempty, nat_eq, ltb,
  if◌then◌else◌, ◌==◌,
}
use code_forge.Prelude.Tables.{take, select_where}
use code_forge.Prelude.Order.{order_by, last}
use code_forge.Json.{
  Json, null, bool, num, str, arr, obj, nil, Fields, end, field, value_or_null, get_field,
  set_field,
}
use code_forge.Contracts.Result.{Result, ok, err, attribute_error, type_error, value_error}
use code_forge.Store.Schema.{RunEvent}
use code_forge.Store.Monad.{Env, Tx, pure, fail, lift, select, ◌>>=◌}
use code_forge.Store.Content.{read_message}
use code_forge.Store.Content.Reading.{read_verified}
use code_forge.Store.Events.{base_for_session}
use code_forge.Store.Pages.{each, from_files}

-- Python's truth value of a decoded value.
abbrev pub is_truthy : Json → Bool
is_truthy null = false
is_truthy (bool b) = b
is_truthy (num n) = not (nat_eq n 0)
is_truthy (str s) = nonempty s
is_truthy (arr nil) = false
is_truthy (arr _) = true
is_truthy (obj end) = false
is_truthy (obj _) = true

-- `dict(value or {})`. Every list with items counts as one that is not of pairs.
abbrev dict_or_empty : Option Json → Result Fields
dict_or_empty none = ok end
dict_or_empty (some (obj fs)) = ok fs
dict_or_empty (some (str s)) = if nonempty s then err value_error else ok end
dict_or_empty (some (arr nil)) = ok end
dict_or_empty (some (arr _)) = err value_error
dict_or_empty (some j) = if is_truthy j then err type_error else ok end

-- `dict(record.get("data") or {})`
abbrev data_of : Json → Result Fields
data_of (obj fs) = dict_or_empty (get_field "data" fs)
data_of _ = err attribute_error

-- `data.pop(key, None)`, what it leaves
abbrev drop_field : String → Fields → Fields
drop_field k end = end
drop_field k (field j v fs) = if j == k then fs else field j v (drop_field k fs)

-- `data.get(key) is None`
abbrev is_missing : Option Json → Bool
is_missing none = true
is_missing (some null) = true
is_missing (some _) = false

-- An event as `_event_view` returns it. The columns of the content reference, which the source
-- leaves out, are not to be read from `row`.
pub record EventItem : Type 0 where
  pub row : RunEvent
  pub payload : Fields

abbrev pub run_after : String → String → ℕ → RunEvent → Bool
run_after scope run_id after_seq e =
    e.scope_id == scope && (e.run_id == run_id) && ltb after_seq e.seq

abbrev pub next_after : (RunEvent → ℕ) → Option EventItem → ℕ → ℕ
next_after number none after_seq = after_seq
next_after number (some item) after_seq = number item.row

abbrev pub session_after : String → ℕ → RunEvent → Bool
session_after session_id after_seq e = e.session_id == session_id && ltb after_seq e.session_seq

module _ (env : Env) where
  -- `_read_message(base, output_ref)` of a decoded value that is true
  abbrev pub message_at : String → Json → Tx (Option Json)
  message_at base (str ref) = read_message env base (some ref)
  message_at base _ = fail type_error

  unfoldable pub with_found : String → Fields → Option Json → Tx Fields
  with_found base fields none = pure fields
  with_found base fields (some ref) =
      if is_truthy ref && is_missing (get_field "output" (drop_field "output_ref" fields))
      then (message_at base ref >>= λ text.
          pure (set_field "output" (value_or_null text) (drop_field "output_ref" fields)))
      else pure (drop_field "output_ref" fields)

  -- `output_ref` is replaced by the text of the message, where there is no output yet
  abbrev pub with_output : String → Fields → Tx Fields
  with_output base fields = with_found base fields (get_field "output_ref" fields)

  -- `_event_payload`
  unfoldable pub event_payload : RunEvent → Tx Fields
  event_payload row = do
    base ← base_for_session env row.session_id
    found ←
        from_files
          (read_verified env base row.data_ref row.data_offset row.data_bytes row.data_digest)
    fields ← lift (data_of found)
    with_output base fields

  -- `_event_view`
  unfoldable pub event_view : RunEvent → Tx EventItem
  event_view row = do payload ← event_payload row; pure (record { row = row; payload = payload })

  -- `list_events`
  unfoldable pub list_events : String → String → ℕ → ℕ → Tx (List EventItem × ℕ)
  unfolding select_where order_by each
  list_events scope run_id after_seq limit = do
    rows ← select λ db.
        take limit
          (order_by RunEvent.seq (select_where (run_after scope run_id after_seq) db.events))
    events ← each event_view rows
    pure (events, next_after RunEvent.seq (last events) after_seq)

  -- `list_session_events`
  unfoldable pub list_session_events : String → ℕ → ℕ → Tx (List EventItem × ℕ)
  unfolding select_where order_by each
  list_session_events session_id after_seq limit = do
    rows ← select λ db. take limit (
        order_by RunEvent.session_seq (select_where (session_after session_id after_seq) db.events))
    events ← each event_view rows
    pure (events, next_after RunEvent.session_seq (last events) after_seq)

-- `COALESCE(MAX(column), 0)`
unfoldable pub highest : (RunEvent → ℕ) → List RunEvent → ℕ
highest number [] = 0
highest number (e ∷ es) =
    let rest = highest number es in if ltb rest (number e) then number e else rest

-- `event_cursor`
unfoldable pub event_cursor : Env → String → String → Tx String
unfolding select_where highest
event_cursor env scope run_id = select λ db.
    run_id
    <> ":"
    <> env.show (
        highest RunEvent.seq
          (select_where (λ e. e.scope_id == scope && e.run_id == run_id) db.events))

-- `session_event_cursor`
unfoldable pub session_event_cursor : String → Tx ℕ
unfolding select_where highest
session_event_cursor session_id =
    select
      λ db. highest RunEvent.session_seq (select_where (λ e. e.session_id == session_id) db.events)
