-- ===== src/Store/Responses.antt =====
-- src/code_forge/persistence/sqlite_store.py: `respond_to_run`.
use Prim.Native.String.{◌++◌ as ◌<>◌}
use code_forge.Prelude.{
  ℕ, String, Bool, true, false, not, ◌&&◌, Option, none, some, ◌==◌, nat_eq, sql_eq, sql_is,
  if◌then◌else◌,
}
use code_forge.Prelude.Tables.{find, exists, update_where}
use code_forge.Json.{Json, str, obj, end, field}
use code_forge.Contracts.{RunStatus}
use code_forge.Contracts.Result.{domain, run_not_found, state_conflict, integrity_error}
use code_forge.Store.Schema.{Db, Run, PendingResponse}
use code_forge.Store.Monad.{Tx, Env, select, or_raise, check, update, transaction, now, ◌>>=◌, ◌>>◌}
use code_forge.Store.Content.{ObjectRef, write_object, text_ref}
use code_forge.Store.Keys.{run_at, pending_at}
use code_forge.Store.Events.{touch, base_for_session}
use code_forge.Store.Runs.{RunView, get_run}
use code_forge.Store.Transitions.{transition_run_locked}

-- The pending response with its run's session, as the JOIN of `respond_to_run` gives them.
pub record PendingRow : Type 0 where
  pub pending : PendingResponse
  pub session_id : String

abbrev with_session : PendingResponse → Option Run → Option PendingRow
with_session p none = none
with_session p (some r) = some (record { pending = p; session_id = r.session_id })

abbrev join_run : Db → Option PendingResponse → Option PendingRow
join_run db none = none
join_run db (some p) = with_session p (find (run_at p.scope_id p.run_id) db.runs)

unfoldable pub find_pending : String → String → String → Db → Option PendingRow
unfolding find
find_pending scope run_id pending_id db =
    join_run db (find (pending_at scope run_id pending_id) db.pendings)

-- UPDATE pending_responses SET response_key, ..., resolved_at
unfoldable pub resolve :
    String → String → String → String → String → ObjectRef → String → String → String → Db → Db
resolve scope run_id pending_id response_key digest file resolved_at updated_at actor db =
    record db {
      pendings =
          update_where (pending_at scope run_id pending_id)
            (λ p. record p {
              response_key = some response_key;
              response_digest = some digest;
              response_payload = some (text_ref file file.bytes);
              resolved_at = some resolved_at;
              audit = touch p.audit updated_at actor;
            })
            db.pendings;
    }

-- `UNIQUE(scope_id,run_id,response_key)`: the key is not another pending response's of the run.
unfoldable pub key_is_free : String → String → String → String → Db → Bool
key_is_free scope run_id pending_id response_key db = not (
    exists
      (λ p.
        p.scope_id == scope
        && (p.run_id == run_id)
        && not (p.id == pending_id)
        && sql_eq p.response_key (some response_key))
      db.pendings)

abbrev pub has_time : Option String → Bool
has_time none = false
has_time (some t) = if t == "" then false else true

module _ (env : Env) where
  abbrev pub response_json : String → Json
  response_json answer = obj (field "text" (str answer) end)

  -- The part of the transaction that runs for an unresolved pending response.
  unfoldable pub answer_pending :
      String → String → String → String → ℕ → String → String → PendingRow → Tx (Unit {0})
  answer_pending scope run_id pending_id response_key expected_version answer actor row = do
    base ← base_for_session env row.session_id
    file ←
        write_object env base
          ("sessions/" <> row.session_id <> "/pending/" <> pending_id <> "-response.json")
          (env.dumps (response_json answer))
    resolved_at ← now env
    updated_at ← now env
    free ← select (key_is_free scope run_id pending_id response_key)
    check free integrity_error
    update (
        resolve scope run_id pending_id response_key
          (env.sha256 (env.dumps_compact (response_json answer))) file resolved_at updated_at actor)
    found ← select (λ db. find (run_at scope run_id) db.runs)
    run ← or_raise found run_not_found
    check (nat_eq run.state_version expected_version) (domain state_conflict)
    transition_run_locked env scope run_id RunStatus.queued expected_version none none none none
        actor

  -- A response that is resolved already: the same answer under the same key is accepted again.
  unfoldable pub answer_again : String → String → PendingRow → Tx (Unit {0})
  answer_again response_key answer row =
      check
        (sql_is row.pending.response_key (some response_key)
          && sql_is row.pending.response_digest
              (some (env.sha256 (env.dumps_compact (response_json answer)))))
        (domain state_conflict)

  -- `respond_to_run`
  unfoldable pub respond_to_run :
      String → String → String → String → ℕ → String → String → Tx (Option RunView)
  respond_to_run scope run_id pending_id response_key expected_version answer actor = do
    transaction do
      found ← select (find_pending scope run_id pending_id)
      row ← or_raise found run_not_found
      if has_time row.pending.resolved_at
          then answer_again response_key answer row
          else answer_pending scope run_id pending_id response_key expected_version answer actor row
    get_run env scope run_id
