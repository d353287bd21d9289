-- ===== src/Store/Claim/Choice.antt =====
-- The SELECT of `claim_next_run`.
use code_forge.Prelude.{
  String, Bool, true, not, ◌&&◌, ◌||◌, Option, none, some, List, [], ◌∷◌, ◌==◌, ltb, text_le,
  text_lt, is_none, if◌then◌else◌,
}
use code_forge.Prelude.Tables.{exists}
use code_forge.Contracts.{RunStatus}
use code_forge.StateMachine.{status_eq}
use code_forge.Store.Schema.{Db, Run}
use code_forge.Store.Sessions.{SessionView, session_view}

-- A run with its session and workspace.
pub record Claimable : Type 0 where
  pub run : Run
  pub view : SessionView

abbrev pub in_scope : Option String → Run → Bool
in_scope none r = true
in_scope (some scope) r = r.scope_id == scope

-- An earlier queued run of the same session.
abbrev pub is_prior : Run → Run → Bool
is_prior r prior =
    prior.scope_id == r.scope_id
    && (prior.session_id == r.session_id)
    && status_eq prior.status RunStatus.queued
    && ltb prior.run_seq r.run_seq

-- The WHERE clause on the run alone.
abbrev pub is_due : Db → String → Option String → Run → Bool
is_due db now_iso scope r =
    status_eq r.status RunStatus.queued
    && text_le r.due_at now_iso
    && not (exists (is_prior r) db.runs)
    && in_scope scope r

-- The WHERE clause on the session and the workspace.
abbrev pub is_idle : SessionView → Bool
is_idle v = is_none v.session.active_run_id && is_none v.workspace.active_attempt_id

abbrev pub if_idle : Run → Option SessionView → Option Claimable
if_idle r none = none
if_idle r (some v) = if is_idle v then some (record { run = r; view = v }) else none

unfoldable pub eligible : Db → String → Option String → Run → Option Claimable
eligible db now_iso scope r =
    if is_due db now_iso scope r then if_idle r (session_view r.scope_id r.session_id db) else none

-- ORDER BY r.due_at, r.date_created, r.run_seq
abbrev pub is_earlier : Run → Run → Bool
is_earlier a b =
    text_lt a.due_at b.due_at
    || (a.due_at == b.due_at
        && (text_lt a.audit.date_created b.audit.date_created
            || (a.audit.date_created == b.audit.date_created && ltb a.run_seq b.run_seq)))

abbrev pub earliest : Option Claimable → Option Claimable → Option Claimable
earliest none y = y
earliest (some x) none = some x
earliest (some x) (some y) = if is_earlier y.run x.run then some y else some x

-- LIMIT 1
unfoldable pub first_eligible : Db → String → Option String → List Run → Option Claimable
unfolding eligible
first_eligible db now_iso scope [] = none
first_eligible db now_iso scope (r ∷ rs) =
    earliest (eligible db now_iso scope r) (first_eligible db now_iso scope rs)
