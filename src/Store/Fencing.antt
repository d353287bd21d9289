-- ===== src/Store/Fencing.antt =====
-- src/code_forge/persistence/sqlite_store.py: what `record_workspace_revision` has done when it
-- returns.
use code_forge.Prelude.{
  ℕ, String, ◌≡◌, ◌∙◌, ap, refl, ◌⊎◌, inl, inr, Bool, true, false, ◌==◌, Option, none, some, [],
  ◌∷◌, ◌++◌, arith, Bool-cases, eq_iff, eq_refl, nat_eq, sql_is, sql_eq, text_le,
}
use code_forge.Prelude.Tables.{find, count_where, find_sound, find-update_where}
use code_forge.Contracts.{WorkspaceCommit}
use code_forge.Contracts.Result.{
  Result, ok, err, domain, state_conflict, run_not_found, integrity_error,
}
use code_forge.Store.Schema.{Db, Workspace, Revision}
use code_forge.Store.Monad.{World, Env, transaction, select, or_raise, update, check, now}
use code_forge.Store.Keys.{workspace_at, revision_fits, insert_revision}
use code_forge.Store.Events.{fresh_audit, touch}
use code_forge.Store.Revisions.{
  record_workspace_revision, set_revision, is_at_parent, holds_lease, has_expired,
}

-- The lease still runs at the time; one without an end always does.
abbrev pub Runs : Option String → String → Type 0
Runs none time = Unit {0}
Runs (some until) time = (until ≡ "") ⊎ (text_le until time ≡ false)

-- A commit of the attempt to a workspace that it holds, by the tables before and after.
pub record Recorded (scope workspace_id attempt_id : String) (epoch : ℕ) (commit : WorkspaceCommit)
    (time : String) (before after : Db) : Type 0 where
  pub workspace : Workspace
  pub found : find (workspace_at scope workspace_id) before.workspaces ≡ some workspace
  pub holder : workspace.active_attempt_id ≡ some attempt_id
  pub same_epoch : workspace.workspace_epoch ≡ epoch
  pub live : Runs workspace.lease_until time
  pub revision : Revision
  pub added : after.revisions ≡ before.revisions ++ revision ∷ []
  pub id : revision.id ≡ commit.revision_id
  pub place : (revision.scope_id ≡ scope) × (revision.workspace_id ≡ workspace_id)
  pub parent : revision.parent_id ≡ workspace.current_revision
  pub manifest_digest : revision.manifest_digest ≡ commit.manifest_digest
  pub manifest_ref : revision.manifest_ref ≡ commit.manifest_ref
  pub storage_ref : revision.storage_ref ≡ commit.storage_ref
  pub moved : Workspace
  pub moved_found : find (workspace_at scope workspace_id) after.workspaces ≡ some moved
  pub current : moved.current_revision ≡ some commit.revision_id

not_expired-Runs :
    (until : Option String) (time : String) → has_expired until time ≡ false → Runs until time
not_expired-Runs none time h = tt
not_expired-Runs (some until) time h = elim (Bool-cases (until == "")) [
  | inl blank ↦ inl ((eq_iff until "").0 blank)
  | inr set ↦ inr (ground (arith, h, set))
]

sql_is_refl : (o : Option String) → sql_is o o ≡ true
sql_is_refl none = refl
sql_is_refl (some s) = eq_refl s

held_by :
    (o : Option String) (attempt_id : String)
    → sql_eq o (some attempt_id) ≡ true
    → o ≡ some attempt_id
held_by none attempt_id h = absurd (ground (arith, h))
held_by (some s) attempt_id h = ap some ((eq_iff s attempt_id).0 h)

module _ (env : Env) (scope workspace_id attempt_id : String) (epoch : ℕ) (commit : WorkspaceCommit)
    (actor : String) (w : World) where
  abbrev time : String
  time = env.clock w.calls

  abbrev row_for : Workspace → Revision
  row_for workspace = record {
    id = commit.revision_id;
    scope_id = scope;
    workspace_id = workspace_id;
    parent_id = workspace.current_revision;
    manifest_digest = commit.manifest_digest;
    manifest_ref = commit.manifest_ref;
    storage_ref = commit.storage_ref;
    audit = fresh_audit time actor;
  }

  abbrev moves : Workspace → Workspace → Bool
  moves workspace = is_at_parent scope workspace_id workspace.current_revision attempt_id epoch

  abbrev stored : Workspace → Db
  unfolding set_revision
  stored workspace =
      set_revision scope workspace_id workspace.current_revision attempt_id epoch commit.revision_id
        time actor (record w.db { revisions = w.db.revisions ++ row_for workspace ∷ [] })

  abbrev call : Result (Unit {0}) × World
  call = record_workspace_revision env scope workspace_id attempt_id epoch commit actor w

  found_of :
      (o : Option Workspace)
      → call.0 ≡ ok tt
      → find (workspace_at scope workspace_id) w.db.workspaces ≡ o
      → (workspace : Workspace) × (o ≡ some workspace)
  unfolding record_workspace_revision transaction select or_raise now
  found_of none done e =
      let refused : call.0 ≡ err (domain run_not_found) = rw e refl in
      absurd (ground (arith, done, refused))
  found_of (some workspace) done e = (workspace, refl)

  module _ (workspace : Workspace)
      (found : find (workspace_at scope workspace_id) w.db.workspaces ≡ some workspace)
      (done : call.0 ≡ ok tt) where
    held : holds_lease attempt_id epoch workspace ≡ true
    unfolding record_workspace_revision transaction select or_raise now check
    held = elim (Bool-cases (holds_lease attempt_id epoch workspace)) [
      | inl e ↦ e
      | inr e ↦
          let refused : call.0 ≡ err (domain state_conflict) = rw (found, e) refl in
          absurd (ground (arith, done, refused))
    ]

    live : has_expired workspace.lease_until time ≡ false
    unfolding record_workspace_revision transaction select or_raise now check
    live = elim (Bool-cases (has_expired workspace.lease_until time)) [
      | inr e ↦ e
      | inl e ↦
          let refused : call.0 ≡ err (domain state_conflict) = rw (found, held, e) refl in
          absurd (ground (arith, done, refused))
    ]

    fits : revision_fits w.db (row_for workspace) ≡ true
    unfolding record_workspace_revision transaction select or_raise now check insert_revision
    fits = elim (Bool-cases (revision_fits w.db (row_for workspace))) [
      | inl e ↦ e
      | inr e ↦
          let refused : call.0 ≡ err integrity_error = rw (found, held, live, e) refl in
          absurd (ground (arith, done, refused))
    ]

    one : nat_eq (count_where (moves workspace) w.db.workspaces) 1 ≡ true
    unfolding record_workspace_revision transaction select or_raise now check insert_revision update
    one = elim (Bool-cases (nat_eq (count_where (moves workspace) w.db.workspaces) 1)) [
      | inl e ↦ e
      | inr e ↦
          let refused : call.0 ≡ err (domain state_conflict) =
            rw (found, held, live, fits, e) refl in
          absurd (ground (arith, done, refused))
    ]

    after : call.1.db ≡ stored workspace
    unfolding record_workspace_revision transaction select or_raise now check insert_revision update
        stored
    after = rw (found, held, live, fits, one) refl

    moving : moves workspace workspace ≡ true
    moving =
        let here = find_sound (workspace_at scope workspace_id) w.db.workspaces workspace found in
        rw (here, sql_is_refl workspace.current_revision, held) refl

    abbrev moved : Workspace
    moved = record workspace {
      current_revision = some commit.revision_id;
      audit = touch workspace.audit time actor;
    }

    moved_found : find (workspace_at scope workspace_id) (stored workspace).workspaces ≡ some moved
    unfolding stored set_revision
    moved_found =
        find-update_where (workspace_at scope workspace_id) (moves workspace) _ w.db.workspaces
          (λ x. refl)
        ∙ rw (found, moving) refl

    recorded : Recorded scope workspace_id attempt_id epoch commit time w.db call.1.db
    unfolding stored set_revision
    recorded = record {
      workspace = workspace;
      found = found;
      holder = held_by workspace.active_attempt_id attempt_id (ground (arith, held));
      same_epoch = ground (arith, held);
      live = not_expired-Runs workspace.lease_until time live;
      revision = row_for workspace;
      added = ap (λ (d : Db). d.revisions) after;
      id = refl;
      place = (refl, refl);
      parent = refl;
      manifest_digest = refl;
      manifest_ref = refl;
      storage_ref = refl;
      moved = moved;
      moved_found =
          ap (λ (d : Db). find (workspace_at scope workspace_id) d.workspaces) after ∙ moved_found;
      current = refl;
    }

  -- A call that returns has found the workspace leased to the attempt at the epoch, by a lease that
  -- runs at the time of the call. It has added the revision of the commit, behind the one that the
  -- workspace was at, and nothing else to the revisions, and the workspace is at the new revision.
  pub record_workspace_revision-Recorded :
      (record_workspace_revision env scope workspace_id attempt_id epoch commit actor w).0 ≡ ok tt
      → Recorded scope workspace_id attempt_id epoch commit
          (env.clock w.calls)
          w.db
          (record_workspace_revision env scope workspace_id attempt_id epoch commit actor w).1.db
  record_workspace_revision-Recorded done =
      let (workspace, found) = found_of _ done refl in recorded workspace found done
