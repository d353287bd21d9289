-- ===== src/Harness/Commits.antt =====
-- src/code_forge/harness/tooling.py: the commit of the files that a tool has changed.
use mathlib.Core.Path.{subst}
use code_forge.Prelude.{ℕ, ℤ, String, Option, none, some, List, ◌≡◌, ◌∙◌, arith, ap, sym}
use code_forge.Contracts.{ToolStatus, WorkspaceCommit}
use code_forge.Contracts.Result.{Result, ok, err, ErrorCode, domain, execution_failed}
use code_forge.Store.Monad.{Tx, World, Env, pure, lift, ◌>>=◌, ◌>>◌}
use code_forge.Store.Ran.{bind-ok, ok-inj}
use code_forge.Store.Revisions.{record_workspace_revision}
use code_forge.Store.Fencing.{Recorded, record_workspace_revision-Recorded}

pub record OperationResult : Type 0 where
  pub operation_id : String
  pub status : ToolStatus
  pub exit_code : Option ℤ
  pub stdout_ref : Option String
  pub stderr_ref : Option String
  pub workspace_revision : Option String
  pub error_code : Option ErrorCode
  pub manifest_digest : Option String
  pub manifest_ref : Option String
  pub storage_ref : Option String
  pub changed_paths : List String

abbrev pub commit_for :
    Option String
    → Option String
    → Option String
    → Option String
    → List String
    → Result (Option WorkspaceCommit)
commit_for none d m s paths = ok none
commit_for (some revision) (some d) (some m) (some s) paths = ok (
    some (record {
      revision_id = revision;
      manifest_digest = d;
      manifest_ref = m;
      storage_ref = s;
      changed_paths = paths;
    }))
commit_for _ _ _ _ paths = err (domain execution_failed)

-- The commit that a result asks for, if any.
abbrev pub commit_of : OperationResult → Result (Option WorkspaceCommit)
commit_of r =
    commit_for r.workspace_revision r.manifest_digest r.manifest_ref r.storage_ref r.changed_paths

some-inj {ℓ} : {A : Type ℓ} {a b : A} → some a ≡ some b → a ≡ b
some-inj e = cc

-- The result of an operation that has the whole of a commit.
abbrev pub Asks : OperationResult → WorkspaceCommit → Type 0
Asks result commit =
    (result.workspace_revision ≡ some commit.revision_id)
    × (result.manifest_digest ≡ some commit.manifest_digest)
    × (result.manifest_ref ≡ some commit.manifest_ref)
    × (result.storage_ref ≡ some commit.storage_ref)
    × (result.changed_paths ≡ commit.changed_paths)

commit_for-parts :
    (revision digest manifest storage : Option String) (paths : List String)
    (commit : WorkspaceCommit)
    → commit_for revision digest manifest storage paths ≡ ok (some commit)
    → (revision ≡ some commit.revision_id)
      × (digest ≡ some commit.manifest_digest)
      × (manifest ≡ some commit.manifest_ref)
      × (storage ≡ some commit.storage_ref)
      × (paths ≡ commit.changed_paths)
commit_for-parts none d m s paths c h =
    let none_is : none ≡ some c = ok-inj h in absurd (ground arith)
commit_for-parts (some r) none m s paths c h = absurd (ground arith)
commit_for-parts (some r) (some d) none s paths c h = absurd (ground arith)
commit_for-parts (some r) (some d) (some m) none paths c h = absurd (ground arith)
commit_for-parts (some r) (some d) (some m) (some s) paths c h =
    let same = some-inj (ok-inj h) in
    (
      ap (λ x. some x.revision_id) same,
      ap (λ x. some x.manifest_digest) same,
      ap (λ x. some x.manifest_ref) same,
      ap (λ x. some x.storage_ref) same,
      ap (λ x. x.changed_paths) same,
    )

module _ (env : Env) (scope_id workspace_id attempt_id : String) (epoch : ℕ) (actor : String) where
  unfoldable pub record_commit : Option WorkspaceCommit → Tx (Option WorkspaceCommit)
  unfolding record_workspace_revision
  record_commit none = pure none
  record_commit (some commit) = do
    record_workspace_revision env scope_id workspace_id attempt_id epoch commit actor
    pure (some commit)

  -- `persist_workspace_commit`, with the runtime store as `store`.
  unfoldable pub persist_workspace_commit : OperationResult → Tx (Option WorkspaceCommit)
  unfolding record_commit
  persist_workspace_commit result = do commit ← lift (commit_of result); record_commit commit

  recorded :
      (o : Option WorkspaceCommit) (commit : WorkspaceCommit) (w : World)
      → (record_commit o w).0 ≡ ok (some commit)
      → (o ≡ some commit)
        × Recorded scope_id workspace_id attempt_id epoch commit
            (env.clock w.calls)
            w.db
            (record_commit o w).1.db
  unfolding pure record_commit
  recorded none commit w h = let none_is : none ≡ some commit = ok-inj h in absurd (ground arith)
  recorded (some c) commit w h =
      let chain =
        bind-ok (record_workspace_revision env scope_id workspace_id attempt_id epoch c actor)
          (λ _. pure (some c)) w (some commit) h in
      let same = some-inj (ok-inj chain.then_ok) in
      let stored =
        record_workspace_revision-Recorded env scope_id workspace_id attempt_id epoch c actor w
          chain.first in
      (
        ap some same,
        subst
            (λ x.
              Recorded scope_id workspace_id attempt_id epoch x (env.clock w.calls) w.db
                (record_commit (some c) w).1.db)
            same
            (subst (Recorded scope_id workspace_id attempt_id epoch c (env.clock w.calls) w.db)
              (ap (λ (p : Result (Option WorkspaceCommit) × World). p.1.db) (sym chain.whole))
              stored),
      )

  -- A call that returns a commit was asked for it by its result, which names the revision, the
  -- digest, the manifest, the storage and the changed paths of the commit. It has found the
  -- workspace leased to the attempt at the epoch, by a lease that runs at the time of the call, has
  -- added the revision of the commit behind the one that the workspace was at, and the workspace is
  -- at the new revision.
  pub commits_under_lease :
      (result : OperationResult) (commit : WorkspaceCommit) (w : World)
      → (persist_workspace_commit result w).0 ≡ ok (some commit)
      → Asks result commit
        × Recorded scope_id workspace_id attempt_id epoch commit
            (env.clock w.calls)
            w.db
            (persist_workspace_commit result w).1.db
  unfolding persist_workspace_commit lift
  commits_under_lease result commit w h =
      let chain = bind-ok (lift (commit_of result)) record_commit w (some commit) h in
      let done = recorded chain.value commit w chain.then_ok in
      let asked = chain.first ∙ ap ok done.0 in
      (
        commit_for-parts result.workspace_revision result.manifest_digest result.manifest_ref
            result.storage_ref result.changed_paths commit asked,
        subst (Recorded scope_id workspace_id attempt_id epoch commit (env.clock w.calls) w.db)
            (ap (λ (p : Result (Option WorkspaceCommit) × World). p.1.db) (sym chain.whole)) done.1,
      )
