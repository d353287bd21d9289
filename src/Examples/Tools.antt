-- ===== src/Examples/Tools.antt =====
-- The skill of a tool call, and the commit of its files.
use code_forge.Prelude.{◌≡◌, refl, none, some, [], ◌∷◌, Option}
use code_forge.Prelude.Tables.{find, exists, update_where, count_where}
use code_forge.Contracts.{ToolStatus, WorkspaceCommit}
use code_forge.Contracts.Result.{ok}
use code_forge.Json.{Json, str, arr, obj, nil, cons, end, field}
use code_forge.Store.Schema.{Workspace}
use code_forge.Store.Monad.{
  World, pure, fail, lift, select, or_raise, transaction, now, update, check,
}
use code_forge.Store.Keys.{workspace_fits, revision_fits, insert_revision}
use code_forge.Store.Revisions.{set_revision, record_workspace_revision}
use code_forge.Harness.Tooling.{
  skills_of, names_of, active_skill_names, is_active, choose, select_active_skill,
}
use code_forge.Harness.Tooling.Choice.{IsAllowed, select_active_skill-IsAllowed}
use code_forge.Harness.Commits.{
  OperationResult, Asks, record_commit, persist_workspace_commit, commits_under_lease,
}
use code_forge.Store.Fencing.{Recorded, record_workspace_revision-Recorded}
use code_forge.Examples.{env, workspace, session, world_of, db_of}

abbrev two_skills : Option Json
two_skills = some (
    obj (
      field "skills"
        (arr (
          cons (obj (field "name" (str "review") end))
            (cons (obj (field "name" (str "deploy") end)) nil)))
        end))

names_found : active_skill_names two_skills ≡ ok (str "review" ∷ str "deploy" ∷ [])
unfolding active_skill_names skills_of names_of
names_found = refl

deploy_chosen : select_active_skill (λ _. "") two_skills (str "deploy") ≡ ok (some "deploy", none)
unfolding select_active_skill active_skill_names skills_of names_of choose is_active exists
deploy_chosen = refl

select_active_skill-IsAllowed_example :
    IsAllowed (str "deploy") (str "review" ∷ str "deploy" ∷ []) (some "deploy") none
select_active_skill-IsAllowed_example =
    select_active_skill-IsAllowed (λ _. "") two_skills (str "deploy")
      (str "review" ∷ str "deploy" ∷ []) (some "deploy", none) names_found deploy_chosen

abbrev held : Workspace
held = record workspace {
  active_attempt_id = some "a";
  workspace_epoch = 1;
  lease_until = some "z";
}

abbrev held_world : World
held_world = world_of (db_of held session [])

abbrev tool_result : OperationResult
tool_result = record {
  operation_id = "o";
  status = ToolStatus.succeeded;
  exit_code = none;
  stdout_ref = none;
  stderr_ref = none;
  workspace_revision = some "v";
  error_code = none;
  manifest_digest = some "d";
  manifest_ref = some "m";
  storage_ref = some "f";
  changed_paths = [];
}

abbrev tool_commit : WorkspaceCommit
tool_commit = record {
  revision_id = "v";
  manifest_digest = "d";
  manifest_ref = "m";
  storage_ref = "f";
  changed_paths = [];
}

committed :
    (persist_workspace_commit env "s" "w" "a" 1 "worker" tool_result held_world).0
    ≡ ok (some tool_commit)
unfolding persist_workspace_commit record_commit record_workspace_revision set_revision
    insert_revision revision_fits workspace_fits find exists update_where count_where pure fail lift
    select or_raise transaction now update check
committed = refl

commits_under_lease_example :
    Asks tool_result tool_commit
    × Recorded "s" "w" "a" 1 tool_commit
        (env.clock 0)
        held_world.db
        (persist_workspace_commit env "s" "w" "a" 1 "worker" tool_result held_world).1.db
commits_under_lease_example =
    commits_under_lease env "s" "w" "a" 1 "worker" tool_result tool_commit held_world committed

revised : (record_workspace_revision env "s" "w" "a" 1 tool_commit "worker" held_world).0 ≡ ok tt
unfolding record_workspace_revision set_revision insert_revision revision_fits workspace_fits find
    exists update_where count_where pure fail lift select or_raise transaction now update check
revised = refl

record_workspace_revision-Recorded_example :
    Recorded "s" "w" "a" 1 tool_commit
      (env.clock 0)
      held_world.db
      (record_workspace_revision env "s" "w" "a" 1 tool_commit "worker" held_world).1.db
record_workspace_revision-Recorded_example =
    record_workspace_revision-Recorded env "s" "w" "a" 1 tool_commit "worker" held_world revised
