-- ===== src/Store/Growing/Calls.antt =====
-- src/code_forge/persistence/: what content files hold after any calls of the store's methods.
use Prim.Native.String.{◌++◌}
use code_forge.Prelude.{String, ◌≡◌, some, List, [], ◌∷◌}
use code_forge.Json.{Json}
use code_forge.Contracts.Result.{ok}
use code_forge.Store.Monad.{Env, World}
use code_forge.Store.Content.{ContentRef, append_record}
use code_forge.Store.Content.Reading.{read_verified}
use code_forge.Store.Traces.{
  Call, perform, perform_all, create, rename, accept, claim, move, cancel, respond, append, prepare,
  start, output, finish, commit,
}
use code_forge.Store.Content.Growth.{
  Extends, Extends-refl, Extends-trans, append_record-read_verified,
}
use code_forge.Store.Growing.Writers.{Grows-append_event}
use code_forge.Store.Growing.Methods.{
  Grows-create_session, Grows-update_session_title, Grows-accept_once, Grows-claim_next_run,
  Grows-transition_run, Grows-cancel_run, Grows-respond_to_run, Grows-prepare_tool,
  Grows-start_tool, Grows-append_tool_output, Grows-finish_tool, Grows-record_workspace_revision,
}

module _ (env : Env) where
  Extends-perform : (c : Call) (w : World) → Extends w.files (perform env c w).files
  unfolding perform
  Extends-perform (create a b c d e) w = (Grows-create_session env a b c d e).at w
  Extends-perform (rename a b c) w = (Grows-update_session_title env a b c).at w
  Extends-perform (accept a b c d e) w = (Grows-accept_once env a b c d e).at w
  Extends-perform (claim a b c d) w = (Grows-claim_next_run env a b c d).at w
  Extends-perform (move a b c d e f g h i j) w = (Grows-transition_run env a b c d e f g h i j).at w
  Extends-perform (cancel a b c) w = (Grows-cancel_run env a b c).at w
  Extends-perform (respond a b c d e f g) w = (Grows-respond_to_run env a b c d e f g).at w
  Extends-perform (append a b c d e) w = (Grows-append_event env a b c d e).at w
  Extends-perform (prepare a b c d) w = (Grows-prepare_tool env a b c d).at w
  Extends-perform (start a b c) w = (Grows-start_tool env a b c).at w
  Extends-perform (output a b c d e f) w = (Grows-append_tool_output env a b c d e f).at w
  Extends-perform (finish a b c d e f g) w = (Grows-finish_tool env a b c d e f g).at w
  Extends-perform (commit a b c d e f) w = (Grows-record_workspace_revision env a b c d e f).at w

  -- After any calls, some of which may raise, every content file is still there and starts with
  -- what it held.
  pub perform_all-Extends :
      (cs : List Call) (w : World) → Extends w.files (perform_all env cs w).files
  unfolding perform_all
  perform_all-Extends [] w = Extends-refl w.files
  perform_all-Extends (c ∷ cs) w =
      Extends-trans w.files (perform env c w).files _ (Extends-perform c w)
        (perform_all-Extends cs (perform env c w))

-- Where json.loads gives the record back for the line that it is dumped to, a record that is
-- appended to a log is read back, and passes the test of its digest, at the place that
-- `append_record` returned, after any calls of the store's methods, some of which may raise.
pub record_stays_readable :
    (env : Env) (base directory : String) (j : Json) (w : World) (cs : List Call)
    → env.loads (env.dumps_compact j ++ "\n") ≡ some j
    → (c : ContentRef) × ((append_record env base directory j w).0 ≡ ok c)
      × (read_verified env base c.ref c.offset c.bytes c.digest
            (perform_all env cs (append_record env base directory j w).1).files
          ≡ ok j)
record_stays_readable env base directory j w cs parses =
    append_record-read_verified env base j parses directory w _
      (perform_all-Extends env cs (append_record env base directory j w).1)
