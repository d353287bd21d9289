-- ===== src/Store/Refusals.antt =====
-- Transitions that the store carries out, and what it refuses.
use code_forge.Prelude.{ℕ, String, ◌≡◌, ap, refl, Option, none, some, arith}
use code_forge.Prelude.Tables.{find}
use code_forge.Json.{Fields}
use code_forge.Contracts.{RunStatus, TaskOutcome}
use code_forge.Contracts.Result.{Result, ok, err, domain, Failure, run_not_found}
use code_forge.StateMachine.{Transition, transition}
use code_forge.StateMachine.Guards.{Permitted, transition-Permitted}
use code_forge.Store.Schema.{Run}
use code_forge.Store.Monad.{World, Env, transaction, select, or_raise, lift}
use code_forge.Store.Keys.{run_at}
use code_forge.Store.Runs.{RunView, state_of}
use code_forge.Store.Transitions.{transition_run}

module _ (env : Env) where
  module _ (scope run_id : String) (version : ℕ) (target : RunStatus) (outcome : Option TaskOutcome)
      (reason text : Option String) (error : Option Fields) (extra : Fields) (actor : Option String)
      (w : World) where
    -- Where the state machine refuses the transition of the stored run, so does the store, with the
    -- same failure, and the world is as it was.
    pub transition_run_refused :
        (run : Run) (e : Failure)
        → find (run_at scope run_id) w.db.runs ≡ some run
        → transition (state_of run) target version outcome reason ≡ err e
        → transition_run env scope run_id version target outcome reason text error extra actor w
          ≡ (err e, w)
    unfolding transition_run transaction select or_raise lift
    transition_run_refused run e found refused = rw (found, refused) refl

    -- Where there is no run under the key, the call raises RUN_NOT_FOUND and the world is as it was.
    pub transition_run_missing :
        find (run_at scope run_id) w.db.runs ≡ none
        → transition_run env scope run_id version target outcome reason text error extra actor w
          ≡ (err (domain run_not_found), w)
    unfolding transition_run transaction select or_raise
    transition_run_missing missing = rw missing refl

    module _ (view : Option RunView)
        (h : (transition_run env scope run_id version target outcome reason text error extra actor
            w).0
          ≡ ok view) where
      run-Permitted :
          (run : Run) (x : Result Transition)
          → find (run_at scope run_id) w.db.runs ≡ some run
          → transition (state_of run) target version outcome reason ≡ x
          → Permitted (state_of run) target version outcome reason
      run-Permitted run (ok x) found e =
          transition-Permitted (state_of run) target version outcome reason x e
      run-Permitted run (err f) found e =
          let refused = ap (λ p. p.0) (transition_run_refused run f found e) in
          absurd (ground arith)

      moved_by :
          (o : Option Run)
          → find (run_at scope run_id) w.db.runs ≡ o
          → (run : Run) × (o ≡ some run) × Permitted (state_of run) target version outcome reason
      moved_by none found =
          let missing = ap (λ p. p.0) (transition_run_missing found) in absurd (ground arith)
      moved_by (some run) found = (run, refl, run-Permitted run _ found refl)

    -- A call that returns has found the run under the key, at the version that was expected, on an
    -- edge of the diagram, with an outcome just where it succeeds and a reason where it waits.
    pub transition_run-Permitted :
        (view : Option RunView)
        → (transition_run env scope run_id version target outcome reason text error extra actor w).0
          ≡ ok view
        → (run : Run) × (find (run_at scope run_id) w.db.runs ≡ some run)
          × Permitted (state_of run) target version outcome reason
    transition_run-Permitted view h = moved_by view h _ refl
