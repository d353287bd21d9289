-- ===== src/Store/Lifecycle.antt =====
-- The life of a run over any sequence of calls of the store's methods.
use code_forge.Prelude.{String, ◌≡◌, refl, true, some, List}
use code_forge.Prelude.Tables.{find}
use code_forge.Contracts.{RunStatus, is_terminal}
use code_forge.StateMachine.Runs.{Walk, here, next, terminal_final}
use code_forge.Store.Schema.{Run, empty_db}
use code_forge.Store.Monad.{World, Env}
use code_forge.Store.Keys.{run_at}
use code_forge.Store.Traces.{Call, perform_all, perform_all-Respects}
use code_forge.Store.Keyed.{IsKeyed}
use code_forge.Store.History.{RunsEvolve}
use code_forge.Store.Steps.{History-Respects}
use code_forge.Store.Numbering.Append.{Numbers-Respects}
use code_forge.Store.Numbering.{IsNumbered, session_seqs, first_numbers}

Walk-final : {s t : RunStatus} → is_terminal s ≡ true → Walk s t → t ≡ s
Walk-final h here = refl
Walk-final h (next e p) = absurd (terminal_final h e)

module _ (env : Env) (cs : List Call) (w : World) (keyed : IsKeyed w.db.runs) where
  -- Where no two runs of the database have the same id, no two have after any sequence of calls.
  pub calls_keep_keys : IsKeyed (perform_all env cs w).db.runs
  calls_keep_keys = (perform_all-Respects env History-Respects cs w).keyed keyed

  -- Where no two runs have the same id, every run that is found by its key before any sequence of
  -- calls, some of which may raise, is found by it afterwards. Its status has moved along the
  -- diagram, its version has not gone down, a status stands where the version is the same, and its
  -- session, number, idempotency key and fingerprint are what they were.
  pub runs_follow_diagram : RunsEvolve w.db (perform_all env cs w).db
  runs_follow_diagram = (perform_all-Respects env History-Respects cs w).evolve keyed

  -- Where no two runs have the same id, a run that has ended has the same status after any calls.
  pub ended_runs_stay :
      (scope id : String) (r : Run)
      → find (run_at scope id) w.db.runs ≡ some r
      → is_terminal r.status ≡ true
      → (s : Run) × (find (run_at scope id) (perform_all env cs w).db.runs ≡ some s)
        × (s.status ≡ r.status)
  ended_runs_stay scope id r h ended =
      let (s, found, evolves) = runs_follow_diagram.at scope id r h in
      (s, found, Walk-final ended evolves.path)

module _ (env : Env) (cs : List Call) (w : World) where
  -- Where the events of every session are numbered 1, 2, 3, ... up to the session's next number, in
  -- the order of the table, they are so after any sequence of calls, some of which may raise.
  pub calls_number_events : IsNumbered w.db → IsNumbered (perform_all env cs w).db
  calls_number_events = (perform_all-Respects env Numbers-Respects cs w).keep

  -- Whatever is called on an empty database, the run ids are unique and the events of every session
  -- are numbered without gaps.
  pub reachable_is_sound :
      w.db ≡ empty_db
      → IsKeyed (perform_all env cs w).db.runs × IsNumbered (perform_all env cs w).db
  unfolding session_seqs first_numbers find
  reachable_is_sound h = (
    calls_keep_keys env cs w (rw h tt),
    calls_number_events (rw h (record { at = λ scope id. refl })),
  )
