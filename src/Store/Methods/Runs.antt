-- ===== src/Store/Methods/Runs.antt =====
-- Transitions, cancellation, responses and tools.
use code_forge.Prelude.{
  ℕ, ◌+◌, String, ◌≡◌, refl, Bool, true, false, Option, none, some, if◌then◌else◌,
}
use mathlib.Core.Path.{subst}
use code_forge.Prelude.Tables.{find}
use code_forge.Json.{Fields}
use code_forge.Contracts.{RunStatus, TaskOutcome, is_terminal}
use code_forge.Contracts.Result.{ok, run_not_found}
use code_forge.StateMachine.{Transition, transition}
use code_forge.Store.Schema.{Db, Run, TextRef}
use code_forge.Store.Monad.{Tx, Env, World, pure, lift, select, or_raise, now, update, ◌>>=◌, ◌>>◌}
use code_forge.Store.Keys.{run_at}
use code_forge.Store.Runs.{RunView, state_of, decode_run, decode_option, get_run, run_state}
use code_forge.Store.Transitions.{
  release, write_output, transition_locked, transition_run, cancel_queued, cancel_run,
  transition_run_locked, set_state, dumped, queued_data, transition_data,
}
use code_forge.Store.Responses.{PendingRow, answer_pending, answer_again, respond_to_run}
use code_forge.Store.Content.{write_message}
use code_forge.Store.Events.{base_for_session, insert_event_locked}
use code_forge.Store.Preserves.{
  Closed, Preserves, bind_at, Preserves-then, Preserves-update, Preserves-transaction,
  preserves_rules,
}
use code_forge.Store.Events.Rule.{Stores, found_or-ok, Preserves-insert_event_locked}
use code_forge.Store.Respects.{Respects}

module _ {R : Db → Db → Type 0} (L : Respects R) (env : Env) where
  instance closed : Closed R
  closed = L.closed

  Preserves-base : (session_id : String) → Preserves R (base_for_session env session_id)
  unfolding base_for_session
  Preserves-base session_id = search preserves_rules

  pub Preserves-decode_run : (r : Run) → Preserves R (decode_run env r)
  unfolding decode_run
  Preserves-decode_run r = search (preserves_rules, Preserves-base) depth 20

  Preserves-decode_option : (o : Option Run) → Preserves R (decode_option env o)
  unfolding decode_option
  Preserves-decode_option none = search preserves_rules
  Preserves-decode_option (some r) = search (preserves_rules, Preserves-decode_run)

  pub Preserves-get_run : (scope run_id : String) → Preserves R (get_run env scope run_id)
  unfolding get_run
  Preserves-get_run scope run_id = search (preserves_rules, Preserves-decode_option)

  pub Preserves-run_state : (scope run_id : String) → Preserves R (run_state env scope run_id)
  unfolding run_state
  Preserves-run_state scope run_id = search (preserves_rules, Preserves-get_run)

  after_update :
      {A : Type 0} (w : World) (f : Db → Db) (m : Tx A)
      → R w.db (f w.db)
      → Preserves R m
      → R w.db ((update f >> m) w).1.db
  unfolding update
  after_update w f m h p = L.closed.two w.db (f w.db) _ h (p.at (record w { db = f w.db }))

  Preserves-release :
      (scope : String) (run : Run) (time actor : String)
      → Preserves R (release scope run time actor)
  unfolding release
  Preserves-release scope run time actor =
      Preserves-then _ _ (Preserves-update _ (λ d. L.rest.end_attempt d _ _ _ _)) (
        Preserves-then _ _ (Preserves-update _ (λ d. L.sessions.free d _ _ _ _)) (
          Preserves-then _ _ (Preserves-update _ (λ d. L.workspaces.free d _ _ _ _ _))
            (Preserves-update _ (λ d. L.runs.drop_attempt d _ _ _ _))))

  instance stored : Stores R
  stored = L.events

  db-write_output :
      (run : Run) (output : Option String) (w : World) → (write_output env run output w).1.db ≡ w.db
  unfolding write_output pure base_for_session select write_message
  db-write_output run none w = refl
  db-write_output run (some output) w = refl

  Preserves-write_output :
      (run : Run) (output : Option String) → Preserves R (write_output env run output)
  Preserves-write_output run output = record {
    at = λ w. rw (db-write_output run output w) (closed.same w.db);
  }

  Preserves-record_and_release :
      (x : Transition) (scope run_id : String) (reason : Option String) (file : Option TextRef)
      (error : Option Fields) (extra : Fields) (actor time : String) (run : Run)
      → Preserves R (
          insert_event_locked env scope run_id x.event_type
            (transition_data x.after reason file error extra)
            actor
            time
          >> (if is_terminal x.after.status then release scope run time actor else pure tt))
  Preserves-record_and_release x scope run_id reason file error extra actor time run =
      search (preserves_rules, Preserves-insert_event_locked, Preserves-release)

  abbrev record_moved : Transition → String → String → String → Tx (Unit {0})
  record_moved x scope run_id actor = do
    occurred_at ← now env
    insert_event_locked env scope run_id x.event_type (queued_data env x.after) actor occurred_at
    pure tt

  Preserves-record_moved :
      (x : Transition) (scope run_id actor : String)
      → Preserves R (record_moved x scope run_id actor)
  Preserves-record_moved x scope run_id actor =
      search (preserves_rules, Preserves-insert_event_locked)

  module _ (scope run_id : String) (run : Run) (target : RunStatus) (version : ℕ)
      (outcome : Option TaskOutcome) (reason : Option String) (x : Transition) (w : World)
      (found : find (run_at scope run_id) w.db.runs ≡ some run)
      (moved : transition (state_of run) target version outcome reason ≡ ok x) where
    -- the new state is written after steps that leave the database alone
    set_state_at :
        (v : World) (file : Option TextRef) (error : Option String) (time actor : String)
        (m : Tx (Unit {0}))
        → v.db ≡ w.db
        → Preserves R m
        → R w.db ((update (set_state scope version x.after file error time actor) >> m) v).1.db
    set_state_at v file error time actor m e p =
        subst
          (λ d. R d ((update (set_state scope version x.after file error time actor) >> m) v).1.db)
          e
          (after_update v (set_state scope version x.after file error time actor) m
            (L.runs.set_state v.db scope run_id run target version outcome reason x file error time
              actor (rw e found) moved)
            p)

    transition_locked_at :
        (output : Option String) (error : Option Fields) (extra : Fields) (actor : String)
        → R w.db (transition_locked env scope run x version reason output error extra actor w).1.db
    unfolding transition_locked now
    transition_locked_at output error extra actor =
        let v : World = record w { calls = w.calls + 1 } in
        bind_at R v (write_output env run output) _ ((Preserves-write_output run output).at v)
          λ file f.
            set_state_at (write_output env run output v).1 file (dumped env error)
              (env.clock w.calls) actor _ (db-write_output run output v)
              (Preserves-record_and_release x scope run.id reason file error extra actor
                (env.clock w.calls) run)

    run_locked_at :
        (output : Option String) (error : Option Fields) (actor : String)
        → R w.db
            ((write_output env run output >>= λ file. now env >>= λ time.
                update (set_state scope version x.after file (dumped env error) time actor)
                >> record_moved x scope run.id actor)
              w).1.db
    unfolding now
    run_locked_at output error actor =
        bind_at R w (write_output env run output) _ ((Preserves-write_output run output).at w)
          λ file f.
            set_state_at _ file (dumped env error)
              (env.clock (write_output env run output w).1.calls) actor
              (record_moved x scope run.id actor) (db-write_output run output w)
              (Preserves-record_moved x scope run.id actor)

  Preserves-move :
      (scope run_id : String) (version : ℕ) (target : RunStatus) (outcome : Option TaskOutcome)
      (reason output : Option String) (error : Option Fields) (extra : Fields) (actor : String)
      → Preserves R (
          select (λ db. find (run_at scope run_id) db.runs) >>= λ found.
          or_raise found run_not_found >>= λ run.
          lift (transition (state_of run) target version outcome reason) >>= λ x.
          transition_locked env scope run x version reason output error extra actor)
  unfolding select or_raise lift
  Preserves-move scope run_id version target outcome reason output error extra actor = record {
    at = λ w.
        bind_at R w (or_raise (find (run_at scope run_id) w.db.runs) run_not_found) _
          (closed.same w.db)
          λ run e.
            bind_at R w (lift (transition (state_of run) target version outcome reason)) _
              (closed.same w.db)
              λ x m.
                transition_locked_at scope run_id run target version outcome reason x w
                  (found_or-ok _ _ e) m output error extra actor;
  }

  pub Preserves-transition_run :
      (scope run_id : String) (version : ℕ) (target : RunStatus) (outcome : Option TaskOutcome)
      (reason output : Option String) (error : Option Fields) (extra : Fields)
      (actor_ref : Option String)
      → Preserves R (
          transition_run env scope run_id version target outcome reason output error extra
            actor_ref)
  unfolding transition_run
  Preserves-transition_run scope run_id version target outcome reason output error extra actor_ref =
      Preserves-then _ _
        (Preserves-transaction _
          (Preserves-move scope run_id version target outcome reason output error extra _))
        (Preserves-get_run scope run_id)

  Preserves-cancel_queued :
      (scope run_id : String) (was_queued : Bool) (current : Option RunView) (actor : String)
      → Preserves R (cancel_queued env scope run_id was_queued current actor)
  unfolding cancel_queued
  Preserves-cancel_queued scope run_id was_queued none actor = search preserves_rules
  Preserves-cancel_queued scope run_id false (some v) actor = search preserves_rules
  Preserves-cancel_queued scope run_id true (some v) actor =
      Preserves-transition_run scope run_id _ _ none none none none _ (some actor)

  pub Preserves-cancel_run :
      (scope run_id : String) (actor_ref : Option String)
      → Preserves R (cancel_run env scope run_id actor_ref)
  unfolding cancel_run
  Preserves-cancel_run scope run_id actor_ref = search (
    preserves_rules, Preserves-run_state, Preserves-get_run, Preserves-transition_run,
    Preserves-cancel_queued,
  )

  pub Preserves-transition_run_locked :
      (scope run_id : String) (target : RunStatus) (version : ℕ) (outcome : Option TaskOutcome)
      (reason output : Option String) (error : Option Fields) (actor : String)
      → Preserves R
          (transition_run_locked env scope run_id target version outcome reason output error actor)
  unfolding transition_run_locked select or_raise lift now
  Preserves-transition_run_locked scope run_id target version outcome reason output error actor =
      record {
        at = λ w.
            bind_at R w (or_raise (find (run_at scope run_id) w.db.runs) run_not_found) _
              (closed.same w.db)
              λ run e.
                bind_at R w (lift (transition (state_of run) target version outcome reason)) _
                  (closed.same w.db)
                  λ x m.
                    run_locked_at scope run_id run target version outcome reason x w
                      (found_or-ok _ _ e) m output error actor;
      }

  Preserves-answer_pending :
      (scope run_id pending_id response_key : String) (version : ℕ) (answer actor : String)
      (row : PendingRow)
      → Preserves R
          (answer_pending env scope run_id pending_id response_key version answer actor row)
  unfolding answer_pending
  Preserves-answer_pending scope run_id pending_id response_key version answer actor row =
      search
        (
          preserves_rules, Preserves-base, Preserves-update, L.rest.resolve,
          Preserves-transition_run_locked,
        )
        depth 30

  Preserves-answer_again :
      (response_key answer : String) (row : PendingRow)
      → Preserves R (answer_again env response_key answer row)
  unfolding answer_again
  Preserves-answer_again response_key answer row = search preserves_rules

  pub Preserves-respond_to_run :
      (scope run_id pending_id response_key : String) (version : ℕ) (answer actor : String)
      → Preserves R (respond_to_run env scope run_id pending_id response_key version answer actor)
  unfolding respond_to_run
  Preserves-respond_to_run scope run_id pending_id response_key version answer actor =
      search (preserves_rules, Preserves-answer_pending, Preserves-answer_again, Preserves-get_run)
        depth 10
