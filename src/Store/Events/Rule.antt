-- ===== src/Store/Events/Rule.antt =====
-- What `insert_event_locked` does to the database, reduced to its effect on the rows it read.
use code_forge.Prelude.{String, ◌≡◌, refl, Option, none, some}
use code_forge.Prelude.Tables.{find}
use code_forge.Json.{Fields}
use code_forge.Contracts.{EventType}
use code_forge.Contracts.Result.{integrity_error, ok, ErrorCode, run_not_found}
use code_forge.Store.Schema.{Db, Run, Session, RunEvent}
use code_forge.Store.Monad.{
  World, Env, found_or, select, or_raise, check, update, pure, now, uuid4, ◌>>◌,
}
use code_forge.Store.Content.{append_record}
use code_forge.Store.Keys.{event_fits, run_at, session_at}
use code_forge.Store.Events.{
  insert_event_locked, append_event, store_event, event_stored, event_row, base_for_session,
  EventView,
}
use code_forge.Store.Preserves.{Closed, Preserves, bind_at, preserves_rules}

pub found_or-ok {ℓ} :
    {A : Type ℓ} (o : Option A) (c : ErrorCode) {a : A} → found_or o c ≡ ok a → o ≡ some a
found_or-ok none c h = cc
found_or-ok (some b) c h = cc

-- The relation survives an event stored for a run and a session that are there.
pub record Stores (R : Db → Db → Type 0) : Type 0 where
  pub event :
      (d : Db) (scope run_id : String) (run : Run) (session : Session) (row : RunEvent)
      (time actor : String)
      → find (run_at scope run_id) d.runs ≡ some run
      → find (session_at run.scope_id run.session_id) d.sessions ≡ some session
      → row.scope_id ≡ scope
      → row.run_id ≡ run.id
      → row.session_id ≡ run.session_id
      → row.seq ≡ run.next_event_seq
      → row.session_seq ≡ session.next_event_seq
      → R d (event_stored scope run session row time actor d)

module _ (R : Db → Db → Type 0) ⦃c : Closed R⦄ where
  stored_at :
      (scope : String) (run : Run) (session : Session) (row : RunEvent) (time actor : String)
      (w : World)
      → R w.db (event_stored scope run session row time actor w.db)
      → R w.db (store_event scope run session row time actor w).1.db
  unfolding store_event select check update
  stored_at scope run session row time actor w h =
      bind_at R w (check (event_fits w.db row) integrity_error)
        (λ _. update (event_stored scope run session row time actor)) (c.same w.db) (λ _ e. h)

  after_store :
      (scope : String) (run : Run) (session : Session) (row : RunEvent) (time actor : String)
      (view : EventView) (w : World)
      → R w.db (event_stored scope run session row time actor w.db)
      → R w.db ((store_event scope run session row time actor >> pure view) w).1.db
  unfolding pure
  after_store scope run session row time actor view w h =
      bind_at R w (store_event scope run session row time actor) (λ _. pure view)
        (stored_at scope run session row time actor w h)
        (λ _ e. stored_at scope run session row time actor w h)

module _ {R : Db → Db → Type 0} ⦃c : Closed R⦄ ⦃s : Stores R⦄ (env : Env) where
  pub Preserves-insert_event_locked :
      (scope run_id : String) (event_type : EventType) (fields : Fields)
      (actor occurred_at : String)
      → Preserves R (insert_event_locked env scope run_id event_type fields actor occurred_at)
  unfolding insert_event_locked select or_raise uuid4 now base_for_session append_record event_row
  Preserves-insert_event_locked scope run_id event_type fields actor occurred_at = record {
    at = λ w.
        bind_at R w (or_raise (find (run_at scope run_id) w.db.runs) run_not_found) _ (c.same w.db)
          λ run e.
            bind_at R w
              (or_raise (find (session_at run.scope_id run.session_id) w.db.sessions) run_not_found)
              _ (c.same w.db)
              λ session e'. after_store R scope run session _ _ actor _ _ (
                s.event w.db scope run_id run session _ _ actor (found_or-ok _ _ e)
                  (found_or-ok _ _ e') refl refl refl refl refl);
  }

  pub Preserves-append_event :
      (scope run_id : String) (event_type : EventType) (fields : Fields) (actor : String)
      → Preserves R (append_event env scope run_id event_type fields actor)
  unfolding append_event
  Preserves-append_event scope run_id event_type fields actor =
      search (preserves_rules, Preserves-insert_event_locked)
