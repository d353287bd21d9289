-- ===== src/Store/Idempotency.antt =====
-- `accept_once` makes one run for one key of a session, and returns that run ever after.
pub mod Replay
use code_forge.Prelude.{
  ℕ, ◌+◌, String, ◌≡◌, ◌∙◌, sym, ap, refl, Bool, true, false, not, ◌&&◌, Option, none, some, List,
  [], ◌∷◌, ◌++◌, arith, eq_refl, eq_iff, ◌==◌, Bool-cases, inl, inr, if◌then◌else◌,
}
use code_forge.Prelude.Tables.{find, find-append, find-none, exists, or_else}
use code_forge.Contracts.{AcceptedRun}
use code_forge.Contracts.Result.{Result, ok, err, domain, idempotency_conflict, integrity_error}
use code_forge.Contracts.Requests.{RunRequest, RunSnapshot}
use code_forge.Store.Schema.{Db, Run}
use code_forge.Store.Monad.{
  Tx, World, Env, transaction, select, check, update, ok_if, now, pure, ◌>>=◌, ◌>>◌,
}
use code_forge.Store.Content.{ObjectRef}
use code_forge.Store.Keys.{request_at, run_fits, insert_run}
use code_forge.Store.Runs.{accepted}
use code_forge.Store.Sessions.{SessionView}
use code_forge.Store.Accept.{
  log_run, store_run, run_row, accept_new, accept_again, accept_found, accept_once, count_run,
}
use code_forge.Store.Events.{insert_event_locked}
use code_forge.Store.Events.Rule.{Preserves-insert_event_locked}
use code_forge.Store.Preserves.{Preserves-bind, Preserves-update, preserves_rules, Preserves}
use code_forge.Store.Memory.{Remembers, Remembers-Respects, SameRequest, Remembers-insert}
use code_forge.Store.Methods.Sessions.{Preserves-log_run}
use code_forge.Store.Traces.{Call, perform_all, perform_all-Respects}
use code_forge.Store.Ran.{
  Returns, Returns-transaction, Returns-pure, returns_rules, bind-ok, check-ok,
}

-- The key finds the run that was returned, with the request's fingerprint.
pub record IsKept (scope session_id key fingerprint : String) (a : AcceptedRun) (d : Db)
    : Type 0 where
  pub row : Run
  pub there : find (request_at scope session_id key) d.runs ≡ some row
  pub id : row.id ≡ a.id
  pub fingerprint_same : row.request_fingerprint ≡ fingerprint

pub remembered :
    (scope session_id key fingerprint : String) (a : AcceptedRun) (d e : Db)
    → Remembers d e
    → IsKept scope session_id key fingerprint a d
    → IsKept scope session_id key fingerprint a e
remembered scope session_id key fingerprint a d e r k =
    let (s, h, same) = r.at scope session_id key k.row k.there in
    record {
      row = s;
      there = h;
      id = same.id ∙ k.id;
      fingerprint_same = same.fingerprint ∙ k.fingerprint_same;
    }

inserted_row :
    (d : Db) (x : Run)
    → run_fits d x ≡ true
    → find (request_at x.scope_id x.session_id x.idempotency_key) (d.runs ++ x ∷ []) ≡ some x
unfolding run_fits find
inserted_row d x fits =
    rw
      (
        find-append (request_at x.scope_id x.session_id x.idempotency_key) d.runs (x ∷ []),
        find-none (request_at x.scope_id x.session_id x.idempotency_key) d.runs (ground arith),
        eq_refl x.scope_id,
        eq_refl x.session_id,
        eq_refl x.idempotency_key,
      )
      refl

insert_run-ok :
    (x : Run) (w : World) {u : Unit {0}}
    → (insert_run x w).0 ≡ ok u
    → find (request_at x.scope_id x.session_id x.idempotency_key) (insert_run x w).1.db.runs
      ≡ some x
unfolding insert_run select check update
insert_run-ok x w h = elim (Bool-cases (run_fits w.db x)) [
  | inl e ↦ rw e (inserted_row w.db x e)
  | inr e ↦ absurd (ground arith)
]

module _ (env : Env) where
  log_run-id :
      (request : RunRequest) (view : SessionView) (stored : ObjectRef) (time : String) (x : Run)
      → Returns (λ a _. a.id ≡ x.id) (log_run env request view stored time x)
  unfolding log_run
  log_run-id request view stored time x = search (returns_rules, returned)
    where
      returned : Returns (λ a _. a.id ≡ x.id) (pure (accepted x false))
      returned = Returns-pure (accepted x false) (λ _. refl)

  store_run-IsKept :
      (request : RunRequest) (view : SessionView) (stored : ObjectRef) (time : String) (x : Run)
      → Returns
          (IsKept x.scope_id x.session_id x.idempotency_key x.request_fingerprint)
          (store_run env request view stored time x)
  unfolding store_run
  store_run-IsKept request view stored time x = record {
    holds = λ w a e.
        let c = bind-ok (insert_run x) (λ _. log_run env request view stored time x) w a e in
        let logged =
          (Preserves-log_run Remembers-Respects env request view stored time x).at
            (insert_run x w).1 in
        rw c.whole (
          remembered _ _ _ _ a _ _ logged (record {
            row = x;
            there = insert_run-ok x w c.first;
            id = sym ((log_run-id request view stored time x).holds _ a c.then_ok);
            fingerprint_same = refl;
          }));
  }

  again_id :
      (fingerprint : String) (r : Run) (w : World) (a : AcceptedRun)
      → (accept_again env fingerprint r w).0 ≡ ok a
      → r.id ≡ a.id
  unfolding accept_again check pure
  again_id fingerprint r w a h = elim (Bool-cases (r.request_fingerprint == fingerprint)) [
    | inl e ↦ let ran : ok (accepted r true) ≡ ok a = rw e at h in cc
    | inr e ↦ absurd (ground arith)
  ]

  module _ (request : RunRequest) (key fingerprint : String) (snapshot : RunSnapshot)
      (only : Bool) where
    abbrev Kept : AcceptedRun → Db → Type 0
    Kept = IsKept request.context.scope_id request.session_id key fingerprint

    accept_new-IsKept :
        (time : String) → Returns Kept (accept_new env request key fingerprint snapshot only time)
    unfolding accept_new run_row
    accept_new-IsKept time = search (returns_rules, store_run-IsKept) depth 20

    accept_found-IsKept :
        (time : String) (w : World) (o : Option Run) (a : AcceptedRun)
        → find (request_at request.context.scope_id request.session_id key) w.db.runs ≡ o
        → (accept_found env request key fingerprint snapshot only time o w).0 ≡ ok a
        → Kept a (accept_found env request key fingerprint snapshot only time o w).1.db
    unfolding accept_found accept_again check pure
    accept_found-IsKept time w none a f h = (accept_new-IsKept time).holds w a h
    accept_found-IsKept time w (some r) a f h =
        elim (Bool-cases (r.request_fingerprint == fingerprint)) [
          | inl e ↦ rw e (record {
            row = r;
            there = f;
            id = again_id fingerprint r w a h;
            fingerprint_same = (eq_iff r.request_fingerprint fingerprint).0 e;
          })
          | inr e ↦ absurd (ground arith)
        ]

    look : String → Tx AcceptedRun
    look time =
        select (λ db. find (request_at request.context.scope_id request.session_id key) db.runs)
        >>= accept_found env request key fingerprint snapshot only time

    look-IsKept : (time : String) → Returns Kept (transaction (look time))
    unfolding look select
    look-IsKept time =
        Returns-transaction (look time)
          (record { holds = λ w a h. accept_found-IsKept time w _ a refl h })

    pub accept_once-IsKept : Returns Kept (accept_once env request key fingerprint snapshot only)
    unfolding accept_once select look now
    accept_once-IsKept = record {
      holds =
          λ w a h. (look-IsKept (env.clock w.calls)).holds (record w { calls = w.calls + 1 }) a h;
    }
