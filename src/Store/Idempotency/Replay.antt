-- ===== src/Store/Idempotency/Replay.antt =====
-- Accepting a request whose key the session knows.
use code_forge.Prelude.{
  ◌+◌, String, ◌≡◌, refl, Bool, true, some, List, ◌==◌, Bool-cases, inl, inr, if◌then◌else◌,
}
use code_forge.Prelude.Tables.{find}
use code_forge.Contracts.{AcceptedRun}
use code_forge.Contracts.Result.{Result, ok, err, domain, idempotency_conflict}
use code_forge.Contracts.Requests.{RunRequest, RunSnapshot}
use code_forge.Store.Schema.{Run}
use code_forge.Store.Monad.{World, Env, transaction, select, check, now, pure}
use code_forge.Store.Keys.{request_at}
use code_forge.Store.Runs.{accepted}
use code_forge.Store.Accept.{accept_found, accept_again, accept_once}
use code_forge.Store.Memory.{Remembers-Respects}
use code_forge.Store.Idempotency.{IsKept, remembered, accept_once-IsKept}
use code_forge.Store.Traces.{Call, perform_all, perform_all-Respects}

-- What the second of two requests with one key is told, from the fingerprints.
abbrev answer_for : String → Run → Result AcceptedRun
answer_for fingerprint r =
    if r.request_fingerprint == fingerprint
    then ok (accepted r true)
    else err (domain idempotency_conflict)

module _ (env : Env) where
  module _ (request : RunRequest) (key : String) where
    -- Where the key finds a run in the session, accepting the request again returns that run, marked
    -- as reused, if the fingerprint is the run's, and an idempotency conflict otherwise. Nothing is
    -- written: only the clock is read.
    pub accept_known :
        (fingerprint : String) (snapshot : RunSnapshot) (only : Bool) (w : World) (r : Run)
        → find (request_at request.context.scope_id request.session_id key) w.db.runs ≡ some r
        → accept_once env request key fingerprint snapshot only w
          ≡ (answer_for fingerprint r, record w { calls = w.calls + 1 })
    unfolding accept_once transaction select now accept_found accept_again check pure
    accept_known fingerprint snapshot only w r h =
        rw h (elim (Bool-cases (r.request_fingerprint == fingerprint)) [
          | inl e ↦ rw e refl
          | inr e ↦ rw e refl
        ])

    answer_kept :
        (fingerprint fingerprint' : String) (snapshot' : RunSnapshot) (only' : Bool)
        (a : AcceptedRun) (after : World)
        → IsKept request.context.scope_id request.session_id key fingerprint a after.db
        → (r : Run) × (r.id ≡ a.id)
          × (accept_once env request key fingerprint' snapshot' only' after ≡ (
            if fingerprint == fingerprint'
                then ok (accepted r true)
                else err (domain idempotency_conflict),
            record after { calls = after.calls + 1 },
          ))
    answer_kept fingerprint fingerprint' snapshot' only' a after k = (
      k.row,
      k.id,
      rw (← k.fingerprint_same) (accept_known fingerprint' snapshot' only' after k.row k.there),
    )

    -- Where a request was accepted and any calls followed, a request with the same key is answered
    -- with the id of the run that was accepted, if its fingerprint is the first one's, and with an
    -- idempotency conflict otherwise; either way it writes nothing.
    pub accept_replay :
        (fingerprint : String) (snapshot : RunSnapshot) (only : Bool) (w : World) (a : AcceptedRun)
        (cs : List Call) (fingerprint' : String) (snapshot' : RunSnapshot) (only' : Bool)
        → (accept_once env request key fingerprint snapshot only w).0 ≡ ok a
        → let after =
            perform_all env cs (accept_once env request key fingerprint snapshot only w).1 in
          (r : Run) × (r.id ≡ a.id)
          × (accept_once env request key fingerprint' snapshot' only' after ≡ (
            if fingerprint == fingerprint'
                then ok (accepted r true)
                else err (domain idempotency_conflict),
            record after { calls = after.calls + 1 },
          ))
    accept_replay fingerprint snapshot only w a cs fingerprint' snapshot' only' h =
        let kept = (accept_once-IsKept env request key fingerprint snapshot only).holds w a h in
        answer_kept fingerprint fingerprint' snapshot' only' a _
          (remembered _ _ _ _ a _ _ (perform_all-Respects env Remembers-Respects cs _) kept)
