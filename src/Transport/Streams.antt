-- ===== src/Transport/Streams.antt =====
-- src/code_forge/transport/server.py: `_stream`, one turn of its loop after the other. Between two
-- turns, while the loop sleeps, other threads call the store.
pub mod Delivery
use code_forge.Prelude.{
  ℕ, String, Bool, true, false, not, ◌&&◌, Option, none, some, List, [], ◌∷◌, ◌++◌, leb,
  if◌then◌else◌, ◌==◌, nonempty,
}
use code_forge.Json.{Json}
use code_forge.Contracts.{is_terminal}
use code_forge.Store.Monad.{Env, Tx, World, pure, ◌>>=◌}
use code_forge.Store.Runs.{RunView, get_run}
use code_forge.Store.Pages.Events.{EventItem, list_session_events, session_event_cursor}
use code_forge.Store.Pages.Messages.{get_current_message}
use code_forge.Store.Traces.{Call, perform_all}
use code_forge.Transport.Views.{PublicEvent, public_event}

-- `terminal_message_id and event["run_id"] != terminal_message_id`
abbrev pub is_other : Option String → EventItem → Bool
is_other none item = false
is_other (some id) item = nonempty id && not (item.row.run_id == id)

-- `message and message["status"] in TERMINAL and cursor >= ...`
abbrev message_ended : Option RunView → ℕ → ℕ → Bool
message_ended none last cursor = false
message_ended (some v) last cursor = is_terminal v.row.status && leb last cursor

-- `not current or (...)`
abbrev session_idle : Option RunView → ℕ → ℕ → Bool
session_idle none last cursor = true
session_idle (some v) last cursor = is_terminal v.row.status && leb last cursor

-- What one turn of the loop sends, the cursor after it, and whether the loop ends.
pub record Turn : Type 0 where
  pub sent : List PublicEvent
  pub cursor : ℕ
  pub ends : Bool

module _ (shown : Json → String) (env : Env) (scope session_id : String)
    (message : Option String) where
  unfoldable pub project : List EventItem → Tx (List PublicEvent)
  project [] = pure []
  project (item ∷ items) =
      let rest = project items in
      if is_other message item
      then rest
      else (public_event shown env item >>= λ event. rest >>= λ events. pure (event ∷ events))

  unfoldable pub ended : ℕ → Tx Bool
  ended cursor = elim message [
    | none ↦ get_current_message env session_id >>= λ current.
        session_event_cursor session_id >>= λ last. pure (session_idle current last cursor)
    | some id ↦ get_run env scope id >>= λ found.
        session_event_cursor session_id >>= λ last. pure (message_ended found last cursor)
  ]

  unfoldable pub stream_turn : ℕ → Tx Turn
  unfolding project ended
  stream_turn cursor = do
    page ← list_session_events env session_id cursor 200
    sent ← project page.0
    ends ← ended page.1
    pure (record { sent = sent; cursor = page.1; ends = ends })

  abbrev pub after_turn : Turn → Tx (List PublicEvent × ℕ) → Tx (List PublicEvent × ℕ)
  after_turn turn rest =
      if turn.ends
      then pure (turn.sent, turn.cursor)
      else (rest >>= λ later. pure (turn.sent ++ later.0, later.1))

  -- As many turns as there are lists of calls that come between them: all events that were sent,
  -- and the cursor.
  unfoldable pub stream_loop : List (List Call) → ℕ → Tx (List PublicEvent × ℕ)
  unfolding stream_turn
  stream_loop [] cursor = pure ([], cursor)
  stream_loop (calls ∷ others) cursor = do
    turn ← stream_turn cursor
    after_turn turn (λ w. stream_loop others turn.cursor (perform_all env calls w))
