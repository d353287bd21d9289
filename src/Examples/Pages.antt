-- ===== src/Examples/Pages.antt =====
-- Reading what was written.
use Prim.Native.String.{len}
use text.Mathlib.TextPositions.{len-append}
use code_forge.Prelude.{false}
use code_forge.Prelude.{
  map, ◌≡◌, ap, refl, true, some, none, [], ◌∷◌, ℕ, zero, suc, ◌<◌, pos, nonempty, arith, eq_iff,
  List, ◌==◌, Bool-cases, inl, inr,
}
use code_forge.Prelude.Tables.{length, select_where, find, exists}
use code_forge.Prelude.Order.{HasNoTies, order_by, insert_by}
use code_forge.Store.Schema.{Run, empty_db}
use code_forge.Store.Owned.{IsOwned}
use code_forge.Store.Pages.Whole.{calls_keep_owners}
use code_forge.Store.Pages.Messages.{list_messages_public}
use code_forge.Store.Pages.Thread.{
  is_wide, ReadsBack, follow_cursors, run_views, runs_of, in_thread, thread_is_complete,
}
use code_forge.Examples.Lives.{first_calls}
use code_forge.Json.{Json, obj, str, field, end}
use code_forge.Contracts.Result.{ok}
use code_forge.Store.Monad.{World, lift, select, pure}
use code_forge.Store.Runs.{RunView, decode_run}
use code_forge.Store.Events.{base_for_session}
use code_forge.Store.Pages.{all_ok}
use code_forge.Store.Content.{
  ContentRef, append_record, read_object_json, read_message, read_object, read_file,
}
use code_forge.Store.Content.Reading.{read_verified}
use code_forge.Store.Traces.{claim, cancel, perform_all}
use code_forge.Store.Growing.Calls.{record_stays_readable}
use code_forge.Examples.{env, queued_world, tick, run, world_of, db_of, workspace, session}

abbrev line : Json
line = obj (field "content" (str "{}\n") end)

record_stays_readable_example :
    (c : ContentRef) × ((append_record env "/data" "sessions/c" line queued_world).0 ≡ ok c)
    × (read_verified env "/data" c.ref c.offset c.bytes c.digest
          (perform_all env
            (claim none "worker" "b" "z" ∷ cancel "s" "r" none ∷ [])
            (append_record env "/data" "sessions/c" line queued_world).1).files
        ≡ ok line)
record_stays_readable_example =
    record_stays_readable env "/data" "sessions/c" line queued_world
      (claim none "worker" "b" "z" ∷ cancel "s" "r" none ∷ []) refl

owned : IsOwned (world_of empty_db).db
unfolding find
owned = record { one = λ scope id s e. e; owners = tt }

calls_keep_owners_example : IsOwned (perform_all env first_calls (world_of empty_db)).db
calls_keep_owners_example = calls_keep_owners env first_calls (world_of empty_db) owned

tick_length : (n : ℕ) → len (tick n) ≡ suc n
tick_length zero = refl
tick_length (suc n) = omega (arith, len-append "t" (tick n), tick_length n)

tick-nonempty : (n : ℕ) → nonempty (tick n) ≡ true
tick-nonempty n = elim (Bool-cases (tick n == "")) [
  | inl e ↦
      let blank : len (tick n) ≡ 0 = ap len ((eq_iff (tick n) "").0 e) in
      absurd (omega (arith, blank, tick_length n))
  | inr e ↦ rw e refl
]

env-ReadsBack : ReadsBack env
env-ReadsBack = record {
  int_of_show = λ n. ap (λ m. some (pos m)) (omega (arith, tick_length n));
  show_nonempty = tick-nonempty;
}

-- The second message of the session.
abbrev second : Run
second = record run { id = "r2"; run_seq = 2 }

abbrev thread : World
thread = world_of (db_of workspace session (second ∷ run ∷ []))

apart : HasNoTies (λ (r : Run). r.run_seq) (select_where (in_thread "c") thread.db.runs)
unfolding select_where exists
apart = (refl, (refl, tt))

both : length (runs_of env (in_thread "c") thread) < 3
unfolding select_where order_by insert_by
both = omega arith

narrow : exists is_wide (runs_of env (in_thread "c") thread) ≡ false
unfolding select_where order_by insert_by exists
narrow = refl

thread_readable :
    (items : List RunView) × (run_views env
        (in_thread "c")
        thread
        (runs_of env (in_thread "c") thread)
      ≡ ok items)
unfolding select_where order_by insert_by all_ok decode_run base_for_session read_object_json
    read_message read_object read_file find lift select pure
thread_readable = (_, refl)

thread_is_complete_example :
    (follow_cursors (λ cursor. list_messages_public env "c" cursor 1) 3 none thread
      ≡ (ok thread_readable.0, thread))
    × (map (λ (v : RunView). v.row) thread_readable.0
        ≡ order_by (λ (r : Run). r.run_seq) (select_where (in_thread "c") thread.db.runs))
thread_is_complete_example =
    thread_is_complete env "c" thread 0 3 thread_readable.0 env-ReadsBack apart narrow both
      thread_readable.1
