-- ===== src/Store/Pages/Thread.antt =====
-- Reading the messages of a session to their end, by the cursors that the pages give.
use mathlib.Core.Path.{subst}
use mathlib.Core.List.{append_assoc}
use code_forge.Prelude.{
  map, not, false, ℕ, zero, suc, pos, ◌≤◌, ◌<◌, ◌≡◌, ◌∙◌, ap, refl, sym, String, Bool, true, Option,
  none, some, List, [], ◌∷◌, ◌++◌, ◌==◌, arith, nonempty, ltb, Bool-cases, inl, inr, if◌then◌else◌,
}
use code_forge.Prelude.Tables.{length, take, select_where, exists, exists-append}
use code_forge.Prelude.Order.{
  drop, order_by, is_above, HasNoTies, IsAscending, take-append-drop, take-take, take_all,
  length-take, length-drop, order_by-IsAscending, select_where-order_by, select_where-and,
  select_where_after,
}
use code_forge.Contracts.Result.{Result, ok, err}
use code_forge.Store.Schema.{Run}
use code_forge.Store.Monad.{Env, Tx, World, pure, lift, select, continue, ◌>>=◌}
use code_forge.Store.Runs.{RunView, decode_run}
use code_forge.Store.Found.{decode_run-row}
use code_forge.Store.Pages.{
  map-all_ok, all_ok, append_ok, all_ok-append, each_reads, IsRead, read_rules,
}
use code_forge.Store.Pages.Rows.{page_end, get_elem?-page_end}
use code_forge.Store.Pages.Messages.{
  list_page, list_messages_public, int64_end, cursor_test, run_page, show_seq, row_before, rows_for,
}

abbrev seq_of : Run → ℕ
seq_of r = r.run_seq

-- A number beyond the integers of SQLite.
abbrev pub is_wide : Run → Bool
is_wide r = not (ltb r.run_seq int64_end)

abbrev or_more :
    List RunView → Option String → (Option String → Tx (List RunView)) → Tx (List RunView)
or_more items none rest = pure items
or_more items (some cursor) rest = do views ← rest (some cursor); pure (items ++ views)

-- A client that asks for pages until one has no cursor.
unfoldable pub follow_cursors :
    (Option String → Tx (List RunView × Option String)) → ℕ → Option String → Tx (List RunView)
follow_cursors list zero cursor = pure []
follow_cursors list (suc n) cursor = do
  page ← list cursor
  or_more page.0 page.1 (follow_cursors list n)

-- Python's `int` reads back what `str` shows, which is never the empty text.
pub record ReadsBack (env : Env) : Type 0 where
  pub int_of_show : (n : ℕ) → env.int (env.show n) ≡ some (pos n)
  pub show_nonempty : (n : ℕ) → nonempty (env.show n) ≡ true

module _ (env : Env) where
  pub IsRead-decode_run : (r : Run) → IsRead (decode_run env r)
  unfolding decode_run
  IsRead-decode_run r = search read_rules depth 20

  abbrev page_result : Result (List RunView) → Option String → Result (List RunView × Option String)
  page_result (ok items) next = ok (items, next)
  page_result (err e) next = err e

  continue_page :
      (r : Result (List RunView)) (next : Option String) (w : World)
      → continue r (λ items. pure (items, next)) w ≡ (page_result r next, w)
  unfolding pure
  continue_page (ok items) next w = refl
  continue_page (err e) next w = refl

  module _ (mine : Run → Bool) (w : World) where
    abbrev pub runs_of : List Run
    runs_of = order_by seq_of (select_where mine w.db.runs)

    abbrev pub run_views : List Run → Result (List RunView)
    run_views = all_ok (λ r. (decode_run env r w).0)

    abbrev next_of : ℕ → List Run → Option String
    next_of limit rows =
        if ltb limit (length rows) then show_seq env (row_before limit rows) else none

    page_read :
        (limit : ℕ) (cursor : Option String) (after : Run → Bool)
        → HasNoTies seq_of (select_where mine w.db.runs)
        → cursor_test env cursor ≡ ok after
        → list_page env mine cursor limit w ≡ (
          page_result
              (run_views (take limit (take (suc limit) (select_where after runs_of))))
              (next_of limit (take (suc limit) (select_where after runs_of))),
          w,
        )
    unfolding list_page select lift run_page
    page_read limit cursor after h e =
        ap
          (λ r.
            continue r (λ after. select (rows_for env mine after limit) >>= run_page env limit) w)
          e
        ∙ ap (λ rows. run_page env limit (take (suc limit) (order_by seq_of rows)) w)
            (select_where-and mine after w.db.runs)
        ∙ ap (λ rows. run_page env limit (take (suc limit) rows) w)
            (select_where-order_by seq_of after (select_where mine w.db.runs) h)
        ∙ ap
            (λ (p : Result (List RunView) × World).
              continue p.0
                (λ items.
                  pure (items, next_of limit (take (suc limit) (select_where after runs_of))))
                p.1)
            (each_reads (decode_run env) _ w IsRead-decode_run)
        ∙ continue_page _ _ w

    abbrev pages : ℕ → Option String → Tx (List RunView × Option String)
    pages k cursor = list_page env mine cursor (suc k)

    -- The last page.
    last_page :
        (k n : ℕ) (r : Result (List RunView))
        → continue
            (page_result r none)
            (λ page. or_more page.0 page.1 (follow_cursors (pages k) n))
            w
          ≡ (r, w)
    unfolding pure
    last_page k n (ok items) = refl
    last_page k n (err e) = refl

    with_items :
        (items : List RunView) (rest : Result (List RunView))
        → continue rest (λ views. pure (items ++ views)) w ≡ (append_ok (ok items) rest, w)
    unfolding pure
    with_items items (ok views) = refl
    with_items items (err e) = refl

    -- A page with a cursor, and the rest.
    page_and_rest :
        (k n : ℕ) (cursor : String) (r rest : Result (List RunView))
        → follow_cursors (pages k) n (some cursor) w ≡ (rest, w)
        → continue
            (page_result r (some cursor))
            (λ page. or_more page.0 page.1 (follow_cursors (pages k) n))
            w
          ≡ (append_ok r rest, w)
    page_and_rest k n cursor (err e) rest h = refl
    page_and_rest k n cursor (ok items) rest h =
        ap
          (λ (p : Result (List RunView) × World). continue p.0 (λ views. pure (items ++ views)) p.1)
          h
        ∙ with_items items rest

    follow_page :
        (k n : ℕ) (cursor : Option String) (r : Result (List RunView)) (next : Option String)
        → list_page env mine cursor (suc k) w ≡ (page_result r next, w)
        → follow_cursors (pages k) (suc n) cursor w
          ≡ continue
              (page_result r next)
              (λ page. or_more page.0 page.1 (follow_cursors (pages k) n))
              w
    unfolding follow_cursors
    follow_page k n cursor r next h =
        ap
          (λ (p : Result (List RunView × Option String) × World).
            continue p.0 (λ page. or_more page.0 page.1 (follow_cursors (pages k) n)) p.1)
          h

    short_next : (k : ℕ) (rows : List Run) → length rows ≤ k → next_of k (take (suc k) rows) ≡ none
    short_next k rows h = ap (next_of k) (take_all (suc k) rows (omega arith)) ∙ ground (arith, h)

    long_next :
        (k : ℕ) (x : Run) (xs : List Run)
        → suc k < length (x ∷ xs)
        → next_of (suc k) (take (suc (suc k)) (x ∷ xs))
          ≡ some (env.show (page_end seq_of k x xs).row.run_seq)
    long_next k x xs h =
        let full = length-take (suc (suc k)) (x ∷ xs) (omega arith) in
        let more : ltb (suc k) (length (take (suc (suc k)) (x ∷ xs))) ≡ true =
          ground (arith, full) in
        rw more (ap (show_seq env) (get_elem?-page_end seq_of k x xs (omega arith)))

    module _ (reads : ReadsBack env) (ties : HasNoTies seq_of (select_where mine w.db.runs))
        (narrow : exists is_wide runs_of ≡ false) where
      cursor_of_number :
          (m : ℕ)
          → ltb m int64_end ≡ true
          → cursor_test env (some (env.show m)) ≡ ok (is_above seq_of m)
      cursor_of_number m fits = rw (reads.show_nonempty m, reads.int_of_show m, fits) refl

      page_fits :
          (k : ℕ) (pre : List Run) (x : Run) (xs : List Run)
          → runs_of ≡ pre ++ x ∷ xs
          → ltb (page_end seq_of k x xs).row.run_seq int64_end ≡ true
      unfolding exists
      page_fits k pre x xs e =
          let pe = page_end seq_of k x xs in
          let rest = pe.row ∷ drop (suc k) (x ∷ xs) in
          let split : runs_of ≡ pre ++ (pe.before ++ rest) = e ∙ ap (λ ys. pre ++ ys) pe.whole in
          let none_wide = sym (ap (exists is_wide) split) ∙ narrow in
          let outer = exists-append is_wide pre (pe.before ++ rest) in
          let inner = exists-append is_wide pe.before rest in
          ground (arith, none_wide, outer, inner)

      rest_after :
          (k : ℕ) (pre : List Run) (x : Run) (xs : List Run)
          → runs_of ≡ pre ++ x ∷ xs
          → select_where (is_above seq_of (page_end seq_of k x xs).row.run_seq) runs_of
            ≡ drop (suc k) (x ∷ xs)
      rest_after k pre x xs e =
          let pe = page_end seq_of k x xs in
          let split : runs_of ≡ (pre ++ pe.before) ++ pe.row ∷ drop (suc k) (x ∷ xs) =
            e
            ∙ ap (λ ys. pre ++ ys) pe.whole
            ∙ sym (append_assoc pre pe.before (pe.row ∷ drop (suc k) (x ∷ xs))) in
          ap (select_where (is_above seq_of pe.row.run_seq)) split
          ∙ select_where_after seq_of (pre ++ pe.before) pe.row (drop (suc k) (x ∷ xs)) (
              subst (IsAscending seq_of) split
                (order_by-IsAscending seq_of (select_where mine w.db.runs) ties))

      page_for :
          (k : ℕ) (cursor : Option String) (after : Run → Bool) (rest : List Run)
          → cursor_test env cursor ≡ ok after
          → select_where after runs_of ≡ rest
          → list_page env mine cursor (suc k) w ≡ (
            page_result (run_views (take (suc k) rest)) (next_of (suc k) (take (suc (suc k)) rest)),
            w,
          )
      page_for k cursor after rest c s =
          page_read (suc k) cursor after ties c
          ∙ ap
              (λ rows. (
                page_result (run_views (take (suc k) (take (suc (suc k)) rows)))
                    (next_of (suc k) (take (suc (suc k)) rows)),
                w,
              ))
              s
          ∙ ap
              (λ rows.
                (page_result (run_views rows) (next_of (suc k) (take (suc (suc k)) rest)), w))
              (take-take (suc k) rest)

      follow_short :
          (k n : ℕ) (cursor : Option String) (after : Run → Bool) (rest : List Run)
          → cursor_test env cursor ≡ ok after
          → select_where after runs_of ≡ rest
          → length rest ≤ suc k
          → follow_cursors (pages k) (suc n) cursor w ≡ (run_views rest, w)
      follow_short k n cursor after rest c s short =
          follow_page k n cursor (run_views rest) none (
            page_for k cursor after rest c s
            ∙ ap
                (λ rows.
                  (page_result (run_views rows) (next_of (suc k) (take (suc (suc k)) rest)), w))
                (take_all (suc k) rest short)
            ∙ ap (λ next. (page_result (run_views rest) next, w)) (short_next (suc k) rest short))
          ∙ last_page k n (run_views rest)

      follow_rest :
          (k n : ℕ) (cursor : Option String) (after : Run → Bool) (pre rest : List Run)
          → cursor_test env cursor ≡ ok after
          → runs_of ≡ pre ++ rest
          → select_where after runs_of ≡ rest
          → length rest < n
          → follow_cursors (pages k) n cursor w ≡ (run_views rest, w)
      follow_rest k zero cursor after pre rest c e s enough = absurd (omega arith)
      follow_rest k (suc n) cursor after pre [] c e s enough =
          follow_short k n cursor after [] c s (omega arith)
      follow_rest k (suc n) cursor after pre (x ∷ xs) c e s enough =
          elim (Bool-cases (ltb (suc k) (length (x ∷ xs)))) [
            | inr short ↦ follow_short k n cursor after (x ∷ xs) c s (ground (arith, short))
            | inl long ↦
                let rows = x ∷ xs in
                let m = (page_end seq_of k x xs).row.run_seq in
                let rest = drop (suc k) rows in
                let read_rest =
                  follow_rest k n (some (env.show m)) (is_above seq_of m) (pre ++ take (suc k) rows)
                    rest (cursor_of_number m (page_fits k pre x xs e))
                    (e
                      ∙ ap (λ ys. pre ++ ys) (sym (take-append-drop (suc k) rows))
                      ∙ sym (append_assoc pre (take (suc k) rows) rest))
                    (rest_after k pre x xs e) (omega (arith, length-drop (suc k) rows)) in
                follow_page k n cursor (run_views (take (suc k) rows)) (some (env.show m)) (
                  page_for k cursor after rows c s
                  ∙ ap (λ next. (page_result (run_views (take (suc k) rows)) next, w))
                      (long_next k x xs (ground (arith, long))))
                ∙ page_and_rest k n (env.show m) (run_views (take (suc k) rows)) (run_views rest)
                    read_rest
                ∙ ap (λ r. (r, w))
                    (sym (all_ok-append (λ r. (decode_run env r w).0) (take (suc k) rows) rest)
                      ∙ ap run_views (take-append-drop (suc k) rows))
          ]

      all_fit : (xs : List Run) → select_where (λ r. true) xs ≡ xs
      unfolding select_where
      all_fit [] = refl
      all_fit (x ∷ xs) = ap (λ ys. x ∷ ys) (all_fit xs)

      follow_pages :
          (k n : ℕ)
          → length runs_of < n
          → follow_cursors (pages k) n none w ≡ (run_views runs_of, w)
      follow_pages k n enough =
          follow_rest k n none (λ r. true) [] runs_of refl refl (all_fit runs_of) enough

abbrev pub in_thread : String → Run → Bool
in_thread session_id r = r.session_id == session_id

row_of_run :
    (env : Env) (r : Run) (w : World) (v : RunView) → (decode_run env r w).0 ≡ ok v → v.row ≡ r
row_of_run env r w v h = (decode_run-row env r).holds w v h

-- Where `int` reads back what `str` shows, no two runs of the session have one number, every number
-- has 64 bits with the sign, and the runs of the session can all be read, a client that asks for the messages of a session page by page,
-- from the cursor of one page to the next, with a limit of at least 1, is answered with messages
-- and no exception, which are those of the session's runs in the order of their numbers, each
-- exactly once, and nothing is changed. It takes at most one page more than there are messages.
pub thread_is_complete :
    (env : Env) (session_id : String) (w : World) (k n : ℕ) (items : List RunView)
    → ReadsBack env
    → HasNoTies seq_of (select_where (in_thread session_id) w.db.runs)
    → exists is_wide (runs_of env (in_thread session_id) w) ≡ false
    → length (runs_of env (in_thread session_id) w) < n
    → run_views env (in_thread session_id) w (runs_of env (in_thread session_id) w) ≡ ok items
    → (follow_cursors (λ cursor. list_messages_public env session_id cursor (suc k)) n none w
        ≡ (ok items, w))
      × (map (λ v. v.row) items ≡ order_by seq_of (select_where (in_thread session_id) w.db.runs))
unfolding list_messages_public
thread_is_complete env session_id w k n items reads ties narrow enough readable = (
  follow_pages env (in_thread session_id) w reads ties narrow k n enough
      ∙ ap (λ r. (r, w)) readable,
  map-all_ok _ (λ v. v.row) _ items (λ r v. row_of_run env r w v) readable,
)
