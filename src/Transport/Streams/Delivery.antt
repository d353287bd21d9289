-- ===== src/Transport/Streams/Delivery.antt =====
-- A stream of a session's events leaves none out and sends none twice.
use mathlib.Core.Path.{subst}
use code_forge.Prelude.{
  ℕ, suc, ◌+◌, ◌≡◌, ◌∙◌, ap, refl, sym, String, Bool, true, false, none, List, [], ◌∷◌, ◌++◌, arith,
  map,
}
use code_forge.Prelude.Tables.{length, take, select_where}
use code_forge.Prelude.Order.{last, is_above, order_by_of_IsAscending, length-append}
use code_forge.Json.{Json}
use code_forge.Contracts.Result.{Result, ok, err}
use code_forge.Store.Schema.{RunEvent}
use code_forge.Store.Monad.{Env, Tx, World, pure, ◌>>=◌}
use code_forge.Store.Ran.{bind-ok, ok-inj}
use code_forge.Store.Numbering.{IsNumbered}
use code_forge.Store.Owned.{IsOwned}
use code_forge.Store.Lifecycle.{calls_number_events}
use code_forge.Store.Traces.{Call, perform_all}
use code_forge.Store.Pages.{
  each, all_ok, cons_ok-parts, each_reads, IsRead, IsRead-each, read_rules,
}
use code_forge.Store.Pages.Numbers.{
  count_up, first_numbers-count_up, IsRun, IsRun-of, IsRun-append, IsRun-take, IsRun-above,
  next_of_run,
}
use code_forge.Store.Pages.Events.{EventItem, event_view, list_session_events, next_after}
use code_forge.Store.Pages.Feed.{rows_of, views, page_read, page_result, row_of_view}
use code_forge.Store.Pages.Whole.{
  number, numbered, in_order, calls_keep_owners, IsAscending-HasNoTies,
}
use code_forge.Transport.Views.{PublicEvent, public_event, payload_for}
use code_forge.Transport.Reads.{
  IsRead-public_event, IsRead-list_events, IsRead-cursor, IsRead-current,
}
use code_forge.Transport.Streams.{Turn, project, ended, stream_turn, after_turn, stream_loop}

-- What is decoded without an exception has the numbers of its rows.
numbers_kept {ℓ κ} :
    {A : Type ℓ} {B : Type κ} (f : A → Result B) (key : A → ℕ) (shown_key : B → ℕ) (xs : List A)
    (ys : List B)
    → ((x : A) (y : B) → f x ≡ ok y → shown_key y ≡ key x)
    → all_ok f xs ≡ ok ys
    → (map shown_key ys ≡ map key xs) × (length ys ≡ length xs)
unfolding all_ok
numbers_kept f key shown_key [] ys same h =
    subst (λ zs. (map shown_key zs ≡ []) × (length zs ≡ 0)) (ok-inj h) (refl, refl)
numbers_kept f key shown_key (x ∷ xs) ys same h =
    let (y, zs, first, rest, whole) = cons_ok-parts (f x) (all_ok f xs) ys h in
    let (keys, size) = numbers_kept f key shown_key xs zs same rest in
    subst (λ ws. (map shown_key ws ≡ key x ∷ map key xs) × (length ws ≡ suc (length xs))) whole
      (rw (same x y first, keys) refl, ap suc size)

IsRun-decoded {ℓ κ} :
    {A : Type ℓ} {B : Type κ} (f : A → Result B) (key : A → ℕ) (shown_key : B → ℕ) (b : ℕ)
    (xs : List A) (ys : List B)
    → ((x : A) (y : B) → f x ≡ ok y → shown_key y ≡ key x)
    → all_ok f xs ≡ ok ys
    → IsRun key b xs
    → IsRun shown_key b ys
IsRun-decoded f key shown_key b xs ys same h run =
    let (keys, size) = numbers_kept f key shown_key xs ys same h in
    keys ∙ run ∙ ap (count_up b) (sym size)

abbrev item_number : EventItem → ℕ
item_number i = i.row.session_seq

abbrev event_number : PublicEvent → ℕ
event_number e = e.seq

module _ (shown : Json → String) (env : Env) (scope session_id : String) where
  project_all :
      (items : List EventItem)
      → project shown env scope session_id none items ≡ each (public_event shown env) items
  unfolding project each
  project_all [] = refl
  project_all (item ∷ items) =
      ap (λ m. public_event shown env item >>= λ event. m >>= λ events. pure (event ∷ events))
        (project_all items)

  IsRead-project : (items : List EventItem) → IsRead (project shown env scope session_id none items)
  IsRead-project items =
      subst IsRead (sym (project_all items))
        (IsRead-each (public_event shown env) items (IsRead-public_event env shown))

  IsRead-ended : (cursor : ℕ) → IsRead (ended shown env scope session_id none cursor)
  unfolding ended
  IsRead-ended cursor = search (read_rules, IsRead-current, IsRead-cursor)

  IsRead-stream_turn : (cursor : ℕ) → IsRead (stream_turn shown env scope session_id none cursor)
  unfolding stream_turn
  IsRead-stream_turn cursor = search (read_rules, IsRead-list_events, IsRead-project, IsRead-ended)

  seq_of_event :
      (w : World) (item : EventItem) (event : PublicEvent)
      → (public_event shown env item w).0 ≡ ok event
      → event.seq ≡ item.row.session_seq
  unfolding public_event pure
  seq_of_event w item event h =
      let c =
        bind-ok (payload_for shown env item.row.event_type item.row item.payload) _ w event h in
      sym (ap (λ (e : PublicEvent). e.seq) (ok-inj c.then_ok))

  page_parts :
      (r : Result (List EventItem)) (cursor : ℕ) (page : List EventItem × ℕ)
      → page_result env r cursor ≡ ok page
      → (r ≡ ok page.0) × (page.1 ≡ next_after RunEvent.session_seq (last page.0) cursor)
  page_parts (ok items) cursor page h =
      subst
        (λ (p : List EventItem × ℕ).
          (ok items ≡ ok p.0) × (p.1 ≡ next_after RunEvent.session_seq (last p.0) cursor))
        (ok-inj h) (refl, refl)
  page_parts (err e) cursor page h = absurd (ground arith)

  module _ (w : World) (h : IsNumbered w.db) (o : IsOwned w.db) where
    rows-IsRun : IsRun number 0 (rows_of env session_id w)
    rows-IsRun =
        let (n, e) = numbered env w session_id h o in
        subst (IsRun number 0)
          (sym (order_by_of_IsAscending number _ (in_order env w session_id h o).0))
          (IsRun-of number 0 n _ (e ∙ first_numbers-count_up n))

    page_in_order :
        (cursor : ℕ) (page : List EventItem × ℕ)
        → (list_session_events env session_id cursor 200 w).0 ≡ ok page
        → IsRun item_number cursor page.0 × (page.1 ≡ cursor + length page.0)
    page_in_order cursor page found =
        let rows = take 200 (select_where (is_above number cursor) (rows_of env session_id w)) in
        let (decoded, next) = page_parts (views env session_id w rows) cursor page (
          sym (
            ap (λ (p : Result (List EventItem × ℕ) × World). p.0)
              (page_read env session_id w 200 cursor
                (IsAscending-HasNoTies _ (in_order env w session_id h o).0)))
          ∙ found) in
        let run =
          IsRun-decoded (λ e. (event_view env e w).0) number item_number cursor rows page.0
            (λ x y e. ap (λ (r : RunEvent). r.session_seq) (row_of_view env x w y e)) decoded
            (IsRun-take number cursor 200 _
              (IsRun-above number cursor 0 _ (omega arith) rows-IsRun)) in
        (
          run,
          next
              ∙ next_of_run item_number cursor page.0 (next_after RunEvent.session_seq) (λ c. refl)
                  (λ x c. refl) run,
        )

    turn_in_order :
        (cursor : ℕ) (turn : Turn)
        → (stream_turn shown env scope session_id none cursor w).0 ≡ ok turn
        → IsRun event_number cursor turn.sent × (turn.cursor ≡ cursor + length turn.sent)
    unfolding stream_turn pure
    turn_in_order cursor turn found =
        let c = bind-ok (list_session_events env session_id cursor 200) _ w turn found in
        let page = c.value in
        let (run, next) = page_in_order cursor page c.first in
        let d = bind-ok (project shown env scope session_id none page.0) _ _ turn c.then_ok in
        let e = bind-ok (ended shown env scope session_id none page.1) _ _ turn d.then_ok in
        let decoded =
          sym (
            ap (λ (r : Result (List PublicEvent) × World). r.0)
              (ap (λ m. m (list_session_events env session_id cursor 200 w).1) (project_all page.0)
                ∙ each_reads (public_event shown env) page.0 _ (IsRead-public_event env shown)))
          ∙ d.first in
        let (keys, size) =
          numbers_kept
            (λ i. (public_event shown env i (list_session_events env session_id cursor 200 w).1).0)
            item_number event_number page.0 d.value (seq_of_event _) decoded in
        subst (λ (t : Turn). IsRun event_number cursor t.sent × (t.cursor ≡ cursor + length t.sent))
          (ok-inj e.then_ok)
          (keys ∙ run ∙ ap (count_up cursor) (sym size), next ∙ ap (λ n. cursor + n) (sym size))

  abbrev InOrder : ℕ → List PublicEvent × ℕ → Type 0
  InOrder cursor p = IsRun event_number cursor p.0 × (p.1 ≡ cursor + length p.0)

  after-InOrder :
      (cursor : ℕ) (sent : List PublicEvent) (next : ℕ) (ends : Bool)
      (rest : Tx (List PublicEvent × ℕ)) (w : World) (p : List PublicEvent × ℕ)
      → InOrder cursor (sent, next)
      → ((q : List PublicEvent × ℕ) → (rest w).0 ≡ ok q → InOrder next q)
      → (after_turn shown env scope session_id none
          (record { sent = sent; cursor = next; ends = ends })
          rest
          w).0
        ≡ ok p
      → InOrder cursor p
  unfolding pure
  after-InOrder cursor sent next true rest w p (run, end) later h =
      subst (InOrder cursor) (ok-inj h) (run, end)
  after-InOrder cursor sent next false rest w p (run, end) later h =
      let c = bind-ok rest (λ q. pure (sent ++ q.0, q.1)) w p h in
      let (run_later, end_later) = later c.value c.first in
      subst (InOrder cursor) (ok-inj c.then_ok) (
        IsRun-append event_number cursor sent c.value.0 run
            (subst (λ k. IsRun event_number k c.value.0) end run_later),
        omega (arith, end, end_later, length-append sent c.value.0),
      )

  loop-InOrder :
      (turns : List (List Call)) (cursor : ℕ) (w : World) (p : List PublicEvent × ℕ)
      → IsNumbered w.db
      → IsOwned w.db
      → (stream_loop shown env scope session_id none turns cursor w).0 ≡ ok p
      → InOrder cursor p
  unfolding stream_loop pure
  loop-InOrder [] cursor w p h o found = subst (InOrder cursor) (ok-inj found) (refl, omega arith)
  loop-InOrder (calls ∷ others) cursor w p h o found =
      let c = bind-ok (stream_turn shown env scope session_id none cursor) _ w p found in
      let v = (stream_turn shown env scope session_id none cursor w).1 in
      let same = (IsRead-stream_turn cursor).same w in
      after-InOrder cursor c.value.sent c.value.cursor c.value.ends
        (λ w.
          stream_loop shown env scope session_id none others c.value.cursor
            (perform_all env calls w))
        v p (turn_in_order w h o cursor c.value c.first)
        (λ q e.
          loop-InOrder others c.value.cursor (perform_all env calls v) q
            (calls_number_events env calls v (subst (λ (u : World). IsNumbered u.db) (sym same) h))
            (calls_keep_owners env calls v (subst (λ (u : World). IsOwned u.db) (sym same) o)) e)
        c.then_ok

-- Where session events are numbered without gaps and belong to their sessions, a stream of all
-- events of a session, whatever other threads call between the turns of its loop and however many
-- turns it makes, has sent, if no turn raised, the events that are numbered right after its start,
-- one after the other, without a gap, a repetition or a change of order, and its cursor is the
-- number of the last one.
pub stream_in_order :
    (shown : Json → String) (env : Env) (scope session_id : String) (turns : List (List Call))
    (cursor : ℕ) (w : World) (sent : List PublicEvent) (end : ℕ)
    → IsNumbered w.db
    → IsOwned w.db
    → (stream_loop shown env scope session_id none turns cursor w).0 ≡ ok (sent, end)
    → (map event_number sent ≡ count_up cursor (length sent)) × (end ≡ cursor + length sent)
stream_in_order shown env scope session_id turns cursor w sent end h o found =
    loop-InOrder shown env scope session_id turns cursor w (sent, end) h o found
