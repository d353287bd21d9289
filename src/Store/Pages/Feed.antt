-- ===== src/Store/Pages/Feed.antt =====
-- Reading the events of a session to their end: page after page, from the number of the last one.
use code_forge.Prelude.{
  ℕ, zero, suc, ◌≤◌, ◌≡◌, ◌∙◌, ap, refl, sym, String, Bool, Option, none, some, List, [], ◌∷◌, ◌++◌,
  ◌==◌, arith,
}
use code_forge.Prelude.Tables.{length, take, select_where}
use code_forge.Prelude.Order.{
  drop, last, order_by, is_above, HasNoTies, take-append-drop, length-drop, order_by-IsAscending,
  select_where-order_by, select_where-and,
}
use code_forge.Json.{Json, null, bool, num, str, arr, obj, Fields}
use code_forge.Contracts.Result.{Result, ok, err, type_error}
use code_forge.Store.Schema.{RunEvent}
use code_forge.Store.Monad.{Env, Tx, World, pure, select, continue, ◌>>=◌}
use code_forge.Store.Ran.{bind-ok, ok-inj}
use code_forge.Store.Pages.{
  last_ok, each, all_ok, append_ok, all_ok-append, each_reads, IsRead, IsRead-fail,
  IsRead-read_message, read_rules,
}
use code_forge.Store.Pages.Rows.{page_end, rows_after_page}
use code_forge.Store.Pages.Events.{
  EventItem, event_view, event_payload, with_found, message_at, list_session_events, next_after,
}

abbrev more : List EventItem → Tx (List EventItem) → Tx (List EventItem)
more [] m = pure []
more (i ∷ items) m = do rest ← m; pure ((i ∷ items) ++ rest)

continue_more :
    (w : World) (i : EventItem) (items : List EventItem) (rest : Result (List EventItem))
    → continue rest (λ rest. pure ((i ∷ items) ++ rest)) w ≡ (append_ok (ok (i ∷ items)) rest, w)
unfolding pure
continue_more w i items (ok xs) = refl
continue_more w i items (err e) = refl

more_of :
    (w : World) (items : List EventItem) (item : EventItem) (m : Tx (List EventItem))
    (rest : Result (List EventItem))
    → last items ≡ some item
    → m w ≡ (rest, w)
    → more items m w ≡ (append_ok (ok items) rest, w)
more_of w [] item m rest at_end h = absurd (ground arith)
more_of w (i ∷ items) item m rest at_end h =
    ap
      (λ (p : Result (List EventItem) × World).
        continue p.0 (λ rest. pure ((i ∷ items) ++ rest)) p.1)
      h
    ∙ continue_more w i items rest

module _ (env : Env) (session_id : String) (limit : ℕ) where
  -- A client that asks for pages until one is empty.
  unfoldable pub follow : ℕ → ℕ → Tx (List EventItem)
  follow zero after_seq = pure []
  follow (suc n) after_seq = do
    page ← list_session_events env session_id after_seq limit
    more page.0 (follow n page.1)

module _ (env : Env) where
  IsRead-message_at : (base : String) (ref : Json) → IsRead (message_at env base ref)
  IsRead-message_at base (str ref) = IsRead-read_message env base (some ref)
  IsRead-message_at base null = IsRead-fail type_error
  IsRead-message_at base (bool b) = IsRead-fail type_error
  IsRead-message_at base (num n) = IsRead-fail type_error
  IsRead-message_at base (arr items) = IsRead-fail type_error
  IsRead-message_at base (obj fs) = IsRead-fail type_error

  IsRead-with_found :
      (base : String) (fields : Fields) (o : Option Json) → IsRead (with_found env base fields o)
  unfolding with_found
  IsRead-with_found base fields none = search read_rules
  IsRead-with_found base fields (some ref) = search (read_rules, IsRead-message_at)

  IsRead-event_payload : (row : RunEvent) → IsRead (event_payload env row)
  unfolding event_payload
  IsRead-event_payload row = search (read_rules, IsRead-with_found) depth 10

  pub IsRead-event_view : (row : RunEvent) → IsRead (event_view env row)
  unfolding event_view
  IsRead-event_view row = search (read_rules, IsRead-event_payload)

  -- What `event_view` gives is of the row.
  pub row_of_view :
      (row : RunEvent) (w : World) (item : EventItem)
      → (event_view env row w).0 ≡ ok item
      → item.row ≡ row
  unfolding event_view pure
  row_of_view row w item h =
      let c =
        bind-ok (event_payload env row) (λ payload. pure (record { row = row; payload = payload }))
          w item h in
      sym (ap (λ (i : EventItem). i.row) (ok-inj c.then_ok))

  -- What is read of a page that ends with a row ends with the view of that row.
  last-all_ok :
      (w : World) (before : List RunEvent) (row : RunEvent) (items : List EventItem)
      → all_ok (λ e. (event_view env e w).0) (before ++ row ∷ []) ≡ ok items
      → (item : EventItem) × (last items ≡ some item) × (item.row ≡ row)
  unfolding all_ok
  last-all_ok w before row items h =
      let (item, at_end, viewed) =
        last_ok (all_ok (λ e. (event_view env e w).0) before) (event_view env row w).0 items
          (sym (all_ok-append (λ e. (event_view env e w).0) before (row ∷ [])) ∙ h) in
      (item, at_end, row_of_view row w item viewed)

  abbrev pub page_result : Result (List EventItem) → ℕ → Result (List EventItem × ℕ)
  page_result (ok items) after_seq =
      ok (items, next_after RunEvent.session_seq (last items) after_seq)
  page_result (err e) after_seq = err e

  abbrev paged : ℕ → List EventItem → Tx (List EventItem × ℕ)
  paged after_seq events = pure (events, next_after RunEvent.session_seq (last events) after_seq)

  continue-paged :
      (r : Result (List EventItem)) (after_seq : ℕ) (w : World)
      → continue r (paged after_seq) w ≡ (page_result r after_seq, w)
  unfolding pure
  continue-paged (ok items) after_seq w = refl
  continue-paged (err e) after_seq w = refl

  module _ (session_id : String) (w : World) where
    abbrev pub mine : RunEvent → Bool
    mine e = e.session_id == session_id

    -- The events of the session, in order.
    abbrev pub rows_of : List RunEvent
    rows_of = order_by RunEvent.session_seq (select_where mine w.db.events)

    abbrev pub views : List RunEvent → Result (List EventItem)
    views = all_ok (λ e. (event_view env e w).0)

    pub page_read :
        (limit after_seq : ℕ)
        → HasNoTies RunEvent.session_seq (select_where mine w.db.events)
        → list_session_events env session_id after_seq limit w ≡ (
          page_result
              (views (take limit (select_where (is_above RunEvent.session_seq after_seq) rows_of)))
              after_seq,
          w,
        )
    unfolding list_session_events select
    page_read limit after_seq h =
        ap
          (λ rows.
            ((each (event_view env) (take limit (order_by RunEvent.session_seq rows)))
                >>= paged after_seq)
              w)
          (select_where-and mine (is_above RunEvent.session_seq after_seq) w.db.events)
        ∙ ap (λ rows. ((each (event_view env) (take limit rows)) >>= paged after_seq) w)
            (select_where-order_by RunEvent.session_seq (is_above RunEvent.session_seq after_seq)
              (select_where mine w.db.events) h)
        ∙ ap (λ (p : Result (List EventItem) × World). continue p.0 (paged after_seq) p.1)
            (each_reads (event_view env) _ w IsRead-event_view)
        ∙ continue-paged _ after_seq w

    -- One more page of the loop, where the page's rows are known.
    follow_step :
        (k n after_seq : ℕ) (page : List RunEvent)
        → HasNoTies RunEvent.session_seq (select_where mine w.db.events)
        → take (suc k) (select_where (is_above RunEvent.session_seq after_seq) rows_of) ≡ page
        → follow env session_id (suc k) (suc n) after_seq w
          ≡ continue
              (page_result (views page) after_seq)
              (λ p. more p.0 (follow env session_id (suc k) n p.1))
              w
    unfolding follow
    follow_step k n after_seq page h e =
        ap
          (λ (p : Result (List EventItem × ℕ) × World).
            continue p.0 (λ p. more p.0 (follow env session_id (suc k) n p.1)) p.1)
          (page_read (suc k) after_seq h ∙ ap (λ rows. (page_result (views rows) after_seq, w)) e)

    -- A page that is not empty, and the rest.
    follow-more :
        (k n after_seq : ℕ) (before : List RunEvent) (row : RunEvent) (r : Result (List EventItem))
        (rest : Result (List EventItem))
        → views (before ++ row ∷ []) ≡ r
        → follow env session_id (suc k) n row.session_seq w ≡ (rest, w)
        → continue (page_result r after_seq) (λ p. more p.0 (follow env session_id (suc k) n p.1)) w
          ≡ (append_ok r rest, w)
    follow-more k n after_seq before row (err e) rest h g = refl
    follow-more k n after_seq before row (ok items) rest h g =
        let (item, at_end, same) = last-all_ok w before row items h in
        more_of w items item
          (follow env session_id (suc k) n (next_after RunEvent.session_seq (last items) after_seq))
          rest at_end
          (ap (λ o. follow env session_id (suc k) n (next_after RunEvent.session_seq o after_seq) w)
              at_end
            ∙ ap (λ (e : RunEvent). follow env session_id (suc k) n e.session_seq w) same
            ∙ g)

    follow_rows :
        (k n after_seq : ℕ) (rows : List RunEvent)
        → HasNoTies RunEvent.session_seq (select_where mine w.db.events)
        → select_where (is_above RunEvent.session_seq after_seq) rows_of ≡ rows
        → length rows ≤ n
        → follow env session_id (suc k) n after_seq w ≡ (views rows, w)
    unfolding follow pure all_ok
    follow_rows k zero after_seq [] h e enough = refl
    follow_rows k zero after_seq (x ∷ xs) h e enough = absurd (omega arith)
    follow_rows k (suc n) after_seq [] h e enough =
        follow_step k n after_seq [] h (ap (take (suc k)) e)
    follow_rows k (suc n) after_seq (x ∷ xs) h e enough =
        let pe = page_end RunEvent.session_seq k x xs in
        let rest = drop (suc k) (x ∷ xs) in
        let read_rest =
          follow_rows k n pe.row.session_seq rest h
            (rows_after_page RunEvent.session_seq after_seq k rows_of x xs
              (order_by-IsAscending RunEvent.session_seq (select_where mine w.db.events) h) e)
            (omega (arith, length-drop (suc k) (x ∷ xs))) in
        follow_step k n after_seq (pe.before ++ pe.row ∷ []) h (ap (take (suc k)) e ∙ pe.page)
        ∙ follow-more k n after_seq pe.before pe.row (views (pe.before ++ pe.row ∷ [])) (views rest)
            refl read_rest
        ∙ ap (λ r. (r, w))
            (sym (all_ok-append (λ e. (event_view env e w).0) (pe.before ++ pe.row ∷ []) rest)
              ∙ ap (λ page. views (page ++ rest)) (sym pe.page)
              ∙ ap views (take-append-drop (suc k) (x ∷ xs)))

    -- Where no two events of the session have one number, a client that asks again and again for
    -- the page after the last event it has, with a limit of at least 1, gets every event of the
    -- session after its start exactly once, in order, or the first exception, and the database and
    -- the files are as before. It is done after as many pages as there are events.
    pub follow_all :
        (k n after_seq : ℕ)
        → HasNoTies RunEvent.session_seq (select_where mine w.db.events)
        → length (select_where (is_above RunEvent.session_seq after_seq) rows_of) ≤ n
        → follow env session_id (suc k) n after_seq w
          ≡ (views (select_where (is_above RunEvent.session_seq after_seq) rows_of), w)
    follow_all k n after_seq h enough = follow_rows k n after_seq _ h refl enough
