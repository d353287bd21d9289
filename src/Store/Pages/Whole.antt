-- ===== src/Store/Pages/Whole.antt =====
-- After any calls, a session's events are read whole, in the order in which they were recorded.
use mathlib.Core.Path.{subst}
use code_forge.Prelude.{
  ℕ, zero, suc, ◌≤◌, ◌<◌, ◌≡◌, ◌∙◌, ap, refl, sym, String, false, Option, none, some, List, [], ◌∷◌,
  ◌++◌, arith, eq_iff, ◌==◌, map, Bool-cases, inl, inr,
}
use code_forge.Prelude.Tables.{find, length, select_where, exists}
use code_forge.Prelude.Order.{
  is_above, has_key, AllAbove, IsAscending, HasNoTies, select_where_above, order_by_of_IsAscending,
}
use code_forge.Store.Schema.{Session, RunEvent, empty_db}
use code_forge.Store.Keys.{session_at}
use code_forge.Store.Monad.{Env, World}
use code_forge.Store.Traces.{Call, perform_all, perform_all-Respects}
use code_forge.Store.Numbering.{IsNumbered, Expected, session_seqs, first_numbers}
use code_forge.Store.Lifecycle.{reachable_is_sound}
use code_forge.Store.Owned.{has_id, HasOwners, IsOwned, Owns-Respects}
use code_forge.Store.Pages.Feed.{follow, follow_all, views, rows_of, mine, row_of_view}
use code_forge.Store.Pages.Events.{EventItem}
use code_forge.Store.Pages.{map-all_ok}
use code_forge.Contracts.Result.{ok}

abbrev pub number : RunEvent → ℕ
number e = e.session_seq

abbrev AllBelow : ℕ → List ℕ → Type 0
AllBelow m [] = Unit {0}
AllBelow m (n ∷ ns) = (n < m) × AllBelow m ns

abbrev same_number : ℕ → ℕ
same_number n = n

AllBelow-suc : (m : ℕ) (ns : List ℕ) → AllBelow m ns → AllBelow (suc m) ns
AllBelow-suc m [] h = tt
AllBelow-suc m (n ∷ ns) h = (omega (arith, h.0), AllBelow-suc m ns h.1)

AllBelow-append : (m k : ℕ) (ns : List ℕ) → AllBelow m ns → k < m → AllBelow m (ns ++ k ∷ [])
AllBelow-append m k [] h b = (b, tt)
AllBelow-append m k (n ∷ ns) h b = (h.0, AllBelow-append m k ns h.1 b)

AllAbove-append :
    (n m : ℕ) (ns : List ℕ)
    → AllAbove same_number n ns
    → n < m
    → AllAbove same_number n (ns ++ m ∷ [])
AllAbove-append n m [] h b = (b, tt)
AllAbove-append n m (k ∷ ns) h b = (h.0, AllAbove-append n m ns h.1 b)

IsAscending-append :
    (m : ℕ) (ns : List ℕ)
    → IsAscending same_number ns
    → AllBelow m ns
    → IsAscending same_number (ns ++ m ∷ [])
IsAscending-append m [] a b = (tt, tt)
IsAscending-append m (n ∷ ns) a b =
    (AllAbove-append n m ns a.0 b.0, IsAscending-append m ns a.1 b.1)

first_below : (n : ℕ) → AllBelow (suc n) (first_numbers n)
unfolding first_numbers
first_below zero = tt
first_below (suc n) =
    AllBelow-append (suc (suc n)) (suc n) (first_numbers n) (AllBelow-suc (suc n) _ (first_below n))
      (omega arith)

first_numbers-IsAscending : (n : ℕ) → IsAscending same_number (first_numbers n)
unfolding first_numbers
first_numbers-IsAscending zero = tt
first_numbers-IsAscending (suc n) =
    IsAscending-append (suc n) (first_numbers n) (first_numbers-IsAscending n) (first_below n)

first_positive : (n : ℕ) → AllAbove same_number 0 (first_numbers n)
unfolding first_numbers
first_positive zero = tt
first_positive (suc n) =
    AllAbove-append 0 (suc n) (first_numbers n) (first_positive n) (omega arith)

AllAbove-map :
    (n : ℕ) (es : List RunEvent) → AllAbove same_number n (map number es) → AllAbove number n es
AllAbove-map n [] h = tt
AllAbove-map n (e ∷ es) h = (h.0, AllAbove-map n es h.1)

IsAscending-map :
    (es : List RunEvent) → IsAscending same_number (map number es) → IsAscending number es
IsAscending-map [] h = tt
IsAscending-map (e ∷ es) h = (AllAbove-map e.session_seq es h.0, IsAscending-map es h.1)

no_key : (n : ℕ) (es : List RunEvent) → AllAbove number n es → exists (has_key number n) es ≡ false
unfolding exists
no_key n [] h = refl
no_key n (e ∷ es) h = ground (arith, no_key n es h.1, h.0)

pub IsAscending-HasNoTies : (es : List RunEvent) → IsAscending number es → HasNoTies number es
IsAscending-HasNoTies [] h = tt
IsAscending-HasNoTies (e ∷ es) h = (no_key e.session_seq es h.0, IsAscending-HasNoTies es h.1)

-- A session's events by its id alone are those by its scope and id.
module _ (env : Env) (w : World) (id : String) where
  numbers_of :
      (ss : List Session) (scope : String) (es : List RunEvent)
      → ((s : Session) → find (has_id id) ss ≡ some s → s.scope_id ≡ scope)
      → HasOwners ss es
      → session_seqs scope id es ≡ map number (select_where (mine env id w) es)
  unfolding session_seqs select_where
  numbers_of ss scope [] known h = refl
  numbers_of ss scope (e ∷ es) known ((s, found, same), h) =
      elim (Bool-cases (e.session_id == id)) [
        | inl i ↦
            let here : e.session_id ≡ id = (eq_iff e.session_id id).0 i in
            let owner : e.scope_id ≡ scope =
              sym same ∙ known s (subst (λ j. find (has_id j) ss ≡ some s) here found) in
            ground (arith, i, numbers_of ss scope es known h, (eq_iff e.scope_id scope).1 owner)
        | inr i ↦ ground (arith, i, numbers_of ss scope es known h)
      ]

  first_of : (o : Option Session) (ns : List ℕ) → Expected o ns → (n : ℕ) × (ns ≡ first_numbers n)
  unfolding first_numbers
  first_of none ns h = (0, h)
  first_of (some s) ns (n, e, seqs) = (n, seqs)

  scope_of : Option Session → String
  scope_of none = ""
  scope_of (some s) = s.scope_id

  known_scope :
      (ss : List Session) (o : Option Session)
      → find (has_id id) ss ≡ o
      → (s : Session) → find (has_id id) ss ≡ some s
      → s.scope_id ≡ scope_of o
  unfolding scope_of
  known_scope ss none e s h = absurd (ground (arith, e, h))
  known_scope ss (some t) e s h = ap scope_of (sym h ∙ e)

  pub numbered :
      IsNumbered w.db
      → IsOwned w.db
      → (n : ℕ) × (map number (select_where (mine env id w) w.db.events) ≡ first_numbers n)
  numbered h o =
      let scope = scope_of (find (has_id id) w.db.sessions) in
      let (n, e) = first_of (find (session_at scope id) w.db.sessions) _ (h.at scope id) in
      (
        n,
        sym (numbers_of w.db.sessions scope w.db.events (known_scope w.db.sessions _ refl) o.owners)
            ∙ e,
      )

  -- The session's events as they stand in the table are in order, and above 0.
  pub in_order :
      IsNumbered w.db
      → IsOwned w.db
      → IsAscending number (select_where (mine env id w) w.db.events)
        × AllAbove number 0 (select_where (mine env id w) w.db.events)
  in_order h o =
      let (n, e) = numbered h o in
      (
        IsAscending-map _ (subst (IsAscending same_number) (sym e) (first_numbers-IsAscending n)),
        AllAbove-map 0 _ (subst (AllAbove same_number 0) (sym e) (first_positive n)),
      )

  all_rows :
      IsNumbered w.db
      → IsOwned w.db
      → select_where (is_above number 0) (rows_of env id w)
        ≡ select_where (mine env id w) w.db.events
  all_rows h o =
      let (ascending, positive) = in_order h o in
      ap (select_where (is_above number 0)) (order_by_of_IsAscending number _ ascending)
      ∙ select_where_above number 0 _ positive

  follow_from_start :
      (k n : ℕ)
      → IsNumbered w.db
      → IsOwned w.db
      → length (select_where (mine env id w) w.db.events) ≤ n
      → follow env id (suc k) n 0 w ≡ (views env id w (select_where (mine env id w) w.db.events), w)
  follow_from_start k n h o enough =
      follow_all env id w k n 0 (IsAscending-HasNoTies _ (in_order h o).0)
        (rw (all_rows h o) enough)
      ∙ ap (λ rows. (views env id w rows, w)) (all_rows h o)

seqs_of :
    (items : List EventItem)
    → map (λ i. i.row.session_seq) items ≡ map number (map (λ (i : EventItem). i.row) items)
seqs_of [] = refl
seqs_of (i ∷ items) = ap (λ ns. i.row.session_seq ∷ ns) (seqs_of items)

-- The ids of sessions stay unique across scopes, and every event stays one of a session of its
-- scope, through any calls, some of which may raise.
pub calls_keep_owners :
    (env : Env) (cs : List Call) (w : World) → IsOwned w.db → IsOwned (perform_all env cs w).db
calls_keep_owners env cs w = (perform_all-Respects env Owns-Respects cs w).keep

-- Whatever is called on an empty database, where the payloads of a session's events can all be
-- read, a client that asks for the pages of its events from 0 on, with a limit of at least 1, is
-- answered with events and no exception, which are those that the session has in the table, in the
-- order in which they were recorded, each exactly once, and numbered from 1 on without a gap. It is
-- done after as many pages as there are events, and nothing is changed.
pub session_feed_is_complete :
    (env : Env) (cs : List Call) (start : World) (id : String) (k n : ℕ) (items : List EventItem)
    → start.db ≡ empty_db
    → length
        (select_where (mine env id (perform_all env cs start)) (perform_all env cs start).db.events)
      ≤ n
    → views env id
        (perform_all env cs start)
        (select_where (mine env id (perform_all env cs start)) (perform_all env cs start).db.events)
      ≡ ok items
    → (follow env id (suc k) n 0 (perform_all env cs start) ≡ (ok items, perform_all env cs start))
      × (map (λ i. i.row) items
          ≡ select_where
              (mine env id (perform_all env cs start))
              (perform_all env cs start).db.events)
      × ((count : ℕ) × (map (λ i. i.row.session_seq) items ≡ first_numbers count))
unfolding find
session_feed_is_complete env cs start id k n items h enough readable =
    let w = perform_all env cs start in
    let owned =
      calls_keep_owners env cs start (rw h (record { one = λ scope id s e. e; owners = tt })) in
    let numbers = (reachable_is_sound env cs start h).1 in
    let same = map-all_ok _ (λ i. i.row) _ items (λ e i. row_of_view env e w i) readable in
    let (count, counted) = numbered env w id numbers owned in
    (
      follow_from_start env w id k n numbers owned enough ∙ ap (λ r. (r, w)) readable,
      same,
      (count, seqs_of items ∙ ap (map number) same ∙ counted),
    )
