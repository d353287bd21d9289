-- ===== src/Transport/Bounds.antt =====
-- The pages that a request can ask for are bounded.
use code_forge.Prelude.{
  ℕ, zero, suc, ◌≤◌, ◌≡◌, ◌∙◌, ap, sym, String, Option, none, some, List, [], ◌∷◌, arith, ℤ, pos,
  negsuc, ◌==◌,
}
use code_forge.Prelude.Tables.{length, take}
use code_forge.Contracts.Result.{Result, ok}
use code_forge.Store.Monad.{Env, World, pure, lift, select}
use code_forge.Store.Schema.{Run}
use code_forge.Store.Runs.{RunView, decode_run}
use code_forge.Store.Ran.{bind-ok, ok-inj}
use code_forge.Store.Pages.{each, each_reads, all_ok-length}
use code_forge.Store.Pages.Thread.{IsRead-decode_run}
use code_forge.Store.Pages.Messages.{
  list_messages_public, list_page, run_page, cursor_test, rows_for,
}
use code_forge.Transport.Parsing.{QueryItem, int_query, within, int_or, query_first}

length-take_le {ℓ} : {A : Type ℓ} (n : ℕ) (xs : List A) → length (take n xs) ≤ n
length-take_le zero xs = omega arith
length-take_le (suc n) [] = omega arith
length-take_le (suc n) (x ∷ xs) = omega (arith, length-take_le n xs)

within_bounded : (maximum : ℕ) (o : Option ℤ) (n : ℕ) → within maximum o ≡ ok n → n ≤ maximum
within_bounded maximum none n h = absurd (ground arith)
within_bounded maximum (some (negsuc m)) n h = absurd (ground arith)
within_bounded maximum (some (pos m)) n h = ground (arith, ok-inj h)

int_bounded :
    (env : Env) (default maximum : ℕ) (o : Option String) (n : ℕ)
    → default ≤ maximum
    → int_or env default maximum o ≡ ok n
    → n ≤ maximum
int_bounded env default maximum none n d h = omega (arith, ok-inj h, d)
int_bounded env default maximum (some raw) n d h = within_bounded maximum (env.int raw) n h

run_page_bounded :
    (env : Env) (limit : ℕ) (rows : List Run) (w : World) (page : List RunView × Option String)
    → (run_page env limit rows w).0 ≡ ok page
    → length page.0 ≤ limit
unfolding run_page pure
run_page_bounded env limit rows w page h =
    let c = bind-ok (each (decode_run env) (take limit rows)) _ w page h in
    let read =
      sym (
        ap (λ (p : Result (List RunView) × World). p.0)
          (each_reads (decode_run env) (take limit rows) w (IsRead-decode_run env)))
      ∙ c.first in
    let size = all_ok-length (λ r. (decode_run env r w).0) (take limit rows) c.value read in
    let same : length c.value ≡ length page.0 =
      ap (λ (p : List RunView × Option String). length p.0) (ok-inj c.then_ok) in
    omega (arith, size, same, length-take_le limit rows)

-- Where the limit of a request was read from its query, with the default 50 and the maximum 100, a
-- page of messages that is returned has at most as many messages as the limit, and so at most 100.
pub message_pages_bounded :
    (env : Env) (query : List QueryItem) (session_id : String) (cursor : Option String) (w : World)
    (limit : ℕ) (page : List RunView × Option String)
    → int_query env "limit" 50 100 query ≡ ok limit
    → (list_messages_public env session_id cursor limit w).0 ≡ ok page
    → (length page.0 ≤ limit) × (length page.0 ≤ 100)
unfolding int_query list_messages_public list_page lift select
message_pages_bounded env query session_id cursor w limit page asked found =
    let most = int_bounded env 50 100 (query_first "limit" query) limit (omega arith) asked in
    let c = bind-ok (lift (cursor_test env cursor)) _ w page found in
    let size =
      run_page_bounded env limit
        (rows_for env (λ (r : Run). r.session_id == session_id) c.value limit w.db) w page
        c.then_ok in
    (size, omega (arith, size, most))
