-- ===== src/Store/Found.antt =====
-- src/code_forge/persistence/sqlite_store.py: whose row `_decode_run` and `get_run` return.
use code_forge.Prelude.{String, ◌≡◌, ◌∙◌, ap, sym, Option, none, some, arith, eq_iff}
use code_forge.Prelude.Tables.{find, find_sound}
use code_forge.Contracts.Result.{ok}
use code_forge.Store.Schema.{Run}
use code_forge.Store.Monad.{World, Env, select, pure}
use code_forge.Store.Keys.{run_at}
use code_forge.Store.Runs.{RunView, decode_run, decode_option, get_run}
use code_forge.Store.Ran.{Returns, Returns-pure, returns_rules, bind-ok, ok-inj}

some-inj {ℓ} : {A : Type ℓ} {a b : A} → some a ≡ some b → a ≡ b
some-inj e = cc

module _ (env : Env) where
  pub decode_run-row : (r : Run) → Returns (λ v _. v.row ≡ r) (decode_run env r)
  unfolding decode_run
  decode_run-row r = search (returns_rules, returned) depth 20
    where
      returned : (v : RunView) → v.row ≡ r → Returns (λ v _. v.row ≡ r) (pure v)
      returned v e = Returns-pure v (λ _. e)

  decoded_row :
      (o : Option Run) (v : RunView) (w : World)
      → (decode_option env o w).0 ≡ ok (some v)
      → o ≡ some v.row
  unfolding decode_option pure
  decoded_row none v w h = let none_is : none ≡ some v = ok-inj h in absurd (ground arith)
  decoded_row (some r) v w h =
      let k = bind-ok (decode_run env r) (λ view. pure (some view)) w (some v) h in
      let same : k.value ≡ v = some-inj (ok-inj k.then_ok) in
      ap some (sym ((decode_run-row r).holds w k.value k.first) ∙ ap (λ x. x.row) same)

  -- The run that is returned is one that the table has under the key.
  pub get_run-row :
      (scope id : String) (v : RunView) (w : World)
      → (get_run env scope id w).0 ≡ ok (some v)
      → (v.row.scope_id ≡ scope) × (v.row.id ≡ id)
  unfolding get_run select
  get_run-row scope id v w h =
      let k =
        bind-ok (select (λ db. find (run_at scope id) db.runs)) (decode_option env) w (some v) h in
      let found = ok-inj k.first ∙ decoded_row k.value v _ k.then_ok in
      let fits = find_sound (run_at scope id) w.db.runs v.row found in
      (
        (eq_iff v.row.scope_id scope).0 (ground (arith, fits)),
        (eq_iff v.row.id id).0 (ground (arith, fits)),
      )
