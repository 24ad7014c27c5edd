-- ===== src/Syncpool/Pool/Examples.antt =====
-- Calls at a pool of one bucket whose slots 0 and 2 are full.
use byte_buffer.Prelude.{
  ℕ, ◌+◌, ◌%◌, ◌≡◌, refl, false, none, some, List, [], ◌∷◌, ◌++◌, Perm, arith, length, replicate,
}
use byte_buffer.Syncpool.Words.{usize_mod}
use byte_buffer.Syncpool.Builder.{builder, make_elem}
use byte_buffer.Syncpool.Pool.{SyncPool}
use byte_buffer.Syncpool.Pool.Elements.{IsIdle, elements}
use byte_buffer.Syncpool.Pool.Session.{
  Call, getting, putting, serve_all, opened, serve_all-balances,
}

abbrev two_full : SyncPool ℕ
two_full = record {
  slots =
      record { slot = some 1 ∷ none ∷ some 3 ∷ replicate 5 none; len = 2; bitmap = 0b010001 } ∷ [];
  curr_get = 0;
  curr_put = 0;
  visitors = 1;
  barrier = false;
  miss_count = 3;
  configure = 0;
  reset_handle = some (λ _. 5);
  elem_builder = builder (λ _. 7);
}

two_full-IsIdle : IsIdle two_full
two_full-IsIdle = record {
  some_bucket = omega arith;
  alone = refl;
  lowered = refl;
  quiet = (record { eight = refl; marked = refl; counted = refl }, tt);
}

abbrev calls : List (Call ℕ)
calls = getting ∷ putting 9 ∷ getting ∷ getting ∷ getting ∷ []

serve_all-balances_example :
    (let s = serve_all 0 calls (opened two_full) in
      IsIdle s.pool
      × (length s.pool.slots ≡ length two_full.slots)
      × ((k : ℕ) × (s.pool.miss_count ≡ (3 + k) % usize_mod)
          × Perm (s.out ++ elements s.pool.slots) (
              replicate k (make_elem 0 two_full.elem_builder)
              ++ (s.kept ++ elements two_full.slots))))
serve_all-balances_example =
    serve_all-balances 0 two_full calls two_full-IsIdle (omega arith) (omega arith)
