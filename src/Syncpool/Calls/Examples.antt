-- ===== src/Syncpool/Calls/Examples.antt =====
-- Thread 0 in `get`, at a pool of two buckets of which the first has two elements.
use byte_buffer.Prelude.{
  ℕ, zero, suc, ◌+◌, ◌%◌, ◌≡◌, ◌≤◌, refl, false, none, some, [], ◌∷◌, ◌++◌, Perm, arith, length,
  get_elem?, replicate,
}
use byte_buffer.Syncpool.Words.{usize_mod}
use byte_buffer.Syncpool.Builder.{builder}
use byte_buffer.Syncpool.Utils.{enter, scan_from_start, trailing_zeros, zeros_from, scan}
use byte_buffer.Syncpool.Bucket2.{Bucket2}
use byte_buffer.Syncpool.Concurrent.{
  getting, announce, try_lock, test_slot, use_slot, advance, Reach,
}
use byte_buffer.Syncpool.Pool.{SyncPool, register}
use byte_buffer.Syncpool.Pool.Elements.{AllQuiet, elements}
use byte_buffer.Syncpool.Calls.{Threads, away, picked, follow, move, moved, Runs, start, later}
use byte_buffer.Syncpool.Calls.Shadow.{seen_at, Runs-Reach}
use byte_buffer.Syncpool.Calls.Guards.{held_by, visitors_counted}
use byte_buffer.Syncpool.Calls.Bounds.{InBounds, Runs-InBounds}
use byte_buffer.Syncpool.Calls.Elements
use byte_buffer.Syncpool.Calls.Elements.{Logged}
use byte_buffer.Syncpool.Calls.Delivery.{pool_conserved}
use byte_buffer.Syncpool.Calls.Hands.{in_hands}
use byte_buffer.Syncpool.Calls.Exclusion.{pool_exclusion}

abbrev first_bucket : Bucket2 ℕ
first_bucket = record {
  slot = some 1 ∷ none ∷ some 3 ∷ replicate 5 none;
  len = 2;
  bitmap = 0b010001;
}

abbrev two_buckets : SyncPool ℕ
two_buckets = record {
  slots = first_bucket ∷ record { slot = replicate 8 none; len = 0; bitmap = 0 } ∷ [];
  curr_get = 0;
  curr_put = 0;
  visitors = 1;
  barrier = false;
  miss_count = 0;
  configure = 0;
  reset_handle = none;
  elem_builder = builder (λ _. 7);
}

two_buckets-AllQuiet : AllQuiet two_buckets.slots
two_buckets-AllQuiet = (
  record { eight = refl; marked = refl; counted = refl },
  (record { eight = refl; marked = refl; counted = refl }, tt),
)

abbrev turns_of_first : ℕ → Threads ℕ
turns_of_first zero = record { pool = two_buckets; spot = λ i. away }
turns_of_first (suc n) = moved 0 getting (turns_of_first n)

Runs-turns_of_first : (n : ℕ) → Runs two_buckets (turns_of_first n)
Runs-turns_of_first zero = start
Runs-turns_of_first (suc n) = later (Runs-turns_of_first n) 0 getting

Runs-Reach_example :
    (x : Bucket2 ℕ) × (get_elem? (turns_of_first 7).pool.slots 0 ≡ some x)
    × Reach none first_bucket (seen_at 0 (turns_of_first 7) x)
Runs-Reach_example = Runs-Reach two_buckets 0 first_bucket refl (Runs-turns_of_first 7)

visitors_counted_example :
    (n : ℕ) × ((j : ℕ) → n ≤ j → (turns_of_first 7).spot j ≡ away)
    × ((turns_of_first 7).pool.visitors ≡ (1 + held_by n (turns_of_first 7).spot) % usize_mod)
visitors_counted_example = visitors_counted two_buckets (omega arith) (Runs-turns_of_first 7)

Runs-InBounds_example :
    (length (turns_of_first 7).pool.slots ≡ 2) × ((i : ℕ) → InBounds 2 ((turns_of_first 7).spot i))
Runs-InBounds_example = Runs-InBounds two_buckets (omega arith) (Runs-turns_of_first 7)

-- It has locked slot 0 of bucket 0.
pool_exclusion_example : ◌≡◌ {A = ℕ} 0 0
unfolding moved move follow picked register advance announce try_lock enter scan_from_start
    trailing_zeros zeros_from scan
pool_exclusion_example =
    pool_exclusion two_buckets (omega arith) two_buckets-AllQuiet (Runs-turns_of_first 7) 0 0 0 0
      refl refl

-- It has taken the element out of it.
turns_of_first-Logged : Logged two_buckets (turns_of_first 10) (1 ∷ []) [] []
unfolding moved move follow picked register advance announce try_lock enter scan_from_start
    trailing_zeros zeros_from scan test_slot use_slot
turns_of_first-Logged =
    Elements.later
      (Elements.later
        (Elements.later
          (Elements.later
            (Elements.later
              (Elements.later
                (Elements.later
                  (Elements.later
                    (Elements.later (Elements.later Elements.start 0 getting) 0 getting) 0 getting)
                  0 getting)
                0 getting)
              0 getting)
            0 getting)
          0 getting)
        0 getting)
      0 getting

pool_conserved_example :
    (n : ℕ) × ((j : ℕ) → n ≤ j → (turns_of_first 10).spot j ≡ away)
    × Perm
        ((in_hands n (turns_of_first 10).spot ++ []) ++ elements (turns_of_first 10).pool.slots)
        (1 ∷ 3 ∷ [])
pool_conserved_example =
    pool_conserved two_buckets (omega arith) two_buckets-AllQuiet turns_of_first-Logged
