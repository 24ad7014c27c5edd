-- ===== src/ByteBuffer/Bucket/Examples.antt =====
-- The theorems about chains of buckets at a small heap.
use byte_buffer.Prelude.{ℕ, ◌+◌, ◌-◌, ◌<◌, ◌≡◌, refl, none, [], ◌∷◌, arith, get_elem?}
use byte_buffer.ByteBuffer.Bucket.{Bucket, Heap, checkout, build_chain}
use byte_buffer.ByteBuffer.Bucket.Checkout.{IsBucket, CheckoutOutcome, checkout-outcome}
use byte_buffer.ByteBuffer.Bucket.Chain.{IsChain, build_chain-IsChain}

abbrev bucket : Bucket
bucket = record {
  stores = 0 ∷ 1 ∷ 2 ∷ 3 ∷ 4 ∷ 5 ∷ 6 ∷ 7 ∷ 8 ∷ 9 ∷ 10 ∷ 11 ∷ 12 ∷ 13 ∷ 14 ∷ 15 ∷ [];
  bitmap = 0b1100;
  next = none;
}

bucket-IsBucket : IsBucket bucket
bucket-IsBucket = record { sixteen_stores = refl; word = omega arith }

-- Another thread takes bit 2 before the first attempt.
checkout-outcome_example : CheckoutOutcome (0b1000 ∷ []) bucket (checkout (0b1000 ∷ []) bucket)
checkout-outcome_example = checkout-outcome (0b1000 ∷ []) bucket bucket-IsBucket (omega arith)

abbrev heap : Heap
heap = record { buffers = []; buckets = [] }

build_chain-IsChain_example :
    (h' : Heap) × (head : ℕ) × (tail : ℕ) × (n : ℕ) × (build_chain 3 8 heap ≡ (h', head, tail))
    × (n ≡ 3)
    × (tail ≡ head + (n - 1))
    × IsChain h' head n
    × ((j : ℕ) → j < 0 → get_elem? h'.buckets j ≡ get_elem? heap.buckets j)
build_chain-IsChain_example = build_chain-IsChain 3 8 heap
