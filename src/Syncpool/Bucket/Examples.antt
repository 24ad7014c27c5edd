-- ===== src/Syncpool/Bucket/Examples.antt =====
-- The theorems about `Bucket` at a bucket with two elements.
use byte_buffer.Prelude.{ℕ, ◌≡◌, refl, false, Option, none, some, List, [], ◌∷◌, arith, replicate}
use byte_buffer.Syncpool.Bucket.{Bucket, done, get_from}
use byte_buffer.Syncpool.Bucket.Stack.{nobody, Holds, PutOutcome, Bucket-stack}

abbrev bucket : Bucket ℕ
bucket = record { slot = some 1 ∷ some 2 ∷ replicate 6 none; len = 2; access_flag = false }

bucket-Holds : Holds bucket (1 ∷ 2 ∷ [])
bucket-Holds = record { slots = refl; counted = refl; fits = omega arith; free = refl }

Bucket-stack_example :
    ((val : ℕ) (reset : Option (ℕ → ℕ)) → PutOutcome bucket (1 ∷ 2 ∷ []) val reset)
    × (◌≡◌ {A = List ℕ} (1 ∷ 2 ∷ []) [] → get_from nobody bucket ≡ done (bucket, none))
Bucket-stack_example = Bucket-stack bucket (1 ∷ 2 ∷ []) bucket-Holds
