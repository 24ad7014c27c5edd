-- ===== src/Syncpool/Pool/State.antt =====
-- `PoolState` for `SyncPool`.
use byte_buffer.Prelude.{ℕ, ◌+◌, ◌*◌, Bool, List, [], ◌∷◌, bit_and, ltb, ◌==◌, length}
use byte_buffer.Syncpool.Bucket2.{Bucket2, slot_cap, size_hint}
use byte_buffer.Syncpool.Pool.{SyncPool}

abbrev pub config_allow_expansion : ℕ
config_allow_expansion = 1

module _ {ℓ} {T : Type ℓ} where
  unfoldable pub expansion_enabled : SyncPool T → Bool
  expansion_enabled p = ltb 0 (bit_and p.configure config_allow_expansion)

  unfoldable pub read_miss_count : SyncPool T → ℕ
  read_miss_count p = p.miss_count

  unfoldable pub capacity : SyncPool T → ℕ
  capacity p = length p.slots * slot_cap

  -- The fold of `len`.
  unfoldable pub sum_hints : ℕ → List (Bucket2 T) → ℕ
  sum_hints sum [] = sum
  sum_hints sum (item ∷ slots) = sum_hints (sum + size_hint item) slots

  unfoldable pub len : SyncPool T → ℕ
  len p = sum_hints 0 p.slots

  unfoldable pub is_empty : SyncPool T → Bool
  is_empty p = len p == 0
