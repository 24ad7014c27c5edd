-- ===== src/Syncpool/Concurrent/Turns.antt =====
-- The turns that read or change the bitmap, over its fields.
use byte_buffer.Prelude.{
  ℕ, suc, ◌≤◌, ◌≡◌, Option, none, some, List, arith, length, get_elem?, get_elem?-lt, set, ltb,
  if◌then◌else◌,
}
use byte_buffer.Prelude.Fields.{pack, IsFields, pow4-pos}
use byte_buffer.Syncpool.Words.{shl_field}
use byte_buffer.Syncpool.Utils.Enter.{first_from, wanted, enter-pack}
use byte_buffer.Syncpool.Utils.States.{lock, flip, or_lock, and_lock, xor_flip}
use byte_buffer.Syncpool.Bucket2.{Bucket2}
use byte_buffer.Syncpool.Concurrent.{
  Task, idle, scanning, locking, inside, is_get, try_lock, try_leave, advance,
}

module _ {ℓ} {T : Type ℓ} (b : Bucket2 T) (ds : List ℕ) (h : IsFields ds) (e : length ds ≡ 8)
    (packed : b.bitmap ≡ pack ds) where
  pub advance-found :
      (reset : Option (T → T)) (next task : Task T) (trials i : ℕ)
      → first_from 0 (wanted (is_get task)) ds ≡ some i
      → advance reset next b (scanning task (suc trials)) ≡ (b, locking task trials i)
  unfolding advance
  advance-found reset next task trials i found =
      ground (arith, packed, enter-pack ds h e (is_get task))

  pub advance-missed :
      (reset : Option (T → T)) (next task : Task T) (trials : ℕ)
      → first_from 0 (wanted (is_get task)) ds ≡ none
      → advance reset next b (scanning task (suc trials)) ≡ (b, scanning task trials)
  unfolding advance
  advance-missed reset next task trials missed =
      ground (arith, packed, enter-pack ds h e (is_get task))

  module _ (pos d : ℕ) (at : get_elem? ds pos ≡ some d) where
    pub try_lock-pack :
        (task : Task T) (trials : ℕ)
        → try_lock b task trials pos ≡ (
          record b { bitmap = pack (set ds pos (lock d)) },
          if ltb d 2 then inside task pos else scanning task trials,
        )
    unfolding try_lock
    try_lock-pack task trials =
        ground (arith, packed, and_lock ds h e pos d at, or_lock ds h e pos d at, pow4-pos pos)

    -- A thread that finds its slot locked has left it.
    pub try_leave-pack :
        2 ≤ d → try_leave b pos ≡ (record b { bitmap = pack (set ds pos (flip d)) }, idle)
    unfolding try_leave
    try_leave-pack locked = ground (
      arith,
      packed,
      and_lock ds h e pos d at,
      xor_flip ds h e pos d at,
      shl_field 2 pos,
      get_elem?-lt ds pos at,
    )
