-- ===== src/Syncpool/Pool/Len.antt =====
-- `len` and `capacity` against the elements of the pool.
use byte_buffer.Prelude.{
  ℕ, ◌+◌, ◌*◌, ◌≤◌, ◌≡◌, ◌↔◌, true, List, [], ◌∷◌, arith, length, length-append, ◌==◌,
}
use byte_buffer.Syncpool.Bucket2.{Bucket2, slot_cap, size_hint}
use byte_buffer.Syncpool.Bucket2.Slots.{contents, length-contents-le}
use byte_buffer.Syncpool.Bucket2.Quiet.{IsQuiet}
use byte_buffer.Syncpool.Pool.{SyncPool}
use byte_buffer.Syncpool.Pool.State.{sum_hints, len, capacity, is_empty}
use byte_buffer.Syncpool.Pool.Elements.{elements, AllQuiet, IsIdle}

module _ {ℓ} {T : Type ℓ} where
  size_hint-length : (b : Bucket2 T) → IsQuiet b → size_hint b ≡ length (contents b.slot)
  unfolding size_hint
  size_hint-length b q =
      let counted : b.len ≡ length (contents b.slot) = q.counted in
      let eight : length b.slot ≡ 8 = q.eight in omega (arith, length-contents-le b.slot)

  sum_hints-length :
      (sum : ℕ) (slots : List (Bucket2 T))
      → AllQuiet slots
      → sum_hints sum slots ≡ sum + length (elements slots)
  unfolding sum_hints
  sum_hints-length sum [] q = omega arith
  sum_hints-length sum (b ∷ slots) q = omega (
    arith,
    sum_hints-length (sum + size_hint b) slots q.1,
    size_hint-length b q.0,
    length-append (contents b.slot) (elements slots),
  )

  length-elements-le :
      (slots : List (Bucket2 T))
      → AllQuiet slots
      → length (elements slots) ≤ length slots * slot_cap
  length-elements-le [] q = omega arith
  length-elements-le (b ∷ slots) q =
      let eight : length b.slot ≡ 8 = q.0.eight in
      omega (
        arith,
        length-elements-le slots q.1,
        length-contents-le b.slot,
        length-append (contents b.slot) (elements slots),
      )

  nil_iff : (n : ℕ) (xs : List T) → n ≡ length xs → ((n == 0) ≡ true) ↔ (xs ≡ [])
  nil_iff n [] e = ground arith
  nil_iff n (x ∷ xs) e = ground arith

  -- In an idle pool `len` is the number of elements, which `capacity` bounds, and `is_empty` says
  -- whether there are none.
  pub len-elements :
      (p : SyncPool T)
      → IsIdle p
      → (len p ≡ length (elements p.slots))
        × (len p ≤ capacity p)
        × ((is_empty p ≡ true) ↔ (elements p.slots ≡ []))
  unfolding len capacity is_empty
  len-elements p idle =
      let counted = sum_hints-length 0 p.slots idle.quiet in
      (
        omega (arith, counted),
        omega (arith, counted, length-elements-le p.slots idle.quiet),
        nil_iff (len p) (elements p.slots) (omega (arith, counted)),
      )
