-- ===== src/Syncpool/Pool/Make.antt =====
-- The constructors give an idle pool that is full.
use mathlib.Core.List.{append_assoc, append-nil}
use byte_buffer.Prelude.{
  ℕ, zero, suc, ◌+◌, ◌*◌, ◌<◌, ◌≤◌, ◌≡◌, refl, ap, sym, ◌∙◌, some, List, [], ◌∷◌, ◌++◌, arith,
  length, length-append, replicate,
}
use byte_buffer.Syncpool.Builder.{ElemBuilder, make_elem}
use byte_buffer.Syncpool.Bucket2.{Bucket2, slot_cap, fill, new}
use byte_buffer.Syncpool.Bucket2.Slots.{contents}
use byte_buffer.Syncpool.Bucket2.Quiet.{IsQuiet}
use byte_buffer.Syncpool.Pool.{add_buckets, add_slots, make_pool, buckets_for}
use byte_buffer.Syncpool.Pool.Elements.{elements, AllQuiet, append-AllQuiet, IsIdle}

module _ {ℓ} {T : Type ℓ} (zeroed : T) (b : ElemBuilder T) where
  abbrev made : T
  made = make_elem zeroed b

  new-slots : (new zeroed (some b)).slot ≡ replicate slot_cap (some made)
  unfolding new fill
  new-slots = refl

  -- A bucket made with a filler is quiet and full.
  pub new-IsQuiet :
      IsQuiet (new zeroed (some b))
      × (contents (new zeroed (some b)).slot ≡ replicate slot_cap made)
  unfolding new fill
  new-IsQuiet = (record { eight = refl; marked = refl; counted = refl }, refl)

  replicate-append : (m n : ℕ) (v : T) → replicate m v ++ replicate n v ≡ replicate (m + n) v
  replicate-append zero n v = let e : n ≡ 0 + n = omega arith in ap (λ k. replicate k v) e
  replicate-append (suc m) n v =
      let e : suc (m + n) ≡ suc m + n = omega arith in
      ap (◌∷◌ v) (replicate-append m n v) ∙ ap (λ k. replicate k v) e

  elements-append : (xs ys : List (Bucket2 T)) → elements (xs ++ ys) ≡ elements xs ++ elements ys
  elements-append [] ys = refl
  elements-append (x ∷ xs) ys =
      ap (λ l. contents x.slot ++ l) (elements-append xs ys)
      ∙ sym (append_assoc (contents x.slot) (elements xs) (elements ys))

  grown :
      (count : ℕ) (slots : List (Bucket2 T))
      → elements (slots ++ new zeroed (some b) ∷ []) ++ replicate (count * slot_cap) made
        ≡ elements slots ++ replicate (suc count * slot_cap) made
  grown count slots =
      let total : slot_cap + count * slot_cap ≡ suc count * slot_cap = omega arith in
      simp (elements-append, new-IsQuiet.1, append-nil, append_assoc)
        (ap (λ l. elements slots ++ l)
          (replicate-append slot_cap (count * slot_cap) made ∙ ap (λ k. replicate k made) total))

  -- `add_slots` with a filler: as many more buckets as asked for, each with eight new elements.
  pub add_buckets-lem :
      (count : ℕ) (slots : List (Bucket2 T))
      → AllQuiet slots
      → AllQuiet (add_buckets zeroed (some b) count slots)
        × (length (add_buckets zeroed (some b) count slots) ≡ length slots + count)
        × (elements (add_buckets zeroed (some b) count slots)
            ≡ elements slots ++ replicate (count * slot_cap) made)
  unfolding add_buckets
  add_buckets-lem zero slots q = (q, omega arith, sym (append-nil (elements slots)))
  add_buckets-lem (suc count) slots q =
      let next = slots ++ new zeroed (some b) ∷ [] in
      let (qs, size, held) =
        add_buckets-lem count next
          (append-AllQuiet slots (new zeroed (some b) ∷ []) q (new-IsQuiet.0, tt)) in
      (
        qs,
        omega (arith, size, length-append slots (new zeroed (some b) ∷ [])),
        held ∙ grown count slots,
      )

  -- For every size above zero `make_pool`, in which every constructor ends, makes an idle pool of
  -- that many buckets, all of whose slots hold new elements.
  pub make_pool-IsIdle :
      (size : ℕ)
      → 0 < size
      → IsIdle (make_pool zeroed size b)
        × (length (make_pool zeroed size b).slots ≡ size)
        × (elements (make_pool zeroed size b).slots ≡ replicate (size * slot_cap) made)
  unfolding make_pool add_slots
  make_pool-IsIdle size pos =
      let (qs, count, held) = add_buckets-lem size [] tt in
      (
        record { some_bucket = omega arith; alone = refl; lowered = refl; quiet = qs },
        omega arith,
        held,
      )

-- The number of buckets for a requested size is at least one, and their slots are more than the
-- size less eight, and no more than the size unless it is under eight: the size is rounded down.
buckets_for-bounds :
    (size : ℕ)
    → (0 < buckets_for size)
      × (size < buckets_for size * slot_cap + slot_cap)
      × (slot_cap ≤ size → buckets_for size * slot_cap ≤ size)
unfolding buckets_for
buckets_for-bounds size = ground arith
