-- ===== src/ByteBuffer/Bucket/Checkout.antt =====
-- What `checkout` takes, with other threads at the bitmap or without.
use byte_buffer.Prelude.{
  ℕ, zero, suc, ◌^◌, ◌≤◌, ◌<◌, ◌≡◌, ◌≢◌, refl, sym, ap, ◌∙◌, subst, ◌⊎◌, inl, inr, Option, none,
  some, List, [], ◌∷◌, arith, length, get_elem?, get_elem?-lt, get_elem?-of_lt, set, ◌==◌, bit_xor,
  Bool-cases,
}
use byte_buffer.Syncpool.Utils.{trailing_zeros, zeros_from}
use byte_buffer.ByteBuffer.Pool.{Outcome, done}
use byte_buffer.ByteBuffer.Bucket.{Bucket, RawVec, raw_capacity, checkout_loop, get_buf, checkout}
use byte_buffer.ByteBuffer.Bucket.Bits.{
  bin, AreBits, IsLowest, lowest, clear_bit, bits_of, bits_of-AreBits, length-bits_of, bin-bits_of,
}

abbrev pub AreWords : List ℕ → Type 0
AreWords [] = Unit {0}
AreWords (w ∷ ws) = (w < 2 ^ 16) × AreWords ws

-- The lowest set bit of a word that an attempt met has been taken and cleared.
pub record Takes (met : List ℕ) (w i : ℕ) : Type 0 where
  pub ds : List ℕ
  pub are_bits : AreBits ds
  pub sixteen : length ds ≡ 16
  pub attempt : ℕ
  pub was_met : get_elem? met attempt ≡ some (bin ds)
  pub is_lowest : IsLowest ds i
  pub cleared : w ≡ bin (set ds i 0)

abbrev pub LoopOutcome : ℕ → ℕ → List ℕ → ℕ × Option ℕ → Type 0
LoopOutcome tries base found (w, taken) =
    ((taken ≡ none) × ((w ≡ 0) ⊎ (tries ≤ length found)))
    ⊎ ((i : ℕ) × (taken ≡ some i) × Takes (base ∷ found) w i)

-- The exchange at a word that is not 0.
hit :
    (base : ℕ) (found : List ℕ)
    → base < 2 ^ 16
    → base ≢ 0
    → Takes (base ∷ found) (bit_xor base (2 ^ trailing_zeros base)) (trailing_zeros base)
unfolding trailing_zeros
hit base found fits some_set =
    let ds = bits_of 16 base in
    let are = bits_of-AreBits 16 base in
    let same = bin-bits_of 16 base fits in
    elim (lowest ds are) [
      | inl clear ↦ absurd (some_set (sym same ∙ clear))
      | inr low ↦
          let low' : IsLowest ds (zeros_from 16 base) =
            subst (λ w. IsLowest ds (zeros_from 16 w)) same low in
          record {
            ds = ds;
            are_bits = are;
            sixteen = length-bits_of 16 base;
            attempt = 0;
            was_met = ap some (sym same);
            is_lowest = low';
            cleared =
                subst
                  (λ w. bit_xor w (2 ^ zeros_from 16 base) ≡ bin (set ds (zeros_from 16 base) 0))
                  same (clear_bit ds (zeros_from 16 base) are low'.0);
          }
    ]

met_later :
    (tries base old : ℕ) (found : List ℕ) (r : ℕ × Option ℕ)
    → LoopOutcome tries old found r
    → LoopOutcome (suc tries) base (old ∷ found) r
met_later tries base old found r (inl (gone, inl clear)) = inl (gone, inl clear)
met_later tries base old found r (inl (gone, inr lost)) = inl (gone, inr (omega arith))
met_later tries base old found r (inr (i, taken, takes)) = inr (
  i,
  taken,
  record {
    ds = takes.ds;
    are_bits = takes.are_bits;
    sixteen = takes.sixteen;
    attempt = suc takes.attempt;
    was_met = takes.was_met;
    is_lowest = takes.is_lowest;
    cleared = takes.cleared;
  },
)

checkout_loop-outcome :
    (tries base : ℕ) (found : List ℕ)
    → base < 2 ^ 16
    → AreWords found
    → LoopOutcome tries base found (checkout_loop tries base found)
unfolding checkout_loop
checkout_loop-outcome zero base found fits words = inl (refl, inr (omega arith))
checkout_loop-outcome (suc tries) base [] fits words = elim (Bool-cases (base == 0)) [
  | inl clear ↦ rw clear (inl (refl, inl (ground arith)))
  | inr some_set ↦ rw some_set (inr (trailing_zeros base, refl, hit base [] fits (ground arith)))
]
checkout_loop-outcome (suc tries) base (old ∷ found) fits words = elim (Bool-cases (base == 0)) [
  | inl clear ↦ rw clear (inl (refl, inl (ground arith)))
  | inr some_set ↦ rw some_set (elim (Bool-cases (old == base)) [
    | inl same ↦
        rw same (inr (trailing_zeros base, refl, hit base (old ∷ found) fits (ground arith)))
    | inr other ↦
        rw other
          (met_later tries base old found _ (checkout_loop-outcome tries old found words.0 words.1))
  ])
]

-- A bucket has sixteen buffers and a bitmap of sixteen bits.
pub record IsBucket (b : Bucket) : Type 0 where
  pub sixteen_stores : length b.stores ≡ 16
  pub word : b.bitmap < 2 ^ 16

abbrev pub CheckoutOutcome : List ℕ → Bucket → Bucket × Outcome (Option RawVec) → Type 0
CheckoutOutcome found b (b', r) =
    ((r ≡ done none) × ((b'.bitmap ≡ 0) ⊎ (4 ≤ length found)))
    ⊎ ((i : ℕ) × (p : ℕ) × Takes (b.bitmap ∷ found) b'.bitmap i
        × (get_elem? b.stores i ≡ some p)
        × (r ≡ done (some (record { ptr = p; len = 0; cap = raw_capacity })))
        × (b'.stores ≡ b.stores)
        × (b'.next ≡ b.next))

-- Whatever words other threads make of the bitmap between its attempts, `checkout` at a bucket of
-- sixteen buffers ends without a panic: it takes the buffer of the lowest set bit of a bitmap that
-- an attempt met, and clears that bit and no other, or it gives none, and then the bitmap is empty
-- or four attempts were lost.
pub checkout-outcome :
    (found : List ℕ) (b : Bucket)
    → IsBucket b
    → AreWords found
    → CheckoutOutcome found b (checkout found b)
unfolding checkout get_buf
checkout-outcome found b h words = elim (checkout_loop-outcome 4 b.bitmap found h.word words) [
  | inl (gone, why) ↦ inl (ground arith, why)
  | inr (i, taken, takes) ↦
      let lt : i < 16 = omega (arith, takes.sixteen, get_elem?-lt takes.ds i takes.is_lowest.0) in
      let (p, at) = get_elem?-of_lt b.stores i (omega (arith, h.sixteen_stores)) in
      inr (i, p, takes, at, ground (arith, taken, at), refl, refl)
]
