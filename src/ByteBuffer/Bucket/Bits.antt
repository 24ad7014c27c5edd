-- ===== src/ByteBuffer/Bucket/Bits.antt =====
-- A bitmap as the list of its bits, lowest first: its lowest set bit, and clearing it.
use byte_buffer.Prelude.{
  ℕ, zero, suc, ◌+◌, ◌*◌, ◌/◌, ◌%◌, ◌^◌, ◌<◌, ◌≡◌, refl, ap, ◌⊎◌, inl, inr, some, List, [], ◌∷◌,
  arith, length, get_elem?, set, bit_xor,
}
use byte_buffer.Prelude.Bits.{bit_xor_step, bit_xor-zero}
use native.Mathlib.Nat.{pow-succ'}
use byte_buffer.Syncpool.Utils.{zeros_from}

abbrev pub bin : List ℕ → ℕ
bin [] = 0
bin (d ∷ ds) = bin ds * 2 + d

abbrev pub AreBits : List ℕ → Type 0
AreBits [] = Unit {0}
AreBits (d ∷ ds) = (d < 2) × AreBits ds

-- The lowest bit that is set: every bit below it is not.
abbrev pub IsLowest : List ℕ → ℕ → Type 0
IsLowest ds i = (get_elem? ds i ≡ some 1) × ((j : ℕ) → j < i → get_elem? ds j ≡ some 0)

-- Either no bit is set, or the count of trailing zeros is the lowest that is.
pub lowest :
    (ds : List ℕ) → AreBits ds → (bin ds ≡ 0) ⊎ IsLowest ds (zeros_from (length ds) (bin ds))
unfolding zeros_from
lowest [] h = inl refl
lowest (zero ∷ ds) h =
    let even : (bin ds * 2 + 0) % 2 ≡ 0 = omega arith in
    let half : (bin ds * 2 + 0) / 2 ≡ bin ds = omega arith in
    elim (lowest ds h.1) [
      | inl clear ↦ inl (omega (arith, clear))
      | inr (set, below) ↦ inr (rw (even, half) (set, λ j lt. shifted ds _ below j lt))
    ]
  where
    shifted :
        (ds : List ℕ) (i : ℕ)
        → ((j : ℕ) → j < i → get_elem? ds j ≡ some 0)
        → (j : ℕ) → j < suc i
        → get_elem? (0 ∷ ds) j ≡ some 0
    shifted ds i below zero lt = refl
    shifted ds i below (suc j) lt = below j (omega arith)
lowest (suc zero ∷ ds) h =
    let odd : (bin ds * 2 + 1) % 2 ≡ 1 = omega arith in
    inr (rw odd (refl, λ j lt. absurd (omega arith)))
lowest (suc (suc d) ∷ ds) h = absurd (omega arith)

pub clear_bit :
    (ds : List ℕ) (i : ℕ)
    → AreBits ds
    → get_elem? ds i ≡ some 1
    → bit_xor (bin ds) (2 ^ i) ≡ bin (set ds i 0)
clear_bit [] i h at = cc
clear_bit (d ∷ ds) zero h at =
    ground (arith, bit_xor_step (bin ds * 2 + d) (2 ^ 0), bit_xor-zero (bin ds))
clear_bit (zero ∷ ds) (suc i) h at =
    rw (pow-succ' 2 i)
      (ground (arith, bit_xor_step (bin ds * 2 + 0) (2 * 2 ^ i), clear_bit ds i h.1 at))
clear_bit (suc zero ∷ ds) (suc i) h at =
    rw (pow-succ' 2 i)
      (ground (arith, bit_xor_step (bin ds * 2 + 1) (2 * 2 ^ i), clear_bit ds i h.1 at))
clear_bit (suc (suc d) ∷ ds) (suc i) h at = absurd (omega arith)

-- The lowest `n` bits of a word.
abbrev pub bits_of : ℕ → ℕ → List ℕ
bits_of zero w = []
bits_of (suc n) w = w % 2 ∷ bits_of n (w / 2)

pub bits_of-AreBits : (n w : ℕ) → AreBits (bits_of n w)
bits_of-AreBits zero w = tt
bits_of-AreBits (suc n) w = (omega arith, bits_of-AreBits n (w / 2))

pub length-bits_of : (n w : ℕ) → length (bits_of n w) ≡ n
length-bits_of zero w = refl
length-bits_of (suc n) w = ap suc (length-bits_of n (w / 2))

pub bin-bits_of : (n w : ℕ) → w < 2 ^ n → bin (bits_of n w) ≡ w
bin-bits_of zero w h = omega arith
bin-bits_of (suc n) w h =
    let half : w < 2 * 2 ^ n = rw (pow-succ' 2 n) at h in
    omega (arith, bin-bits_of n (w / 2) (omega arith))
