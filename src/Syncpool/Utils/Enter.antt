-- ===== src/Syncpool/Utils/Enter.antt =====
-- `enter` against a plain search through the eight fields of the bitmap.
use byte_buffer.Prelude.{
  ℕ, zero, suc, ◌+◌, ◌*◌, ◌/◌, ◌%◌, ◌^◌, ◌≤◌, ◌<◌, ◌≡◌, refl, ap, subst, ◌∙◌, ◌⊎◌, inl, inr, Bool,
  true, false, Option, none, some, List, [], ◌∷◌, arith, bit_and, bit_xor, ltb, ◌==◌, if◌then◌else◌,
  length, replicate,
}
use byte_buffer.Prelude.Bits.{bit_and_fields, bit_and-zero}
use byte_buffer.Prelude.Fields.{
  pack, IsFields, fields, zip_with, fields-IsFields, pack-fields, fields-pack, length-fields,
  bit_and-pack, bit_xor-pack,
}
use byte_buffer.Syncpool.Words.{shr}
use byte_buffer.Syncpool.Utils.{
  get_mask, put_mask, full_flag, zeros_from, trailing_zeros, scan, scan_from_start, enter,
}

-- The position of the first field that is `t`, counted from `pos`.
abbrev pub first_from : ℕ → ℕ → List ℕ → Option ℕ
first_from pos t [] = none
first_from pos t (d ∷ ds) = if d == t then some pos else first_from (pos + 1) t ds

-- A getter wants a slot that is full and unlocked, a putter one that is empty and unlocked.
abbrev pub wanted : Bool → ℕ
wanted true = 1
wanted false = 0

bit_and_three_small : (d : ℕ) → d < 4 → bit_and d 3 ≡ d
bit_and_three_small zero h = refl
bit_and_three_small (suc zero) h = refl
bit_and_three_small (suc (suc zero)) h = refl
bit_and_three_small (suc (suc (suc zero))) h = refl
bit_and_three_small (suc (suc (suc (suc d)))) h = absurd (omega arith)

bit_and_three : (x : ℕ) → bit_and x 3 ≡ x % 4
bit_and_three x =
    omega (arith, bit_and_fields x 3, bit_and-zero (x / 4), bit_and_three_small (x % 4))

first_zero : (t : ℕ) (ds : List ℕ) (pos : ℕ) → 0 < t → pack ds ≡ 0 → first_from pos t ds ≡ none
first_zero t [] pos ht h = refl
first_zero t (d ∷ ds) pos ht h = ground (arith, first_zero t ds (pos + 1))

scan-first :
    (fuel : ℕ) (ds : List ℕ) (pos : ℕ)
    → IsFields ds
    → length ds ≤ fuel
    → scan fuel (pack ds) pos ≡ first_from pos 3 ds
unfolding scan
scan-first zero [] pos h le = refl
scan-first zero (d ∷ ds) pos h le = absurd (omega arith)
scan-first (suc fuel) [] pos h le = refl
scan-first (suc fuel) (d ∷ ds) pos h le = ground (
  arith,
  bit_and_three (pack ds * 4 + d),
  first_zero 3 (d ∷ ds) pos,
  let upper : (pack ds * 4 + d) / 2 / 2 ≡ pack ds = omega arith in upper,
  scan-first fuel ds (pos + 1) h.1,
)

-- Twice the length.
abbrev bits : List ℕ → ℕ
bits [] = 0
bits (d ∷ ds) = suc (suc (bits ds))

-- What the number `v` of trailing zeros says: no field is 3, or the fields below the starting
-- point are not.
abbrev Start : List ℕ → ℕ → Type 0
Start ds v =
    ((bits ds < v + 2) × ((pos : ℕ) → first_from pos 3 ds ≡ none))
    ⊎ ((es : List ℕ) × (v + 2 ≤ bits ds)
        × IsFields es
        × (bits es ≤ bits ds)
        × (shr (pack ds) ((v + 1) / 2 * 2) ≡ pack es)
        × ((pos : ℕ) → first_from pos 3 ds ≡ first_from (pos + (v + 1) / 2) 3 es))

Start-zero : (ds : List ℕ) (v : ℕ) → Start ds v → Start (0 ∷ ds) (suc (suc v))
Start-zero ds v (inl (short, e)) = inl (omega arith, λ pos. e (pos + 1))
Start-zero ds v (inr (es, room, h, le, shifted, e)) = inr (
  es,
  omega arith,
  h,
  omega arith,
  let twice : (suc (suc v) + 1) / 2 * 2 ≡ suc (suc ((v + 1) / 2 * 2)) = omega arith in
      let upper : (pack ds * 4 + 0) / 2 / 2 ≡ pack ds = omega arith in
      rw twice (ap (λ (x : ℕ). shr x ((v + 1) / 2 * 2)) upper ∙ shifted),
  λ pos.
      let next : pos + (suc (suc v) + 1) / 2 ≡ pos + 1 + (v + 1) / 2 = omega arith in
      rw next (e (pos + 1)),
)

zeros-Start : (ds : List ℕ) → IsFields ds → Start ds (zeros_from (bits ds) (pack ds))
unfolding zeros_from
zeros-Start [] h = inl (omega arith, λ pos. refl)
zeros-Start (zero ∷ ds) h =
    let even : (pack ds * 4 + 0) % 2 ≡ 0 = omega arith in
    let upper_even : (pack ds * 4 + 0) / 2 % 2 ≡ 0 = omega arith in
    let upper : (pack ds * 4 + 0) / 2 / 2 ≡ pack ds = omega arith in
    rw (even, upper_even, upper) (Start-zero ds _ (zeros-Start ds h.1))
zeros-Start (suc zero ∷ ds) h =
    let odd : (pack ds * 4 + 1) % 2 ≡ 1 = omega arith in
    rw odd (inr (1 ∷ ds, omega arith, h, omega arith, refl, λ pos. ground arith))
zeros-Start (suc (suc zero) ∷ []) h = inl (omega arith, λ pos. refl)
zeros-Start (suc (suc zero) ∷ d ∷ ds) h =
    let even : (pack (d ∷ ds) * 4 + 2) % 2 ≡ 0 = omega arith in
    let odd : (pack (d ∷ ds) * 4 + 2) / 2 % 2 ≡ 1 = omega arith in
    rw (even, odd) (inr (d ∷ ds, omega arith, h.1, omega arith, omega arith, λ pos. refl))
zeros-Start (suc (suc (suc zero)) ∷ ds) h =
    let odd : (pack ds * 4 + 3) % 2 ≡ 1 = omega arith in
    rw odd (inr (3 ∷ ds, omega arith, h, omega arith, refl, λ pos. ground arith))
zeros-Start (suc (suc (suc (suc d))) ∷ ds) h = absurd (omega arith)

and_threes : (ds : List ℕ) → IsFields ds → zip_with bit_and ds (replicate (length ds) 3) ≡ ds
and_threes [] h = refl
and_threes (d ∷ ds) h = ground (arith, bit_and_three_small d, and_threes ds h.1)

threes-IsFields : (n : ℕ) → IsFields (replicate n 3)
threes-IsFields zero = tt
threes-IsFields (suc n) = (omega arith, threes-IsFields n)

length-of-bits : (ds : List ℕ) → bits ds ≡ 2 * length ds
length-of-bits [] = refl
length-of-bits (d ∷ ds) = omega (arith, length-of-bits ds)

put_mask_keeps : (ds : List ℕ) → IsFields ds → length ds ≡ 8 → bit_and (pack ds) put_mask ≡ pack ds
put_mask_keeps ds h e =
    bit_and-pack ds (replicate 8 3) h (threes-IsFields 8) e ∙ ap pack (rw e at (and_threes ds h))

scan_from_start-first :
    (ds : List ℕ) → IsFields ds → length ds ≡ 8 → scan_from_start (pack ds) ≡ first_from 0 3 ds
unfolding scan_from_start trailing_zeros
scan_from_start-first ds h e =
    let sixteen : bits ds ≡ 16 = omega (arith, length-of-bits ds) in
    let start : Start ds (zeros_from 16 (pack ds)) =
      subst (λ n. Start ds (zeros_from n (pack ds))) sixteen (zeros-Start ds h) in
    rw (put_mask_keeps ds h e) (go (zeros_from 16 (pack ds)) start)
  where
    go :
        (v : ℕ)
        → Start ds v
        → (if ltb 14 v
            then none
            else if v % 2 == 1
            then scan 8 (shr (pack ds) (v + 1)) ((v + 1) / 2)
            else scan 8 (shr (pack ds) v) (v / 2))
          ≡ first_from 0 3 ds
    go v (inl (short, none_fits)) = ground (arith, none_fits 0, length-of-bits ds)
    go v (inr (es, room, hs, le, shifted, same)) =
        ground
          (arith, same 0, scan-first 8 es ((v + 1) / 2) hs, length-of-bits es, length-of-bits ds)

xor_two-wanted :
    (ds : List ℕ) (pos : ℕ)
    → IsFields ds
    → first_from pos 3 (zip_with bit_xor ds (replicate (length ds) 2)) ≡ first_from pos 1 ds
xor_two-wanted [] pos h = refl
xor_two-wanted (zero ∷ ds) pos h = xor_two-wanted ds (pos + 1) h.1
xor_two-wanted (suc zero ∷ ds) pos h = refl
xor_two-wanted (suc (suc zero) ∷ ds) pos h = xor_two-wanted ds (pos + 1) h.1
xor_two-wanted (suc (suc (suc zero)) ∷ ds) pos h = xor_two-wanted ds (pos + 1) h.1
xor_two-wanted (suc (suc (suc (suc d))) ∷ ds) pos h = absurd (omega arith)

xor_three-wanted :
    (ds : List ℕ) (pos : ℕ)
    → IsFields ds
    → first_from pos 3 (zip_with bit_xor ds (replicate (length ds) 3)) ≡ first_from pos 0 ds
xor_three-wanted [] pos h = refl
xor_three-wanted (zero ∷ ds) pos h = refl
xor_three-wanted (suc zero ∷ ds) pos h = xor_three-wanted ds (pos + 1) h.1
xor_three-wanted (suc (suc zero) ∷ ds) pos h = xor_three-wanted ds (pos + 1) h.1
xor_three-wanted (suc (suc (suc zero)) ∷ ds) pos h = xor_three-wanted ds (pos + 1) h.1
xor_three-wanted (suc (suc (suc (suc d))) ∷ ds) pos h = absurd (omega arith)

xor_small : (d : ℕ) → d < 4 → (bit_xor d 2 < 4) × (bit_xor d 3 < 4)
xor_small zero h = omega arith
xor_small (suc zero) h = omega arith
xor_small (suc (suc zero)) h = omega arith
xor_small (suc (suc (suc zero))) h = omega arith
xor_small (suc (suc (suc (suc d)))) h = absurd (omega arith)

xor_two-IsFields :
    (ds : List ℕ) → IsFields ds → IsFields (zip_with bit_xor ds (replicate (length ds) 2))
xor_two-IsFields [] h = tt
xor_two-IsFields (d ∷ ds) h = ((xor_small d h.0).0, xor_two-IsFields ds h.1)

xor_three-IsFields :
    (ds : List ℕ) → IsFields ds → IsFields (zip_with bit_xor ds (replicate (length ds) 3))
xor_three-IsFields [] h = tt
xor_three-IsFields (d ∷ ds) h = ((xor_small d h.0).1, xor_three-IsFields ds h.1)

length-zip_replicate :
    (f : ℕ → ℕ → ℕ) (ds : List ℕ) (m : ℕ)
    → length (zip_with f ds (replicate (length ds) m)) ≡ length ds
length-zip_replicate f [] m = refl
length-zip_replicate f (d ∷ ds) m = ap suc (length-zip_replicate f ds m)

module _ (ds : List ℕ) (h : IsFields ds) (e : length ds ≡ 8) where
  -- The list of the fields of `src ^ GET_MASK`, and of `src ^ PUT_MASK`.
  toggled : ℕ → List ℕ
  toggled m = zip_with bit_xor ds (replicate (length ds) m)

  get_base : bit_xor (pack ds) get_mask ≡ pack (toggled 2)
  unfolding toggled
  get_base = rw e (bit_xor-pack ds (replicate 8 2) h (omega arith) e)

  put_base : bit_xor (pack ds) put_mask ≡ pack (toggled 3)
  unfolding toggled
  put_base = rw e (bit_xor-pack ds (replicate 8 3) h (omega arith) e)

  -- A bitmap that is the flag of a full bucket has no empty slot.
  full_first : pack ds ≡ full_flag → first_from 0 0 ds ≡ none
  full_first q =
      let whole : fields 8 (pack ds) ≡ ds = rw e at (fields-pack ds h) in
      let flag : fields 8 full_flag ≡ ds = rw q at whole in rw (← flag) refl

  pub enter-pack : (get : Bool) → enter (pack ds) get ≡ first_from 0 (wanted get) ds
  unfolding enter toggled
  enter-pack true = ground (
    arith,
    first_zero 1 ds 0,
    get_base,
    scan_from_start-first (toggled 2) (xor_two-IsFields ds h),
    length-zip_replicate bit_xor ds 2,
    xor_two-wanted ds 0 h,
  )
  enter-pack false = ground (
    arith,
    full_first,
    put_base,
    scan_from_start-first (toggled 3) (xor_three-IsFields ds h),
    length-zip_replicate bit_xor ds 3,
    xor_three-wanted ds 0 h,
  )

-- For every bitmap of 16 bits, `enter` returns the lowest slot whose two bits are those of a full
-- unlocked slot (to get) or of an empty unlocked slot (to put), and an error exactly if there is
-- none.
pub enter-first :
    (src : ℕ) (get : Bool) → src < 2 ^ 16 → enter src get ≡ first_from 0 (wanted get) (fields 8 src)
enter-first src get h =
    subst (λ w. enter w get ≡ first_from 0 (wanted get) (fields 8 src)) (pack-fields 8 src h)
      (enter-pack (fields 8 src) (fields-IsFields 8 src) (length-fields 8 src) get)
