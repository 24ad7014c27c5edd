-- ===== src/Prelude/Bits.antt =====
-- Bit operations at variables, two bits at a time: a word is four times its upper part plus a
-- two-bit field.
use Prim.Native.Nat.{
  ℕ, zero, suc, ◌+◌, ◌-◌, ◌*◌, ◌/◌, ◌%◌, ◌≤◌, ◌<◌, min, max, bit_and, bit_or, bit_xor, digits,
  bitwise, differ, bit_and-bitwise, bit_or-bitwise, bit_xor-bitwise,
}
use mathlib.Core.Path.{◌≡◌, refl, ◌∙◌}
use native.Mathlib.Omega.{arith}

-- An operation that means a recursion on the binary digits, `rest` at the end of the left word and
-- `pick` at each of its digits.
module _ (op : ℕ → ℕ → ℕ) (rest : ℕ → ℕ) (pick : ℕ → ℕ → ℕ)
    (meaning : (x y : ℕ) → op x y ≡ bitwise rest pick x y)
    (ends : (y : ℕ) → rest y ≡ rest (y / 2) * 2 + pick 0 (y % 2)) where
  one_more : (fuel x y : ℕ) → x ≤ fuel → digits rest pick (suc fuel) x y ≡ digits rest pick fuel x y
  one_more zero zero y enough = refl
  one_more zero (suc x) y enough = absurd (omega arith)
  one_more (suc fuel) zero y enough = refl
  one_more (suc fuel) (suc x) y enough =
      omega (arith, one_more fuel (suc x / 2) (y / 2) (omega arith))

  spare_fuel : (extra x y : ℕ) → digits rest pick (extra + x) x y ≡ digits rest pick x x y
  spare_fuel zero x y = let same : 0 + x ≡ x = omega arith in rw same refl
  spare_fuel (suc extra) x y =
      let next : suc extra + x ≡ suc (extra + x) = omega arith in
      rw next (one_more (extra + x) x y (omega arith) ∙ spare_fuel extra x y)

  lowest_digit : (x y : ℕ) → op x y ≡ op (x / 2) (y / 2) * 2 + pick (x % 2) (y % 2)
  lowest_digit zero y = omega (arith, meaning zero y, meaning 0 (y / 2), ends y)
  lowest_digit (suc x) y =
      let half = suc x / 2 in
      let fuel : x - half + half ≡ x = omega arith in
      let spare = rw fuel at (spare_fuel (x - half) half (y / 2)) in
      omega (arith, meaning (suc x) y, meaning half (y / 2), spare)

bit_and_step : (a b : ℕ) → bit_and a b ≡ bit_and (a / 2) (b / 2) * 2 + min (a % 2) (b % 2)
bit_and_step = lowest_digit bit_and (λ y. 0) min bit_and-bitwise (λ y. omega arith)

bit_or_step : (a b : ℕ) → bit_or a b ≡ bit_or (a / 2) (b / 2) * 2 + max (a % 2) (b % 2)
bit_or_step = lowest_digit bit_or (λ y. y) max bit_or-bitwise (λ y. omega arith)

pub bit_xor_step : (a b : ℕ) → bit_xor a b ≡ bit_xor (a / 2) (b / 2) * 2 + differ (a % 2) (b % 2)
bit_xor_step = lowest_digit bit_xor (λ y. y) differ bit_xor-bitwise (λ y. ground arith)

-- An operation that works digit by digit works two bits at a time.
module _ (op f : ℕ → ℕ → ℕ) (step : (a b : ℕ) → op a b ≡ op (a / 2) (b / 2) * 2 + f (a % 2) (b % 2))
    (base : op 0 0 ≡ 0) where
  fields_of_step : (a b : ℕ) → op a b ≡ op (a / 4) (b / 4) * 4 + op (a % 4) (b % 4)
  fields_of_step a b = ground (
    arith,
    step a b,
    step (a / 2) (b / 2),
    step (a % 4) (b % 4),
    step (a % 4 / 2) (b % 4 / 2),
    base,
  )

pub bit_and_fields : (a b : ℕ) → bit_and a b ≡ bit_and (a / 4) (b / 4) * 4 + bit_and (a % 4) (b % 4)
bit_and_fields = fields_of_step bit_and min bit_and_step refl

pub bit_or_fields : (a b : ℕ) → bit_or a b ≡ bit_or (a / 4) (b / 4) * 4 + bit_or (a % 4) (b % 4)
bit_or_fields = fields_of_step bit_or max bit_or_step refl

pub bit_xor_fields : (a b : ℕ) → bit_xor a b ≡ bit_xor (a / 4) (b / 4) * 4 + bit_xor (a % 4) (b % 4)
bit_xor_fields = fields_of_step bit_xor differ bit_xor_step refl

bit_and-zero_below : (bound x : ℕ) → x < bound → bit_and x 0 ≡ 0
bit_and-zero_below zero x lt = absurd (omega arith)
bit_and-zero_below (suc bound) zero lt = refl
bit_and-zero_below (suc bound) (suc x) lt =
    omega (arith, bit_and_step (suc x) 0, bit_and-zero_below bound (suc x / 2) (omega arith))

pub bit_and-zero : (a : ℕ) → bit_and a 0 ≡ 0
bit_and-zero a = bit_and-zero_below (suc a) a (omega arith)

-- An operation whose digits are kept by 0 keeps its left word.
module _ (op pick : ℕ → ℕ → ℕ)
    (low : (a b : ℕ) → op a b ≡ op (a / 2) (b / 2) * 2 + pick (a % 2) (b % 2))
    (keeps : (d : ℕ) → pick d 0 ≡ d) (base : op 0 0 ≡ 0) where
  right_zero_below : (bound x : ℕ) → x < bound → op x 0 ≡ x
  right_zero_below zero x lt = absurd (omega arith)
  right_zero_below (suc bound) zero lt = base
  right_zero_below (suc bound) (suc x) lt =
      let above : op (suc x / 2) 0 ≡ suc x / 2 = right_zero_below bound (suc x / 2) (omega arith) in
      omega (arith, low (suc x) 0, keeps (suc x % 2), above)

differ-zero : (d : ℕ) → differ d 0 ≡ d
differ-zero zero = refl
differ-zero (suc d) = refl

pub bit_or-zero : (a : ℕ) → bit_or a 0 ≡ a
bit_or-zero a =
    right_zero_below bit_or max bit_or_step (λ d. omega arith) refl (suc a) a (omega arith)

pub bit_xor-zero : (a : ℕ) → bit_xor a 0 ≡ a
bit_xor-zero a =
    right_zero_below bit_xor differ bit_xor_step differ-zero refl (suc a) a (omega arith)
