-- ===== src/ByteBuffer/Vec.antt =====
-- `Vec<u8>` as the crate uses it: the bytes, and the capacity, which the crate reads.
use byte_buffer.Prelude.{
  ℕ, zero, suc, ◌+◌, ◌≤◌, ◌≡◌, refl, ap, List, [], ◌∷◌, arith, leb, if◌then◌else◌, length,
  replicate,
}

pub record Vec8 : Type 0 where
  pub bytes : List ℕ
  pub cap : ℕ

-- `vec::from_elem(0, n)`.
unfoldable pub zeroes : ℕ → Vec8
zeroes n = record { bytes = replicate n 0; cap = n }

abbrev pub take : ℕ → List ℕ → List ℕ
take zero xs = []
take (suc n) [] = []
take (suc n) (x ∷ xs) = x ∷ take n xs

unfoldable pub truncate : Vec8 → ℕ → Vec8
truncate v n = record v { bytes = take n v.bytes }

-- `reserve`: how far the allocator grows a vector of some capacity that must hold `n` bytes is
-- `grow capacity n`.
unfoldable pub reserve : (ℕ → ℕ → ℕ) → Vec8 → ℕ → Vec8
reserve grow v additional =
    let needed = length v.bytes + additional in
    if leb needed v.cap then v else record v { cap = grow v.cap needed }

-- `iter_mut().for_each(|val| *val = 0)`.
abbrev pub zero_all : List ℕ → List ℕ
zero_all [] = []
zero_all (x ∷ xs) = 0 ∷ zero_all xs

abbrev pub AllZero : List ℕ → Type 0
AllZero [] = Unit {0}
AllZero (x ∷ xs) = (x ≡ 0) × AllZero xs

pub zero_all-AllZero : (xs : List ℕ) → AllZero (zero_all xs)
zero_all-AllZero [] = tt
zero_all-AllZero (x ∷ xs) = (refl, zero_all-AllZero xs)

pub length-zero_all : (xs : List ℕ) → length (zero_all xs) ≡ length xs
length-zero_all [] = refl
length-zero_all (x ∷ xs) = ap suc (length-zero_all xs)

pub length-take-le_self : (n : ℕ) (xs : List ℕ) → length (take n xs) ≤ length xs
length-take-le_self zero xs = omega arith
length-take-le_self (suc n) [] = omega arith
length-take-le_self (suc n) (x ∷ xs) = omega (arith, length-take-le_self n xs)
