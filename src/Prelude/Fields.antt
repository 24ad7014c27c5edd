-- ===== src/Prelude/Fields.antt =====
-- A word as the list of its two-bit fields, lowest first.
use mathlib.Core.Path.{◌≡◌, refl, ap}
use mathlib.Core.List.{List, [], ◌∷◌}
use mathlib.Core.Option.{some}
use native.Mathlib.Omega.{arith}
use byte_buffer.Prelude.Bits.{
  bit_and_fields, bit_or_fields, bit_xor_fields, bit_and-zero, bit_or-zero, bit_xor-zero,
}
use byte_buffer.Prelude.Lists.{length, get_elem?, set}
use Prim.Native.Nat.{ℕ, zero, suc, ◌+◌, ◌*◌, ◌/◌, ◌%◌, ◌<◌, bit_and, bit_or, bit_xor}

abbrev pub pack : List ℕ → ℕ
pack [] = 0
pack (d ∷ ds) = pack ds * 4 + d

abbrev pub IsFields : List ℕ → Type 0
IsFields [] = Unit {0}
IsFields (d ∷ ds) = (d < 4) × IsFields ds

-- The lowest `n` fields of a word.
abbrev pub fields : ℕ → ℕ → List ℕ
fields zero w = []
fields (suc n) w = w % 4 ∷ fields n (w / 4)

abbrev pub pow4 : ℕ → ℕ
pow4 zero = 1
pow4 (suc i) = pow4 i * 4

pub fields-IsFields : (n w : ℕ) → IsFields (fields n w)
fields-IsFields zero w = tt
fields-IsFields (suc n) w = (omega arith, fields-IsFields n (w / 4))

pub length-fields : (n w : ℕ) → length (fields n w) ≡ n
length-fields zero w = refl
length-fields (suc n) w = ap suc (length-fields n (w / 4))

pub pack-fields : (n w : ℕ) → w < pow4 n → pack (fields n w) ≡ w
pack-fields zero w h = omega arith
pack-fields (suc n) w h = omega (arith, pack-fields n (w / 4) (omega arith))

pub pack-lt : (ds : List ℕ) → IsFields ds → pack ds < pow4 (length ds)
pack-lt [] h = omega arith
pack-lt (d ∷ ds) h = omega (arith, pack-lt ds h.1)

pub fields-pack : (ds : List ℕ) → IsFields ds → fields (length ds) (pack ds) ≡ ds
fields-pack [] h = refl
fields-pack (d ∷ ds) h = ground (arith, fields-pack ds h.1)

abbrev pub zip_with : (ℕ → ℕ → ℕ) → List ℕ → List ℕ → List ℕ
zip_with f [] ys = []
zip_with f (x ∷ xs) [] = []
zip_with f (x ∷ xs) (y ∷ ys) = f x y ∷ zip_with f xs ys

module _ (op : ℕ → ℕ → ℕ)
    (law : (a b : ℕ) → op a b ≡ op (a / 4) (b / 4) * 4 + op (a % 4) (b % 4)) where
  -- The law at a word that is given by its parts.
  at_parts : (a b d e : ℕ) → d < 4 → e < 4 → op (a * 4 + d) (b * 4 + e) ≡ op a b * 4 + op d e
  at_parts a b d e hd he = ground (arith, law (a * 4 + d) (b * 4 + e))

  zip_pack :
      op 0 0 ≡ 0
      → (xs ys : List ℕ) → IsFields xs
      → IsFields ys
      → length xs ≡ length ys
      → op (pack xs) (pack ys) ≡ pack (zip_with op xs ys)
  zip_pack base [] [] hx hy e = base
  zip_pack base [] (y ∷ ys) hx hy e = absurd (omega arith)
  zip_pack base (x ∷ xs) [] hx hy e = absurd (omega arith)
  zip_pack base (x ∷ xs) (y ∷ ys) hx hy e =
      ground (arith, at_parts (pack xs) (pack ys) x y, zip_pack base xs ys hx.1 hy.1)

  -- One field is changed, where a zero changes nothing.
  one_field :
      ((a : ℕ) → op a 0 ≡ a)
      → (ds : List ℕ) (i m d : ℕ) → IsFields ds
      → m < 4
      → get_elem? ds i ≡ some d
      → op (pack ds) (m * pow4 i) ≡ pack (set ds i (op d m))
  one_field base [] i m d h hm e = cc
  one_field base (x ∷ ds) zero m d h hm e = ground (arith, at_parts (pack ds) 0 x m, base (pack ds))
  one_field base (x ∷ ds) (suc i) m d h hm e =
      ground (arith, at_parts (pack ds) (m * pow4 i) x 0, base x, one_field base ds i m d h.1)

module _ (xs ys : List ℕ) (hx : IsFields xs) (hy : IsFields ys) (e : length xs ≡ length ys) where
  pub bit_and-pack : bit_and (pack xs) (pack ys) ≡ pack (zip_with bit_and xs ys)
  bit_and-pack = zip_pack bit_and bit_and_fields refl xs ys hx hy e

  pub bit_xor-pack : bit_xor (pack xs) (pack ys) ≡ pack (zip_with bit_xor xs ys)
  bit_xor-pack = zip_pack bit_xor bit_xor_fields refl xs ys hx hy e

module _ (ds : List ℕ) (i m d : ℕ) (h : IsFields ds) (hm : m < 4)
    (e : get_elem? ds i ≡ some d) where
  pub bit_or-field : bit_or (pack ds) (m * pow4 i) ≡ pack (set ds i (bit_or d m))
  bit_or-field = one_field bit_or bit_or_fields bit_or-zero ds i m d h hm e

  pub bit_xor-field : bit_xor (pack ds) (m * pow4 i) ≡ pack (set ds i (bit_xor d m))
  bit_xor-field = one_field bit_xor bit_xor_fields bit_xor-zero ds i m d h hm e

-- A test of one field reads that field.
pub bit_and-field :
    (ds : List ℕ) (i m d : ℕ)
    → IsFields ds
    → m < 4
    → get_elem? ds i ≡ some d
    → bit_and (pack ds) (m * pow4 i) ≡ bit_and d m * pow4 i
bit_and-field [] i m d h hm e = cc
bit_and-field (x ∷ ds) zero m d h hm e =
    ground (arith, at_parts bit_and bit_and_fields (pack ds) 0 x m, bit_and-zero (pack ds))
bit_and-field (x ∷ ds) (suc i) m d h hm e = ground (
  arith,
  at_parts bit_and bit_and_fields (pack ds) (m * pow4 i) x 0,
  bit_and-zero x,
  bit_and-field ds i m d h.1,
)

pub pow4-pos : (i : ℕ) → 0 < pow4 i
pow4-pos zero = omega arith
pow4-pos (suc i) = omega (arith, pow4-pos i)

pub get-IsFields : (ds : List ℕ) (i d : ℕ) → IsFields ds → get_elem? ds i ≡ some d → d < 4
get-IsFields [] i d h e = cc
get-IsFields (x ∷ ds) zero d h e = ground arith
get-IsFields (x ∷ ds) (suc i) d h e = get-IsFields ds i d h.1 e

pub set-IsFields : (ds : List ℕ) (i d : ℕ) → IsFields ds → d < 4 → IsFields (set ds i d)
set-IsFields [] i d h hd = tt
set-IsFields (x ∷ ds) zero d h hd = (hd, h.1)
set-IsFields (x ∷ ds) (suc i) d h hd = (h.0, set-IsFields ds i d h.1 hd)

-- Another field gives another word.
pub pack-set_injective :
    (ds : List ℕ) (i d x : ℕ) → get_elem? ds i ≡ some x → pack (set ds i d) ≡ pack ds → d ≡ x
pack-set_injective [] i d x e q = cc
pack-set_injective (y ∷ ds) zero d x e q = ground arith
pack-set_injective (y ∷ ds) (suc i) d x e q = pack-set_injective ds i d x e (omega arith)
