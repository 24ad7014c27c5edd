-- ===== src/Syncpool/Utils/CheckLen.antt =====
-- `check_len` counts the full slots of a bitmap.
use byte_buffer.Prelude.{
  ℕ, zero, suc, ◌+◌, ◌*◌, ◌/◌, ◌%◌, ◌^◌, ◌≤◌, ◌<◌, ◌≡◌, refl, ap, ◌∙◌, subst, List, [], ◌∷◌, arith,
  bit_and, length, replicate,
}
use byte_buffer.Prelude.Bits.{bit_and_fields, bit_and-zero}
use byte_buffer.Prelude.Fields.{
  pack, IsFields, fields, zip_with, fields-IsFields, length-fields, pack-fields, fields-pack,
  bit_and-pack,
}
use byte_buffer.Syncpool.Utils.{full_flag, count_loop, check_len}

-- The number of fields whose low bit says that the slot holds an element.
abbrev pub count_full : List ℕ → ℕ
count_full [] = 0
count_full (d ∷ ds) = d % 2 + count_full ds

bit_and_one_small : (d : ℕ) → d < 4 → bit_and d 1 ≡ d % 2
bit_and_one_small zero h = refl
bit_and_one_small (suc zero) h = refl
bit_and_one_small (suc (suc zero)) h = refl
bit_and_one_small (suc (suc (suc zero))) h = refl
bit_and_one_small (suc (suc (suc (suc d)))) h = absurd (omega arith)

pub bit_and_one : (x : ℕ) → bit_and x 1 ≡ x % 2
bit_and_one x = omega (arith, bit_and_fields x 1, bit_and-zero (x / 4), bit_and_one_small (x % 4))

-- What is left of a bitmap under `FULL_FLAG`.
abbrev flags : List ℕ → List ℕ
flags [] = []
flags (d ∷ ds) = d % 2 ∷ flags ds

and_ones : (ds : List ℕ) → IsFields ds → zip_with bit_and ds (replicate (length ds) 1) ≡ flags ds
and_ones [] h = refl
and_ones (d ∷ ds) h = ground (arith, bit_and_one_small d, and_ones ds h.1)

ones-IsFields : (n : ℕ) → IsFields (replicate n 1)
ones-IsFields zero = tt
ones-IsFields (suc n) = (omega arith, ones-IsFields n)

flags-IsFields : (ds : List ℕ) → IsFields (flags ds)
flags-IsFields [] = tt
flags-IsFields (d ∷ ds) = (omega arith, flags-IsFields ds)

length-flags : (ds : List ℕ) → length (flags ds) ≡ length ds
length-flags [] = refl
length-flags (d ∷ ds) = ap suc (length-flags ds)

count-flags : (ds : List ℕ) → count_full (flags ds) ≡ count_full ds
count-flags [] = refl
count-flags (d ∷ ds) = omega (arith, count-flags ds)

none_full : (ds : List ℕ) → pack (flags ds) ≡ 0 → count_full ds ≡ 0
none_full [] h = refl
none_full (d ∷ ds) h = omega (arith, none_full ds)

count_loop-count :
    (fuel : ℕ) (ds : List ℕ) (count : ℕ)
    → length ds ≤ fuel
    → count_loop fuel (pack (flags ds)) count ≡ count + count_full ds
unfolding count_loop
count_loop-count zero [] count le = omega arith
count_loop-count zero (d ∷ ds) count le = absurd (omega arith)
count_loop-count (suc fuel) [] count le = omega arith
count_loop-count (suc fuel) (d ∷ ds) count le = ground (
  arith,
  bit_and_one (pack (flags ds) * 4 + d % 2),
  none_full (d ∷ ds),
  let upper : (pack (flags ds) * 4 + d % 2) / 2 / 2 ≡ pack (flags ds) = omega arith in upper,
  count_loop-count fuel ds count,
  count_loop-count fuel ds (count + 1),
)

module _ (ds : List ℕ) (h : IsFields ds) (e : length ds ≡ 8) where
  under_flag : bit_and (pack ds) full_flag ≡ pack (flags ds)
  under_flag =
      bit_and-pack ds (replicate 8 1) h (ones-IsFields 8) e
      ∙ ap pack (subst (λ n. zip_with bit_and ds (replicate n 1) ≡ flags ds) e (and_ones ds h))

  all_full : pack (flags ds) ≡ full_flag → count_full ds ≡ 8
  all_full q =
      let whole : fields (length (flags ds)) (pack (flags ds)) ≡ flags ds =
        fields-pack (flags ds) (flags-IsFields ds) in
      let flag : fields 8 full_flag ≡ flags ds =
        rw q at (subst (λ n. fields n (pack (flags ds)) ≡ flags ds) (length-flags ds ∙ e) whole) in
      omega (arith, count-flags ds, ap count_full flag)

  check_len-pack : check_len (pack ds) ≡ count_full ds
  unfolding check_len
  check_len-pack = ground (arith, under_flag, none_full ds, all_full, count_loop-count 8 ds 0)

-- For every bitmap of 16 bits, `check_len` is the number of slots whose element bit is set: its two
-- early answers and its loop of at most eight rounds agree with the count.
pub check_len-count : (src : ℕ) → src < 2 ^ 16 → check_len src ≡ count_full (fields 8 src)
check_len-count src h =
    subst (λ w. check_len w ≡ count_full (fields 8 src)) (pack-fields 8 src h)
      (check_len-pack (fields 8 src) (fields-IsFields 8 src) (length-fields 8 src))
