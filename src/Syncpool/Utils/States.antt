-- ===== src/Syncpool/Utils/States.antt =====
-- `in_state`, `out_state` and `exit` change one slot's two bits and nothing else.
use byte_buffer.Prelude.{
  ℕ, ◌+◌, ◌-◌, ◌*◌, ◌<◌, ◌≡◌, refl, zero, suc, none, some, List, arith, bit_and, bit_or, bit_xor,
  ltb, if◌then◌else◌, length, get_elem?, set, set_self, get_elem?-lt,
}
use byte_buffer.Prelude.Fields.{
  pack, IsFields, pow4, bit_or-field, bit_xor-field, bit_and-field, get-IsFields,
  pack-set_injective, pow4-pos,
}
use byte_buffer.Syncpool.Words.{shl, shl_field}
use byte_buffer.Syncpool.Utils.{in_state, out_state, exit}

-- The two bits of a slot that is locked, and of one that is left by `fetch_xor(0b11)`.
abbrev pub lock : ℕ → ℕ
lock d = bit_or d 0b10

abbrev pub flip : ℕ → ℕ
flip d = bit_xor d 0b11

pub lock_cases : (d : ℕ) → d < 4 → lock d ≡ (if ltb d 2 then d + 2 else d)
lock_cases zero h = refl
lock_cases (suc zero) h = refl
lock_cases (suc (suc zero)) h = refl
lock_cases (suc (suc (suc zero))) h = refl
lock_cases (suc (suc (suc (suc d)))) h = absurd (omega arith)

pub lock_bit : (d : ℕ) → d < 4 → bit_and d 0b10 ≡ (if ltb d 2 then 0 else 2)
lock_bit zero h = refl
lock_bit (suc zero) h = refl
lock_bit (suc (suc zero)) h = refl
lock_bit (suc (suc (suc zero))) h = refl
lock_bit (suc (suc (suc (suc d)))) h = absurd (omega arith)

pub flip_cases : (d : ℕ) → d < 4 → flip d ≡ 3 - d
flip_cases zero h = refl
flip_cases (suc zero) h = refl
flip_cases (suc (suc zero)) h = refl
flip_cases (suc (suc (suc zero))) h = refl
flip_cases (suc (suc (suc (suc d)))) h = absurd (omega arith)

module _ (ds : List ℕ) (h : IsFields ds) (e : length ds ≡ 8) (pos d : ℕ)
    (at : get_elem? ds pos ≡ some d) where
  in_range : (pos < 8) × (d < 4)
  in_range = omega (arith, get_elem?-lt ds pos at, get-IsFields ds pos d h at)

  pub or_lock : bit_or (pack ds) (shl 0b10 (2 * pos)) ≡ pack (set ds pos (lock d))
  or_lock =
      rw (shl_field 2 pos (omega arith) in_range.0) (bit_or-field ds pos 2 d h (omega arith) at)

  pub and_lock : bit_and (pack ds) (shl 0b10 (2 * pos)) ≡ (if ltb d 2 then 0 else 2 * pow4 pos)
  and_lock =
      rw (shl_field 2 pos (omega arith) in_range.0)
        (ground (arith, bit_and-field ds pos 2 d h, lock_bit d in_range.1))

  pub xor_flip : bit_xor (pack ds) (shl 0b11 (2 * pos)) ≡ pack (set ds pos (flip d))
  xor_flip =
      rw (shl_field 3 pos (omega arith) in_range.0) (bit_xor-field ds pos 3 d h (omega arith) at)

  -- At each slot of a bitmap of eight fields `exit` unlocks a locked slot and flips its other bit;
  -- an unlocked slot is an error.
  exit-pack : exit (pack ds) pos ≡ (if ltb d 2 then none else some (pack (set ds pos (flip d))))
  unfolding exit out_state
  exit-pack = ground (arith, and_lock, xor_flip, pow4-pos pos)

  -- At each slot of a bitmap of eight fields `in_state` locks an unlocked slot and leaves its other
  -- bit; a locked slot is an error.
  in_state-pack :
      in_state (pack ds) (2 * pos) ≡ (if ltb d 2 then some (pack (set ds pos (d + 2))) else none)
  unfolding in_state
  in_state-pack = ground (
    arith,
    or_lock,
    lock_cases d in_range.1,
    set_self ds pos d at,
    pack-set_injective ds pos (d + 2) d at,
  )
