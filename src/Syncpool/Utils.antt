-- ===== src/Syncpool/Utils.antt =====
-- syncpool/src/utils.rs: the bitmap of a bucket. Slot `pos` has bit 2 * pos (the slot is full) and
-- bit 2 * pos + 1 (somebody is at the slot). `Err(())` is `none`.
pub mod Enter
pub mod States
pub mod CheckLen
pub mod Tests
use byte_buffer.Prelude.{
  ℕ, zero, suc, ◌+◌, ◌*◌, ◌/◌, ◌%◌, Bool, true, false, Option, none, some, bit_and, bit_or, bit_xor,
  ltb, ◌==◌, if◌then◌else◌,
}
use byte_buffer.Syncpool.Words.{shr, shl}

abbrev pub get_mask : ℕ
get_mask = 0b1010_1010_1010_1010

abbrev pub put_mask : ℕ
put_mask = 0b1111_1111_1111_1111

abbrev pub full_flag : ℕ
full_flag = 0b0101_0101_0101_0101

-- `u16::trailing_zeros`, over the bits left to look at.
unfoldable pub zeros_from : ℕ → ℕ → ℕ
zeros_from zero w = 0
zeros_from (suc bits) w = let more = suc (zeros_from bits (w / 2)) in if w % 2 == 1 then 0 else more

unfoldable pub trailing_zeros : ℕ → ℕ
trailing_zeros w = zeros_from 16 w

-- The loop of `check_len`; each round drops one of the eight fields.
unfoldable pub count_loop : ℕ → ℕ → ℕ → ℕ
count_loop zero base count = count
count_loop (suc fuel) base count =
    let rest = count_loop fuel (shr base 2) (if bit_and base 1 == 1 then count + 1 else count) in
    if base == 0 then count else rest

unfoldable pub check_len : ℕ → ℕ
check_len src =
    let base = bit_and src full_flag in
    if base == 0 then 0 else if base == full_flag then 8 else count_loop 8 base 0

-- The last loop of `enter`; each round drops one of the eight fields.
unfoldable pub scan : ℕ → ℕ → ℕ → Option ℕ
scan zero base pos = none
scan (suc fuel) base pos =
    let rest = scan fuel (shr base 2) (pos + 1) in
    if base == 0 then none else if bit_and base 0b11 == 0b11 then some pos else rest

-- From the starting point on: what `enter` does once `base` is known.
unfoldable pub scan_from_start : ℕ → Option ℕ
scan_from_start base =
    let val = trailing_zeros (bit_and base put_mask) in
    if ltb 14 val
    then none
    else if val % 2 == 1
    then scan 8 (shr base (val + 1)) ((val + 1) / 2)
    else scan 8 (shr base val) (val / 2)

unfoldable pub enter : ℕ → Bool → Option ℕ
enter src true = if src == 0 then none else scan_from_start (bit_xor src get_mask)
enter src false = if src == full_flag then none else scan_from_start (bit_xor src put_mask)

unfoldable pub in_state : ℕ → ℕ → Option ℕ
in_state origin pad_pos =
    let next = bit_or origin (shl 0b10 pad_pos) in if next == origin then none else some next

unfoldable pub out_state : ℕ → ℕ → Option ℕ
out_state origin pad_pos =
    if bit_and origin (shl 0b10 pad_pos) == 0
    then none
    else some (bit_xor origin (shl 0b11 pad_pos))

unfoldable pub exit : ℕ → ℕ → Option ℕ
exit src pos = out_state src (2 * pos)
