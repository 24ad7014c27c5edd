-- ===== src/Syncpool/Utils/Tests.antt =====
-- The crate's own tests of `enter`, `utils_test::access_pass` and `access_deny`, and more.
use byte_buffer.Prelude.{◌≡◌, refl, true, false, none, some}
use byte_buffer.Syncpool.Utils.{
  enter, scan_from_start, scan, trailing_zeros, zeros_from, exit, out_state, check_len, count_loop,
}

access_pass :
    (enter 0b0101010001010100 false ≡ some 0)
    × (enter 0b0101010001010100 true ≡ some 1)
    × (enter 0b0101010001010101 false ≡ some 4)
    × (enter 0b0101010001010101 true ≡ some 0)
    × (enter 0b0101010001010111 false ≡ some 4)
    × (enter 0b0101010001010111 true ≡ some 1)
    × (enter 0b0101010001011011 false ≡ some 4)
    × (enter 0b0101010001011011 true ≡ some 2)
unfolding enter scan_from_start scan trailing_zeros zeros_from
access_pass = (refl, refl, refl, refl, refl, refl, refl, refl)

access_deny :
    (enter 0b0010000000000000 false ≡ some 0)
    × (enter 0b0010000000000000 true ≡ none)
    × (enter 0b0111010101010111 false ≡ none)
    × (enter 0b0111010101010111 true ≡ some 1)
unfolding enter scan_from_start scan trailing_zeros zeros_from
access_deny = (refl, refl, refl, refl)

exit_pass : (exit 0b1011 0 ≡ some 0b1000) × (exit 0b1011 2 ≡ none) × (check_len 0b0111 ≡ 2)
unfolding exit out_state check_len count_loop
exit_pass = (refl, refl, refl)
