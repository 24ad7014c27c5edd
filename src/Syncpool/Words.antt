-- ===== src/Syncpool/Words.antt =====
-- Machine words as the crate uses them: u16 bitmaps and 64-bit usize counters.
use byte_buffer.Prelude.{ℕ, zero, suc, ◌+◌, ◌-◌, ◌*◌, ◌/◌, ◌%◌, ◌^◌, ◌<◌, ◌≡◌, arith}
use byte_buffer.Prelude.Fields.{pow4}

-- `x >> k`, and `x << k` on a u16.
abbrev pub shr : ℕ → ℕ → ℕ
shr x zero = x
shr x (suc k) = shr (x / 2) k

abbrev pub shl : ℕ → ℕ → ℕ
shl x k = x * 2 ^ k % 2 ^ 16

abbrev pub usize_mod : ℕ
usize_mod = 2 ^ 64

-- `fetch_add` and `fetch_sub` on an AtomicUsize wrap around.
abbrev pub wrapping_add : ℕ → ℕ → ℕ
wrapping_add a b = (a + b) % usize_mod

abbrev pub wrapping_sub : ℕ → ℕ → ℕ
wrapping_sub a b = (a + usize_mod - b) % usize_mod

-- A shift by `2 * pos` moves a two-bit field to slot `pos`.
pub shl_field : (m pos : ℕ) → m < 4 → pos < 8 → shl m (2 * pos) ≡ m * pow4 pos
shl_field m zero hm hp = omega arith
shl_field m (suc zero) hm hp = omega arith
shl_field m (suc (suc zero)) hm hp = omega arith
shl_field m (suc (suc (suc zero))) hm hp = omega arith
shl_field m (suc (suc (suc (suc zero)))) hm hp = omega arith
shl_field m (suc (suc (suc (suc (suc zero))))) hm hp = omega arith
shl_field m (suc (suc (suc (suc (suc (suc zero)))))) hm hp = omega arith
shl_field m (suc (suc (suc (suc (suc (suc (suc zero))))))) hm hp = omega arith
shl_field m (suc (suc (suc (suc (suc (suc (suc (suc pos)))))))) hm hp = absurd (omega arith)
