-- ===== src/Prelude/Modular.antt =====
-- Remainders of a running counter.
use Prim.Native.Nat.{ℕ, ◌+◌, ◌-◌, ◌%◌, ◌≤◌, ◌<◌}
use mathlib.Core.Path.{◌≡◌, sym, ◌∙◌}
use mathlib.Core.Logic.{◌≢◌, ◌⊎◌, inl, inr}
use native.Mathlib.Decide.{dec_lt, dec_le}
use native.Mathlib.Nat.{mod-add-mod, mod-eq_of_lt, mod-eq-sub-mod}
use native.Mathlib.Omega.{arith}

-- A number below twice the modulus.
pub mod_below : (x m : ℕ) → x < m → x % m ≡ x
mod_below x m h = mod-eq_of_lt h

pub mod_above : (x m : ℕ) → m ≤ x → x < m + m → x % m ≡ x - m
mod_above x m le lt = grind (arith, mod-eq-sub-mod, mod-eq_of_lt)

-- The sum of a remainder and a number up to the modulus wraps at most once.
pub add_wraps :
    (c j m : ℕ)
    → 0 < m
    → j < m
    → (((c % m + j < m) × ((c + j) % m ≡ c % m + j))
        ⊎ ((m ≤ c % m + j) × ((c + j) % m ≡ c % m + j - m)))
add_wraps c j m pos lt = elim (dec_lt (c % m + j) m) [
  | yes below ↦ inl (below, sym (mod-add-mod c m j) ∙ mod_below (c % m + j) m below)
  | no above ↦
      inr
        (omega arith, sym (mod-add-mod c m j) ∙ mod_above (c % m + j) m (omega arith) (omega arith))
]

-- A window shorter than the modulus does not reach the residue before its start.
pub window_ne : (c j m : ℕ) → j + 2 ≤ m → (c + j) % m ≢ (c + (m - 1)) % m
window_ne c j m h e = ground (arith, add_wraps c j m, add_wraps c (m - 1) m)

-- A window as long as the modulus reaches every residue.
pub window_reaches : (c k m : ℕ) → k < m → (j : ℕ) × (j < m) × ((c + j) % m ≡ k)
window_reaches c k m h = elim (dec_le (c % m) k) [
  | yes ahead ↦ (k - c % m, omega arith, ground (arith, add_wraps c (k - c % m) m))
  | no behind ↦ (k + m - c % m, omega arith, ground (arith, add_wraps c (k + m - c % m) m))
]
