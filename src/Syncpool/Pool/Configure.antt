-- ===== src/Syncpool/Pool/Configure.antt =====
-- The expansion flag: what `allow_expansion` leaves in `configure` beside other threads that store
-- there too.
use byte_buffer.Prelude.{
  ℕ, zero, suc, ◌-◌, ◌/◌, ◌%◌, ◌<◌, ◌≡◌, refl, inl, inr, Bool, true, false, not, List, [], ◌∷◌,
  arith, bit_and, bit_xor, ltb, Bool-cases,
}
use byte_buffer.Prelude.Bits.{bit_xor_fields, bit_xor-zero}
use byte_buffer.Syncpool.Utils.CheckLen.{bit_and_one}
use byte_buffer.Syncpool.Pool.{SyncPool}
use byte_buffer.Syncpool.Pool.State.{expansion_enabled, config_allow_expansion}
use byte_buffer.Syncpool.Pool.Manager.{config_loop, update_config, allow_expansion}

-- The expansion flag of a configuration word.
abbrev pub flag : ℕ → Bool
flag c = ltb 0 (bit_and c config_allow_expansion)

flip_one_small : (d : ℕ) → d < 4 → bit_xor d 1 % 2 ≡ 1 - d % 2
flip_one_small zero h = refl
flip_one_small (suc zero) h = refl
flip_one_small (suc (suc zero)) h = refl
flip_one_small (suc (suc (suc zero))) h = refl
flip_one_small (suc (suc (suc (suc d)))) h = absurd (omega arith)

flip_one : (c : ℕ) → bit_xor c 1 % 2 ≡ 1 - c % 2
flip_one c =
    omega (arith, bit_xor_fields c 1, bit_xor-zero (c / 4), flip_one_small (c % 4) (omega arith))

flag-xor : (c : ℕ) → flag (bit_xor c config_allow_expansion) ≡ not (flag c)
flag-xor c = ground (arith, bit_and_one c, bit_and_one (bit_xor c 1), flip_one c)

-- The loop ends with the flag at its target, if that is not what it starts from.
config_loop-flag :
    (stores : List ℕ) (config current : ℕ) (target : Bool)
    → flag config ≡ not target
    → flag (config_loop stores config config_allow_expansion target current) ≡ target
unfolding config_loop
config_loop-flag [] config current true h = ground (arith, flag-xor config, flag-xor current)
config_loop-flag [] config current false h = ground (arith, flag-xor config, flag-xor current)
config_loop-flag (old ∷ stores) config current true h =
    ground (arith, flag-xor config, config_loop-flag stores old old true)
config_loop-flag (old ∷ stores) config current false h =
    ground (arith, flag-xor config, config_loop-flag stores old old false)

module _ {ℓ} {T : Type ℓ} (p : SyncPool T) (allow : Bool) where
  -- Whatever other threads store in `configure` while the compare-exchange loop runs,
  -- `allow_expansion` ends with the flag as it was asked for, if none of them stores between its
  -- test of the flag and the first load of the loop.
  pub allow_expansion-sets :
      (stores : List ℕ) → expansion_enabled (allow_expansion p allow [] stores) ≡ allow
  unfolding allow_expansion update_config expansion_enabled
  allow_expansion-sets stores = elim (Bool-cases allow) [
    | inl on ↦ ground (arith, config_loop-flag stores p.configure p.configure true)
    | inr off ↦ ground (arith, config_loop-flag stores p.configure p.configure false)
  ]

  -- If the flag is not as asked for, another thread stores a word with the flag as asked for
  -- between the test and the first load of the loop, and none stores later, `allow_expansion` flips
  -- the flag back.
  pub allow_expansion-races :
      (v : ℕ)
      → expansion_enabled p ≡ not allow
      → flag v ≡ allow
      → expansion_enabled (allow_expansion p allow (v ∷ []) []) ≡ not allow
  unfolding allow_expansion update_config expansion_enabled config_loop
  allow_expansion-races v before raced = ground (arith, flag-xor v)
