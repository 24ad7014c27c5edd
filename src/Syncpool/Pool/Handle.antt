-- ===== src/Syncpool/Pool/Handle.antt =====
-- When `reset_handle` gets to set the handle.
use byte_buffer.Prelude.{
  ℕ, zero, suc, ◌+◌, ◌≤◌, ◌≡◌, refl, Bool, true, false, not, ◌||◌, some, List, [], ◌∷◌, arith,
  length, if◌then◌else◌,
}
use byte_buffer.Syncpool.Words.{wrapping_sub}
use byte_buffer.Syncpool.Pool.{SyncPool}
use byte_buffer.Syncpool.Pool.Manager.{raise_barrier, set_reset_handle}

-- Some entry of the first `n` says that the time is over.
abbrev pub late_within : ℕ → List Bool → Bool
late_within zero attempts = false
late_within (suc n) [] = false
late_within (suc n) (late ∷ attempts) = late || late_within n attempts

-- From the fifth failure on the clock is not read, until the count wraps.
patient :
    (count : ℕ) (attempts : List Bool)
    → count ≤ 4
    → length attempts ≤ count
    → raise_barrier attempts count ≡ true
unfolding raise_barrier
patient count [] small fits = refl
patient zero (late ∷ attempts) small fits = absurd (omega arith)
patient (suc count) (late ∷ attempts) small fits =
    let less : wrapping_sub (suc count) 1 ≡ count = omega arith in
    ground (arith, less, patient count attempts)

raise_barrier-late :
    (n : ℕ) (attempts : List Bool)
    → n ≤ 4
    → length attempts ≤ 4 + n
    → raise_barrier attempts (4 + n) ≡ not (late_within n attempts)
unfolding raise_barrier
raise_barrier-late zero attempts small fits = patient 4 attempts (omega arith) fits
raise_barrier-late (suc n) [] small fits = refl
raise_barrier-late (suc n) (late ∷ attempts) small fits =
    let less : wrapping_sub (4 + suc n) 1 ≡ 4 + n = omega arith in
    ground (arith, less, raise_barrier-late n attempts)

module _ {ℓ} {T : Type ℓ} (p : SyncPool T) (handle : T → T) where
  -- While at most eight attempts to raise the barrier fail, `reset_handle` sets the handle and
  -- lowers the barrier unless the time is over at one of the first four failures: then it gives up
  -- and the pool stays as it is. A time that is over at one of the next four does not make it give
  -- up.
  pub set_reset_handle-outcome :
      (attempts : List Bool)
      → length attempts ≤ 8
      → set_reset_handle p handle attempts ≡ (
          if late_within 4 attempts
          then p
          else record p { reset_handle = some handle; barrier = false })
  unfolding set_reset_handle
  set_reset_handle-outcome attempts fits =
      ground (arith, raise_barrier-late 4 attempts (omega arith) fits)
