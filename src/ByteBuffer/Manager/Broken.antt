-- ===== src/ByteBuffer/Manager/Broken.antt =====
-- What the failing lock makes of the crate's entry points.
use byte_buffer.Prelude.{ℕ, ◌≡◌, Bool, true, false, none, some, arith}
use byte_buffer.ByteBuffer.Vec.{zeroes}
use byte_buffer.ByteBuffer.Lock.{lock-always_fails}
use byte_buffer.ByteBuffer.Pool.{Globals, BufOp, done, exec, default_capacity}
use byte_buffer.ByteBuffer.Manager.{slice, try_slice, extend_pool}

-- The statics with the lock set.
abbrev pub stuck : Globals → Globals
stuck g = record g { lock_flag = true }

module _ (grow : ℕ → ℕ → ℕ) (found : ℕ → Bool) (g : Globals) where
  -- No command is ever carried out: `exec` returns `None`, and all it changes is that the lock is
  -- set, whatever the lock holds before and whatever other threads do to it meanwhile.
  pub exec-does_nothing : (command : BufOp) → exec grow found g command ≡ (stuck g, done none)
  unfolding exec
  exec-does_nothing command = ground (arith, lock-always_fails found)

  -- `slice` never hands out a buffer of the pool, but a fallback of zeroes, `try_slice` never hands
  -- out anything, and `extend` adds nothing; the pool stays as it is.
  slices-are_fallbacks :
      (slice grow found g ≡ (
        stuck g,
        done (record { id = 0; fallback = some (zeroes (default_capacity g)); dirty = false }),
      ))
      × (try_slice grow found g ≡ (stuck g, done none))
      × ((n : ℕ) → extend_pool grow found g n ≡ (stuck g, done none))
  unfolding slice try_slice extend_pool default_capacity
  slices-are_fallbacks = (
    ground (arith, exec-does_nothing (BufOp.reserve_op true)),
    ground (arith, exec-does_nothing (BufOp.reserve_op false)),
    λ n. exec-does_nothing (BufOp.extend_op n),
  )
