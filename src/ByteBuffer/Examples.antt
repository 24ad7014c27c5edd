-- ===== src/ByteBuffer/Examples.antt =====
-- The theorems about byte_buffer at concrete pools and slices.
use byte_buffer.Prelude.{ℕ, ◌+◌, ◌≡◌, refl, Bool, true, false, none, some, [], ◌∷◌}
use byte_buffer.ByteBuffer.Vec.{Vec8, AllZero}
use byte_buffer.ByteBuffer.Lock.{lock, failed, timed_out, lock-always_fails}
use byte_buffer.ByteBuffer.Pool.{
  Globals, BufferPool, done, exec, reset, run_op, reserve_op, release_op,
}
use byte_buffer.ByteBuffer.Pool.Facts.{ResetOutcome, reset-outcome}
use byte_buffer.ByteBuffer.Pool.Ops.{OpOutcome, run_op-outcome}
use byte_buffer.ByteBuffer.Manager
use byte_buffer.ByteBuffer.Manager.{BufferSlice, slice, try_slice, extend_pool, read}
use byte_buffer.ByteBuffer.Manager.Broken.{stuck, exec-does_nothing}
use byte_buffer.ByteBuffer.Manager.Slices.{written, read-written, first_buffer, reset-wipes_first}

-- The allocator doubles.
abbrev doubling : ℕ → ℕ → ℕ
doubling cap needed = cap + needed

abbrev free : ℕ → Bool
free count = false

abbrev two_bytes : Vec8
two_bytes = record { bytes = 8 ∷ 9 ∷ []; cap = 2 }

abbrev small_pool : BufferPool
small_pool = record {
  store = two_bytes ∷ two_bytes ∷ [];
  slice_capacity = 2;
  closing = false;
  barrier = false;
  visitors = 0;
}

abbrev small : Globals
small = record { buffer = some small_pool; size_cap = 512; lock_flag = false; sent = [] }

abbrev pooled : BufferSlice
pooled = record { id = 1; fallback = none; dirty = false }

abbrev own : BufferSlice
own = record { id = 0; fallback = some two_bytes; dirty = true }

lock-always_fails_example : lock free ≡ (true, failed timed_out)
lock-always_fails_example = lock-always_fails free

exec-does_nothing_example : exec doubling free small (reserve_op true) ≡ (stuck small, done none)
exec-does_nothing_example = exec-does_nothing doubling free small (reserve_op true)

reset-outcome_example : ResetOutcome doubling small_pool 1 (reset doubling small_pool 1)
reset-outcome_example = reset-outcome doubling small_pool 1

run_op-outcome_example :
    OpOutcome small_pool 512
      (release_op 1 true)
      (run_op doubling small_pool 512 (release_op 1 true))
run_op-outcome_example = run_op-outcome doubling small_pool 512 (release_op 1 true)

read-written_example :
    (read (written small pooled two_bytes).0 (written small pooled two_bytes).1 ≡ some two_bytes)
    × ((written small pooled two_bytes).1.dirty ≡ true)
read-written_example = read-written small pooled two_bytes

reset-wipes_first_example :
    (g' : Globals) × (s' : BufferSlice) × (w : Vec8) × (Manager.reset doubling small own
      ≡ done (g', s'))
    × (first_buffer g' ≡ some w)
    × AllZero w.bytes
reset-wipes_first_example =
    reset-wipes_first doubling small own small_pool refl refl refl two_bytes two_bytes refl refl
