-- ===== src/ByteBuffer/Lock.antt =====
-- byte_buffer/src/lock.rs: the spin lock over the static `LOCK`.
use byte_buffer.Prelude.{ℕ, zero, suc, ◌+◌, ◌≡◌, Bool, true, false, arith, ltb, if◌then◌else◌}

-- The kinds of `std::io::ErrorKind` that the crate uses.
pub data ErrorKind : Type 0 where
  timed_out not_connected invalid_data : ErrorKind

-- `compare_exchange` returns the value that it found, as `Ok` if it has replaced it.
pub data Exchange : Type 0 where
  exchanged : Bool → Exchange
  kept : Bool → Exchange

-- The value after `compare_exchange(false, true)` at a value, and its result.
unfoldable pub compare_exchange : Bool → Bool × Exchange
compare_exchange false = (true, exchanged false)
compare_exchange true = (true, kept true)

abbrev pub lock_timeout : ℕ
lock_timeout = 64

pub data LockResult : Type 0 where
  locked : LockResult
  failed : ErrorKind → LockResult
  looping : LockResult

-- `if let Ok(true)`.
abbrev pub is_ok_true : Exchange → Bool
is_ok_true (exchanged b) = b
is_ok_true (kept b) = false

-- The loop of `lock`. `found count` is the value of `LOCK` that attempt `count` meets, whatever
-- other threads have stored before it. `looping` is a loop that the fuel did not see end.
unfoldable pub lock_loop : ℕ → (ℕ → Bool) → ℕ → Bool × LockResult
lock_loop zero found count = (found count, looping)
lock_loop (suc fuel) found count =
    let (after, result) = compare_exchange (found count) in
    let again = lock_loop fuel found (count + 1) in
    if is_ok_true result
    then (after, locked)
    else if ltb lock_timeout count
    then (after, failed timed_out)
    else again

-- The value of `LOCK` after the call, and its result. The loop makes at most 65 attempts.
unfoldable pub lock : (ℕ → Bool) → Bool × LockResult
lock found = lock_loop 65 found 1

lock_loop-fails :
    (fuel count : ℕ) (found : ℕ → Bool)
    → suc fuel + count ≡ 66
    → lock_loop (suc fuel) found count ≡ (true, failed timed_out)
unfolding lock_loop compare_exchange
lock_loop-fails zero count found e = ground arith
lock_loop-fails (suc fuel) count found e = ground (arith, lock_loop-fails fuel (count + 1) found)

-- Whatever `LOCK` holds at each of its attempts, `lock` ends with an error, at its timeout, and
-- leaves `LOCK` set: an exchange that succeeds returns `Ok(false)`, and the code waits for
-- `Ok(true)`.
pub lock-always_fails : (found : ℕ → Bool) → lock found ≡ (true, failed timed_out)
unfolding lock
lock-always_fails found = lock_loop-fails 64 1 found (omega arith)
