-- ===== src/Syncpool/Concurrent/Exclusion.antt =====
-- What the lock bits of a bucket give to the threads at it.
use byte_buffer.Prelude.{
  ℕ, ◌*◌, ◌<◌, ◌≡◌, ◌↔◌, ap, Bool, true, not, Option, some, bit_and, arith, get_elem?-of_lt, ◌==◌,
}
use byte_buffer.Prelude.Fields.{pow4-pos}
use byte_buffer.Syncpool.Words.{shl}
use byte_buffer.Syncpool.Utils.States.{and_lock}
use byte_buffer.Syncpool.Bucket2.{Bucket2}
use byte_buffer.Syncpool.Bucket2.Quiet.{IsQuiet}
use byte_buffer.Syncpool.Concurrent.{Task, idle, leaving, advance, System, turn, Reach}
use byte_buffer.Syncpool.Concurrent.Turns.{try_leave-pack}
use byte_buffer.Syncpool.Concurrent.Locks.{owns, Reach-LocksHold}

-- The test of the lock bit of a slot, as `access` makes it.
abbrev pub is_locked : ℕ → ℕ → Bool
is_locked bitmap pos = not (bit_and bitmap (shl 0b10 (2 * pos)) == 0)

module _ {ℓ} {T : Type ℓ} (reset : Option (T → T)) (b : Bucket2 T) (q : IsQuiet b) {s : System T}
    (r : Reach reset b s) where
  open (Reach-LocksHold reset b q r) use {ds, packed, small, eight, in_range, held, unique, owned}

  -- However the threads at a bucket that nobody was at take turns, no two of them are ever at the
  -- same slot.
  pub mutual_exclusion : (i j pos : ℕ) → owns (s.pc i) ≡ some pos → owns (s.pc j) ≡ some pos → i ≡ j
  mutual_exclusion = unique

  -- At every state that the turns of threads lead to from a bucket that nobody was at, a slot is
  -- locked exactly while some thread is at it: none is left locked.
  pub locked_iff_owned :
      (pos : ℕ)
      → pos < 8
      → (is_locked s.bucket.bitmap pos ≡ true) ↔ ((i : ℕ) × (owns (s.pc i) ≡ some pos))
  locked_iff_owned pos lt =
      let (d, at) = get_elem?-of_lt ds pos (omega (arith, eight)) in
      let bit = and_lock ds small eight pos d at in
      let bits = pow4-pos pos in
      (
        λ set. owned pos d at (ground (arith, packed, bit)),
        λ own. let locked = held own.0 pos d own.1 at in ground (arith, packed, bit, bits),
      )

  -- At every state that the turns of threads lead to from a bucket that nobody was at, a thread
  -- that is about to leave its slot has left it after one round of the loop.
  pub leave_in_one_round :
      (i pos : ℕ) (next : Task T) → s.pc i ≡ leaving pos → (turn reset i next s).pc i ≡ idle
  unfolding turn advance
  leave_in_one_round i pos next e =
      let own : owns (s.pc i) ≡ some pos = ap owns e in
      let (d, at) = get_elem?-of_lt ds pos (omega (arith, eight, in_range i pos own)) in
      let left = try_leave-pack s.bucket ds small eight packed pos d at (held i pos d own at) in
      ground (arith, left)
