-- ===== src/Syncpool/Calls/Exclusion.antt =====
-- Which slots of which buckets the threads of a pool are at.
use byte_buffer.Prelude.{
  ℕ, ◌≡◌, ◌<◌, Option, none, some, arith, length, get_elem?-of_lt, Option-cases, inl, inr,
}
use byte_buffer.Syncpool.Concurrent.Locks.{owns}
use byte_buffer.Syncpool.Concurrent.Exclusion.{mutual_exclusion}
use byte_buffer.Syncpool.Pool.{SyncPool}
use byte_buffer.Syncpool.Pool.Elements.{AllQuiet, get-AllQuiet}
use byte_buffer.Syncpool.Calls.{
  Spot, away, counting, testing, entering, starting, at_bucket, marking, quitting, settling,
  moving_on, returning, Threads, Runs,
}
use byte_buffer.Syncpool.Calls.Bounds.{InBounds, Runs-InBounds}
use byte_buffer.Syncpool.Calls.Shadow.{pc_at, Runs-Reach}

module _ {ℓ} {T : Type ℓ} where
  -- The bucket and the slot that a thread has locked and not left.
  abbrev pub stands_at : Spot T → Option (ℕ × ℕ)
  stands_at (at_bucket task trials pos pc) = elim (owns pc) [ none ↦ none | some i ↦ some (pos, i) ]
  stands_at (marking val trials pos i) = some (pos, i)
  stands_at (quitting answer pos i) = some (pos, i)
  stands_at away = none
  stands_at counting = none
  stands_at (testing task) = none
  stands_at (entering task) = none
  stands_at (starting task) = none
  stands_at (settling val pos) = none
  stands_at (moving_on task trials) = none
  stands_at (returning answer) = none

  owns-pc_at :
      (spot : Spot T) (k i : ℕ) → stands_at spot ≡ some (k, i) → owns (pc_at k spot) ≡ some i
  owns-pc_at (at_bucket task trials pos pc) k i e = elim (Option-cases (owns pc)) [
    | inl nothing ↦ ground (arith, nothing)
    | inr (slot, here) ↦ let same : pos ≡ k = ground arith in ground (arith, same)
  ]
  owns-pc_at (marking val trials pos slot) k i e = ground arith
  owns-pc_at (quitting answer pos slot) k i e = ground arith
  owns-pc_at away k i e = cc
  owns-pc_at counting k i e = cc
  owns-pc_at (testing task) k i e = cc
  owns-pc_at (entering task) k i e = cc
  owns-pc_at (starting task) k i e = cc
  owns-pc_at (settling val pos) k i e = cc
  owns-pc_at (moving_on task trials) k i e = cc
  owns-pc_at (returning answer) k i e = cc

  in_range :
      (cap : ℕ) (spot : Spot T) (k i : ℕ)
      → InBounds cap spot
      → stands_at spot ≡ some (k, i)
      → k < cap
  in_range cap (at_bucket task trials pos pc) k i (some_left, lt) e =
      elim (Option-cases (owns pc)) [
        | inl nothing ↦ ground (arith, nothing)
        | inr (slot, here) ↦ ground (arith, here)
      ]
  in_range cap (marking val trials pos slot) k i (some_left, lt) e = ground arith
  in_range cap (quitting answer pos slot) k i lt e = ground arith
  in_range cap away k i h e = cc
  in_range cap counting k i h e = cc
  in_range cap (testing task) k i h e = cc
  in_range cap (entering task) k i h e = cc
  in_range cap (starting task) k i h e = cc
  in_range cap (settling val pos) k i h e = cc
  in_range cap (moving_on task trials) k i h e = cc
  in_range cap (returning answer) k i h e = cc

  -- However the threads of a pool take turns, from a pool that has a bucket and whose buckets nobody
  -- was at, no two threads are ever at the same slot of the same bucket.
  pub pool_exclusion :
      (p : SyncPool T)
      → 0 < length p.slots
      → AllQuiet p.slots
      → {s : Threads T} → Runs p s
      → (i j k slot : ℕ) → stands_at (s.spot i) ≡ some (k, slot)
      → stands_at (s.spot j) ≡ some (k, slot)
      → i ≡ j
  pool_exclusion p some_bucket quiet {s} r i j k slot ei ej =
      let (size, bounds) = Runs-InBounds p some_bucket r in
      let below = in_range (length p.slots) (s.spot i) k slot (bounds i) ei in
      let (b, at) = get_elem?-of_lt p.slots k below in
      let (x, here, seen) = Runs-Reach p k b at r in
      mutual_exclusion p.reset_handle b (get-AllQuiet p.slots k quiet at) seen i j slot
        (owns-pc_at (s.spot i) k slot ei) (owns-pc_at (s.spot j) k slot ej)
