-- ===== src/Syncpool/Calls/Bounds.antt =====
-- The indices and the counters of trials of the threads in `get` and `put`.
use byte_buffer.Prelude.{
  ℕ, ◌-◌, ◌%◌, ◌≡◌, ◌<◌, ◌≤◌, refl, ◌∙◌, ◌==◌, true, false, arith, length, length-set,
  get_elem?-of_lt, Bool-cases, inl, inr, if◌then◌else◌,
}
use byte_buffer.Syncpool.Concurrent.{
  Task, getting, putting, Pc, idle, scanning, locking, inside, using, leaving, update, try_leave,
  advance,
}
use byte_buffer.Syncpool.Pool.{SyncPool}
use byte_buffer.Syncpool.Calls.Testing.{testing-cases}
use byte_buffer.Syncpool.Calls.{
  Answer, found, missed, stored, refused, Spot, away, counting, testing, entering, starting,
  at_bucket, marking, quitting, settling, moving_on, returning, picked, follow, after_leave, left,
  next_trial, move, Threads, moved, Runs, start, later,
}

module _ {ℓ} {T : Type ℓ} where
  -- The bucket of a thread is one of `cap`, and it has a trial to take off where it takes one off.
  abbrev pub InBounds : ℕ → Spot T → Type 0
  InBounds cap (at_bucket task trials pos pc) = (1 ≤ trials) × (pos < cap)
  InBounds cap (marking val trials pos i) = (1 ≤ trials) × (pos < cap)
  InBounds cap (quitting answer pos i) = pos < cap
  InBounds cap (settling val pos) = pos < cap
  InBounds cap (moving_on task trials) = 1 ≤ trials
  InBounds cap away = Unit
  InBounds cap counting = Unit
  InBounds cap (testing task) = Unit
  InBounds cap (entering task) = Unit
  InBounds cap (starting task) = Unit
  InBounds cap (returning answer) = Unit

  module _ (cap : ℕ) where
    follow-InBounds :
        (task : Task T) (trials pos : ℕ) (answer : Answer T) (pc : Pc T)
        → 1 ≤ trials
        → pos < cap
        → InBounds cap (follow task trials pos answer pc)
    unfolding follow
    follow-InBounds task trials pos answer idle some_left lt = some_left
    follow-InBounds task trials pos answer (scanning task' n) some_left lt = (some_left, lt)
    follow-InBounds task trials pos answer (locking task' n i) some_left lt = (some_left, lt)
    follow-InBounds task trials pos answer (inside getting i) some_left lt = (some_left, lt)
    follow-InBounds task trials pos answer (inside (putting v) i) some_left lt = (some_left, lt)
    follow-InBounds task trials pos answer (using use_of i) some_left lt = (some_left, lt)
    follow-InBounds task trials pos answer (leaving i) some_left lt = lt

    after_leave-InBounds :
        (answer : Answer T) (pos : ℕ) → pos < cap → InBounds cap (after_leave answer pos)
    unfolding after_leave
    after_leave-InBounds (found val) pos lt = lt
    after_leave-InBounds missed pos lt = tt
    after_leave-InBounds stored pos lt = tt
    after_leave-InBounds (refused val) pos lt = tt

    left-InBounds :
        (answer : Answer T) (pos : ℕ) (pc : Pc T) → pos < cap → InBounds cap (left answer pos pc)
    unfolding left
    left-InBounds answer pos idle lt = after_leave-InBounds answer pos lt
    left-InBounds answer pos (leaving i) lt = lt
    left-InBounds answer pos (scanning task' n) lt = after_leave-InBounds answer pos lt
    left-InBounds answer pos (locking task' n i) lt = after_leave-InBounds answer pos lt
    left-InBounds answer pos (inside task' i) lt = after_leave-InBounds answer pos lt
    left-InBounds answer pos (using use_of i) lt = after_leave-InBounds answer pos lt

    next_trial-InBounds :
        (task : Task T) (trials pos : ℕ) → pos < cap → InBounds cap (next_trial task trials pos)
    unfolding next_trial
    next_trial-InBounds task trials pos lt = elim (Bool-cases (trials - 1 == 0)) [
      | inl last ↦ rw (last, next_trial) tt
      | inr more ↦ rw (more, next_trial) (ground arith, lt)
    ]

    module _ (p : SyncPool T) (some_bucket : 0 < cap) (size : length p.slots ≡ cap) where
      abbrev Kept : SyncPool T × Spot T → Type 0
      Kept r = (length r.0.slots ≡ cap) × InBounds cap r.1

      move-InBounds : (next : Task T) (spot : Spot T) → InBounds cap spot → Kept (move next p spot)
      unfolding move
      move-InBounds next away h = (size, tt)
      move-InBounds next (testing task) h =
          testing-cases Kept next task p (size, tt) (size, tt) (size, tt)
      move-InBounds next (entering task) h = (size, tt)
      move-InBounds next (starting getting) h = (size, (omega arith, omega arith))
      move-InBounds next (starting (putting val)) h = (size, (omega arith, omega arith))
      move-InBounds next (at_bucket task trials pos pc) (some_left, lt) =
          let (x, at) = get_elem?-of_lt p.slots pos (omega arith) in
          let (x', pc') = advance p.reset_handle task x pc in
          rw (at, move)
            (
              length-set p.slots pos x' ∙ size,
              follow-InBounds task trials pos (picked pc) pc' some_left lt,
            )
      move-InBounds next (marking val trials pos i) h = (size, h)
      move-InBounds next (quitting answer pos i) lt =
          let (x, at) = get_elem?-of_lt p.slots pos (omega arith) in
          let (x', pc') = try_leave x i in
          rw (at, move) (length-set p.slots pos x' ∙ size, left-InBounds answer pos pc' lt)
      move-InBounds next (settling val pos) h = (size, tt)
      move-InBounds next (moving_on getting trials) h =
          (size, next_trial-InBounds getting trials (p.curr_get % length p.slots) (omega arith))
      move-InBounds next (moving_on (putting val) trials) h = (
        size,
        next_trial-InBounds (putting val) trials (p.curr_put % length p.slots) (omega arith),
      )
      move-InBounds next (returning missed) h = (size, tt)
      move-InBounds next (returning (found val)) h = (size, tt)
      move-InBounds next (returning stored) h = (size, tt)
      move-InBounds next (returning (refused val)) h = (size, tt)
      move-InBounds next counting h = (size, tt)

  update-InBounds :
      (cap : ℕ) (spot : ℕ → Spot T) (i : ℕ) (x : Spot T)
      → InBounds cap x
      → ((j : ℕ) → InBounds cap (spot j))
      → (j : ℕ) → InBounds cap (update spot i x j)
  update-InBounds cap spot i x here others j =
      elim (i == j) as (λ t. InBounds cap (if t then x else spot j)) [
        | true ↦ here
        | false ↦ others j
      ]

  module _ (p : SyncPool T) (some_bucket : 0 < length p.slots) where
    -- However the threads of a pool that has a bucket take turns, its size stays, every bucket
    -- that a thread is at or stores in a counter is one of the pool's, and no thread takes a trial off
    -- when it has none left: `get` and `put` neither index out of range nor underflow.
    pub Runs-InBounds :
        {s : Threads T}
        → Runs p s
        → (length s.pool.slots ≡ length p.slots) × ((i : ℕ) → InBounds (length p.slots) (s.spot i))
    unfolding moved
    Runs-InBounds start = (refl, λ i. tt)
    Runs-InBounds (later {s = s} r i next) =
        let (size, bounds) = Runs-InBounds r in
        let (size', here) =
          move-InBounds (length p.slots) s.pool some_bucket size next (s.spot i) (bounds i) in
        (
          size',
          update-InBounds (length p.slots) s.spot i (move next s.pool (s.spot i)).1 here bounds,
        )
