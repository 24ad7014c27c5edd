-- ===== src/Syncpool/Calls.antt =====
-- syncpool/src/pool.rs, `SyncPool::get` and `SyncPool::put` between threads, over all the buckets of
-- a pool: each turn of a thread is one access to what the threads share. What a thread does at a
-- bucket is a turn of Syncpool/Concurrent. Nobody expands the pool or sets its reset handle
-- meanwhile.
pub mod Testing
pub mod Shadow
pub mod Guards
pub mod Elements
pub mod Bounds
pub mod Hands
pub mod Delivery
pub mod Exclusion
mod Examples
use byte_buffer.Prelude.{
  ℕ, ◌-◌, ◌*◌, ◌%◌, ◌==◌, Bool, true, false, Option, none, some, List, [], ◌∷◌, if◌then◌else◌,
  length, get_elem?, set,
}
use byte_buffer.Syncpool.Words.{wrapping_add}
use byte_buffer.Syncpool.Concurrent.{
  Task, getting, putting, reading, clearing, storing, Pc, idle, scanning, locking, inside, using,
  leaving, update, is_get, try_leave, advance,
}
use byte_buffer.Syncpool.Pool.{
  SyncPool, registered, turned_away, spinning, register, guard_in, guard_out,
}

-- How the loop of `get` or `put` ends.
pub data Answer {ℓ} (T : Type ℓ) : Type ℓ where
  found : T → Answer T
  missed stored : Answer T
  refused : T → Answer T

-- Where a thread stands, with its local variables: the trials that are left, the bucket, the slot.
-- `testing` is before the load of the barrier, `entering` before the `fetch_add` of the guard,
-- `starting` before the load of the counter, `at_bucket` in `access` or at the slot, `marking` before
-- `put` stores the counter, `quitting` in `leave` with what the use of the slot came to, `settling` before
-- `get` stores the counter, `moving_on` before the `fetch_add` of the counter, `returning` before the
-- drop of the guard, and `counting` before the `fetch_add` of the miss count.
pub data Spot {ℓ} (T : Type ℓ) : Type ℓ where
  away counting : Spot T
  testing entering starting : Task T → Spot T
  at_bucket : Task T → ℕ → ℕ → Pc T → Spot T
  marking : T → ℕ → ℕ → ℕ → Spot T
  quitting : Answer T → ℕ → ℕ → Spot T
  settling : T → ℕ → Spot T
  moving_on : Task T → ℕ → Spot T
  returning : Answer T → Spot T

module _ {ℓ} {T : Type ℓ} where
  -- What the use of a slot comes to when this turn is its last: an element was checked out, or the
  -- slot was null, or `release` is over, which returns nothing whether it has stored the value or
  -- found the slot full. A box is made of what `mem::replace` has read with no look at it; for a
  -- null there, behind the null test, this says `missed`.
  unfoldable pub picked : Pc T → Answer T
  picked (using (clearing val) i) = elim val [ some v ↦ found v | none ↦ missed ]
  picked (using (storing val) i) = stored
  picked (using reading i) = missed
  picked (inside getting i) = missed
  picked (inside (putting val) i) = stored
  picked idle = missed
  picked (scanning task trials) = missed
  picked (locking task trials i) = missed
  picked (leaving i) = missed

  -- Where a turn at a bucket takes the thread: `access` has failed, is not over or has locked a
  -- slot, or the slot is in use, or has been used.
  unfoldable pub follow : Task T → ℕ → ℕ → Answer T → Pc T → Spot T
  follow task trials pos answer idle = moving_on task trials
  follow task trials pos answer (scanning task' n) = at_bucket task trials pos (scanning task' n)
  follow task trials pos answer (locking task' n i) = at_bucket task trials pos (locking task' n i)
  follow task trials pos answer (inside getting i) = at_bucket task trials pos (inside getting i)
  follow task trials pos answer (inside (putting v) i) = marking v trials pos i
  follow task trials pos answer (using use_of i) = at_bucket task trials pos (using use_of i)
  follow task trials pos answer (leaving i) = quitting answer pos i

  unfoldable pub after_leave : Answer T → ℕ → Spot T
  after_leave (found val) pos = settling val pos
  after_leave missed pos = returning missed
  after_leave stored pos = returning stored
  after_leave (refused val) pos = returning (refused val)

  unfoldable pub left : Answer T → ℕ → Pc T → Spot T
  left answer pos idle = after_leave answer pos
  left answer pos (leaving i) = quitting answer pos i
  left answer pos (scanning task n) = after_leave answer pos
  left answer pos (locking task n i) = after_leave answer pos
  left answer pos (inside task i) = after_leave answer pos
  left answer pos (using use_of i) = after_leave answer pos

  abbrev pub give_up : Task T → Answer T
  give_up getting = missed
  give_up (putting val) = refused val

  unfoldable pub next_trial : Task T → ℕ → ℕ → Spot T
  next_trial task trials pos =
      if trials - 1 == 0 then returning (give_up task) else at_bucket task (trials - 1) pos idle

  -- One turn of a thread. From `away` it begins the call that is given. The number of buckets,
  -- which `get` and `put` read at their start, is the same throughout. An index out of range unwinds
  -- past the guard.
  unfoldable pub move : Task T → SyncPool T → Spot T → SyncPool T × Spot T
  move next p away = (p, testing next)
  move next p (testing task) = elim (register (p.barrier ∷ []) (is_get task)) [
    | registered ↦ (p, entering task)
    | turned_away ↦ (p, away)
    | spinning ↦ (p, testing task)
  ]
  move next p (entering task) = (guard_in p, starting task)
  move next p (starting getting) =
      let cap = length p.slots in (p, at_bucket getting cap (p.curr_get % cap) idle)
  move next p (starting (putting val)) =
      let cap = length p.slots in (p, at_bucket (putting val) (2 * cap) (p.curr_put % cap) idle)
  move next p (at_bucket task trials pos pc) = elim (get_elem? p.slots pos) [
    | none ↦ (guard_out p, away)
    | some b ↦
        let (b', pc') = advance p.reset_handle task b pc in
        (record p { slots = set p.slots pos b' }, follow task trials pos (picked pc) pc')
  ]
  move next p (marking val trials pos i) =
      (record p { curr_put = pos }, at_bucket (putting val) trials pos (inside (putting val) i))
  move next p (quitting answer pos i) = elim (get_elem? p.slots pos) [
    | none ↦ (guard_out p, away)
    | some b ↦
        let (b', pc') = try_leave b i in
        (record p { slots = set p.slots pos b' }, left answer pos pc')
  ]
  move next p (settling val pos) = (record p { curr_get = pos }, returning (found val))
  move next p (moving_on getting trials) = (
    record p { curr_get = wrapping_add p.curr_get 1 },
    next_trial getting trials (p.curr_get % length p.slots),
  )
  move next p (moving_on (putting val) trials) = (
    record p { curr_put = wrapping_add p.curr_put 1 },
    next_trial (putting val) trials (p.curr_put % length p.slots),
  )
  move next p (returning missed) = (guard_out p, counting)
  move next p (returning (found val)) = (guard_out p, away)
  move next p (returning stored) = (guard_out p, away)
  move next p (returning (refused val)) = (guard_out p, away)
  move next p counting = (record p { miss_count = wrapping_add p.miss_count 1 }, away)

pub record Threads {ℓ} (T : Type ℓ) : Type ℓ where
  pub pool : SyncPool T
  pub spot : ℕ → Spot T

module _ {ℓ} {T : Type ℓ} where
  unfoldable pub moved : ℕ → Task T → Threads T → Threads T
  moved i next s =
      let (p, spot) = move next s.pool (s.spot i) in
      record { pool = p; spot = update s.spot i spot }

  -- The states that the turns of threads lead to, in any order, from a pool with nobody at it.
  pub data Runs (p : SyncPool T) : Threads T → Type ℓ where
    start : Runs p (record { pool = p; spot = λ i. away })
    later : {s : Threads T} → Runs p s → (i : ℕ) (next : Task T) → Runs p (moved i next s)
