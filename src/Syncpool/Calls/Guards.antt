-- ===== src/Syncpool/Calls/Guards.antt =====
-- The count of visitors, with threads in `get` and `put`.
use byte_buffer.Prelude.{
  ℕ, zero, suc, ◌+◌, ◌%◌, ◌≡◌, ◌<◌, ◌≤◌, refl, ◌==◌, arith, length, get_elem?, leb, leb→le, ap,
  Bool-cases, Option-cases, inl, inr,
}
use byte_buffer.Syncpool.Words.{usize_mod}
use byte_buffer.Syncpool.Concurrent.{
  Task, getting, putting, Pc, idle, scanning, locking, inside, using, leaving, update, try_leave,
  advance,
}
use byte_buffer.Syncpool.Pool.{SyncPool}
use byte_buffer.Syncpool.Calls.Testing.{testing-cases}
use byte_buffer.Syncpool.Calls.{
  Answer, found, missed, stored, refused, Spot, away, counting, testing, entering, starting,
  at_bucket, marking, quitting, settling, moving_on, returning, picked, follow, after_leave, left,
  next_trial, move, Threads, moved, Runs, start, later,
}

module _ {ℓ} {T : Type ℓ} where
  -- 1 for a thread that holds a guard.
  abbrev pub guards : Spot T → ℕ
  guards away = 0
  guards counting = 0
  guards (testing task) = 0
  guards (entering task) = 0
  guards (starting task) = 1
  guards (at_bucket task trials pos pc) = 1
  guards (marking val trials pos i) = 1
  guards (quitting answer pos i) = 1
  guards (settling val pos) = 1
  guards (moving_on task trials) = 1
  guards (returning answer) = 1

  -- How many of the first `n` threads hold one.
  abbrev pub held_by : ℕ → (ℕ → Spot T) → ℕ
  held_by zero spot = 0
  held_by (suc n) spot = guards (spot n) + held_by n spot

  held_by-above :
      (n i : ℕ) (spot : ℕ → Spot T) (x : Spot T)
      → n ≤ i
      → held_by n (update spot i x) ≡ held_by n spot
  held_by-above zero i spot x le = refl
  held_by-above (suc n) i spot x le = ground (arith, held_by-above n i spot x (omega arith))

  held_by-update :
      (n i : ℕ) (spot : ℕ → Spot T) (x : Spot T)
      → i < n
      → held_by n (update spot i x) + guards (spot i) ≡ held_by n spot + guards x
  held_by-update zero i spot x lt = absurd (omega arith)
  held_by-update (suc n) i spot x lt = elim (Bool-cases (i == n)) [
    | inl last ↦
        let same : i ≡ n = ground arith in
        rw (← same) (ground (arith, held_by-above i i spot x (omega arith)))
    | inr other ↦ ground (arith, held_by-update n i spot x (ground arith))
  ]

  -- The threads that are away hold none.
  held_by-more :
      (m n : ℕ) (spot : ℕ → Spot T)
      → n ≤ m
      → ((j : ℕ) → n ≤ j → spot j ≡ away)
      → held_by m spot ≡ held_by n spot
  held_by-more zero n spot le quiet = let e : n ≡ 0 = omega arith in rw e refl
  held_by-more (suc m) n spot le quiet = elim (Bool-cases (leb n m)) [
    | inl below ↦
        let le' : n ≤ m = leb→le n m below in
        let none_held : guards (spot m) ≡ 0 = ap guards (quiet m le') in
        omega (arith, none_held, held_by-more m n spot le' quiet)
    | inr last ↦ let e : n ≡ suc m = ground arith in rw e refl
  ]

  guards-follow :
      (task : Task T) (trials pos : ℕ) (answer : Answer T) (pc : Pc T)
      → guards (follow task trials pos answer pc) ≡ 1
  unfolding follow
  guards-follow task trials pos answer idle = refl
  guards-follow task trials pos answer (scanning task' n) = refl
  guards-follow task trials pos answer (locking task' n i) = refl
  guards-follow task trials pos answer (inside getting i) = refl
  guards-follow task trials pos answer (inside (putting v) i) = refl
  guards-follow task trials pos answer (using use_of i) = refl
  guards-follow task trials pos answer (leaving i) = refl

  guards-after_leave : (answer : Answer T) (pos : ℕ) → guards (after_leave answer pos) ≡ 1
  unfolding after_leave
  guards-after_leave (found val) pos = refl
  guards-after_leave missed pos = refl
  guards-after_leave stored pos = refl
  guards-after_leave (refused val) pos = refl

  guards-left : (answer : Answer T) (pos : ℕ) (pc : Pc T) → guards (left answer pos pc) ≡ 1
  unfolding left
  guards-left answer pos idle = guards-after_leave answer pos
  guards-left answer pos (leaving i) = refl
  guards-left answer pos (scanning task' n) = guards-after_leave answer pos
  guards-left answer pos (locking task' n i) = guards-after_leave answer pos
  guards-left answer pos (inside task' i) = guards-after_leave answer pos
  guards-left answer pos (using use_of i) = guards-after_leave answer pos

  guards-next_trial : (task : Task T) (trials pos : ℕ) → guards (next_trial task trials pos) ≡ 1
  unfolding next_trial
  guards-next_trial task trials pos = ground arith

  module _ (p : SyncPool T) (small : p.visitors < usize_mod) where
    -- A turn changes the count of visitors as it changes the guards of the thread.
    abbrev Counted : Spot T → SyncPool T × Spot T → Type 0
    Counted spot r =
        (r.0.visitors < usize_mod)
        × ((r.0.visitors + guards spot) % usize_mod ≡ (p.visitors + guards r.1) % usize_mod)

    move-Counted : (next : Task T) (spot : Spot T) → Counted spot (move next p spot)
    unfolding move
    move-Counted next away = (small, refl)
    move-Counted next (testing task) =
        testing-cases (Counted (testing task)) next task p (small, refl) (small, refl) (small, refl)
    move-Counted next (entering task) = (omega arith, omega arith)
    move-Counted next (starting getting) = (small, refl)
    move-Counted next (starting (putting val)) = (small, refl)
    move-Counted next (at_bucket task trials pos pc) = elim (Option-cases (get_elem? p.slots pos)) [
      | inl out ↦ rw (out, move) (omega arith, omega arith)
      | inr (x, at) ↦
          let (x', pc') = advance p.reset_handle task x pc in
          rw (at, move) (small, omega (arith, guards-follow task trials pos (picked pc) pc'))
    ]
    move-Counted next (marking val trials pos i) = (small, refl)
    move-Counted next (quitting answer pos i) = elim (Option-cases (get_elem? p.slots pos)) [
      | inl out ↦ rw (out, move) (omega arith, omega arith)
      | inr (x, at) ↦
          let (x', pc') = try_leave x i in
          rw (at, move) (small, omega (arith, guards-left answer pos pc'))
    ]
    move-Counted next (settling val pos) = (small, refl)
    move-Counted next (moving_on getting trials) =
        (small, omega (arith, guards-next_trial getting trials (p.curr_get % length p.slots)))
    move-Counted next (moving_on (putting val) trials) =
        (small, omega (arith, guards-next_trial (putting val) trials (p.curr_put % length p.slots)))
    move-Counted next (returning missed) = (omega arith, omega arith)
    move-Counted next (returning (found val)) = (omega arith, omega arith)
    move-Counted next (returning stored) = (omega arith, omega arith)
    move-Counted next (returning (refused val)) = (omega arith, omega arith)
    move-Counted next counting = (small, refl)

  module _ (p : SyncPool T) (small : p.visitors < usize_mod) where
    -- The first `n` threads are the only ones that are not away.
    abbrev Tallied : ℕ → Threads T → Type ℓ
    Tallied n s =
        ((j : ℕ) → n ≤ j → s.spot j ≡ away)
        × (s.pool.visitors < usize_mod)
        × (s.pool.visitors ≡ (p.visitors + held_by n s.spot) % usize_mod)

    moved-Tallied :
        (n i : ℕ) (next : Task T) (s : Threads T)
        → Tallied n s
        → Tallied (suc n + i) (moved i next s)
    unfolding moved
    moved-Tallied n i next s (quiet, fits, counted) =
        let (p', x) = move next s.pool (s.spot i) in
        let (fits', step) = move-Counted s.pool fits next (s.spot i) in
        let more = held_by-more (suc n + i) n s.spot (omega arith) quiet in
        let change = held_by-update (suc n + i) i s.spot x (omega arith) in
        (
          λ j le. let still : s.spot j ≡ away = quiet j (omega arith) in ground arith,
          fits',
          omega (arith, counted, more, change, step),
        )

    -- However the threads of a pool take turns, only finitely many are in a call, and if the count
    -- of visitors was a machine word at first, it is what it was and one for each thread that holds a
    -- guard, up to a wrap-around.
    pub visitors_counted :
        {s : Threads T}
        → Runs p s
        → (n : ℕ) × ((j : ℕ) → n ≤ j → s.spot j ≡ away)
          × (s.pool.visitors ≡ (p.visitors + held_by n s.spot) % usize_mod)
    visitors_counted r = let (n, (quiet, fits, counted)) = tallied r in (n, quiet, counted)
      where
        tallied : {s : Threads T} → Runs p s → (n : ℕ) × Tallied n s
        tallied start = (0, ((λ j le. refl), small, omega arith))
        tallied (later {s = s} r i next) =
            let (n, t) = tallied r in (suc n + i, moved-Tallied n i next s t)
