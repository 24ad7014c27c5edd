-- ===== src/Syncpool/Calls/Shadow.antt =====
-- What the threads of a pool do at one of its buckets.
use mathlib.Core.Path.{fun_ext}
use byte_buffer.Prelude.{
  ℕ, ◌%◌, ◌≡◌, refl, subst, ◌∙◌, ◌⊎◌, inl, inr, ◌==◌, Option, none, some, arith, length, get_elem?,
  set, get_elem?-lt, get_elem?-set_self, get_elem?-set_ne, Bool-cases, Option-cases, if◌then◌else◌,
}
use byte_buffer.Syncpool.Bucket2.{Bucket2}
use byte_buffer.Syncpool.Concurrent.{
  is_get, Task, getting, putting, Pc, idle, scanning, locking, inside, using, leaving, update,
  try_leave, advance, System, turn, Reach,
}
use byte_buffer.Syncpool.Concurrent
use byte_buffer.Syncpool.Pool.{SyncPool, guard_out}
use byte_buffer.Syncpool.Calls.Testing.{testing-cases}
use byte_buffer.Syncpool.Calls.{
  Answer, found, missed, stored, refused, Spot, away, counting, testing, entering, starting,
  at_bucket, marking, quitting, settling, moving_on, returning, picked, follow, after_leave, left,
  next_trial, move, Threads, moved, Runs, start, later,
}

module _ {ℓ} {T : Type ℓ} where
  -- Where a thread stands, as the threads at bucket `k` see it.
  abbrev pub pc_at : ℕ → Spot T → Pc T
  pc_at k (at_bucket task trials pos pc) = if pos == k then pc else idle
  pc_at k (marking val trials pos i) = if pos == k then inside (putting val) i else idle
  pc_at k (quitting answer pos i) = if pos == k then leaving i else idle
  pc_at k away = idle
  pc_at k counting = idle
  pc_at k (testing task) = idle
  pc_at k (entering task) = idle
  pc_at k (starting task) = idle
  pc_at k (settling val pos) = idle
  pc_at k (moving_on task trials) = idle
  pc_at k (returning answer) = idle

  pc_at-follow :
      (k : ℕ) (task : Task T) (trials pos : ℕ) (answer : Answer T) (pc : Pc T)
      → pc_at k (follow task trials pos answer pc) ≡ (if pos == k then pc else idle)
  unfolding follow
  pc_at-follow k task trials pos answer idle = ground arith
  pc_at-follow k task trials pos answer (scanning task' n) = refl
  pc_at-follow k task trials pos answer (locking task' n i) = refl
  pc_at-follow k task trials pos answer (inside getting i) = refl
  pc_at-follow k task trials pos answer (inside (putting v) i) = refl
  pc_at-follow k task trials pos answer (using use_of i) = refl
  pc_at-follow k task trials pos answer (leaving i) = refl

  pc_at-after_leave :
      (k : ℕ) (answer : Answer T) (pos : ℕ) → pc_at k (after_leave answer pos) ≡ idle
  unfolding after_leave
  pc_at-after_leave k (found val) pos = refl
  pc_at-after_leave k missed pos = refl
  pc_at-after_leave k stored pos = refl
  pc_at-after_leave k (refused val) pos = refl

  module _ (k : ℕ) (p : SyncPool T) (b : Bucket2 T) (here : get_elem? p.slots k ≡ some b) where
    -- A turn either passes bucket `k` by or is a turn of a thread at it.
    abbrev Shadowed : Spot T → SyncPool T × Spot T → Type ℓ
    Shadowed spot r =
        (r.0.reset_handle ≡ p.reset_handle)
        × (((get_elem? r.0.slots k ≡ some b) × (pc_at k r.1 ≡ pc_at k spot))
            ⊎ ((task : Task T) × (get_elem? r.0.slots k
                  ≡ some (advance p.reset_handle task b (pc_at k spot)).0)
                × (pc_at k r.1 ≡ (advance p.reset_handle task b (pc_at k spot)).1)))

    -- A turn at bucket `pos`.
    works_at :
        (spot spot' : Spot T) (task : Task T) (pc pc' : Pc T) (pos : ℕ) (x x' : Bucket2 T)
        → pc_at k spot ≡ (if pos == k then pc else idle)
        → pc_at k spot' ≡ (if pos == k then pc' else idle)
        → get_elem? p.slots pos ≡ some x
        → advance p.reset_handle task x pc ≡ (x', pc')
        → Shadowed spot (record p { slots = set p.slots pos x' }, spot')
    works_at spot spot' task pc pc' pos x x' before after at step = elim (Bool-cases (pos == k)) [
      | inl same ↦
          let pos_k : pos ≡ k = ground arith in
          let x_b : x ≡ b = ground arith in
          let own = get_elem?-set_self p.slots pos x' (get_elem?-lt p.slots pos at) in
          let was : pc_at k spot ≡ pc = ground arith in
          let is : pc_at k spot' ≡ pc' = ground arith in
          let step_b : advance p.reset_handle task b (pc_at k spot) ≡ (x', pc') =
            rw (was, ← x_b) step in
          (refl, inr (task, rw (step_b, ← pos_k) own, rw step_b is))
      | inr other ↦
          let ne = get_elem?-set_ne p.slots {i = pos} {j = k} x' (λ e. ground arith) in
          (refl, inl (ne ∙ here, ground arith))
    ]

    nowhere :
        (spot : Spot T) (pc : Pc T) (pos : ℕ)
        → pc_at k spot ≡ (if pos == k then pc else idle)
        → get_elem? p.slots pos ≡ none
        → Shadowed spot (guard_out p, away)
    nowhere spot pc pos before out = (refl, inl (here, ground (arith, here)))

    at_bucket-Shadowed :
        (next task : Task T) (trials pos : ℕ) (pc : Pc T)
        → Shadowed (at_bucket task trials pos pc) (move next p (at_bucket task trials pos pc))
    unfolding move
    at_bucket-Shadowed next task trials pos pc = elim (Option-cases (get_elem? p.slots pos)) [
      | inl out ↦ rw (out, move) (nowhere (at_bucket task trials pos pc) pc pos refl out)
      | inr (x, at) ↦
          let (x', pc') = advance p.reset_handle task x pc in
          rw (at, move)
            (works_at (at_bucket task trials pos pc) (follow task trials pos (picked pc) pc') task
              pc pc' pos x x' refl (pc_at-follow k task trials pos (picked pc) pc') at refl)
    ]

    pc_at-left :
        (answer : Answer T) (pos i : ℕ) (x : Bucket2 T)
        → pc_at k (left answer pos (try_leave x i).1)
          ≡ (if pos == k then (try_leave x i).1 else idle)
    unfolding try_leave left
    pc_at-left answer pos i x = ground (arith, pc_at-after_leave k answer pos)

    quitting-Shadowed :
        (next : Task T) (answer : Answer T) (pos i : ℕ)
        → Shadowed (quitting answer pos i) (move next p (quitting answer pos i))
    unfolding move advance
    quitting-Shadowed next answer pos i = elim (Option-cases (get_elem? p.slots pos)) [
      | inl out ↦ rw (out, move) (nowhere (quitting answer pos i) (leaving i) pos refl out)
      | inr (x, at) ↦
          let (x', pc') = try_leave x i in
          rw (at, move)
            (works_at (quitting answer pos i) (left answer pos pc') next (leaving i) pc' pos x x'
              refl (pc_at-left answer pos i x) at refl)
    ]

    -- A bucket at which a thread is about to begin, or has none of its trials left.
    pc_at-next_trial :
        (task : Task T) (trials pos : ℕ) → pc_at k (next_trial task trials pos) ≡ idle
    unfolding next_trial
    pc_at-next_trial task trials pos = ground arith

    move-Shadowed : (next : Task T) (spot : Spot T) → Shadowed spot (move next p spot)
    unfolding move
    move-Shadowed next away = (refl, inl (here, refl))
    move-Shadowed next (testing task) =
        testing-cases (Shadowed (testing task)) next task p (refl, inl (here, refl))
          (refl, inl (here, refl)) (refl, inl (here, refl))
    move-Shadowed next (entering task) = (refl, inl (here, refl))
    move-Shadowed next (starting getting) = (refl, inl (here, ground arith))
    move-Shadowed next (starting (putting val)) = (refl, inl (here, ground arith))
    move-Shadowed next (at_bucket task trials pos pc) = at_bucket-Shadowed next task trials pos pc
    move-Shadowed next (marking val trials pos i) = (refl, inl (here, refl))
    move-Shadowed next (quitting answer pos i) = quitting-Shadowed next answer pos i
    move-Shadowed next (settling val pos) = (refl, inl (here, refl))
    move-Shadowed next (moving_on getting trials) =
        (refl, inl (here, pc_at-next_trial getting trials (p.curr_get % length p.slots)))
    move-Shadowed next (moving_on (putting val) trials) =
        (refl, inl (here, pc_at-next_trial (putting val) trials (p.curr_put % length p.slots)))
    move-Shadowed next (returning missed) = (refl, inl (here, refl))
    move-Shadowed next (returning (found val)) = (refl, inl (here, refl))
    move-Shadowed next (returning stored) = (refl, inl (here, refl))
    move-Shadowed next (returning (refused val)) = (refl, inl (here, refl))
    move-Shadowed next counting = (refl, inl (here, refl))

  -- The threads as they are seen at bucket `k`.
  abbrev pub pcs_at : ℕ → (ℕ → Spot T) → ℕ → Pc T
  pcs_at k spot j = pc_at k (spot j)

  abbrev pub seen_at : ℕ → Threads T → Bucket2 T → System T
  seen_at k s b = record { bucket = b; pc = pcs_at k s.spot }

  pcs_at-moves :
      (k : ℕ) (spot : ℕ → Spot T) (i : ℕ) (spot' : Spot T) (pc' : Pc T)
      → pc_at k spot' ≡ pc'
      → update (pcs_at k spot) i pc' ≡ pcs_at k (update spot i spot')
  pcs_at-moves k spot i spot' pc' e = fun_ext (λ j. ground arith)

  pcs_at-stays :
      (k : ℕ) (spot : ℕ → Spot T) (i : ℕ) (spot' : Spot T)
      → pc_at k spot' ≡ pc_at k (spot i)
      → pcs_at k spot ≡ pcs_at k (update spot i spot')
  pcs_at-stays k spot i spot' e = fun_ext (λ j. ground arith)

  module _ (p : SyncPool T) (k : ℕ) (b : Bucket2 T) where
    abbrev Seen : Threads T → Type ℓ
    Seen s =
        (x : Bucket2 T) × (get_elem? s.pool.slots k ≡ some x)
        × Reach p.reset_handle b (seen_at k s x)
        × (s.pool.reset_handle ≡ p.reset_handle)

    moved-Seen : (s : Threads T) (i : ℕ) (next : Task T) → Seen s → Seen (moved i next s)
    unfolding moved turn
    moved-Seen s i next (x, at, r, reset) =
        let (kept, step) = move-Shadowed k s.pool x at next (s.spot i) in
        let (p', spot') = move next s.pool (s.spot i) in
        elim step [
          | inl (same, stays) ↦
              let pcs = pcs_at-stays k s.spot i spot' stays in
              (
                x,
                same,
                subst (λ pc. Reach p.reset_handle b (record { bucket = x; pc = pc })) pcs r,
                kept ∙ reset,
              )
          | inr (task, worked, moves) ↦
              let act = λ (h : Option (T → T)). advance h task x (pc_at k (s.spot i)) in
              let x' = (act p.reset_handle).0 in
              let pcs =
                pcs_at-moves k s.spot i spot' (act p.reset_handle).1
                  (subst (λ h. pc_at k spot' ≡ (act h).1) reset moves) in
              (
                x',
                subst (λ h. get_elem? p'.slots k ≡ some (act h).0) reset worked,
                subst (λ pc. Reach p.reset_handle b (record { bucket = x'; pc = pc })) pcs
                    (Concurrent.later r i task),
                kept ∙ reset,
              )
        ]

    start-Seen : get_elem? p.slots k ≡ some b → Seen (record { pool = p; spot = λ i. away })
    start-Seen at = (b, at, Concurrent.start, refl)

    Runs-Seen : {s : Threads T} → get_elem? p.slots k ≡ some b → Runs p s → Seen s
    Runs-Seen at start = start-Seen at
    Runs-Seen at (later {s = s} r i next) = moved-Seen s i next (Runs-Seen at r)

    -- However the threads of a pool take turns, what they do at any one of its buckets is what
    -- threads at this bucket alone can do: the bucket, with those threads that are at it where they
    -- stand and the others away from it, is in a state that turns at the bucket lead to.
    pub Runs-Reach :
        {s : Threads T}
        → get_elem? p.slots k ≡ some b
        → Runs p s
        → (x : Bucket2 T) × (get_elem? s.pool.slots k ≡ some x)
          × Reach p.reset_handle b (seen_at k s x)
    Runs-Reach at r = let (x, at', seen, reset) = Runs-Seen at r in (x, at', seen)
