-- ===== src/Syncpool/Calls/Delivery.antt =====
-- Where the elements are that the threads of a pool have taken out of it.
use mathlib.Core.List.Perm
use mathlib.Core.List.{append-nil}
use byte_buffer.Prelude.{
  ℕ, zero, suc, ◌+◌, ◌%◌, ◌≡◌, ◌<◌, ◌≤◌, refl, Option, none, some, List, [], ◌++◌, Perm, arith,
  length, get_elem?-of_lt, Option-cases, inl, inr,
}
use byte_buffer.Syncpool.Utils.{enter}
use byte_buffer.Syncpool.Bucket2.{Bucket2}
use byte_buffer.Syncpool.Concurrent.{
  is_get, Task, getting, putting, reading, clearing, storing, Pc, idle, scanning, locking, inside,
  using, leaving, update, announce, try_lock, try_leave, test_slot, use_slot, advance,
}
use byte_buffer.Syncpool.Concurrent.Conserve.{handed}
use byte_buffer.Syncpool.Pool.{SyncPool}
use byte_buffer.Syncpool.Pool.Elements.{elements, AllQuiet}
use byte_buffer.Syncpool.Calls.Testing.{testing-cases}
use byte_buffer.Syncpool.Calls.{
  Answer, found, missed, stored, refused, Spot, away, counting, testing, entering, starting,
  at_bucket, marking, quitting, settling, moving_on, returning, picked, follow, after_leave, left,
  next_trial, move, Threads, moved, Runs,
}
use byte_buffer.Syncpool.Calls.Bounds.{InBounds, Runs-InBounds}
use byte_buffer.Syncpool.Calls.Elements.{
  taken_out, of_answer, returned, Logged, start, later, Logged-Runs, taken_conserved,
}
use byte_buffer.Syncpool.Calls.Hands.{in_hand, in_hands, in_hands-more, in_hands-split, carry}

module _ {ℓ} {T : Type ℓ} where
  in_hand-after_leave :
      (answer : Answer T) (pos : ℕ) → in_hand (after_leave answer pos) ≡ of_answer answer
  unfolding after_leave
  in_hand-after_leave (found val) pos = refl
  in_hand-after_leave missed pos = refl
  in_hand-after_leave stored pos = refl
  in_hand-after_leave (refused val) pos = refl

  in_hand-left :
      (answer : Answer T) (pos : ℕ) (pc : Pc T) → in_hand (left answer pos pc) ≡ of_answer answer
  unfolding left
  in_hand-left answer pos idle = in_hand-after_leave answer pos
  in_hand-left answer pos (leaving i) = refl
  in_hand-left answer pos (scanning task n) = in_hand-after_leave answer pos
  in_hand-left answer pos (locking task n i) = in_hand-after_leave answer pos
  in_hand-left answer pos (inside task i) = in_hand-after_leave answer pos
  in_hand-left answer pos (using use_of i) = in_hand-after_leave answer pos

  in_hand-next_trial : (task : Task T) (trials pos : ℕ) → in_hand (next_trial task trials pos) ≡ []
  unfolding next_trial
  in_hand-next_trial getting trials pos = ground arith
  in_hand-next_trial (putting val) trials pos = ground arith

  module _ (reset : Option (T → T)) (task : Task T) (trials pos : ℕ) (x : Bucket2 T) where
    -- A turn at a bucket hands the thread what it takes out.
    in_hand-follow :
        (pc : Pc T)
        → in_hand (follow task trials pos (picked pc) (advance reset task x pc).1) ≡ handed pc
    unfolding follow advance announce try_lock try_leave test_slot use_slot picked
    in_hand-follow idle = refl
    in_hand-follow (scanning task' zero) = refl
    in_hand-follow (scanning task' (suc n)) = elim (Option-cases (enter x.bitmap (is_get task'))) [
      | inl nothing ↦ ground (arith, nothing)
      | inr (i, found_i) ↦ ground (arith, found_i)
    ]
    in_hand-follow (locking getting n i) = ground arith
    in_hand-follow (locking (putting v) n i) = ground arith
    in_hand-follow (inside getting i) = ground arith
    in_hand-follow (inside (putting v) i) = ground arith
    in_hand-follow (using reading i) = refl
    in_hand-follow (using (clearing none) i) = refl
    in_hand-follow (using (clearing (some v)) i) = refl
    in_hand-follow (using (storing v) i) = refl
    in_hand-follow (leaving i) = ground arith

  module _ (p : SyncPool T) where
    -- What a thread takes or has in hand, it has in hand after its turn or returns.
    abbrev Carried : Spot T → Spot T → Type ℓ
    Carried spot spot' = Perm (taken_out p spot ++ in_hand spot) (in_hand spot' ++ returned spot)

    move-Carried :
        (next : Task T) (spot : Spot T)
        → InBounds (length p.slots) spot
        → Carried spot (move next p spot).1
    unfolding move
    move-Carried next away h = Perm.rfl
    move-Carried next (testing task) h =
        testing-cases (λ r. Carried (testing task) r.1) next task p Perm.rfl Perm.rfl Perm.rfl
    move-Carried next (entering task) h = Perm.rfl
    move-Carried next (starting getting) h = Perm.rfl
    move-Carried next (starting (putting val)) h = Perm.rfl
    move-Carried next (at_bucket task trials pos pc) (some_left, lt) =
        let (x, at) = get_elem?-of_lt p.slots pos lt in
        rw (at, move, taken_out, in_hand-follow p.reset_handle task trials pos x pc) Perm.rfl
    move-Carried next (marking val trials pos i) h = Perm.rfl
    move-Carried next (quitting answer pos i) lt =
        let (x, at) = get_elem?-of_lt p.slots pos lt in
        rw (at, move, in_hand-left answer pos (try_leave x i).1, append-nil (of_answer answer))
          Perm.rfl
    move-Carried next (settling val pos) h = Perm.rfl
    move-Carried next (moving_on getting trials) h =
        rw (in_hand-next_trial getting trials (p.curr_get % length p.slots)) Perm.rfl
    move-Carried next (moving_on (putting val) trials) h =
        rw (in_hand-next_trial (putting val) trials (p.curr_put % length p.slots)) Perm.rfl
    move-Carried next (returning missed) h = Perm.rfl
    move-Carried next (returning (found val)) h = Perm.rfl
    move-Carried next (returning stored) h = Perm.rfl
    move-Carried next (returning (refused val)) h = Perm.rfl
    move-Carried next counting h = Perm.rfl

  module _ (p : SyncPool T) (some_bucket : 0 < length p.slots) where
    -- The first `n` threads are the only ones that are not away.
    abbrev Accounted : ℕ → Threads T → List T → List T → Type ℓ
    Accounted n s out answers =
        ((j : ℕ) → n ≤ j → s.spot j ≡ away) × Perm out (in_hands n s.spot ++ answers)

    moved-Accounted :
        (n i : ℕ) (next : Task T) (s : Threads T) (out answers : List T)
        → Runs p s
        → Accounted n s out answers
        → Accounted
            (suc n + i)
            (moved i next s)
            (taken_out s.pool (s.spot i) ++ out)
            (returned (s.spot i) ++ answers)
    unfolding moved
    moved-Accounted n i next s out answers r (quiet, so_far) =
        let x = (move next s.pool (s.spot i)).1 in
        let (size, bounds) = Runs-InBounds p some_bucket r in
        let here : InBounds (length s.pool.slots) (s.spot i) = rw size (bounds i) in
        let (others, before, after) = in_hands-split (suc n + i) i s.spot x (omega arith) in
        (
          λ j le. let still : s.spot j ≡ away = quiet j (omega arith) in ground arith,
          carry (taken_out s.pool (s.spot i)) (in_hand (s.spot i)) (in_hand x) (returned (s.spot i))
              others answers (in_hands (suc n + i) s.spot)
              (in_hands (suc n + i) (update s.spot i x)) out
              (move-Carried s.pool next (s.spot i) here) before after
              (rw (in_hands-more (suc n + i) n s.spot (omega arith) quiet) so_far),
        )

    accounted :
        {s : Threads T} {out into answers : List T}
        → Logged p s out into answers
        → (n : ℕ) × Accounted n s out answers
    accounted start = (0, ((λ j le. refl), Perm.rfl))
    accounted (later {s} {out} {into} {answers} log i next) =
        let (n, t) = accounted log in
        (suc n + i, moved-Accounted n i next s out answers (Logged-Runs p log) t)

    -- However the threads of a pool take turns, if it has a bucket and nobody was at its buckets at
    -- first, the elements that calls of `get` have returned from slots, those that threads have taken
    -- out and not returned yet and those that lie in the pool are, together and up to order, those
    -- that lay in it at first and those that were put into a slot: none is lost, and none is handed
    -- out twice.
    pub pool_conserved :
        {s : Threads T} {out into answers : List T}
        → AllQuiet p.slots
        → Logged p s out into answers
        → (n : ℕ) × ((j : ℕ) → n ≤ j → s.spot j ≡ away)
          × Perm
              ((in_hands n s.spot ++ answers) ++ elements s.pool.slots)
              (into ++ elements p.slots)
    pool_conserved {s = s} quiet_pool log =
        let (n, (quiet, so_far)) = accounted log in
        (
          n,
          quiet,
          Perm.trans (Perm.append_right (elements s.pool.slots) (Perm.symm so_far))
              (taken_conserved p some_bucket quiet_pool log),
        )
