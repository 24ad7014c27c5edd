-- ===== src/Syncpool/Pool/Missed.antt =====
-- Where `get` does not look: the trials of its loop start twice at the same bucket.
use byte_buffer.Prelude.{
  ℕ, zero, suc, ◌+◌, ◌-◌, ◌%◌, ◌<◌, ◌≤◌, ◌≡◌, ◌≢◌, refl, ◌∙◌, none, arith, length, subst,
}
use byte_buffer.Prelude.Modular.{window_ne}
use byte_buffer.Syncpool.Words.{wrapping_add, usize_mod}
use byte_buffer.Syncpool.Builder.{make_elem}
use byte_buffer.Syncpool.Bucket2.Quiet.{take_from-empty}
use byte_buffer.Syncpool.Pool.{SyncPool, guard_in, get_loop, get}
use byte_buffer.Syncpool.Pool.Tried.{advance, Tried, Tried-of, EmptyAt}
use byte_buffer.Syncpool.Pool.Elements.{AllQuiet, get-AllQuiet, IsIdle}
use byte_buffer.Syncpool.Pool.Get.{get_loop-missed, get-none, missed}

module _ {ℓ} {T : Type ℓ} where
  -- If every bucket that is looked at is empty, the loop finds nothing.
  get_loop-all_empty :
      (n cap pos : ℕ) (p : SyncPool T)
      → AllQuiet p.slots
      → Tried (EmptyAt p.slots) cap n pos p.curr_get
      → get_loop n cap pos p ≡ (record p { curr_get = advance n p.curr_get }, none)
  unfolding get_loop
  get_loop-all_empty zero cap pos p q tried = refl
  get_loop-all_empty (suc n) cap pos p q ((b, at, empty), tried) =
      get_loop-missed n cap pos p b at (take_from-empty b (get-AllQuiet p.slots pos q at) empty)
      ∙ get_loop-all_empty n cap (p.curr_get % cap)
          (record p { curr_get = wrapping_add p.curr_get 1 }) q tried

module _ {ℓ} {T : Type ℓ} (zeroed : T) (p : SyncPool T) (idle : IsIdle p) where
  abbrev cap : ℕ
  cap = length p.slots

  -- An idle pool of two buckets or more whose get counter is not about to wrap and whose elements
  -- all lie in the bucket before the one at the counter gives none of them: `get` builds a new
  -- element and counts a miss, whatever that bucket holds.
  pub get_misses_last_bucket :
      2 ≤ cap
      → p.curr_get + cap ≤ usize_mod
      → ((i : ℕ) → i < cap → i ≢ (p.curr_get + (cap - 1)) % cap → EmptyAt p.slots i)
      → get zeroed p ≡ (missed zeroed p, make_elem zeroed p.elem_builder)
  get_misses_last_bucket two fits others =
      get-none zeroed p idle
        (get_loop-all_empty cap cap (p.curr_get % cap) (guard_in p) idle.quiet tried)
    where
      empty_at : (j : ℕ) → j + 2 ≤ cap → EmptyAt p.slots ((p.curr_get + j) % cap)
      empty_at j lt = others ((p.curr_get + j) % cap) (omega arith) (window_ne p.curr_get j cap lt)

      tried : Tried (EmptyAt p.slots) cap cap (p.curr_get % cap) p.curr_get
      tried =
          let trials : suc (cap - 1) ≡ cap = omega arith in
          let here : p.curr_get + 0 ≡ p.curr_get = omega arith in
          subst (λ n. Tried (EmptyAt p.slots) cap n (p.curr_get % cap) p.curr_get) trials
            (
              subst (λ c. EmptyAt p.slots (c % cap)) here (empty_at 0 two),
              Tried-of (EmptyAt p.slots) cap (cap - 1) p.curr_get (omega arith)
                  (λ j lt. empty_at j (omega arith)),
            )
