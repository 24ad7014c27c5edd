-- ===== src/Syncpool/Pool/Put.antt =====
-- What `put` does to an idle pool.
use byte_buffer.Prelude.{
  ℕ, zero, suc, ◌+◌, ◌-◌, ◌*◌, ◌%◌, ◌<◌, ◌≤◌, ◌≡◌, refl, subst, ◌∙◌, ◌⊎◌, inl, inr, Bool, true,
  false, some, List, ◌∷◌, Perm, arith, length, length-set, get_elem?, get_elem?-of_lt, set,
  set_self,
}
use byte_buffer.Prelude.Modular.{window_reaches}
use byte_buffer.Syncpool.Words.{wrapping_add, usize_mod}
use byte_buffer.Syncpool.Bucket2.{Bucket2, slot_cap, put_into, apply_reset}
use byte_buffer.Syncpool.Bucket2.Slots.{contents}
use byte_buffer.Syncpool.Bucket2.Quiet.{IsQuiet, put_into-IsQuiet}
use byte_buffer.Syncpool.Pool.{
  SyncPool, PutResult, stored, given_back, register, guard_in, put_loop, put,
}
use byte_buffer.Syncpool.Pool.Tried.{advance, Tried, Tried-at, FullAt, all_full}
use byte_buffer.Syncpool.Pool.Elements.{
  elements, AllQuiet, get-AllQuiet, set-AllQuiet, elements-put, IsIdle,
}

module _ {ℓ} {T : Type ℓ} (val : T) where
  abbrev LoopOutcome : ℕ → ℕ → ℕ → SyncPool T → SyncPool T × Bool → Type ℓ
  LoopOutcome n cap pos p r =
      ((r ≡ (record p { curr_put = advance n p.curr_put }, false))
        × Tried (FullAt p.slots) cap n pos p.curr_put)
      ⊎ ((slots : List (Bucket2 T)) × (curr : ℕ) × (r
            ≡ (record p { slots = slots; curr_put = curr }, true))
          × AllQuiet slots
          × (length slots ≡ length p.slots)
          × (curr < length p.slots)
          × Perm (elements slots) (apply_reset p.reset_handle val ∷ elements p.slots))

  module _ (n cap pos : ℕ) (p : SyncPool T) (b : Bucket2 T)
      (at : get_elem? p.slots pos ≡ some b) where
    -- The pool for the next trial.
    abbrev advanced : SyncPool T
    advanced = record p { curr_put = wrapping_add p.curr_put 1 }

    put_loop-refused :
        put_into b val p.reset_handle ≡ (b, false)
        → put_loop (suc n) cap pos val p ≡ put_loop n cap (p.curr_put % cap) val advanced
    unfolding put_loop
    put_loop-refused e = ground (arith, set_self p.slots pos b at)

    put_loop-placed :
        (b' : Bucket2 T)
        → put_into b val p.reset_handle ≡ (b', true)
        → put_loop (suc n) cap pos val p
          ≡ (record p { slots = set p.slots pos b'; curr_put = pos }, true)
    unfolding put_loop
    put_loop-placed b' e = ground arith

    -- A trial that fails passes the outcome of the others on.
    LoopOutcome-refused :
        length (contents b.slot) ≡ slot_cap
        → put_into b val p.reset_handle ≡ (b, false)
        → LoopOutcome n cap
            (p.curr_put % cap)
            advanced
            (put_loop n cap (p.curr_put % cap) val advanced)
        → LoopOutcome (suc n) cap pos p (put_loop (suc n) cap pos val p)
    LoopOutcome-refused full e (inl (r, tried)) =
        inl (put_loop-refused e ∙ r, ((b, at, full), tried))
    LoopOutcome-refused full e (inr (slots, curr, r, q, same, below, perm)) =
        inr (slots, curr, put_loop-refused e ∙ r, q, same, below, perm)

  put_loop-outcome :
      (n pos : ℕ) (p : SyncPool T)
      → AllQuiet p.slots
      → pos < length p.slots
      → LoopOutcome n (length p.slots) pos p (put_loop n (length p.slots) pos val p)
  unfolding put_loop
  put_loop-outcome zero pos p q h = inl (refl, tt)
  put_loop-outcome (suc n) pos p q h =
      let cap = length p.slots in
      let (b, at) = get_elem?-of_lt p.slots pos h in
      let qb : IsQuiet b = get-AllQuiet p.slots pos q at in
      elim (put_into-IsQuiet b qb val p.reset_handle) [
        | inl (refused, full) ↦ LoopOutcome-refused n cap pos p b at full refused (
            put_loop-outcome n (p.curr_put % cap)
              (record p { curr_put = wrapping_add p.curr_put 1 }) q (omega arith))
        | inr (b', placed, qb', more, room) ↦ inr (
          set p.slots pos b',
          pos,
          put_loop-placed n cap pos p b at b' placed,
          set-AllQuiet p.slots pos b' q qb',
          length-set p.slots pos b',
          h,
          elements-put p.slots pos b b' (apply_reset p.reset_handle val) at more,
        )
      ]

module _ {ℓ} {T : Type ℓ} (p : SyncPool T) where
  -- The pool after a call that finds no room.
  abbrev pub refused : SyncPool T
  refused = record p { curr_put = advance (2 * length p.slots) p.curr_put }

module _ {ℓ} {T : Type ℓ} (p : SyncPool T) (val : T) where
  abbrev pub PutOutcome : SyncPool T × PutResult T → Type ℓ
  PutOutcome r =
      ((r ≡ (refused p, given_back val)) × (length (elements p.slots) ≡ length p.slots * slot_cap))
      ⊎ ((p' : SyncPool T) × (r ≡ (p', stored))
          × IsIdle p'
          × Perm (elements p'.slots) (apply_reset p.reset_handle val ∷ elements p.slots)
          × (length p'.slots ≡ length p.slots)
          × (p'.curr_put < length p.slots)
          × (p'.miss_count ≡ p.miss_count)
          × (p'.curr_get ≡ p.curr_get)
          × (p'.configure ≡ p.configure)
          × (p'.reset_handle ≡ p.reset_handle)
          × (p'.elem_builder ≡ p.elem_builder))

module _ {ℓ} {T : Type ℓ} (p : SyncPool T) (idle : IsIdle p) (val : T) where
  open idle use {some_bucket, alone, lowered, quiet}

  abbrev buckets : ℕ
  buckets = length p.slots

  guarded_loop : SyncPool T × Bool
  guarded_loop = put_loop (2 * buckets) buckets (p.curr_put % buckets) val (guard_in p)

  put-refused :
      guarded_loop ≡ (record (guard_in p) { curr_put = advance (2 * buckets) p.curr_put }, false)
      → put p val ≡ (refused p, given_back val)
  unfolding put register guarded_loop
  put-refused e = ground (arith, alone, lowered)

  put-stored :
      (slots : List (Bucket2 T)) (curr : ℕ)
      → guarded_loop ≡ (record (guard_in p) { slots = slots; curr_put = curr }, true)
      → put p val ≡ (record p { slots = slots; curr_put = curr }, stored)
  unfolding put register guarded_loop
  put-stored slots curr e = ground (arith, alone, lowered)

  -- The trials go round all buckets.
  Tried-all :
      p.curr_put + 2 * buckets ≤ usize_mod
      → Tried (FullAt p.slots) buckets (2 * buckets) (p.curr_put % buckets) p.curr_put
      → (i : ℕ) → i < buckets
      → FullAt p.slots i
  Tried-all fits tried i lt =
      let (j, small, reached) = window_reaches p.curr_put i buckets lt in
      let trials : 2 * buckets ≡ suc (2 * buckets - 1) = omega arith in
      let others =
        subst (λ n. Tried (FullAt p.slots) buckets n (p.curr_put % buckets) p.curr_put) trials
          tried in
      subst (FullAt p.slots) reached (
        Tried-at (FullAt p.slots) buckets (2 * buckets - 1) p.curr_put j (omega arith) (omega arith)
          others.1)

  -- On an idle pool whose put counter is not about to wrap, `put` either stores the element, reset,
  -- beside the others, in a pool that is idle again, or gives it back and changes nothing but the
  -- counter of `put`; it gives it back only if every bucket is full.
  pub put-outcome : p.curr_put + 2 * length p.slots ≤ usize_mod → PutOutcome p val (put p val)
  unfolding guarded_loop
  put-outcome fits =
      elim (put_loop-outcome val (2 * buckets) (p.curr_put % buckets) (guard_in p) quiet in_range) [
        | inl (e, tried) ↦ inl (put-refused e, all_full p.slots (Tried-all fits tried))
        | inr (slots, curr, e, q, same, below, perm) ↦ inr (
          record p { slots = slots; curr_put = curr },
          put-stored slots curr e,
          record {
            some_bucket = omega (arith, same, some_bucket);
            alone = alone;
            lowered = lowered;
            quiet = q;
          },
          perm,
          same,
          below,
          refl,
          refl,
          refl,
          refl,
          refl,
        )
      ]
    where
      in_range : p.curr_put % buckets < buckets
      in_range = omega (arith, some_bucket)
