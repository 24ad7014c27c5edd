-- ===== src/Syncpool/Pool/Get.antt =====
-- What `get` does to an idle pool.
use byte_buffer.Prelude.{
  ℕ, zero, suc, ◌%◌, ◌<◌, ◌≡◌, refl, ◌∙◌, ◌⊎◌, inl, inr, Option, none, some, List, [], ◌∷◌, Perm,
  arith, length, length-set, get_elem?, get_elem?-of_lt, set, set_self,
}
use byte_buffer.Syncpool.Words.{wrapping_add}
use byte_buffer.Syncpool.Builder.{make_elem}
use byte_buffer.Syncpool.Bucket2.{Bucket2, take_from}
use byte_buffer.Syncpool.Bucket2.Slots.{contents}
use byte_buffer.Syncpool.Bucket2.Quiet.{IsQuiet, take_from-IsQuiet}
use byte_buffer.Syncpool.Pool.{SyncPool, register, guard_in, get_loop, get}
use byte_buffer.Syncpool.Pool.Tried.{advance, Tried, EmptyAt}
use byte_buffer.Syncpool.Pool.Elements.{
  elements, AllQuiet, get-AllQuiet, set-AllQuiet, elements-take, IsIdle,
}

module _ {ℓ} {T : Type ℓ} where
  -- One bucket is changed, and the counter: nothing else.
  abbrev pub LoopOutcome : ℕ → ℕ → ℕ → SyncPool T → SyncPool T × Option T → Type ℓ
  LoopOutcome n cap pos p r =
      ((r ≡ (record p { curr_get = advance n p.curr_get }, none))
        × Tried (EmptyAt p.slots) cap n pos p.curr_get)
      ⊎ ((slots : List (Bucket2 T)) × (curr : ℕ) × (v : T) × (r
            ≡ (record p { slots = slots; curr_get = curr }, some v))
          × AllQuiet slots
          × (length slots ≡ length p.slots)
          × Perm (elements p.slots) (v ∷ elements slots))

  module _ (n cap pos : ℕ) (p : SyncPool T) (b : Bucket2 T)
      (at : get_elem? p.slots pos ≡ some b) where
    -- The pool for the next trial.
    abbrev pub advanced : SyncPool T
    advanced = record p { curr_get = wrapping_add p.curr_get 1 }

    pub get_loop-missed :
        take_from b ≡ (b, none)
        → get_loop (suc n) cap pos p ≡ get_loop n cap (p.curr_get % cap) advanced
    unfolding get_loop
    get_loop-missed e = ground (arith, set_self p.slots pos b at)

    get_loop-hit :
        (b' : Bucket2 T) (v : T)
        → take_from b ≡ (b', some (some v))
        → get_loop (suc n) cap pos p
          ≡ (record p { slots = set p.slots pos b'; curr_get = pos }, some v)
    unfolding get_loop
    get_loop-hit b' v e = ground arith

    -- A trial that fails passes the outcome of the others on.
    LoopOutcome-missed :
        contents b.slot ≡ []
        → take_from b ≡ (b, none)
        → LoopOutcome n cap (p.curr_get % cap) advanced (get_loop n cap (p.curr_get % cap) advanced)
        → LoopOutcome (suc n) cap pos p (get_loop (suc n) cap pos p)
    LoopOutcome-missed empty e (inl (r, tried)) =
        inl (get_loop-missed e ∙ r, ((b, at, empty), tried))
    LoopOutcome-missed empty e (inr (slots, curr, v, r, q, same, perm)) =
        inr (slots, curr, v, get_loop-missed e ∙ r, q, same, perm)

  pub get_loop-outcome :
      (n pos : ℕ) (p : SyncPool T)
      → AllQuiet p.slots
      → pos < length p.slots
      → LoopOutcome n (length p.slots) pos p (get_loop n (length p.slots) pos p)
  unfolding get_loop
  get_loop-outcome zero pos p q h = inl (refl, tt)
  get_loop-outcome (suc n) pos p q h =
      let cap = length p.slots in
      let (b, at) = get_elem?-of_lt p.slots pos h in
      let qb : IsQuiet b = get-AllQuiet p.slots pos q at in
      elim (take_from-IsQuiet b qb) [
        | inl (missed, empty) ↦ LoopOutcome-missed n cap pos p b at empty missed (
            get_loop-outcome n (p.curr_get % cap)
              (record p { curr_get = wrapping_add p.curr_get 1 }) q (omega arith))
        | inr (b', v, hit, qb', split) ↦ inr (
          set p.slots pos b',
          pos,
          v,
          get_loop-hit n cap pos p b at b' v hit,
          set-AllQuiet p.slots pos b' q qb',
          length-set p.slots pos b',
          elements-take p.slots pos b b' v at split,
        )
      ]

module _ {ℓ} {T : Type ℓ} (zeroed : T) (p : SyncPool T) where
  -- The pool after a call that finds nothing.
  abbrev pub missed : SyncPool T
  missed = record p {
    curr_get = advance (length p.slots) p.curr_get;
    miss_count = wrapping_add p.miss_count 1;
  }

  abbrev pub GetOutcome : SyncPool T × T → Type ℓ
  GetOutcome r =
      ((r ≡ (missed, make_elem zeroed p.elem_builder))
        × Tried (EmptyAt p.slots) (length p.slots) (length p.slots) (p.curr_get % length p.slots)
            p.curr_get)
      ⊎ ((p' : SyncPool T) × (v : T) × (r ≡ (p', v))
          × IsIdle p'
          × Perm (elements p.slots) (v ∷ elements p'.slots)
          × (length p'.slots ≡ length p.slots)
          × (p'.miss_count ≡ p.miss_count)
          × (p'.curr_put ≡ p.curr_put)
          × (p'.configure ≡ p.configure)
          × (p'.reset_handle ≡ p.reset_handle)
          × (p'.elem_builder ≡ p.elem_builder))

module _ {ℓ} {T : Type ℓ} (zeroed : T) (p : SyncPool T) (idle : IsIdle p) where
  abbrev pub buckets : ℕ
  buckets = length p.slots

  open idle use {some_bucket, alone, lowered, quiet}

  abbrev pub guarded_loop : SyncPool T × Option T
  guarded_loop = get_loop buckets buckets (p.curr_get % buckets) (guard_in p)

  pub get-none :
      guarded_loop ≡ (record (guard_in p) { curr_get = advance buckets p.curr_get }, none)
      → get zeroed p ≡ (missed zeroed p, make_elem zeroed p.elem_builder)
  unfolding get register
  get-none e = ground (arith, alone, lowered)

  get-some :
      (slots : List (Bucket2 T)) (curr : ℕ) (v : T)
      → guarded_loop ≡ (record (guard_in p) { slots = slots; curr_get = curr }, some v)
      → get zeroed p ≡ (record p { slots = slots; curr_get = curr }, v)
  unfolding get register
  get-some slots curr v e = ground (arith, alone, lowered)

  -- On an idle pool `get` either takes one element out of the pool, which holds the others as
  -- before and is idle again, or it builds a new element, changes nothing but the miss count, which
  -- goes up by one, and the counter of `get`, which goes up by the number of buckets; it builds one
  -- only if every bucket that it looked at is empty.
  pub get-outcome : GetOutcome zeroed p (get zeroed p)
  get-outcome = elim (get_loop-outcome buckets (p.curr_get % buckets) (guard_in p) quiet in_range) [
    | inl (e, tried) ↦ inl (get-none e, tried)
    | inr (slots, curr, v, e, q, same, perm) ↦ inr (
      record p { slots = slots; curr_get = curr },
      v,
      get-some slots curr v e,
      record {
        some_bucket = omega (arith, same, some_bucket);
        alone = alone;
        lowered = lowered;
        quiet = q;
      },
      perm,
      same,
      refl,
      refl,
      refl,
      refl,
      refl,
    )
  ]
    where
      in_range : p.curr_get % buckets < buckets
      in_range = omega (arith, some_bucket)
