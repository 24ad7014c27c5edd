-- ===== src/ByteBuffer/Pool/Facts.antt =====
-- What the pool's operations do when they are run.
use mathlib.Core.List.{append-nil, append_assoc}
use byte_buffer.Prelude.{
  get-append, get-append_right, ℕ, zero, suc, ◌+◌, ◌-◌, ◌≡◌, ◌≢◌, ◌<◌, ◌≤◌, sym, ◌∙◌, ltb,
  if◌then◌else◌, true, none, some, List, [], ◌∷◌, ◌++◌, arith, length, length-append, get_elem?,
  set, get_elem?-set_self, get_elem?-set_ne, length-set, replicate, length-replicate, get_elem?-lt,
  Option-cases, inl, inr,
}
use byte_buffer.ByteBuffer.Vec.{
  Vec8, zeroes, AllZero, zero_all-AllZero, truncate, reserve, length-zero_all, take,
  length-take-le_self,
}
use byte_buffer.ByteBuffer.Pool.{
  BufferPool, Outcome, done, panicked, reset_vec, reset, push_zeroes, extend, run_op, reserve_op,
  try_reserve, default_growth,
}

module _ (grow : ℕ → ℕ → ℕ) where
  pub reset_vec-AllZero : (capacity : ℕ) (v : Vec8) → AllZero (reset_vec grow capacity v).bytes
  unfolding reset_vec
  reset_vec-AllZero capacity v = zero_all-AllZero _

  abbrev pub ResetOutcome : BufferPool → ℕ → Outcome BufferPool → Type 0
  ResetOutcome buf id panicked = length buf.store ≤ id
  ResetOutcome buf id (done buf') =
      (v : Vec8) × (w : Vec8) × (get_elem? buf.store id ≡ some v)
      × (get_elem? buf'.store id ≡ some w)
      × AllZero w.bytes
      × (length w.bytes ≤ length v.bytes)
      × ((j : ℕ) → id ≢ j → get_elem? buf'.store j ≡ get_elem? buf.store j)
      × (length buf'.store ≡ length buf.store)

  length-reset_vec :
      (capacity : ℕ) (v : Vec8) → length (reset_vec grow capacity v).bytes ≤ length v.bytes
  unfolding reset_vec truncate reserve
  length-reset_vec capacity v = ground (
    arith,
    length-zero_all v.bytes,
    length-zero_all (take capacity v.bytes),
    length-take-le_self capacity v.bytes,
  )

  pub beyond : (store : List Vec8) (id : ℕ) → get_elem? store id ≡ none → length store ≤ id
  beyond [] id e = omega arith
  beyond (v ∷ store) zero e = cc
  beyond (v ∷ store) (suc id) e = omega (arith, beyond store id e)

  pub reset-done :
      (buf : BufferPool) (id : ℕ) (v : Vec8)
      → get_elem? buf.store id ≡ some v
      → reset grow buf id
        ≡ done (record buf { store = set buf.store id (reset_vec grow buf.slice_capacity v) })
  unfolding reset
  reset-done buf id v at = ground arith

  pub reset-panics :
      (buf : BufferPool) (id : ℕ) → get_elem? buf.store id ≡ none → reset grow buf id ≡ panicked
  unfolding reset
  reset-panics buf id missing = ground arith

  -- `reset` of a pool panics only on an id that is out of range; on any other it leaves that buffer
  -- all zero and no longer than it was, and every other buffer as it was.
  pub reset-outcome : (buf : BufferPool) (id : ℕ) → ResetOutcome buf id (reset grow buf id)
  reset-outcome buf id = elim (Option-cases (get_elem? buf.store id)) [
    | inl missing ↦ rw (reset-panics buf id missing) (beyond buf.store id missing)
    | inr (v, at) ↦
        let w = reset_vec grow buf.slice_capacity v in
        rw (reset-done buf id v at) (
          v,
          w,
          at,
          get_elem?-set_self buf.store id w (get_elem?-lt buf.store id at),
          reset_vec-AllZero buf.slice_capacity v,
          length-reset_vec buf.slice_capacity v,
          λ j ne. get_elem?-set_ne buf.store w ne,
          length-set buf.store id w,
        )
  ]

module _ (grow : ℕ → ℕ → ℕ) where
  push_zeroes-append :
      (n capacity : ℕ) (store : List Vec8)
      → push_zeroes grow n capacity store ≡ store ++ replicate n (zeroes capacity)
  unfolding push_zeroes
  push_zeroes-append zero capacity store = sym (append-nil store)
  push_zeroes-append (suc n) capacity store =
      push_zeroes-append n capacity (store ++ zeroes capacity ∷ [])
      ∙ append_assoc store (zeroes capacity ∷ []) (replicate n (zeroes capacity))

  -- `extend` by at least one keeps the buffers that there are, adds as many buffers of zeroes of
  -- the pool's capacity, and returns the last index; by none it panics.
  pub extend-lem :
      (buf : BufferPool) (additional : ℕ)
      → extend grow buf additional ≡ (
          if ltb 0 additional
          then done (
            record buf { store = buf.store ++ replicate additional (zeroes buf.slice_capacity) },
            length buf.store + additional - 1,
          )
          else panicked)
  unfolding extend
  extend-lem buf additional = ground (
    arith,
    push_zeroes-append additional buf.slice_capacity buf.store,
    length-append buf.store (replicate additional (zeroes buf.slice_capacity)),
    length-replicate additional (zeroes buf.slice_capacity),
  )

  -- A forced reservation, were the lock to be had, returns the index of a buffer of zeroes that was
  -- not in the pool before, and every buffer that was there is kept.
  reserve-fresh :
      (buf : BufferPool) (size_cap : ℕ)
      → (buf' : BufferPool) × (id : ℕ) × (run_op grow buf size_cap (reserve_op true)
          ≡ done (buf', some id))
        × (length buf.store ≤ id)
        × (get_elem? buf'.store id ≡ some (zeroes buf.slice_capacity))
        × ((j : ℕ) → j < length buf.store → get_elem? buf'.store j ≡ get_elem? buf.store j)
  unfolding run_op try_reserve
  reserve-fresh buf size_cap =
      let z = zeroes buf.slice_capacity in
      let last : length buf.store + default_growth - 1 ≡ length buf.store + 3 = omega arith in
      (
        record buf { store = buf.store ++ replicate default_growth z },
        length buf.store + default_growth - 1,
        ground (arith, extend-lem buf default_growth),
        omega arith,
        rw last (get-append_right buf.store (replicate default_growth z) 3),
        λ j h. get-append buf.store (replicate default_growth z) j h,
      )
