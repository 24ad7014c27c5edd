-- ===== src/ByteBuffer/Pool/Ops.antt =====
-- What each command of `exec` does to the pool, if it is run.
use byte_buffer.Prelude.{
  get-append, get-append_right, ℕ, zero, suc, ◌+◌, ◌≡◌, ◌<◌, ◌≤◌, refl, ap, ◌∙◌, get_elem?-lt,
  set-append_last, get-append_last, leb, ltb, ◌==◌, ◌&&◌, if◌then◌else◌, Bool, true, false, Option,
  none, some, [], ◌∷◌, ◌++◌, arith, length, length-append, get_elem?, get_elem?-set_ne, length-set,
  replicate, length-replicate, Option-cases, inl, inr, Bool-cases,
}
use byte_buffer.ByteBuffer.Vec.{Vec8, zeroes}
use byte_buffer.ByteBuffer.Pool.{
  BufferPool, BufOp, reserve_op, release_op, release_and_extend, extend_op, Outcome, done, panicked,
  reset_vec, reset, extend, run_op, release, try_reserve, default_growth,
}
use byte_buffer.ByteBuffer.Pool.Facts.{reset-done, reset-panics, beyond, extend-lem}

-- A panic comes of a reset at an id that is out of range, and of an extension by nothing.
abbrev pub panics : BufferPool → BufOp → Bool
panics buf (reserve_op forced) = false
panics buf (release_op id dirty) = dirty && leb (length buf.store) id
panics buf (release_and_extend vec dirty) = false
panics buf (extend_op count) = count == 0

-- The buffer that a command resets.
abbrev pub resets : BufOp → ℕ → Bool
resets (reserve_op forced) j = false
resets (release_op id dirty) j = dirty && (id == j)
resets (release_and_extend vec dirty) j = false
resets (extend_op count) j = false

-- How many buffers a command adds.
abbrev pub gain : BufferPool → ℕ → BufOp → ℕ
gain buf size_cap (reserve_op forced) = if forced then default_growth else 0
gain buf size_cap (release_op id dirty) = 0
gain buf size_cap (release_and_extend vec dirty) = if ltb (length buf.store) size_cap then 1 else 0
gain buf size_cap (extend_op count) = count

-- An index that is returned is the last, of a buffer of zeroes that was not there before.
abbrev pub Returned : BufferPool → BufferPool → Option ℕ → Type 0
Returned buf buf' none = Unit
Returned buf buf' (some id) =
    (length buf.store ≤ id)
    × (length buf'.store ≡ id + 1)
    × (get_elem? buf'.store id ≡ some (zeroes buf.slice_capacity))

abbrev pub OpOutcome : BufferPool → ℕ → BufOp → Outcome (BufferPool × Option ℕ) → Type 0
OpOutcome buf size_cap command panicked = panics buf command ≡ true
OpOutcome buf size_cap command (done (buf', result)) =
    (panics buf command ≡ false)
    × (length buf'.store ≡ length buf.store + gain buf size_cap command)
    × ((j : ℕ)
        → j < length buf.store
        → resets command j ≡ false
        → get_elem? buf'.store j ≡ get_elem? buf.store j)
    × Returned buf buf' result
    × (buf'.slice_capacity ≡ buf.slice_capacity)

get-replicate_last : (n : ℕ) (v : Vec8) → get_elem? (replicate (suc n) v) n ≡ some v
get-replicate_last zero v = refl
get-replicate_last (suc n) v = get-replicate_last n v

module _ (grow : ℕ → ℕ → ℕ) (buf : BufferPool) (size_cap : ℕ) where
  -- The pool with one buffer more.
  abbrev pushed : Vec8 → BufferPool
  pushed v = record buf { store = buf.store ++ v ∷ [] }

  -- The pool with `n` more buffers of zeroes.
  abbrev extended : ℕ → BufferPool
  extended n = record buf { store = buf.store ++ replicate n (zeroes buf.slice_capacity) }

  module _ (command : BufOp) (fine : panics buf command ≡ false) where
    same-outcome : gain buf size_cap command ≡ 0 → OpOutcome buf size_cap command (done (buf, none))
    same-outcome gained = (fine, omega (arith, gained), (λ j lt kept. refl), tt, refl)

    pushed-outcome :
        (v : Vec8)
        → gain buf size_cap command ≡ 1
        → OpOutcome buf size_cap command (done (pushed v, none))
    pushed-outcome v gained = (
      fine,
      omega (arith, gained, length-append buf.store (v ∷ [])),
      λ j lt kept. get-append buf.store (v ∷ []) j lt,
      tt,
      refl,
    )

    extended-outcome :
        (n : ℕ)
        → gain buf size_cap command ≡ suc n
        → OpOutcome buf size_cap command (done (extended (suc n), some (length buf.store + n)))
    extended-outcome n gained =
        let more = replicate (suc n) (zeroes buf.slice_capacity) in
        let longer = length-append buf.store more in
        let many = length-replicate (suc n) (zeroes buf.slice_capacity) in
        (
          fine,
          omega (arith, gained, longer, many),
          λ j lt kept. get-append buf.store more j lt,
          (
            omega arith,
            omega (arith, longer, many),
            get-append_right buf.store more n ∙ get-replicate_last n (zeroes buf.slice_capacity),
          ),
          refl,
        )

  extended-at : (n : ℕ) → extend grow buf (suc n) ≡ done (extended (suc n), length buf.store + n)
  extended-at n = ground (arith, extend-lem grow buf (suc n))

  no_extension : extend grow buf 0 ≡ panicked
  no_extension = extend-lem grow buf 0

  reset_at-outcome :
      (id : ℕ)
      → OpOutcome buf size_cap (release_op id true) (run_op grow buf size_cap (release_op id true))
  unfolding run_op release
  reset_at-outcome id = elim (Option-cases (get_elem? buf.store id)) [
    | inl missing ↦
        let out = beyond grow buf.store id missing in
        rw (reset-panics grow buf id missing) (ground arith)
    | inr (v, at) ↦
        let w = reset_vec grow buf.slice_capacity v in
        let inside = get_elem?-lt buf.store id at in
        rw (reset-done grow buf id v at) (
          ground arith,
          omega (arith, length-set buf.store id w),
          λ j lt kept. get_elem?-set_ne buf.store w (λ same. ground arith),
          tt,
          refl,
        )
  ]

  reset-pushed :
      (vec : Vec8)
      → reset grow (pushed vec) (length buf.store)
        ≡ done (pushed (reset_vec grow buf.slice_capacity vec))
  reset-pushed vec =
      let w = reset_vec grow buf.slice_capacity vec in
      reset-done grow (pushed vec) (length buf.store) vec (get-append_last buf.store vec)
      ∙ ap (λ store. done (record buf { store = store })) (set-append_last buf.store vec w)

  module _ (vec : Vec8) (dirty : Bool) where
    run_op-pushes :
        ltb (length buf.store) size_cap ≡ true
        → run_op grow buf size_cap (release_and_extend vec dirty)
          ≡ done (pushed (if dirty then reset_vec grow buf.slice_capacity vec else vec), none)
    unfolding run_op
    run_op-pushes room = ground (arith, reset-pushed vec)

    run_op-drops :
        ltb (length buf.store) size_cap ≡ false
        → run_op grow buf size_cap (release_and_extend vec dirty) ≡ done (buf, none)
    unfolding run_op
    run_op-drops full = ground arith

  -- A command that is run on a pool panics exactly if it resets a buffer that is out of range or
  -- extends the pool by nothing. If not, the pool keeps its capacity and its buffers, all but the
  -- one that it resets as they were, and it gains four buffers by a forced reservation, as many as
  -- are asked for by an extension, one by a release of a new buffer while there are fewer than the
  -- size cap, and none otherwise; an index that is returned is the last one, of a buffer of zeroes
  -- that was not in the pool before.
  pub run_op-outcome :
      (command : BufOp) → OpOutcome buf size_cap command (run_op grow buf size_cap command)
  unfolding run_op try_reserve release
  run_op-outcome (reserve_op true) =
      rw (extended-at 3) (extended-outcome (reserve_op true) refl 3 refl)
  run_op-outcome (reserve_op false) = same-outcome (reserve_op false) refl refl
  run_op-outcome (release_op id true) = reset_at-outcome id
  run_op-outcome (release_op id false) = same-outcome (release_op id false) refl refl
  run_op-outcome (extend_op zero) = rw no_extension refl
  run_op-outcome (extend_op (suc n)) =
      rw (extended-at n) (extended-outcome (extend_op (suc n)) (ground arith) n refl)
  run_op-outcome (release_and_extend vec dirty) =
      elim (Bool-cases (ltb (length buf.store) size_cap)) [
        | inl room ↦
            let kept = if dirty then reset_vec grow buf.slice_capacity vec else vec in
            rw (run_op-pushes vec dirty room)
              (pushed-outcome (release_and_extend vec dirty) refl kept (ground arith))
        | inr full ↦
            rw (run_op-drops vec dirty full)
              (same-outcome (release_and_extend vec dirty) refl (ground arith))
      ]
