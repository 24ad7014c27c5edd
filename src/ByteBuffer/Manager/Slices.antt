-- ===== src/ByteBuffer/Manager/Slices.antt =====
-- Reading and writing through a slice.
use byte_buffer.Prelude.{
  ℕ, ◌≡◌, inl, inr, true, none, some, Option, [], arith, get_elem?, set, get_elem?-set_self,
  get_elem?-lt, Option-cases,
}
use byte_buffer.ByteBuffer.Vec.{Vec8, zero_all, AllZero}
use byte_buffer.ByteBuffer.Pool.{
  Globals, BufferPool, Outcome, done, panicked, get_readable, get_writable, write_back, reset_slice,
  reset_vec, default_capacity, Access, granted, denied,
}
use byte_buffer.ByteBuffer.Pool
use byte_buffer.ByteBuffer.Pool.Facts.{reset_vec-AllZero}
use byte_buffer.ByteBuffer.Manager.{BufferSlice, as_writable, write_to, read, reset}

module _ (g : Globals) (s : BufferSlice) (v : Vec8) where
  -- What the caller has after a write through `as_writable`.
  abbrev pub written : Globals × BufferSlice
  written = let (s', target) = as_writable g s in write_to g s' target v

  abbrev ReadsBack : Type 0
  ReadsBack = (read written.0 written.1 ≡ some v) × (written.1.dirty ≡ true)

  with_fallback : (fb : Vec8) → s.fallback ≡ some fb → ReadsBack
  unfolding read as_writable write_to
  with_fallback fb e = ground arith

  without_pool : s.fallback ≡ none → g.buffer ≡ none → ReadsBack
  unfolding read as_writable write_to get_writable get_readable
  without_pool e none_there = ground arith

  out_of_reach :
      (buf : BufferPool)
      → s.fallback ≡ none
      → g.buffer ≡ some buf
      → get_elem? buf.store s.id ≡ none
      → ReadsBack
  unfolding read as_writable write_to get_writable get_readable
  out_of_reach buf e there missing = ground arith

  in_reach :
      (buf : BufferPool) (w : Vec8)
      → s.fallback ≡ none
      → g.buffer ≡ some buf
      → get_elem? buf.store s.id ≡ some w
      → ReadsBack
  unfolding read as_writable write_to get_writable get_readable write_back
  in_reach buf w e there at =
      ground (arith, get_elem?-set_self buf.store s.id v (get_elem?-lt buf.store s.id at))

  -- What is written through `as_writable` is read back, whether the slice has a fallback, has a
  -- buffer of the pool, or is given a fallback because the pool is gone, closing or too short; and
  -- the slice is dirty from then on.
  pub read-written : (read written.0 written.1 ≡ some v) × (written.1.dirty ≡ true)
  read-written = elim (Option-cases s.fallback) [
    | inr (fb, e) ↦ with_fallback fb e
    | inl e ↦ elim (Option-cases g.buffer) [
      | inl none_there ↦ without_pool e none_there
      | inr (buf, there) ↦ elim (Option-cases (get_elem? buf.store s.id)) [
        | inl missing ↦ out_of_reach buf e there missing
        | inr (w, at) ↦ in_reach buf w e there at
      ]
    ]
  ]

-- The first buffer of the pool, which is that of slice 0.
abbrev pub first_buffer : Globals → Option Vec8
first_buffer g = elim g.buffer [ none ↦ none | some buf ↦ get_elem? buf.store 0 ]

module _ (grow : ℕ → ℕ → ℕ) (g : Globals) (s : BufferSlice) (buf : BufferPool)
    (there : g.buffer ≡ some buf) (mine : s.id ≡ 0) (used : s.dirty ≡ true) where
  -- `reset` of a dirty slice with a fallback, whose id is 0, also wipes buffer 0 of the pool, if
  -- there is one, which the slice does not own.
  pub reset-wipes_first :
      (fb v : Vec8)
      → s.fallback ≡ some fb
      → get_elem? buf.store 0 ≡ some v
      → (g' : Globals) × (s' : BufferSlice) × (w : Vec8) × (reset grow g s ≡ done (g', s'))
        × (first_buffer g' ≡ some w)
        × AllZero w.bytes
  unfolding reset reset_slice Pool.reset
  reset-wipes_first fb v e at =
      let w = reset_vec grow buf.slice_capacity v in
      (
        record g { buffer = some (record buf { store = set buf.store 0 w }) },
        record s { fallback = some (record fb { bytes = zero_all fb.bytes }) },
        w,
        ground arith,
        get_elem?-set_self buf.store 0 w (get_elem?-lt buf.store 0 at),
        reset_vec-AllZero grow buf.slice_capacity v,
      )

  -- With a pool that has no buffers it panics.
  pub reset-panics : buf.store ≡ [] → reset grow g s ≡ panicked
  unfolding reset reset_slice Pool.reset
  reset-panics empty = ground arith
