-- ===== src/ByteBuffer/Manager.antt =====
-- byte_buffer/src/manager.rs: `ByteBuffer` and `BufferSlice`. `found` says which values of the lock
-- a call's attempts meet, and `grow` how far a vector grows.
pub mod Broken
pub mod Slices
use byte_buffer.Prelude.{
  ℕ, zero, suc, ◌+◌, Bool, true, false, ◌&&◌, Option, none, some, List, [], ◌∷◌, ◌++◌, ltb, ◌==◌,
  if◌then◌else◌, length, replicate,
}
use byte_buffer.ByteBuffer.Vec.{Vec8, zeroes, zero_all}
use byte_buffer.ByteBuffer.Lock.{ErrorKind, invalid_data}
use byte_buffer.ByteBuffer.Pool.{
  Outcome, done, panicked, ◌>>=◌, Globals, BufOp, reserve_op, extend_op, release_and_extend,
  SliceStatusQuery, length_query, capacity_query, exec, reset_slice, make, default_capacity,
  slice_stat, reset_and_release, Access, granted, denied, get_readable, get_writable, write_back,
}

pub record BufferSlice : Type 0 where
  pub id : ℕ
  pub fallback : Option Vec8
  pub dirty : Bool

-- The closure of `init`; `once` says that `ONCE` has run before.
unfoldable pub init : Bool → Globals → ℕ → ℕ → Globals
init true g size capacity = g
init false g size capacity = make g (replicate size (zeroes capacity)) capacity

unfoldable pub new_slice : ℕ → Option Vec8 → BufferSlice
new_slice id fallback = record { id = id; fallback = fallback; dirty = false }

module _ (grow : ℕ → ℕ → ℕ) (found : ℕ → Bool) where
  unfoldable pub slice : Globals → Globals × Outcome BufferSlice
  slice g =
      let (g', result) = exec grow found g (reserve_op true) in
      elim result [
        | panicked ↦ (g', panicked)
        | done (some val) ↦ (g', done (record { id = val; fallback = none; dirty = false }))
        | done none ↦ (
          g',
          done (record { id = 0; fallback = some (zeroes (default_capacity g')); dirty = false }),
        )
      ]

  unfoldable pub try_slice : Globals → Globals × Outcome (Option BufferSlice)
  try_slice g =
      let (g', result) = exec grow found g (reserve_op false) in
      elim result [
        | panicked ↦ (g', panicked)
        | done (some id) ↦ (g', done (some (record { id = id; fallback = none; dirty = false })))
        | done none ↦ (g', done none)
      ]

  unfoldable pub extend_pool : Globals → ℕ → Globals × Outcome (Option ℕ)
  extend_pool g additional = exec grow found g (extend_op additional)

  -- `Drop for BufferSlice`.
  unfoldable pub drop_slice : Globals → BufferSlice → Globals × Outcome (Option ℕ)
  drop_slice g s = elim s.fallback [
    | none ↦ (reset_and_release g s.id s.dirty, done none)
    | some vec ↦ elim (s.id == 0) [
      | true ↦ exec grow found g (release_and_extend vec s.dirty)
      | false ↦ (reset_and_release g s.id s.dirty, done none)
    ]
  ]

-- What `as_writable` and `as_writable_vec` lend: the fallback or a buffer of the pool.
pub data Target : Type 0 where
  in_fallback : Target
  in_pool : ℕ → Target

unfoldable pub as_writable : Globals → BufferSlice → BufferSlice × Target
as_writable g s =
    let marked : BufferSlice = record s { dirty = true } in
    elim s.fallback [
      | some vec ↦ (marked, in_fallback)
      | none ↦ elim (get_writable g s.id) [
        | granted vec ↦ (marked, in_pool s.id)
        | denied kind ↦
            (record marked { fallback = some (zeroes (default_capacity g)) }, in_fallback)
      ]
    ]

-- The caller's write of a vector of the same capacity through what was lent, into the place that is
-- there: without a fallback, or a buffer of this number in the pool, nothing is written.
unfoldable pub write_to : Globals → BufferSlice → Target → Vec8 → Globals × BufferSlice
write_to g s in_fallback v = elim s.fallback [
  | none ↦ (g, s)
  | some fb ↦ (g, record s { fallback = some v })
]
write_to g s (in_pool id) v = (write_back g id v, s)

-- `read` and `read_as_vec`.
unfoldable pub read : Globals → BufferSlice → Option Vec8
read g s = elim s.fallback [
  | some vec ↦ some vec
  | none ↦ elim (get_readable g s.id) [ granted vec ↦ some vec | denied kind ↦ none ]
]

unfoldable pub copy_to_vec : Globals → BufferSlice → List ℕ
copy_to_vec g s = elim (read g s) [ some vec ↦ vec.bytes | none ↦ [] ]

pub data Text : Type 0 where
  text : List ℕ → Text
  not_text : ErrorKind → Text

-- `str::from_utf8` accepts the bytes for which `is_utf8` holds.
unfoldable pub try_into_string : (List ℕ → Bool) → Globals → BufferSlice → Text
try_into_string is_utf8 g s = elim (read g s) [
  | some vec ↦ if is_utf8 vec.bytes then text vec.bytes else not_text invalid_data
  | none ↦ not_text invalid_data
]

-- `BufferSlice::reset`.
unfoldable pub reset : (ℕ → ℕ → ℕ) → Globals → BufferSlice → Outcome (Globals × BufferSlice)
reset grow g s = elim s.dirty [
  | false ↦ done (g, s)
  | true ↦ do
    g' ← reset_slice grow g s.id
    done (elim s.fallback [
      | none ↦ (g', s)
      | some fb ↦ (g', record s { fallback = some (record fb { bytes = zero_all fb.bytes }) })
    ])
]

unfoldable pub len : Globals → BufferSlice → Outcome ℕ
len g s = slice_stat g s.id length_query

unfoldable pub capacity : Globals → BufferSlice → Outcome ℕ
capacity g s = slice_stat g s.id capacity_query
