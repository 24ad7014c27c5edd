-- ===== src/ByteBuffer/Pool.antt =====
-- byte_buffer/src/buffer.rs and utils.rs: the static buffer pool. `Outcome.panicked` is an
-- `assert!` or an index that fails. The channel to the worker is a crate of its own: what is handed
-- to its `send` is kept in order, and what its `recv` returns is an argument.
pub mod Facts
pub mod Ops
use byte_buffer.Prelude.{
  ℕ, zero, suc, ◌+◌, ◌-◌, ◌≤◌, ◌<◌, Bool, true, false, Option, none, some, List, [], ◌∷◌, ◌++◌, ltb,
  leb, if◌then◌else◌, length, get_elem?, set,
}
use byte_buffer.ByteBuffer.Vec.{Vec8, zeroes, truncate, reserve, zero_all}
use byte_buffer.ByteBuffer.Lock.{
  ErrorKind, not_connected, invalid_data, LockResult, locked, failed, looping, lock,
}

pub data BufOp : Type 0 where
  reserve_op : Bool → BufOp
  release_op : ℕ → Bool → BufOp
  release_and_extend : Vec8 → Bool → BufOp
  extend_op : ℕ → BufOp

pub data WorkerOp : Type 0 where
  cleanup : ℕ → Bool → WorkerOp
  shutdown : WorkerOp

pub data SliceStatusQuery : Type 0 where
  length_query capacity_query : SliceStatusQuery

abbrev pub default_growth : ℕ
default_growth = 4

abbrev pub default_capacity_guess : ℕ
default_capacity_guess = 512

pub data Outcome (A : Type 0) : Type 0 where
  done : A → Outcome A
  panicked : Outcome A

infixl 5 ◌>>=◌
abbrev pub ◌>>=◌ : {A B : Type 0} → Outcome A → (A → Outcome B) → Outcome B
done a >>= f = f a
panicked >>= f = panicked

pub record BufferPool : Type 0 where
  pub store : List Vec8
  pub slice_capacity : ℕ
  pub closing : Bool
  pub barrier : Bool
  pub visitors : ℕ

-- The statics of the crate, and the messages handed to the worker's channel so far.
pub record Globals : Type 0 where
  pub buffer : Option BufferPool
  pub size_cap : ℕ
  pub lock_flag : Bool
  pub sent : List WorkerOp

-- `PoolOps`: the methods that run under the lock.
unfoldable pub try_reserve : BufferPool → Option ℕ
try_reserve buf = none

unfoldable pub release : BufferPool → ℕ → BufferPool
release buf id = buf

module _ (grow : ℕ → ℕ → ℕ) where
  unfoldable pub reset_vec : ℕ → Vec8 → Vec8
  reset_vec capacity v =
      let fitted : Vec8 =
        if ltb capacity v.cap
        then truncate v capacity
        else if ltb v.cap capacity
        then reserve grow v (capacity - v.cap)
        else v in
      record fitted { bytes = zero_all fitted.bytes }

  unfoldable pub reset : BufferPool → ℕ → Outcome BufferPool
  reset buf id = elim (get_elem? buf.store id) [
    | none ↦ panicked
    | some v ↦ done (record buf { store = set buf.store id (reset_vec buf.slice_capacity v) })
  ]

  -- The pushes of `extend`.
  unfoldable pub push_zeroes : ℕ → ℕ → List Vec8 → List Vec8
  push_zeroes zero capacity store = store
  push_zeroes (suc n) capacity store = push_zeroes n capacity (store ++ zeroes capacity ∷ [])

  unfoldable pub extend : BufferPool → ℕ → Outcome (BufferPool × ℕ)
  extend buf additional =
      let store = push_zeroes additional buf.slice_capacity buf.store in
      if ltb 0 additional then done (record buf { store = store }, length store - 1) else panicked

  -- The pushes of `expand_slice`, one for each byte between the length and the capacity.
  unfoldable pub expand_slice : BufferPool → ℕ → ℕ → BufferPool
  expand_slice buf id additional = elim (get_elem? buf.store id) [
    | none ↦ buf
    | some v ↦
        let v' = reserve grow v additional in
        let more = (zeroes (v'.cap - length v.bytes)).bytes in
        record buf { store = set buf.store id (record v' { bytes = v'.bytes ++ more }) }
  ]

  -- The `match` of `exec`, on the pool that is there.
  unfoldable pub run_op : BufferPool → ℕ → BufOp → Outcome (BufferPool × Option ℕ)
  run_op buf size_cap (reserve_op forced) = elim (try_reserve buf) [
    | some id ↦ done (buf, some id)
    | none ↦ elim forced [
      | true ↦ do (buf', id) ← extend buf default_growth; done (buf', some id)
      | false ↦ done (buf, none)
    ]
  ]
  run_op buf size_cap (release_op id dirty) =
      let buf' = release buf id in
      elim dirty [ true ↦ do buf'' ← reset buf' id; done (buf'', none) | false ↦ done (buf', none) ]
  run_op buf size_cap (extend_op count) = do (buf', id) ← extend buf count; done (buf', some id)
  run_op buf size_cap (release_and_extend vec dirty) =
      let id = length buf.store in
      let buf' : BufferPool = record buf { store = buf.store ++ vec ∷ [] } in
      elim (ltb id size_cap) [
        | false ↦ done (buf, none)
        | true ↦ elim dirty [
          | true ↦ do buf'' ← reset buf' id; done (buf'', none)
          | false ↦ done (buf', none)
        ]
      ]

  -- The body of `exec` once the lock is held; a panic unwinds past `unlock`.
  unfoldable pub run_locked : Globals → BufOp → Globals × Outcome (Option ℕ)
  run_locked g command = elim g.buffer [
    | none ↦ (record g { lock_flag = false }, done none)
    | some buf ↦ elim (run_op buf g.size_cap command) [
      | panicked ↦ (g, panicked)
      | done (buf', result) ↦ (record g { buffer = some buf'; lock_flag = false }, done result)
    ]
  ]

  unfoldable pub exec : (ℕ → Bool) → Globals → BufOp → Globals × Outcome (Option ℕ)
  exec found g command =
      let (flag, result) = lock found in
      let g' : Globals = record g { lock_flag = flag } in
      elim result [
        | locked ↦ run_locked g' command
        | failed kind ↦ (g', done none)
        | looping ↦ (g', panicked)
      ]

  -- The loop of `handle_work`, over what `recv` returns: a message, or an error as `none`. Each
  -- `exec` of it meets its own values of the lock.
  unfoldable pub handle_work :
      (ℕ → ℕ → Bool) → ℕ → Globals → List (Option WorkerOp) → Globals × Outcome (Unit {0})
  handle_work found turn g [] = (g, done tt)
  handle_work found turn g (none ∷ rx) = (g, done tt)
  handle_work found turn g (some shutdown ∷ rx) = (g, done tt)
  handle_work found turn g (some (cleanup id dirty) ∷ rx) =
      let (g', result) = exec (found turn) g (release_op id dirty) in
      elim result [ panicked ↦ (g', panicked) | done _ ↦ handle_work found (turn + 1) g' rx ]

  -- `reset_slice`, which does not take the lock.
  unfoldable pub reset_slice : Globals → ℕ → Outcome Globals
  reset_slice g id = elim g.buffer [
    | none ↦ done g
    | some buf ↦ do buf' ← reset buf id; done (record g { buffer = some buf' })
  ]

unfoldable pub make : Globals → List Vec8 → ℕ → Globals
make g store slice_capacity = record g {
  size_cap = if ltb g.size_cap (length store) then length store else g.size_cap;
  buffer = some (record {
    store = store;
    slice_capacity = slice_capacity;
    closing = false;
    barrier = false;
    visitors = 0;
  });
}

unfoldable pub default_capacity : Globals → ℕ
default_capacity g = elim g.buffer [ some buf ↦ buf.slice_capacity | none ↦ default_capacity_guess ]

unfoldable pub slice_stat : Globals → ℕ → SliceStatusQuery → Outcome ℕ
slice_stat g id query = elim g.buffer [
  | none ↦ done 0
  | some buf ↦ elim (get_elem? buf.store id) [
    | none ↦ panicked
    | some v ↦ done (elim query [ length_query ↦ length v.bytes | capacity_query ↦ v.cap ])
  ]
]

unfoldable pub reset_and_release : Globals → ℕ → Bool → Globals
reset_and_release g id dirty = elim g.buffer [
  | none ↦ g
  | some buf ↦ record g { sent = g.sent ++ cleanup id dirty ∷ [] }
]

pub data Access : Type 0 where
  granted : Vec8 → Access
  denied : ErrorKind → Access

-- `get_writable` and `get_readable`: a reference to a buffer of the store is its index, and what
-- stands there.
unfoldable pub get_readable : Globals → ℕ → Access
get_readable g id = elim g.buffer [
  | none ↦ denied not_connected
  | some buf ↦ elim buf.closing [
    | true ↦ denied not_connected
    | false ↦ elim (get_elem? buf.store id) [ some v ↦ granted v | none ↦ denied invalid_data ]
  ]
]

unfoldable pub get_writable : Globals → ℕ → Access
get_writable = get_readable

-- A write through the reference that `get_writable` has returned.
unfoldable pub write_back : Globals → ℕ → Vec8 → Globals
write_back g id v = elim g.buffer [
  | none ↦ g
  | some buf ↦ record g { buffer = some (record buf { store = set buf.store id v }) }
]

unfoldable pub set_size_limit : Globals → ℕ → Globals
set_size_limit g limit = record g { size_cap = limit }

-- `Drop for BufferPool`.
unfoldable pub drop_pool : Globals → BufferPool → Globals × BufferPool
drop_pool g buf = (record g { sent = g.sent ++ shutdown ∷ [] }, record buf { closing = true })
