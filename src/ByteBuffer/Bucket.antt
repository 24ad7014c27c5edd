-- ===== src/ByteBuffer/Bucket.antt =====
-- byte_buffer/src/bucket.rs: chains of buckets of sixteen raw buffers, and `make_buffer` of
-- byte_buffer/src/utils.rs. Pointers are indices into the heap's lists, null is `none`.
pub mod Bits
pub mod Checkout
pub mod Chain
mod Examples
use byte_buffer.Prelude.{
  ℕ, zero, suc, ◌+◌, ◌-◌, ◌^◌, Bool, true, false, Option, none, some, List, [], ◌∷◌, ◌++◌, length,
  get_elem?, set, bit_xor, ltb, ◌==◌, if◌then◌else◌,
}
use byte_buffer.Syncpool.Utils.{trailing_zeros}
use byte_buffer.ByteBuffer.Vec.{Vec8, zeroes}
use byte_buffer.ByteBuffer.Pool.{Outcome, panicked, done}

abbrev pub raw_capacity : ℕ
raw_capacity = 16

pub record Bucket : Type 0 where
  pub stores : List ℕ
  pub bitmap : ℕ
  pub next : Option ℕ

pub record Heap : Type 0 where
  pub buffers : List Vec8
  pub buckets : List Bucket

-- `Vec::from_raw_parts(ptr, len, cap)`.
pub record RawVec : Type 0 where
  pub ptr : ℕ
  pub len : ℕ
  pub cap : ℕ

unfoldable pub make_buffer : ℕ → Heap → Heap × ℕ
make_buffer cap h = (record h { buffers = h.buffers ++ zeroes cap ∷ [] }, length h.buffers)

-- The loop of `new`, with the buffers that are still to be made.
unfoldable pub make_buffers : ℕ → ℕ → List ℕ → Heap → Heap × List ℕ
make_buffers zero size base h = (h, base)
make_buffers (suc n) size base h =
    let (h', buf) = make_buffer size h in make_buffers n size (base ++ buf ∷ []) h'

unfoldable pub new : ℕ → Heap → Heap × Bucket
new size h =
    let (h', base) = make_buffers 16 size [] h in
    (h', record { stores = base; bitmap = 0xffff; next = none })

-- `Box::into_raw(Box::new(Self::new(size)))`.
unfoldable pub boxed_new : ℕ → Heap → Heap × ℕ
boxed_new size h =
    let (h', bucket) = new size h in
    (record h' { buckets = h'.buckets ++ bucket ∷ [] }, length h'.buckets)

unfoldable pub store_next : ℕ → ℕ → Heap → Heap
store_next p next h = elim (get_elem? h.buckets p) [
  | none ↦ h
  | some curr ↦ record h { buckets = set h.buckets p (record curr { next = some next }) }
]

-- The loop of `build_chain`, with the buckets that are still to be made; the new tail.
unfoldable pub grow_chain : ℕ → ℕ → ℕ → Heap → Heap × ℕ
grow_chain zero size tail h = (h, tail)
grow_chain (suc n) size tail h =
    let (h', next) = boxed_new size h in grow_chain n size next (store_next tail next h')

unfoldable pub build_chain : ℕ → ℕ → Heap → Heap × ℕ × ℕ
build_chain count size h =
    let (h', head) = boxed_new size h in
    let (h'', tail) = grow_chain (count - 1) size head h' in (h'', head, tail)

unfoldable pub append : ℕ → ℕ → Heap → Heap × Bool
append p next h = elim (get_elem? h.buckets p) [
  | none ↦ (h, false)
  | some b ↦ elim b.next [ some _ ↦ (h, false) | none ↦ (store_next p next h, true) ]
]

unfoldable pub next_bucket : Heap → ℕ → Option ℕ
next_bucket h p = elim (get_elem? h.buckets p) [ none ↦ none | some b ↦ b.next ]

-- The loop of `checkout`, with the tries that are left: the bitmap at its end and the position that
-- it has taken. `found` holds what the attempts meet that another thread comes before; after them
-- an attempt meets the value that it expects.
unfoldable pub checkout_loop : ℕ → ℕ → List ℕ → ℕ × Option ℕ
checkout_loop zero base found = (base, none)
checkout_loop (suc tries) base [] =
    if base == 0
    then (base, none)
    else (bit_xor base (2 ^ trailing_zeros base), some (trailing_zeros base))
checkout_loop (suc tries) base (old ∷ found) =
    let again = checkout_loop tries old found in
    if base == 0
    then (base, none)
    else if old == base
    then (bit_xor base (2 ^ trailing_zeros base), some (trailing_zeros base))
    else again

-- `assert!(pos < 16)`, and the index of `stores`.
unfoldable pub get_buf : Bucket → ℕ → Outcome RawVec
get_buf b pos =
    if ltb pos 16
    then elim (get_elem? b.stores pos) [
      | none ↦ panicked
      | some p ↦ done (record { ptr = p; len = 0; cap = raw_capacity })
    ]
    else panicked

unfoldable pub checkout : List ℕ → Bucket → Bucket × Outcome (Option RawVec)
checkout found b =
    let (bitmap, taken) = checkout_loop 4 b.bitmap found in
    (
      record b { bitmap = bitmap },
      elim taken [
        | none ↦ done none
        | some pos ↦ elim (get_buf b pos) [ panicked ↦ panicked | done buf ↦ done (some buf) ]
      ],
    )
