-- ===== src/Syncpool/Pool.antt =====
-- syncpool/src/pool.rs: `SyncPool`, its constructors, `get` and `put`, each call run with no other
-- thread in between.
pub mod Elements
pub mod State
pub mod Manager
pub mod Tried
pub mod Get
pub mod Put
pub mod Missed
pub mod Len
pub mod Refill
pub mod Configure
pub mod Expand
pub mod Make
pub mod Drop
pub mod Handle
pub mod Session
mod Examples
use byte_buffer.Prelude.{
  ℕ, zero, suc, ◌*◌, ◌/◌, ◌%◌, Bool, true, false, Option, none, some, List, [], ◌∷◌, ◌++◌, ltb,
  if◌then◌else◌, length, get_elem?, set,
}
use byte_buffer.Syncpool.Words.{wrapping_add, wrapping_sub}
use byte_buffer.Syncpool.Builder.{ElemBuilder, default, builder, packer, make_elem}
use byte_buffer.Syncpool.Bucket2.{Bucket2, slot_cap, new, drop_slots, take_from, put_into}

abbrev pub pool_size : ℕ
pool_size = 8

-- `curr` and `visitor_counter` are pairs of atomics: a field for each.
pub record SyncPool {ℓ} (T : Type ℓ) : Type ℓ where
  pub slots : List (Bucket2 T)
  pub curr_get : ℕ
  pub curr_put : ℕ
  pub visitors : ℕ
  pub barrier : Bool
  pub miss_count : ℕ
  pub configure : ℕ
  pub reset_handle : Option (T → T)
  pub elem_builder : ElemBuilder T

-- What `put` comes to. A putter waits for as long as the barrier is up, and with no other thread
-- to lower it the call does not return.
pub data PutResult {ℓ} (T : Type ℓ) : Type ℓ where
  stored : PutResult T
  given_back : T → PutResult T
  waiting : T → PutResult T

-- The registration of a visitor, from the barrier values that it reads one after the other.
pub data Entry : Type 0 where
  registered turned_away spinning : Entry

unfoldable pub register : List Bool → Bool → Entry
register [] get = spinning
register (false ∷ reads) get = registered
register (true ∷ reads) true = turned_away
register (true ∷ reads) false = register reads false

-- The number of buckets for `size` elements, in the `_and_size` constructors and `with_size`.
unfoldable pub buckets_for : ℕ → ℕ
buckets_for size = let pool_size = size / slot_cap in if ltb pool_size 1 then 1 else pool_size

module _ {ℓ} {T : Type ℓ} where
  -- `VisitorGuard::register` counts the visitor, and the guard's `drop` counts it out.
  abbrev pub guard_in : SyncPool T → SyncPool T
  guard_in p = record p { visitors = wrapping_add p.visitors 1 }

  abbrev pub guard_out : SyncPool T → SyncPool T
  guard_out p = record p { visitors = wrapping_sub p.visitors 1 }

  -- `add_slots`, with the filler that it is given.
  unfoldable pub add_buckets : T → Option (ElemBuilder T) → ℕ → List (Bucket2 T) → List (Bucket2 T)
  add_buckets zeroed filler zero slots = slots
  add_buckets zeroed filler (suc count) slots =
      add_buckets zeroed filler count (slots ++ new zeroed filler ∷ [])

  unfoldable pub add_slots : T → SyncPool T → ℕ → Bool → SyncPool T
  add_slots zeroed p count fill = record p {
    slots = add_buckets zeroed (if fill then some p.elem_builder else none) count p.slots;
  }

  unfoldable pub make_pool : T → ℕ → ElemBuilder T → SyncPool T
  make_pool zeroed size b = add_slots zeroed fresh size true
    where
      fresh : SyncPool T
      fresh = record {
        slots = [];
        curr_get = 0;
        curr_put = 0;
        visitors = 1;
        barrier = false;
        miss_count = 0;
        configure = 0;
        reset_handle = none;
        elem_builder = b;
      }

  unfoldable pub new_pool : T → (Unit {0} → T) → SyncPool T
  new_pool zeroed make = make_pool zeroed pool_size (default make)

  unfoldable pub with_size : T → ℕ → (Unit {0} → T) → SyncPool T
  with_size zeroed size make = make_pool zeroed (buckets_for size) (default make)

  unfoldable pub with_builder : T → (Unit {0} → T) → SyncPool T
  with_builder zeroed make = make_pool zeroed pool_size (builder make)

  unfoldable pub with_builder_and_size : T → ℕ → (Unit {0} → T) → SyncPool T
  with_builder_and_size zeroed size make = make_pool zeroed (buckets_for size) (builder make)

  unfoldable pub with_packer : T → (T → T) → SyncPool T
  with_packer zeroed pack = make_pool zeroed pool_size (packer pack)

  unfoldable pub with_packer_and_size : T → ℕ → (T → T) → SyncPool T
  with_packer_and_size zeroed size pack = make_pool zeroed (buckets_for size) (packer pack)

  -- The loop of `get`, with the trials that are left: the element found, or `none` at a `break`.
  -- `pos` is always a remainder by `cap`, the number of buckets, so the index is in range.
  unfoldable pub get_loop : ℕ → ℕ → ℕ → SyncPool T → SyncPool T × Option T
  get_loop zero cap pos p = (p, none)
  get_loop (suc trials) cap pos p = elim (get_elem? p.slots pos) [
    | none ↦ (p, none)
    | some slot ↦
        let (slot', found) = take_from slot in
        let p' : SyncPool T = record p { slots = set p.slots pos slot' } in
        elim found [
          | none ↦
              get_loop trials cap (p'.curr_get % cap)
                (record p' { curr_get = wrapping_add p'.curr_get 1 })
          | some none ↦ (p', none)
          | some (some val) ↦ (record p' { curr_get = pos }, some val)
        ]
  ]

  unfoldable pub get : T → SyncPool T → SyncPool T × T
  get zeroed p = elim (register (p.barrier ∷ []) true) [
    | turned_away ↦ (p, make_elem zeroed p.elem_builder)
    | spinning ↦ (p, make_elem zeroed p.elem_builder)
    | registered ↦
        let cap = length p.slots in
        let (p', found) = get_loop cap cap (p.curr_get % cap) (guard_in p) in
        elim found [
          | some val ↦ (guard_out p', val)
          | none ↦
              let out : SyncPool T = guard_out p' in
              (
                record out { miss_count = wrapping_add out.miss_count 1 },
                make_elem zeroed p.elem_builder,
              )
        ]
  ]

  -- The loop of `put`: `true` if the element was placed.
  unfoldable pub put_loop : ℕ → ℕ → ℕ → T → SyncPool T → SyncPool T × Bool
  put_loop zero cap pos val p = (p, false)
  put_loop (suc trials) cap pos val p = elim (get_elem? p.slots pos) [
    | none ↦ (p, false)
    | some slot ↦
        let (slot', placed) = put_into slot val p.reset_handle in
        let p' : SyncPool T = record p { slots = set p.slots pos slot' } in
        elim placed [
          | false ↦
              put_loop trials cap (p'.curr_put % cap) val
                (record p' { curr_put = wrapping_add p'.curr_put 1 })
          | true ↦ (record p' { curr_put = pos }, true)
        ]
  ]

  unfoldable pub put : SyncPool T → T → SyncPool T × PutResult T
  put p val = elim (register (p.barrier ∷ []) false) [
    | turned_away ↦ (p, waiting val)
    | spinning ↦ (p, waiting val)
    | registered ↦
        let cap = length p.slots in
        let (p', placed) = put_loop (2 * cap) cap (p.curr_put % cap) val (guard_in p) in
        (guard_out p', if placed then stored else given_back val)
  ]

  -- `Drop`: the elements whose destructor runs, in order, and the pool after it.
  unfoldable pub drop_buckets : List (Bucket2 T) → List T
  drop_buckets [] = []
  drop_buckets (b ∷ slots) = (drop_slots b.slot).0 ++ drop_buckets slots

  unfoldable pub drop_pool : SyncPool T → List T × SyncPool T
  drop_pool p = (drop_buckets p.slots, record p { slots = []; reset_handle = none })
