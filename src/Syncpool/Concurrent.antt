-- ===== src/Syncpool/Concurrent.antt =====
-- syncpool/src/bucket.rs, `Bucket2` between threads that `SyncPool::get` and `SyncPool::put` work
-- at one bucket: each turn of a thread is one access to what the threads share, so that the null
-- test, the read and the write of a slot are three turns.
pub mod Turns
pub mod Locks
pub mod Exclusion
pub mod Pair
pub mod Visit
pub mod Stale
pub mod Solo
pub mod Alone
pub mod Ready
pub mod Conserve
mod Examples
use byte_buffer.Prelude.{
  ℕ, zero, suc, ◌≡◌, ◌*◌, ◌==◌, ◌&&◌, ◌||◌, Bool, true, false, Option, none, some, bit_and, bit_or,
  bit_xor, get_or, set, ltb, leb, if◌then◌else◌,
}
use byte_buffer.Syncpool.Words.{shl, wrapping_add, wrapping_sub}
use byte_buffer.Syncpool.Utils.{enter}
use byte_buffer.Syncpool.Bucket2.{Bucket2, slot_cap, trials_count, access_failure, apply_reset}

pub data Task {ℓ} (T : Type ℓ) : Type ℓ where
  getting : Task T
  putting : T → Task T

-- What `checkout` or `release` is about to do at a slot behind its null test: `mem::replace` reads
-- the pointer and then writes null, with the pointer that it has read in hand, and `release` stores
-- the value, which is reset first.
pub data Use {ℓ} (T : Type ℓ) : Type ℓ where
  reading : Use T
  clearing : Option T → Use T
  storing : T → Use T

-- Where a thread stands, with its local variables: at the head of the loop of `access` with the
-- trials that are left, before its `fetch_or`, before the null test of the slot that it has locked,
-- behind this test, and before the `fetch_xor` of `leave`.
pub data Pc {ℓ} (T : Type ℓ) : Type ℓ where
  idle : Pc T
  scanning : Task T → ℕ → Pc T
  locking : Task T → ℕ → ℕ → Pc T
  inside : Task T → ℕ → Pc T
  using : Use T → ℕ → Pc T
  leaving : ℕ → Pc T

abbrev pub update {ℓ} : {A : Type ℓ} → (ℕ → A) → ℕ → A → ℕ → A
update f i a j = if i == j then a else f j

module _ {ℓ} {T : Type ℓ} where
  abbrev pub is_get : Task T → Bool
  is_get getting = true
  is_get (putting val) = false

  -- The start of `access`: `fetch_sub` or `fetch_add`, and the test of the value before it. A
  -- thread that fails it has no trial left.
  unfoldable pub announce : Bucket2 T → Task T → Bucket2 T × Pc T
  announce b task =
      let get = is_get task in
      let curr_len = b.len in
      let b' : Bucket2 T = record b {
        len = if get then wrapping_sub curr_len 1 else wrapping_add curr_len 1;
      } in
      let over = ltb slot_cap curr_len || (get && (curr_len == 0)) in
      (b', scanning task (if over then 0 else trials_count))

  -- The `fetch_or` of `access`.
  unfoldable pub try_lock : Bucket2 T → Task T → ℕ → ℕ → Bucket2 T × Pc T
  try_lock b task trials pos =
      let mask = shl 0b10 (2 * pos) in
      let b' : Bucket2 T = record b { bitmap = bit_or b.bitmap mask } in
      if bit_and b.bitmap mask == 0 then (b', inside task pos) else (b', scanning task trials)

  -- The `fetch_xor` of `leave`; a round at an unlocked slot is followed by another.
  unfoldable pub try_leave : Bucket2 T → ℕ → Bucket2 T × Pc T
  try_leave b pos =
      let lock_bit = shl 0b10 (2 * pos) in
      let b' : Bucket2 T = record b { bitmap = bit_xor b.bitmap (shl 0b11 (2 * pos)) } in
      if bit_and b.bitmap lock_bit == lock_bit then (b', idle) else (b', leaving pos)

  -- The test at the start of `checkout` and of `release`.
  unfoldable pub test_slot : Bucket2 T → Task T → ℕ → Pc T
  test_slot b getting pos = elim (leb slot_cap pos) [
    | true ↦ leaving pos
    | false ↦ elim (get_or b.slot pos none) [ none ↦ leaving pos | some _ ↦ using reading pos ]
  ]
  test_slot b (putting val) pos = elim (leb slot_cap pos) [
    | true ↦ leaving pos
    | false ↦ elim (get_or b.slot pos none) [
      | none ↦ using (storing val) pos
      | some _ ↦ leaving pos
    ]
  ]

  -- The accesses to the slot behind this test.
  unfoldable pub use_slot : Option (T → T) → Bucket2 T → Use T → ℕ → Bucket2 T × Pc T
  use_slot reset b reading pos = (b, using (clearing (get_or b.slot pos none)) pos)
  use_slot reset b (clearing val) pos = (record b { slot = set b.slot pos none }, leaving pos)
  use_slot reset b (storing val) pos =
      (record b { slot = set b.slot pos (some (apply_reset reset val)) }, leaving pos)

  -- One turn of a thread. From `idle` it goes on to the task that is given.
  unfoldable pub advance : Option (T → T) → Task T → Bucket2 T → Pc T → Bucket2 T × Pc T
  advance reset next b idle = announce b next
  advance reset next b (scanning task zero) = ((access_failure b (is_get task)).0, idle)
  advance reset next b (scanning task (suc trials)) = elim (enter b.bitmap (is_get task)) [
    | none ↦ (b, scanning task trials)
    | some pos ↦ (b, locking task trials pos)
  ]
  advance reset next b (locking task trials pos) = try_lock b task trials pos
  advance reset next b (inside task pos) = (b, test_slot b task pos)
  advance reset next b (using use_of pos) = use_slot reset b use_of pos
  advance reset next b (leaving pos) = try_leave b pos

abbrev pub is_idle {ℓ} : {T : Type ℓ} → Pc T → Bool
is_idle idle = true
is_idle (scanning task trials) = false
is_idle (locking task trials pos) = false
is_idle (inside task pos) = false
is_idle (using use_of pos) = false
is_idle (leaving pos) = false

-- Any number of threads at one bucket.
pub record System {ℓ} (T : Type ℓ) : Type ℓ where
  pub bucket : Bucket2 T
  pub pc : ℕ → Pc T

module _ {ℓ} {T : Type ℓ} (reset : Option (T → T)) where
  unfoldable pub turn : ℕ → Task T → System T → System T
  turn i next s =
      let (b, p) = advance reset next s.bucket (s.pc i) in
      record { bucket = b; pc = update s.pc i p }

  -- The states that the turns of threads lead to, in any order, from a bucket with nobody at it.
  pub data Reach (b : Bucket2 T) : System T → Type ℓ where
    start : Reach b (record { bucket = b; pc = λ i. idle })
    later : {s : System T} → Reach b s → (i : ℕ) (next : Task T) → Reach b (turn i next s)

  -- The states that turns lead to with which no thread begins another task.
  pub data Onward (m : System T) : System T → Type ℓ where
    here : Onward m m
    on :
        {s : System T}
        → Onward m s
        → (i : ℕ) (next : Task T) → is_idle (s.pc i) ≡ false
        → Onward m (turn i next s)
