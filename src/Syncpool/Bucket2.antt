-- ===== src/Syncpool/Bucket2.antt =====
-- syncpool/src/bucket.rs, `Bucket2`: eight slots, a counter and a bitmap, each operation run with
-- no other thread in between. A slot is the `*mut T` that it holds: `none` is the null pointer.
pub mod Slots
pub mod Rounds
pub mod Quiet
use byte_buffer.Prelude.{
  ℕ, zero, suc, ◌+◌, ◌*◌, ◌%◌, Bool, true, false, ◌&&◌, ◌||◌, Option, none, some, List, [], ◌∷◌,
  bit_and, bit_or, bit_xor, ltb, leb, ◌==◌, if◌then◌else◌, get_or, set, replicate,
}
use byte_buffer.Syncpool.Words.{shl, wrapping_add, wrapping_sub}
use byte_buffer.Syncpool.Utils.{enter}
use byte_buffer.Syncpool.Builder.{ElemBuilder, make_elem}

abbrev pub slot_cap : ℕ
slot_cap = 8

abbrev pub trials_count : ℕ
trials_count = 4

pub record Bucket2 {ℓ} (T : Type ℓ) : Type ℓ where
  pub slot : List (Option T)
  pub len : ℕ
  pub bitmap : ℕ

-- The loop of `leave`: the bitmap at its return, or `none` when the fuel is spent.
unfoldable pub leave_loop : ℕ → ℕ → ℕ → Option ℕ
leave_loop zero bitmap pos = none
leave_loop (suc fuel) bitmap pos =
    let lock_bit = shl 0b10 (2 * pos) in
    let next = bit_xor bitmap (shl 0b11 (2 * pos)) in
    elim (bit_and bitmap lock_bit == lock_bit) [
      | true ↦ some next
      | false ↦ leave_loop fuel next pos
    ]

module _ {ℓ} {T : Type ℓ} where
  -- The loop of `new` over the slots from `i` on, with `n` of them left.
  unfoldable pub fill : T → ElemBuilder T → ℕ → ℕ → List (Option T) → ℕ → List (Option T) × ℕ
  fill zeroed handle zero i slice bitmap = (slice, bitmap)
  fill zeroed handle (suc n) i slice bitmap =
      fill zeroed handle n (i + 1) (set slice i (some (make_elem zeroed handle)))
        (bit_or bitmap (shl 1 (2 * i)))

  unfoldable pub new : T → Option (ElemBuilder T) → Bucket2 T
  new zeroed none = record { slot = replicate slot_cap none; len = slot_cap; bitmap = 0 }
  new zeroed (some handle) =
      let (slice, bitmap) = fill zeroed handle slot_cap 0 (replicate slot_cap none) 0 in
      record { slot = slice; len = slot_cap; bitmap = bitmap }

  unfoldable pub size_hint : Bucket2 T → ℕ
  size_hint b = b.len % (slot_cap + 1)

  unfoldable pub access_failure : Bucket2 T → Bool → Bucket2 T × Option ℕ
  access_failure b true = (record b { len = wrapping_add b.len 1 }, none)
  access_failure b false = (record b { len = wrapping_sub b.len 1 }, none)

  -- The loop of `access`, with the trials that are left.
  unfoldable pub try_access : ℕ → Bucket2 T → Bool → Bucket2 T × Option ℕ
  try_access zero b get = access_failure b get
  try_access (suc trials) b get = elim (enter b.bitmap get) [
    | none ↦ try_access trials b get
    | some pos ↦
        let mask = shl 0b10 (2 * pos) in
        let b' : Bucket2 T = record b { bitmap = bit_or b.bitmap mask } in
        elim (bit_and b.bitmap mask == 0) [
          | true ↦ (b', some pos)
          | false ↦ try_access trials b' get
        ]
  ]

  unfoldable pub access : Bucket2 T → Bool → Bucket2 T × Option ℕ
  access b get =
      let curr_len = b.len in
      let b' : Bucket2 T = record b {
        len = if get then wrapping_sub curr_len 1 else wrapping_add curr_len 1;
      } in
      if ltb slot_cap curr_len || (get && (curr_len == 0))
      then access_failure b' get
      else try_access trials_count b' get

  -- Two rounds are enough: a round that does not return has set the lock bit.
  unfoldable pub leave : Bucket2 T → ℕ → Bucket2 T
  leave b pos = elim (leave_loop 2 b.bitmap pos) [
    | none ↦ b
    | some bitmap ↦ record b { bitmap = bitmap }
  ]

  unfoldable pub checkout : Bucket2 T → ℕ → Bucket2 T × Option T
  checkout b pos = elim (leb slot_cap pos) [
    | true ↦ (b, none)
    | false ↦ elim (get_or b.slot pos none) [
      | none ↦ (b, none)
      | some val ↦ (record b { slot = set b.slot pos none }, some val)
    ]
  ]

  unfoldable pub apply_reset : Option (T → T) → T → T
  apply_reset none val = val
  apply_reset (some handle) val = handle val

  unfoldable pub release : Bucket2 T → ℕ → T → Option (T → T) → Bucket2 T
  release b pos val reset = elim (leb slot_cap pos) [
    | true ↦ b
    | false ↦ elim (get_or b.slot pos none) [
      | none ↦ record b { slot = set b.slot pos (some (apply_reset reset val)) }
      | some _ ↦ b
    ]
  ]

  -- `Drop`: the elements whose destructor runs, in order, and the slots after it.
  unfoldable pub drop_slots : List (Option T) → List T × List (Option T)
  drop_slots [] = ([], [])
  drop_slots (none ∷ rest) = let (dropped, after) = drop_slots rest in (dropped, none ∷ after)
  drop_slots (some item ∷ rest) =
      let (dropped, after) = drop_slots rest in (item ∷ dropped, none ∷ after)

  -- `SyncPool::get` and `SyncPool::put` at one bucket. An inner `none` is a slot that was entered
  -- and turned out to be null.
  unfoldable pub take_from : Bucket2 T → Bucket2 T × Option (Option T)
  take_from b =
      let (b', entered) = access b true in
      elim entered [
        | none ↦ (b', none)
        | some i ↦ let (b'', val) = checkout b' i in (leave b'' i, some val)
      ]

  unfoldable pub put_into : Bucket2 T → T → Option (T → T) → Bucket2 T × Bool
  put_into b val reset =
      let (b', entered) = access b false in
      elim entered [ none ↦ (b', false) | some i ↦ (leave (release b' i val reset) i, true) ]
