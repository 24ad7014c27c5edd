-- ===== src/Syncpool/Bucket.antt =====
-- syncpool/src/bucket.rs, `Bucket` and `RingBucket`: eight slots behind a flag, used as a stack, and
-- the eight slots of a ring. The pool does not use them.
pub mod Stack
mod Examples
use byte_buffer.Prelude.{
  ℕ, zero, suc, ◌+◌, ◌%◌, ◌==◌, ◌&&◌, ◌||◌, Bool, true, false, not, Option, none, some, List, leb,
  ltb, if◌then◌else◌, get_elem?, set, replicate,
}
use mathlib.Core.Option
use byte_buffer.Syncpool.Builder.{ElemBuilder, make_elem}
use byte_buffer.Syncpool.Bucket2.{slot_cap, apply_reset}

pub record Bucket {ℓ} (T : Type ℓ) : Type ℓ where
  pub slot : List (Option T)
  pub len : ℕ
  pub access_flag : Bool

-- A call that may panic.
pub data Outcome {ℓ} (A : Type ℓ) : Type ℓ where
  panicked : Outcome A
  done : A → Outcome A

-- The loop at the head of `access`: attempt `k` meets the flag that `found k` says, with `count`
-- more attempts to go. The result says if the flag has been taken.
unfoldable pub take_flag : ℕ → (ℕ → Bool) → ℕ → Bool
take_flag zero found k = not (found k)
take_flag (suc count) found k = elim (found k) [
  | false ↦ true
  | true ↦ take_flag count found (k + 1)
]

module _ {ℓ} {T : Type ℓ} where
  unfoldable pub new : Option (Unit {0} → T) → Bucket T
  new none = record { slot = replicate slot_cap none; len = slot_cap; access_flag = false }
  new (some handle) = record {
    slot = replicate slot_cap (some (handle tt));
    len = slot_cap;
    access_flag = false;
  }

  unfoldable pub size_hint : Bucket T → ℕ
  size_hint b = b.len % (slot_cap + 1)

  unfoldable pub leave : Bucket T → Bucket T
  leave b = record b { access_flag = false }

  -- `found` is what the attempts to take the flag meet. At a failure the flag is another thread's.
  unfoldable pub access : (ℕ → Bool) → Bucket T → Bool → Bucket T × Bool
  access found b get =
      let locked : Bucket T = record b { access_flag = true } in
      if not (take_flag (if get then 4 else 2) found 0)
      then (b, false)
      else if (get && (b.len == 0)) || (not get && (b.len == slot_cap))
      then (leave locked, false)
      else (locked, true)

  -- At `len` 0 the subtraction overflows or the index is out of range: a panic either way.
  unfoldable pub checkout : Bucket T → Outcome (Bucket T × Option T)
  checkout b = elim b.len [
    | zero ↦ panicked
    | suc i ↦ elim (get_elem? b.slot i) [
      | none ↦ panicked
      | some none ↦ done (b, none)
      | some (some val) ↦ done (record b { slot = set b.slot i none; len = i }, some val)
    ]
  ]

  -- An element that finds its slot full, or no slot, is dropped.
  unfoldable pub release : Bucket T → T → Option (T → T) → Bucket T
  release b val reset =
      let i = b.len in
      if leb slot_cap i then b else elim (get_elem? b.slot i) [
        | some none ↦ record b { slot = set b.slot i (some (apply_reset reset val)); len = i + 1 }
        | some (some _) ↦ b
        | none ↦ b
      ]

  -- The calls at one bucket that the comments in `SyncPool::get` and `SyncPool::put` keep.
  unfoldable pub get_from : (ℕ → Bool) → Bucket T → Outcome (Bucket T × Option T)
  get_from found b =
      let (b', entered) = access found b true in
      if not entered
      then done (b', none)
      else elim (checkout b') [ panicked ↦ panicked | done (b'', val) ↦ done (leave b'', val) ]

  unfoldable pub put_to : (ℕ → Bool) → Bucket T → T → Option (T → T) → Bucket T × Bool
  put_to found b val reset =
      let (b', entered) = access found b false in
      if not entered then (b', false) else (leave (release b' val reset), true)

pub record RingBucket {ℓ} (T : Type ℓ) : Type ℓ where
  pub slot : List (Option T)
  pub len : ℕ
  pub head : ℕ
  pub tail : ℕ

unfoldable pub new_ring {ℓ} : {T : Type ℓ} → T → Option (ElemBuilder T) → RingBucket T
new_ring zeroed filler = record {
  slot = replicate slot_cap (Option.map (make_elem zeroed) filler);
  len = slot_cap;
  head = 0;
  tail = slot_cap;
}
