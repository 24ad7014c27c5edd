-- ===== src/Syncpool/Experimental.antt =====
-- syncpool/src/experimental: what its two files share, which is what they use of the language and
-- of its standard library.
pub mod Host
pub mod Chain
pub mod Defaults
mod Examples
use byte_buffer.Prelude.{
  ℕ, Bool, true, false, Option, none, some, List, [], ◌∷◌, ◌++◌, ltb, if◌then◌else◌, length,
  get_elem?, set,
}

-- The places where a `ManuallyDrop<Box<T>>` lies or has lain, `none` where the storage is gone, and
-- the boxes that have been dropped. A place is not used again: a read of storage that is gone is
-- undefined, and the functions here return `none` for it, whatever lies there by then. A drop leaves
-- the storage as it is: whether it ends then is up to the code around the drop.
pub record Memory {ℓ} (T : Type ℓ) : Type ℓ where
  pub places : List (Option T)
  pub dropped : List T

module _ {ℓ} {T : Type ℓ} where
  -- A value is put at a place of its own.
  abbrev pub place : Memory T → T → Memory T × ℕ
  place m v = (record m { places = m.places ++ some v ∷ [] }, length m.places)

  abbrev pub read_at : List (Option T) → ℕ → Option T
  read_at places a = elim (get_elem? places a) [ none ↦ none | some v ↦ v ]

  -- `ptr::read`.
  abbrev pub read : Memory T → ℕ → Option T
  read m a = read_at m.places a

  -- `ManuallyDrop::drop`.
  abbrev pub drop_val : Memory T → ℕ → Option (Memory T)
  drop_val m a = elim (read m a) [
    | none ↦ none
    | some v ↦ some (record m { dropped = m.dropped ++ v ∷ [] })
  ]

  -- The storage of a variable ends.
  abbrev pub end_storage : Memory T → ℕ → Memory T
  end_storage m a = record m { places = set m.places a none }

-- A bounded channel of `std::sync::mpsc`, with the messages of type `M` that are in it.
pub record Channel {ℓ} (M : Type ℓ) : Type ℓ where
  pub queue : List M
  pub bound : ℕ
  pub connected : Bool

pub data TrySendError {ℓ} (M : Type ℓ) : Type ℓ where
  full disconnected : M → TrySendError M

module _ {ℓ} {M : Type ℓ} where
  abbrev pub try_send : Channel M → M → Channel M × Option (TrySendError M)
  try_send ch msg =
      if ch.connected
      then if ltb (length ch.queue) ch.bound
        then (record ch { queue = ch.queue ++ msg ∷ [] }, none)
        else (ch, some (full msg))
      else (ch, some (disconnected msg))

  abbrev pub pop : List M → List M × Option M
  pop [] = ([], none)
  pop (msg ∷ queue) = (queue, some msg)

  abbrev pub try_recv : Channel M → Channel M × Option M
  try_recv ch = let (queue, msg) = pop ch.queue in (record ch { queue = queue }, msg)
