-- ===== src/Syncpool/Builder.antt =====
-- How an element is made: `ElemBuilder` (syncpool/src/pool.rs), `make_elem` (utils.rs) and
-- `make_box`, `default_box` (boxed.rs). A `Box<T>` is the element that it owns.

-- The handlers are function pointers with no state of their own: each call of one builds the same
-- value.
pub data ElemBuilder {ℓ} (T : Type ℓ) : Type ℓ where
  default : (Unit {0} → T) → ElemBuilder T
  builder : (Unit {0} → T) → ElemBuilder T
  packer : (T → T) → ElemBuilder T

module _ {ℓ} {T : Type ℓ} where
  -- `zeroed` is what `raw_box_zeroed` finds in memory that the allocator has zeroed.
  unfoldable pub make_box : T → (T → T) → T
  make_box zeroed pack = pack zeroed

  -- `ptr::write(p, Default::default())` and the box of `p`.
  unfoldable pub default_box : (Unit {0} → T) → T
  default_box make = make tt

  unfoldable pub make_elem : T → ElemBuilder T → T
  make_elem zeroed (default f) = f tt
  make_elem zeroed (builder f) = f tt
  make_elem zeroed (packer f) = make_box zeroed f
