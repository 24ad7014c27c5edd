-- ===== src/Syncpool/Pool/Drop.antt =====
-- What the drop of a pool drops.
use byte_buffer.Prelude.{◌≡◌, ap, refl, Option, none, some, List, [], ◌∷◌, ◌++◌}
use byte_buffer.Syncpool.Bucket2.{Bucket2, drop_slots}
use byte_buffer.Syncpool.Bucket2.Slots.{contents}
use byte_buffer.Syncpool.Pool.{SyncPool, drop_buckets, drop_pool}
use byte_buffer.Syncpool.Pool.Elements.{elements}

module _ {ℓ} {T : Type ℓ} where
  drop_slots-contents : (s : List (Option T)) → (drop_slots s).0 ≡ contents s
  unfolding drop_slots
  drop_slots-contents [] = refl
  drop_slots-contents (none ∷ s) = drop_slots-contents s
  drop_slots-contents (some v ∷ s) = ap (◌∷◌ v) (drop_slots-contents s)

  drop_slots-nulls : (s : List (Option T)) → contents (drop_slots s).1 ≡ []
  unfolding drop_slots
  drop_slots-nulls [] = refl
  drop_slots-nulls (none ∷ s) = drop_slots-nulls s
  drop_slots-nulls (some v ∷ s) = drop_slots-nulls s

  drop_buckets-elements : (slots : List (Bucket2 T)) → drop_buckets slots ≡ elements slots
  unfolding drop_buckets
  drop_buckets-elements [] = refl
  drop_buckets-elements (b ∷ slots) =
      rw (drop_slots-contents b.slot) (ap (λ l. contents b.slot ++ l) (drop_buckets-elements slots))

  -- The drop of a pool runs the destructor of every element that the pool holds, in order and once
  -- for each, and leaves no bucket and no reset handle.
  drop_pool-elements :
      (p : SyncPool T)
      → ((drop_pool p).0 ≡ elements p.slots)
        × ((drop_pool p).1.slots ≡ [])
        × ((drop_pool p).1.reset_handle ≡ none)
  unfolding drop_pool
  drop_pool-elements p = (drop_buckets-elements p.slots, refl, refl)
