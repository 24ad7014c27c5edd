-- ===== src/Syncpool/Pool/Expand.antt =====
-- `expand`: what it adds, when it refuses, and what it does to the count of visitors.
use byte_buffer.Prelude.{
  ℕ, zero, suc, ◌+◌, ◌-◌, ◌*◌, ◌%◌, ◌<◌, ◌≤◌, ◌≡◌, ◌≢◌, refl, subst, Bool, true, false, some, List,
  [], ◌++◌, arith, length, replicate,
}
use byte_buffer.Syncpool.Words.{usize_mod}
use byte_buffer.Syncpool.Builder.{make_elem}
use byte_buffer.Syncpool.Bucket2.{slot_cap}
use byte_buffer.Syncpool.Pool.{SyncPool, add_slots, guard_out}
use byte_buffer.Syncpool.Pool.State.{expansion_enabled}
use byte_buffer.Syncpool.Pool.Manager.{expansion_cap, await_visitors, expand}
use byte_buffer.Syncpool.Pool.Elements.{elements, IsIdle}
use byte_buffer.Syncpool.Pool.Make.{add_buckets-lem}

-- The visitors that are still in the pool leave it, one after the other.
abbrev pub all_leave {ℓ} : {T : Type ℓ} → ℕ → SyncPool T → SyncPool T
all_leave zero p = p
all_leave (suc k) p = all_leave k (guard_out p)

all_leave-visitors {ℓ} :
    {T : Type ℓ} (k : ℕ) (p : SyncPool T)
    → k < usize_mod
    → p.visitors < usize_mod
    → (all_leave k p).visitors ≡ (p.visitors + usize_mod - k) % usize_mod
all_leave-visitors zero p lt fits = omega arith
all_leave-visitors (suc k) p lt fits =
    omega (arith, all_leave-visitors k (guard_out p) (omega arith) (omega arith))

module _ {ℓ} {T : Type ℓ} (zeroed : T) (p : SyncPool T) where
  -- The tests that `expand` makes before it looks at the visitors.
  pub record MayExpand : Type ℓ where
    pub enabled : expansion_enabled p ≡ true
    pub below_cap : length p.slots ≤ expansion_cap
    pub lowered : p.barrier ≡ false

  -- A pool that is idle, may expand and is not over the limit gets `additional` full buckets behind
  -- the ones it has and its misses forgotten, blocking or not, if the weak exchange does not fail
  -- for no reason.
  pub expand-grows :
      (additional : ℕ) (block : Bool) (visits : List ℕ)
      → IsIdle p
      → MayExpand
      → (p' : SyncPool T) × (expand zeroed p additional block false visits ≡ (p', some true))
        × IsIdle p'
        × (length p'.slots ≡ length p.slots + additional)
        × (elements p'.slots
            ≡ elements p.slots
              ++ replicate (additional * slot_cap) (make_elem zeroed p.elem_builder))
        × (p'.miss_count ≡ 0)
  unfolding expand await_visitors add_slots
  expand-grows additional block visits idle may =
      let (q, size, held) = add_buckets-lem zeroed p.elem_builder additional p.slots idle.quiet in
      let alone : p.visitors ≡ 1 = idle.alone in
      let lowered : p.barrier ≡ false = idle.lowered in
      let enabled : expansion_enabled p ≡ true = may.enabled in
      let below : length p.slots ≤ expansion_cap = may.below_cap in
      (
        record (add_slots zeroed p additional true) {
          miss_count = 0;
          visitors = 1;
          barrier = false;
        },
        ground arith,
        record {
          some_bucket = omega (arith, size, idle.some_bucket);
          alone = refl;
          lowered = refl;
          quiet = q;
        },
        size,
        held,
        refl,
      )

  -- With a visitor inside, a call that does not block adds nothing, and it sets the count of
  -- visitors back to 1 all the same.
  expand-busy :
      (additional : ℕ) (visits : List ℕ)
      → MayExpand
      → p.visitors ≢ 1
      → expand zeroed p additional false false visits ≡ (record p { visitors = 1 }, some false)
  unfolding expand await_visitors
  expand-busy additional visits may busy =
      let lowered : p.barrier ≡ false = may.lowered in
      let enabled : expansion_enabled p ≡ true = may.enabled in
      let below : length p.slots ≤ expansion_cap = may.below_cap in ground arith

module _ {ℓ} {T : Type ℓ} (zeroed : T) (p : SyncPool T) (k : ℕ) where
  abbrev after : ℕ → SyncPool T
  after additional = all_leave (suc k) (expand zeroed p additional false false []).0

  -- If a pool may expand and visitors are inside, then after an `expand` that does not block the
  -- count of visitors is wrong: once the visitors that were inside have left, it is not 1, the
  -- count of a pool with nobody in it.
  pub expand_forgets_visitors :
      (additional : ℕ)
      → MayExpand zeroed p
      → p.visitors ≡ 1 + suc k
      → suc k + 1 < usize_mod
      → (after additional).visitors ≢ 1
  expand_forgets_visitors additional may inside fits e =
      let q : SyncPool T = record p { visitors = 1 } in
      let busy = expand-busy zeroed p additional [] may (omega arith) in
      let left = all_leave-visitors (suc k) q (omega arith) (omega arith) in
      let counted = subst (λ r. (all_leave (suc k) r.0).visitors ≡ 1) busy e in
      omega (arith, left, counted)
