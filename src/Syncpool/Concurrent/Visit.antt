-- ===== src/Syncpool/Concurrent/Visit.antt =====
-- A thread at an unlocked slot that it has chosen: it locks it, uses it and leaves it.
use byte_buffer.Prelude.{
  ℕ, zero, suc, ◌≤◌, ◌<◌, ◌≡◌, refl, ◌∙◌, Option, none, some, List, arith, length, length-set,
  get_elem?, get_elem?-lt, get_elem?-set_self, set, set-set, set_self,
}
use byte_buffer.Prelude.Fields.{pack, IsFields, set-IsFields}
use byte_buffer.Syncpool.Utils.States.{lock, flip}
use byte_buffer.Syncpool.Bucket2.{Bucket2, apply_reset}
use byte_buffer.Syncpool.Bucket2.Slots.{get_or-of_get}
use byte_buffer.Syncpool.Concurrent.{
  Task, getting, putting, reading, clearing, idle, locking, inside, using, leaving, storing,
  test_slot, use_slot, advance,
}
use byte_buffer.Syncpool.Concurrent.Pair.{Works, rest, work, Works-trans}
use byte_buffer.Syncpool.Concurrent.Turns.{try_lock-pack, try_leave-pack}

-- What becomes of the two bits of a slot that is locked and left.
abbrev pub toggled : ℕ → ℕ
toggled d = flip (lock d)

pub toggled_twice : (d : ℕ) → d < 2 → toggled (toggled d) ≡ d
toggled_twice zero h = refl
toggled_twice (suc zero) h = refl
toggled_twice (suc (suc d)) h = absurd (omega arith)

pub record Toggles (d : ℕ) : Type 0 where
  pub lock_small : (2 ≤ lock d) × (lock d < 4)
  pub toggled_small : toggled d < 2

pub toggles : (d : ℕ) → d < 2 → Toggles d
toggles zero h = record { lock_small = omega arith; toggled_small = omega arith }
toggles (suc zero) h = record { lock_small = omega arith; toggled_small = omega arith }
toggles (suc (suc d)) h = absurd (omega arith)

module _ {ℓ} {T : Type ℓ} where
  -- The bucket when a thread that has found slot `i` unlocked has locked, used and left it.
  abbrev pub visited : Bucket2 T → List ℕ → ℕ → ℕ → List (Option T) → Bucket2 T
  visited b ds i d slots = record b { slot = slots; bitmap = pack (set ds i (toggled d)) }

  -- What a thread leaves in a slot in which it has found `o`.
  abbrev pub left_in : Option (T → T) → Task T → Option T → Option T
  left_in reset getting o = none
  left_in reset (putting val) none = some (apply_reset reset val)
  left_in reset (putting val) (some w) = some w

  module _ (reset : Option (T → T)) (x : Bucket2 T) (i : ℕ) (lt : i < 8) where
    -- From the null test of the slot on, which may be the last access to it.
    pub use_up :
        (task : Task T) (o : Option T)
        → get_elem? x.slot i ≡ some o
        → Works reset task x
            (inside task i)
            (record x { slot = set x.slot i (left_in reset task o) })
            (leaving i)
    unfolding advance test_slot use_slot
    use_up getting none at =
        let same = set_self x.slot i none at in
        let held = get_or-of_get x.slot i none at in rw same (work rest refl (ground (arith, held)))
    use_up getting (some v) at =
        let held = get_or-of_get x.slot i none at in
        let tested : advance reset getting x (inside getting i) ≡ (x, using reading i) =
          ground (arith, held) in
        let got : advance reset getting x (using reading i) ≡ (x, using (clearing (some v)) i) =
          ground (arith, held) in
        work (work (work rest refl tested) refl got) refl refl
    use_up (putting val) none at =
        let held = get_or-of_get x.slot i none at in
        let tested : advance reset (putting val) x (inside (putting val) i)
            ≡ (x, using (storing val) i) =
          ground (arith, held) in
        work (work rest refl tested) refl refl
    use_up (putting val) (some w) at =
        let same = set_self x.slot i (some w) at in
        let held = get_or-of_get x.slot i none at in rw same (work rest refl (ground (arith, held)))

  module _ (reset : Option (T → T)) (b : Bucket2 T) (task : Task T) (ds : List ℕ) (h : IsFields ds)
      (e : length ds ≡ 8) (packed : b.bitmap ≡ pack ds) (i d : ℕ) (at : get_elem? ds i ≡ some d)
      (free : d < 2) (o : Option T) (holds : get_elem? b.slot i ≡ some o) where
    pub visit :
        (trials : ℕ)
        → Works reset task b
            (locking task trials i)
            (visited b ds i d (set b.slot i (left_in reset task o)))
            idle
    unfolding advance
    visit trials =
        let es = set ds i (lock d) in
        let facts = toggles d free in
        let entered : Bucket2 T = record b { bitmap = pack es } in
        let slots = set b.slot i (left_in reset task o) in
        let enters : advance reset task b (locking task trials i) ≡ (entered, inside task i) =
          ground (arith, try_lock-pack b ds h e packed i d at task trials) in
        let used = use_up reset entered i (omega (arith, get_elem?-lt ds i at)) task o holds in
        work (Works-trans reset (work rest refl enters) used) refl (
          ground (
            arith,
            try_leave-pack (record b { slot = slots; bitmap = pack es }) es
                (set-IsFields ds i (lock d) h facts.lock_small.1) (length-set ds i (lock d) ∙ e)
                refl i (lock d) (get_elem?-set_self ds i (lock d) (get_elem?-lt ds i at))
                facts.lock_small.0,
            set-set ds i (lock d) (toggled d),
          ))
