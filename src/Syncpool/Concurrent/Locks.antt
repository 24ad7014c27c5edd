-- ===== src/Syncpool/Concurrent/Locks.antt =====
-- Who is at which slot, and what the lock bits say of it.
use byte_buffer.Prelude.{
  ℕ, zero, suc, ◌+◌, ◌-◌, ◌≤◌, ◌<◌, ◌≡◌, refl, sym, ◌∙◌, ap, inl, inr, Bool, true, false, Option,
  none, some, List, [], ◌∷◌, arith, get_or, length, get_elem?, set, set_self, length-set,
  get_elem?-lt, get_elem?-set_self, get_elem?-set_ne, ltb, Bool-cases, Option-cases,
  get_elem?-of_lt,
}
use native.Mathlib.Decide.{ℕ_discrete}
use byte_buffer.Prelude.Fields.{pack, IsFields, set-IsFields, get-IsFields}
use byte_buffer.Syncpool.Utils.{enter}
use byte_buffer.Syncpool.Utils.Enter.{first_from, wanted, enter-pack}
use byte_buffer.Syncpool.Utils.States.{lock, flip, lock_cases, flip_cases}
use byte_buffer.Syncpool.Bucket2.{Bucket2, access_failure}
use byte_buffer.Syncpool.Bucket2.Slots.{marks, length-marks, marks-IsFields}
use byte_buffer.Syncpool.Bucket2.Quiet.{IsQuiet}
use byte_buffer.Syncpool.Concurrent.Turns.{try_lock-pack, try_leave-pack}
use byte_buffer.Syncpool.Concurrent.{
  Task, getting, putting, Use, reading, clearing, storing, Pc, idle, scanning, locking, inside,
  using, leaving, update, is_get, announce, try_lock, test_slot, use_slot, advance, System, turn,
  Reach, start, later,
}

pub first_from-lt :
    (pos t : ℕ) (ds : List ℕ) (i : ℕ) → first_from pos t ds ≡ some i → i < pos + length ds
first_from-lt pos t [] i h = cc
first_from-lt pos t (d ∷ ds) i h = ground (arith, first_from-lt (pos + 1) t ds i)

marks-lt {ℓ} : {T : Type ℓ} (s : List (Option T)) (i d : ℕ) → get_elem? (marks s) i ≡ some d → d < 2
marks-lt [] i d h = cc
marks-lt (none ∷ s) zero d h = ground arith
marks-lt (some v ∷ s) zero d h = ground arith
marks-lt (o ∷ s) (suc i) d h = marks-lt s i d h

module _ {ℓ} {T : Type ℓ} where
  -- The slot that a thread has locked; the slot that it is about to lock.
  abbrev pub owns : Pc T → Option ℕ
  owns (inside task pos) = some pos
  owns (using use_of pos) = some pos
  owns (leaving pos) = some pos
  owns _ = none

  abbrev pub aims : Pc T → Option ℕ
  aims (locking task trials pos) = some pos
  aims _ = none

  -- `ds` are the two-bit fields of the bitmap.
  pub record LocksHold (bitmap : ℕ) (pc : ℕ → Pc T) : Type ℓ where
    pub ds : List ℕ
    pub packed : bitmap ≡ pack ds
    pub small : IsFields ds
    pub eight : length ds ≡ 8
    pub aimed : (i pos : ℕ) → aims (pc i) ≡ some pos → pos < 8
    pub in_range : (i pos : ℕ) → owns (pc i) ≡ some pos → pos < 8
    pub held : (i pos d : ℕ) → owns (pc i) ≡ some pos → get_elem? ds pos ≡ some d → 2 ≤ d
    pub unique : (i j pos : ℕ) → owns (pc i) ≡ some pos → owns (pc j) ≡ some pos → i ≡ j
    pub owned : (pos d : ℕ) → get_elem? ds pos ≡ some d → 2 ≤ d → (i : ℕ) × (owns (pc i) ≡ some pos)

  module _ (b : Bucket2 T) (pc : ℕ → Pc T) (h : LocksHold b.bitmap pc) (i : ℕ) where
    open h use {ds, packed, small, eight, aimed, in_range, held, unique, owned}

    -- A turn that leaves the bitmap alone, and the mover where it is.
    stays :
        (w : ℕ) (p' : Pc T)
        → w ≡ b.bitmap
        → owns p' ≡ owns (pc i)
        → ((pos : ℕ) → aims p' ≡ some pos → pos < 8)
        → LocksHold w (update pc i p')
    stays w p' same at aim = record {
      ds = ds;
      packed = same ∙ packed;
      small = small;
      eight = eight;
      aimed = λ j pos q. ground (arith, aim pos, aimed j pos);
      in_range = λ j pos q. ground (arith, in_range j pos);
      held = λ j pos d q at'. ground (arith, held j pos d);
      unique = λ j k pos q r. ground (arith, unique j k pos);
      owned = λ pos d at' locked. let (j, e) = owned pos d at' locked in (j, ground arith);
    }

    -- The mover locks a slot that was not locked.
    locks :
        (w : ℕ) (p' : Pc T) (pos d : ℕ)
        → get_elem? ds pos ≡ some d
        → d < 2
        → w ≡ pack (set ds pos (lock d))
        → owns (pc i) ≡ none
        → owns p' ≡ some pos
        → aims p' ≡ none
        → LocksHold w (update pc i p')
    locks w p' pos d at free now before after no_aim =
        let locked : lock d ≡ d + 2 = ground (arith, lock_cases d) in
        let lt = get_elem?-lt ds pos at in
        let new = get_elem?-set_self ds pos (lock d) lt in
        record {
          ds = set ds pos (lock d);
          packed = now;
          small = set-IsFields ds pos (lock d) small (omega arith);
          eight = length-set ds pos (lock d) ∙ eight;
          aimed = λ j x q. ground (arith, aimed j x);
          in_range = λ j x q. ground (arith, in_range j x);
          held = λ j x e q at'. elim (ℕ_discrete pos x) [
            | yes same ↦ ground (arith, new)
            | no other ↦ ground (arith, held j x e, get_elem?-set_ne ds (lock d) other)
          ];
          unique = λ j k x q r. ground (arith, unique j k x, held j x d, held k x d);
          owned = λ x e at' set. elim (ℕ_discrete pos x) [
            | yes same ↦ (i, ground arith)
            | no other ↦
                let (j, own) = owned x e (sym (get_elem?-set_ne ds (lock d) other) ∙ at') set in
                (j, ground arith)
          ];
        }

    -- The mover unlocks its slot.
    unlocks :
        (w : ℕ) (p' : Pc T) (pos d : ℕ)
        → get_elem? ds pos ≡ some d
        → w ≡ pack (set ds pos (flip d))
        → owns (pc i) ≡ some pos
        → owns p' ≡ none
        → aims p' ≡ none
        → LocksHold w (update pc i p')
    unlocks w p' pos d at now before after no_aim =
        let fits = get-IsFields ds pos d small at in
        let locked = held i pos d before at in
        let flipped : flip d ≡ 3 - d = flip_cases d fits in
        let lt = get_elem?-lt ds pos at in
        let new = get_elem?-set_self ds pos (flip d) lt in
        record {
          ds = set ds pos (flip d);
          packed = now;
          small = set-IsFields ds pos (flip d) small (omega arith);
          eight = length-set ds pos (flip d) ∙ eight;
          aimed = λ j x q. ground (arith, aimed j x);
          in_range = λ j x q. ground (arith, in_range j x);
          held = λ j x e q at'. elim (ℕ_discrete pos x) [
            | yes same ↦ ground (arith, unique i j pos)
            | no other ↦ ground (arith, held j x e, get_elem?-set_ne ds (flip d) other)
          ];
          unique = λ j k x q r. ground (arith, unique j k x);
          owned = λ x e at' set. elim (ℕ_discrete pos x) [
            | yes same ↦ absurd (ground (arith, new))
            | no other ↦
                let (j, own) = owned x e (sym (get_elem?-set_ne ds (flip d) other) ∙ at') set in
                (j, ground (arith, unique i j x))
          ];
        }

    access_failure-bitmap : (get : Bool) → (access_failure b get).0.bitmap ≡ b.bitmap
    unfolding access_failure
    access_failure-bitmap true = refl
    access_failure-bitmap false = refl

    -- What a turn leaves behind.
    abbrev pub Moved : Bucket2 T × Pc T → Type ℓ
    Moved r = LocksHold r.0.bitmap (update pc i r.1)

    -- The null test and the accesses behind it leave the bitmap alone and the thread at its slot.
    test_slot-Moved :
        (task : Task T) (pos : ℕ) → owns (pc i) ≡ some pos → Moved (b, test_slot b task pos)
    unfolding test_slot
    test_slot-Moved task pos own =
        stays b.bitmap (test_slot b task pos) refl (kept task ∙ sym own) (no_aim task)
      where
        kept : (task : Task T) → owns (test_slot b task pos) ≡ some pos
        kept getting = ground arith
        kept (putting val) = ground arith

        no_aim : (task : Task T) (x : ℕ) → aims (test_slot b task pos) ≡ some x → x < 8
        no_aim getting x q = ground arith
        no_aim (putting val) x q = ground arith

    use_slot-Moved :
        (reset : Option (T → T)) (use_of : Use T) (pos : ℕ)
        → owns (pc i) ≡ some pos
        → Moved (use_slot reset b use_of pos)
    unfolding use_slot
    use_slot-Moved reset reading pos own =
        stays b.bitmap (using (clearing (get_or b.slot pos none)) pos) refl (sym own) (λ x q. cc)
    use_slot-Moved reset (clearing val) pos own =
        stays b.bitmap (leaving pos) refl (sym own) (λ x q. cc)
    use_slot-Moved reset (storing val) pos own =
        stays b.bitmap (leaving pos) refl (sym own) (λ x q. cc)

    enter-lt : (get : Bool) (pos : ℕ) → enter b.bitmap get ≡ some pos → pos < 8
    enter-lt get pos found =
        let first : first_from 0 (wanted get) ds ≡ some pos =
          sym (enter-pack ds small eight get) ∙ ap (λ w. enter w get) (sym packed) ∙ found in
        omega (arith, first_from-lt 0 (wanted get) ds pos first)

    announce-Moved : (next : Task T) → owns (pc i) ≡ none → Moved (announce b next)
    unfolding announce
    announce-Moved next at = stays _ (scanning next _) refl (sym at) (λ pos q. cc)

    try_lock-Moved :
        (task : Task T) (trials pos d : ℕ)
        → get_elem? ds pos ≡ some d
        → owns (pc i) ≡ none
        → Moved (try_lock b task trials pos)
    try_lock-Moved task trials pos d at free =
        rw (try_lock-pack b ds small eight packed pos d at task trials)
          (elim (Bool-cases (ltb d 2)) [
            | inl unlocked ↦ rw unlocked (
                locks (pack (set ds pos (lock d))) (inside task pos) pos d at (ground arith) refl
                  free refl refl)
            | inr locked ↦ rw locked (
                stays (pack (set ds pos (lock d))) (scanning task trials)
                  (ground (
                    arith,
                    packed,
                    lock_cases d (get-IsFields ds pos d small at),
                    set_self ds pos d at,
                  ))
                  (sym free) (λ x q. cc))
          ])

    advance-Moved :
        (reset : Option (T → T)) (next : Task T) (p : Pc T)
        → pc i ≡ p
        → Moved (advance reset next b p)
    unfolding advance
    advance-Moved reset next idle e = announce-Moved next (ap owns e)
    advance-Moved reset next (scanning task zero) e =
        stays _ idle (access_failure-bitmap (is_get task)) (sym (ap owns e)) (λ x q. cc)
    advance-Moved reset next (scanning task (suc trials)) e =
        elim (Option-cases (enter b.bitmap (is_get task))) [
          | inl missed ↦
              rw (missed, advance)
                (stays b.bitmap (scanning task trials) refl (sym (ap owns e)) (λ x q. cc))
          | inr (pos, found) ↦
              rw (found, advance)
                (stays b.bitmap (locking task trials pos) refl (sym (ap owns e))
                  (λ x q. ground (arith, enter-lt (is_get task) pos)))
        ]
    advance-Moved reset next (locking task trials pos) e =
        let (d, at) = get_elem?-of_lt ds pos (ground (arith, aimed i pos)) in
        try_lock-Moved task trials pos d at (ap owns e)
    advance-Moved reset next (inside task pos) e = test_slot-Moved task pos (ap owns e)
    advance-Moved reset next (using use_of pos) e = use_slot-Moved reset use_of pos (ap owns e)
    advance-Moved reset next (leaving pos) e =
        let (d, at) = get_elem?-of_lt ds pos (ground (arith, in_range i pos)) in
        let now : Pc T = idle in
        rw (try_leave-pack b ds small eight packed pos d at (held i pos d (ap owns e) at))
          (unlocks (pack (set ds pos (flip d))) now pos d at refl (ap owns e) refl refl)

module _ {ℓ} {T : Type ℓ} (reset : Option (T → T)) (b : Bucket2 T) (q : IsQuiet b) where
  start-LocksHold : LocksHold {T = T} b.bitmap (λ i. idle)
  start-LocksHold = record {
    ds = marks b.slot;
    packed = q.marked;
    small = marks-IsFields b.slot;
    eight = length-marks b.slot ∙ q.eight;
    aimed = λ i pos e. cc;
    in_range = λ i pos e. cc;
    held = λ i pos d e at. cc;
    unique = λ i j pos e f. cc;
    owned = λ pos d at locked. absurd (omega (arith, marks-lt b.slot pos d at));
  }

  pub Reach-LocksHold : {s : System T} → Reach reset b s → LocksHold s.bucket.bitmap s.pc
  unfolding turn
  Reach-LocksHold start = start-LocksHold
  Reach-LocksHold (later {s} r i next) =
      advance-Moved s.bucket s.pc (Reach-LocksHold r) i reset next (s.pc i) refl
