-- ===== src/Syncpool/Concurrent/Ready.antt =====
-- What a thread at a slot behind its null test may rely on: nobody else changes the slot.
use byte_buffer.Prelude.{
  ℕ, zero, suc, ◌*◌, bit_and, ◌≡◌, ◌≢◌, refl, sym, ◌∙◌, ap, ◌==◌, ◌⊎◌, inl, inr, Bool, true, false,
  Option, none, some, List, arith, length, length-set, get_elem?, set, get_elem?-of_lt,
  get_elem?-set_ne, leb, Bool-cases, Option-cases,
}
use native.Mathlib.Decide.{ℕ_discrete}
use byte_buffer.Syncpool.Words.{shl}
use byte_buffer.Syncpool.Utils.{enter}
use byte_buffer.Syncpool.Bucket2.{Bucket2, slot_cap, apply_reset, access_failure}
use byte_buffer.Syncpool.Bucket2.Slots.{get_or-of_get}
use byte_buffer.Syncpool.Bucket2.Quiet.{IsQuiet}
use byte_buffer.Syncpool.Concurrent.{
  Task, getting, putting, Use, reading, clearing, storing, Pc, idle, scanning, locking, inside,
  using, leaving, is_get, announce, try_lock, try_leave, test_slot, use_slot, advance, update,
  System, turn, Reach, start, later,
}
use byte_buffer.Syncpool.Concurrent.Locks.{owns, LocksHold, Reach-LocksHold}

module _ {ℓ} {T : Type ℓ} where
  -- The slot is as the null test has found it, and the pointer that was read is the one in it.
  abbrev pub ReadyToUse : List (Option T) → Use T → ℕ → Type ℓ
  ReadyToUse slots reading pos = (v : T) × (get_elem? slots pos ≡ some (some v))
  ReadyToUse slots (clearing val) pos =
      (v : T) × (val ≡ some v) × (get_elem? slots pos ≡ some (some v))
  ReadyToUse slots (storing val) pos = get_elem? slots pos ≡ some none

  abbrev pub Ready : List (Option T) → Pc T → Type ℓ
  Ready slots (using use_of pos) = ReadyToUse slots use_of pos
  Ready slots idle = Unit
  Ready slots (scanning task n) = Unit
  Ready slots (locking task n pos) = Unit
  Ready slots (inside task pos) = Unit
  Ready slots (leaving pos) = Unit

  -- A write to another slot.
  Ready-set :
      (slots : List (Option T)) (pos : ℕ) (o : Option T) (p : Pc T)
      → owns p ≢ some pos
      → Ready slots p
      → Ready (set slots pos o) p
  Ready-set slots pos o (using reading x) ne (v, at) =
      (v, get_elem?-set_ne slots o (λ e. ne (ap some (sym e))) ∙ at)
  Ready-set slots pos o (using (clearing val) x) ne (v, e, at) =
      (v, e, get_elem?-set_ne slots o (λ e. ne (ap some (sym e))) ∙ at)
  Ready-set slots pos o (using (storing val) x) ne at =
      get_elem?-set_ne slots o (λ e. ne (ap some (sym e))) ∙ at
  Ready-set slots pos o idle ne h = tt
  Ready-set slots pos o (scanning task n) ne h = tt
  Ready-set slots pos o (locking task n x) ne h = tt
  Ready-set slots pos o (inside task x) ne h = tt
  Ready-set slots pos o (leaving x) ne h = tt

  module _ (reset : Option (T → T)) (b : Bucket2 T) where
    -- A turn leaves the slots alone, or writes to the one that the thread is at.
    abbrev WritesOwn : Pc T → Bucket2 T → Type ℓ
    WritesOwn p b' =
        (b'.slot ≡ b.slot)
        ⊎ ((pos : ℕ) × (o : Option T) × (owns p ≡ some pos) × (b'.slot ≡ set b.slot pos o))

    failure-slot : (get : Bool) → (access_failure b get).0.slot ≡ b.slot
    unfolding access_failure
    failure-slot true = refl
    failure-slot false = refl

    pub scan-slot :
        (next task : Task T) (n : ℕ) → (advance reset next b (scanning task n)).0.slot ≡ b.slot
    unfolding advance
    scan-slot next task zero = failure-slot (is_get task)
    scan-slot next task (suc n) = elim (Option-cases (enter b.bitmap (is_get task))) [
      | inl missed ↦ rw (missed, advance) refl
      | inr (pos, found) ↦ rw (found, advance) refl
    ]

    advance-WritesOwn : (next : Task T) (p : Pc T) → WritesOwn p (advance reset next b p).0
    unfolding advance announce try_lock try_leave use_slot
    advance-WritesOwn next idle = inl refl
    advance-WritesOwn next (scanning task n) = inl (scan-slot next task n)
    advance-WritesOwn next (locking task n pos) = inl (ground arith)
    advance-WritesOwn next (inside task pos) = inl refl
    advance-WritesOwn next (using reading pos) = inl refl
    advance-WritesOwn next (using (clearing val) pos) = inr (pos, none, refl, refl)
    advance-WritesOwn next (using (storing val) pos) =
        inr (pos, some (apply_reset reset val), refl, refl)
    advance-WritesOwn next (leaving pos) = inl (ground arith)

    pub advance-eight :
        (next : Task T) (p : Pc T)
        → length b.slot ≡ slot_cap
        → length (advance reset next b p).0.slot ≡ slot_cap
    advance-eight next p eight = elim (advance-WritesOwn next p) [
      | inl same ↦ rw same eight
      | inr (pos, o, own, wrote) ↦ rw wrote (length-set b.slot pos o ∙ eight)
    ]

    -- Another thread, which is at another slot, if at any.
    other-Ready :
        (next : Task T) (p q : Pc T)
        → ((pos : ℕ) → owns p ≡ some pos → owns q ≢ some pos)
        → Ready b.slot q
        → Ready (advance reset next b p).0.slot q
    other-Ready next p q apart h = elim (advance-WritesOwn next p) [
      | inl same ↦ rw same h
      | inr (pos, o, own, wrote) ↦ rw wrote (Ready-set b.slot pos o q (apart pos own) h)
    ]

    test_slot-Ready :
        (task : Task T) (pos : ℕ) → length b.slot ≡ slot_cap → Ready b.slot (test_slot b task pos)
    unfolding test_slot
    test_slot-Ready task pos eight = elim (Bool-cases (leb slot_cap pos)) [
      | inl out ↦ outside task out
      | inr here ↦ within task here (get_elem?-of_lt b.slot pos (ground arith))
    ]
      where
        outside : (task : Task T) → leb slot_cap pos ≡ true → Ready b.slot (test_slot b task pos)
        outside getting out = rw (out, test_slot) tt
        outside (putting val) out = rw (out, test_slot) tt

        within :
            (task : Task T)
            → leb slot_cap pos ≡ false
            → (o : Option T) × (get_elem? b.slot pos ≡ some o)
            → Ready b.slot (test_slot b task pos)
        within getting here (none, at) = rw (here, get_or-of_get b.slot pos none at, test_slot) tt
        within getting here (some v, at) =
            rw (here, get_or-of_get b.slot pos none at, test_slot) (v, at)
        within (putting val) here (none, at) =
            rw (here, get_or-of_get b.slot pos none at, test_slot) at
        within (putting val) here (some v, at) =
            rw (here, get_or-of_get b.slot pos none at, test_slot) tt

    -- The thread itself.
    advance-Ready :
        (next : Task T) (p : Pc T)
        → length b.slot ≡ slot_cap
        → Ready b.slot p
        → Ready (advance reset next b p).0.slot (advance reset next b p).1
    unfolding advance announce try_lock try_leave use_slot
    advance-Ready next idle eight h = tt
    advance-Ready next (scanning task zero) eight h = tt
    advance-Ready next (scanning task (suc n)) eight h =
        elim (Option-cases (enter b.bitmap (is_get task))) [
          | inl missed ↦ rw (missed, advance) tt
          | inr (pos, found) ↦ rw (found, advance) tt
        ]
    advance-Ready next (locking task n pos) eight h =
        elim (Bool-cases (bit_and b.bitmap (shl 0b10 (2 * pos)) == 0)) [
          | inl free ↦ rw (free, advance, try_lock) tt
          | inr taken ↦ rw (taken, advance, try_lock) tt
        ]
    advance-Ready next (inside task pos) eight h = test_slot-Ready task pos eight
    advance-Ready next (using reading pos) eight (v, at) = (v, get_or-of_get b.slot pos none at, at)
    advance-Ready next (using (clearing val) pos) eight h = tt
    advance-Ready next (using (storing val) pos) eight h = tt
    advance-Ready next (leaving pos) eight h =
        elim (Bool-cases (bit_and b.bitmap (shl 0b10 (2 * pos)) == shl 0b10 (2 * pos))) [
          | inl was_locked ↦ rw (was_locked, advance, try_leave) tt
          | inr again ↦ rw (again, advance, try_leave) tt
        ]

  module _ (reset : Option (T → T)) (b : Bucket2 T) (q : IsQuiet b) where
    abbrev AllReady : System T → Type ℓ
    AllReady s = (length s.bucket.slot ≡ slot_cap) × ((i : ℕ) → Ready s.bucket.slot (s.pc i))

    turn-AllReady :
        (s : System T) (i : ℕ) (next : Task T)
        → LocksHold s.bucket.bitmap s.pc
        → AllReady s
        → AllReady (turn reset i next s)
    unfolding turn
    turn-AllReady s i next locks (eight, ready) =
        let (b', p) = advance reset next s.bucket (s.pc i) in
        (
          advance-eight reset s.bucket next (s.pc i) eight,
          λ j. elim (ℕ_discrete i j) [
            | yes same ↦
                let moved : update s.pc i p j ≡ p = ground arith in
                rw moved (advance-Ready reset s.bucket next (s.pc i) eight (ready i))
            | no other ↦
                let still : update s.pc i p j ≡ s.pc j = ground arith in
                rw still (
                  other-Ready reset s.bucket next (s.pc i) (s.pc j)
                    (λ pos own own'. other (locks.unique i j pos own own')) (ready j))
          ],
        )

    -- However the threads at a bucket that nobody was at take turns, every thread behind its null
    -- test finds its slot as the test left it.
    pub Reach-AllReady :
        {s : System T}
        → Reach reset b s
        → (length s.bucket.slot ≡ slot_cap) × ((i : ℕ) → Ready s.bucket.slot (s.pc i))
    Reach-AllReady start = (q.eight, λ i. tt)
    Reach-AllReady (later {s} r i next) =
        turn-AllReady s i next (Reach-LocksHold reset b q r) (Reach-AllReady r)
