-- ===== src/Syncpool/Concurrent/Conserve.antt =====
-- Which elements the threads at a bucket hand out and put in.
use mathlib.Core.List.Perm
use mathlib.Core.List.{perm_append_comm, append_assoc}
use byte_buffer.Prelude.{
  ℕ, zero, suc, ◌<◌, ◌≡◌, Option, none, some, List, [], ◌∷◌, ◌++◌, Perm, arith, length,
  get_elem?-lt, get_or, set,
}
use byte_buffer.Syncpool.Bucket2.{Bucket2, apply_reset}
use byte_buffer.Syncpool.Bucket2.Slots.{contents, get_or-of_get}
use byte_buffer.Syncpool.Concurrent.Ready.{Ready, scan-slot}
use byte_buffer.Syncpool.Concurrent.{
  Task, reading, clearing, storing, Pc, idle, scanning, locking, inside, using, leaving, announce,
  try_lock, try_leave, use_slot, advance,
}

-- A balance of one turn is added to that of the turns before.
pub join {ℓ} :
    {T : Type ℓ} (h out i into c c' b : List T)
    → Perm (h ++ c') (i ++ c)
    → Perm (out ++ c) (into ++ b)
    → Perm ((h ++ out) ++ c') ((i ++ into) ++ b)
join h out i into c c' b one so_far = rw (append_assoc i into b) (
    Perm.trans (Perm.append_right c' (perm_append_comm h out)) (
      rw (append_assoc out h c') (
        Perm.trans (Perm.append_left out one) (
          rw (← (append_assoc out i c)) (
            Perm.trans (Perm.append_right c (perm_append_comm out i))
              (rw (append_assoc i out c) (Perm.append_left i so_far)))))))

module _ {ℓ} {T : Type ℓ} where
  take_out :
      (s : List (Option T)) (i : ℕ) (v : T)
      → get_or s i none ≡ some v
      → Perm (contents s) (v ∷ contents (set s i none))
  take_out [] i v e = cc
  take_out (none ∷ s) zero v e = cc
  take_out (some w ∷ s) zero v e = let same : w ≡ v = ground arith in rw same Perm.rfl
  take_out (none ∷ s) (suc i) v e = take_out s i v e
  take_out (some w ∷ s) (suc i) v e =
      Perm.trans (Perm.cons w (take_out s i v e)) (Perm.swap v w (contents (set s i none)))

  put_in :
      (s : List (Option T)) (i : ℕ) (v : T)
      → i < length s
      → get_or s i none ≡ none
      → Perm (contents (set s i (some v))) (v ∷ contents s)
  put_in [] i v lt e = absurd (omega arith)
  put_in (none ∷ s) zero v lt e = Perm.rfl
  put_in (some w ∷ s) zero v lt e = cc
  put_in (none ∷ s) (suc i) v lt e = put_in s i v (omega arith) e
  put_in (some w ∷ s) (suc i) v lt e =
      Perm.trans (Perm.cons w (put_in s i v (omega arith) e)) (Perm.swap v w (contents s))

  abbrev to_list : Option T → List T
  to_list none = []
  to_list (some v) = v ∷ []

  -- The element that a turn hands to a getter, with the write of null to its slot; the one that it
  -- puts into a slot.
  abbrev pub handed : Pc T → List T
  handed (using (clearing val) pos) = to_list val
  handed _ = []

  abbrev pub stored : Option (T → T) → Pc T → List T
  stored reset (using (storing val) pos) = apply_reset reset val ∷ []
  stored reset _ = []

  module _ (reset : Option (T → T)) where
    abbrev pub Balanced : Bucket2 T → Pc T → Bucket2 T → Type ℓ
    Balanced b p b' = Perm (handed p ++ contents b'.slot) (stored reset p ++ contents b.slot)

    -- A turn that hands nothing out, puts nothing in and leaves the slots as they are.
    same_slots : (b b' : Bucket2 T) → b'.slot ≡ b.slot → Perm (contents b'.slot) (contents b.slot)
    same_slots b b' e = rw e Perm.rfl

    pub advance-Balanced :
        (next : Task T) (b : Bucket2 T) (p : Pc T)
        → Ready b.slot p
        → Balanced b p (advance reset next b p).0
    unfolding advance announce try_lock try_leave use_slot
    advance-Balanced next b idle h = Perm.rfl
    advance-Balanced next b (scanning task n) h =
        same_slots b (advance reset next b (scanning task n)).0 (scan-slot reset b next task n)
    advance-Balanced next b (locking task trials pos) h =
        same_slots b (try_lock b task trials pos).0 (ground arith)
    advance-Balanced next b (inside task pos) h = Perm.rfl
    advance-Balanced next b (using reading pos) h = Perm.rfl
    advance-Balanced next b (using (clearing val) pos) (v, e, at) =
        rw e (Perm.symm (take_out b.slot pos v (get_or-of_get b.slot pos none at)))
    advance-Balanced next b (using (storing val) pos) at =
        put_in b.slot pos (apply_reset reset val) (get_elem?-lt b.slot pos at)
          (get_or-of_get b.slot pos none at)
    advance-Balanced next b (leaving pos) h = same_slots b (try_leave b pos).0 (ground arith)
