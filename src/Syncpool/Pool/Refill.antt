-- ===== src/Syncpool/Pool/Refill.antt =====
-- `refill` on an idle pool.
use mathlib.Core.List.Perm
use mathlib.Core.List.{perm_middle}
use byte_buffer.Prelude.{
  ℕ, zero, suc, ◌+◌, ◌-◌, ◌*◌, min, ◌≤◌, ◌≡◌, refl, ap, sym, subst, ◌∙◌, inl, inr, Bool, true, some,
  List, [], ◌∷◌, ◌++◌, Perm, arith, length, replicate, ltb, ◌==◌, Bool-cases, if◌then◌else◌,
}
use byte_buffer.Prelude.Perms.{length-Perm}
use byte_buffer.Syncpool.Words.{usize_mod}
use byte_buffer.Syncpool.Builder.{make_elem}
use byte_buffer.Syncpool.Bucket2.{slot_cap, apply_reset}
use byte_buffer.Syncpool.Pool.{SyncPool, stored, put}
use byte_buffer.Syncpool.Pool.State.{capacity, len}
use byte_buffer.Syncpool.Pool.Manager.{put_again, refill_loop, refill}
use byte_buffer.Syncpool.Pool.Elements.{elements, IsIdle}
use byte_buffer.Syncpool.Pool.Put.{put-outcome}
use byte_buffer.Syncpool.Pool.Len.{len-elements}

least : (a e : ℕ) → (if ltb e a then e else a) ≡ min a e
least a e = ground arith

no_room : (a e : ℕ) → (e == 0) ≡ true → min a e ≡ 0
no_room a e h = ground arith

module _ {ℓ} {T : Type ℓ} where
  put_again-stored :
      (clock : List Bool) (runs cap : ℕ) (p p' : SyncPool T) (val : T)
      → put p val ≡ (p', stored)
      → put_again clock runs cap p val ≡ (p', some clock)
  unfolding put_again
  put_again-stored [] runs cap p p' val e = ground arith
  put_again-stored (late ∷ clock) runs cap p p' val e = ground arith

module _ {ℓ} {T : Type ℓ} (zeroed : T) where
  -- What a new element is once it has been put.
  abbrev pub refilled : SyncPool T → T
  refilled p = apply_reset p.reset_handle (make_elem zeroed p.elem_builder)

  -- `n` new elements have been added and nothing else has changed.
  abbrev pub Refilled : ℕ → SyncPool T → SyncPool T → Type ℓ
  Refilled n p p' =
      IsIdle p'
      × (length p'.slots ≡ length p.slots)
      × Perm (elements p'.slots) (replicate n (refilled p) ++ elements p.slots)

  module _ (n count cap : ℕ) (clock : List Bool) (p q : SyncPool T)
      (e : put p (make_elem zeroed p.elem_builder) ≡ (q, stored)) where
    -- A round whose `put` succeeds leaves the other rounds to be made.
    refill_loop-stored :
        refill_loop zeroed (suc n) count clock cap p ≡ refill_loop zeroed n (count + 1) clock cap q
    unfolding refill_loop
    refill_loop-stored =
        ground (arith, put_again-stored clock 0 cap p q (make_elem zeroed p.elem_builder) e)

  Refilled-suc :
      (n : ℕ) (p q p' : SyncPool T)
      → refilled q ≡ refilled p
      → length q.slots ≡ length p.slots
      → Perm (elements q.slots) (refilled p ∷ elements p.slots)
      → Refilled n q p'
      → Refilled (suc n) p p'
  Refilled-suc n p q p' e same more (idle, same', perm) = (
    idle,
    same' ∙ same,
    Perm.trans (subst (λ r. Perm (elements p'.slots) (replicate n r ++ elements q.slots)) e perm) (
        Perm.trans (Perm.append_left (replicate n (refilled p)) more)
          (perm_middle (replicate n (refilled p)) (elements p.slots))),
  )

  refill_loop-Refilled :
      (n count cap : ℕ) (clock : List Bool) (p : SyncPool T)
      → IsIdle p
      → p.curr_put + 2 * length p.slots ≤ usize_mod
      → 3 * length p.slots ≤ usize_mod
      → length (elements p.slots) + n ≤ length p.slots * slot_cap
      → (p' : SyncPool T) × (refill_loop zeroed n count clock cap p ≡ (p', count + n))
        × Refilled n p p'
  unfolding refill_loop
  refill_loop-Refilled zero count cap clock p idle fits fits' room =
      let e : count ≡ count + 0 = omega arith in
      (p, ap (λ (c : ℕ). (p, c)) e, (idle, refl, Perm.rfl))
  refill_loop-Refilled (suc n) count cap clock p idle fits fits' room =
      elim (put-outcome p idle (make_elem zeroed p.elem_builder) fits) [
        | inl (e, full) ↦ absurd (omega arith)
        | inr (q, e, idle', more, same, below, misses, get', conf, reset, elems) ↦
            let longer = length-Perm (elements q.slots) (refilled p ∷ elements p.slots) more in
            let (p', r, done) =
              refill_loop-Refilled n (count + 1) cap clock q idle' (omega arith) (omega arith)
                (omega (arith, longer)) in
            let total : count + 1 + n ≡ count + suc n = omega arith in
            (
              p',
              refill_loop-stored n count cap clock p q e ∙ r ∙ ap (λ (c : ℕ). (p', c)) total,
              Refilled-suc n p q p' (ground arith) same more done,
            )
      ]

  refill_loop-zero :
      (n cap : ℕ) (clock : List Bool) (p : SyncPool T)
      → n ≡ 0
      → refill_loop zeroed n 0 clock cap p ≡ (p, 0)
  unfolding refill_loop
  refill_loop-zero zero cap clock p e = refl
  refill_loop-zero (suc n) cap clock p e = absurd (omega arith)

  capacity-slots : (p : SyncPool T) → capacity p ≡ length p.slots * slot_cap
  unfolding capacity
  capacity-slots p = refl

  -- The early return is a loop of no rounds.
  refill-loop :
      (p : SyncPool T) (additional : ℕ) (clock : List Bool)
      → refill zeroed p additional clock
        ≡ refill_loop zeroed (min additional (capacity p - len p)) 0 clock (capacity p) p
  unfolding refill
  refill-loop p additional clock = elim (Bool-cases (capacity p - len p == 0)) [
    | inl none_empty ↦ rw none_empty (
        sym (
          refill_loop-zero (min additional (capacity p - len p)) (capacity p) clock p
            (no_room additional (capacity p - len p) none_empty)))
    | inr some_empty ↦ rw (some_empty, least additional (capacity p - len p)) refl
  ]

  -- On an idle pool whose put counter is not about to wrap, `refill` adds as many new elements,
  -- reset, as are asked for and as there are empty slots, and returns how many, whatever the clock
  -- says.
  pub refill-Refilled :
      (p : SyncPool T) (additional : ℕ) (clock : List Bool)
      → IsIdle p
      → p.curr_put + 2 * length p.slots ≤ usize_mod
      → 3 * length p.slots ≤ usize_mod
      → (p' : SyncPool T) × (refill zeroed p additional clock
          ≡ (p', min additional (capacity p - len p)))
        × Refilled (min additional (capacity p - len p)) p p'
  refill-Refilled p additional clock idle fits fits' =
      let quota = min additional (capacity p - len p) in
      let (counted, bounded, _) = len-elements p idle in
      let (p', r, done) =
        refill_loop-Refilled quota 0 (capacity p) clock p idle fits fits'
          (omega (arith, counted, bounded, capacity-slots p)) in
      let total : 0 + quota ≡ quota = omega arith in
      (p', refill-loop p additional clock ∙ r ∙ ap (λ (c : ℕ). (p', c)) total, done)
