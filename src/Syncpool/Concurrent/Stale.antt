-- ===== src/Syncpool/Concurrent/Stale.antt =====
-- Two threads that choose the same slot before either of them locks it.
use byte_buffer.Prelude.{
  ℕ, ◌+◌, ◌-◌, ◌∷◌, Perm, inl, inr, ◌≤◌, ◌<◌, ◌≡◌, refl, ap, subst, ◌∙◌, Option, none, some, List,
  arith, length, length-set, get_elem?, get_elem?-lt, get_elem?-set_self, set, set-set, set_self,
}
use byte_buffer.Prelude.Fields.{pack, fields, fields-pack, set-IsFields}
use byte_buffer.Syncpool.Utils.Enter.{first_from, wanted}
use byte_buffer.Syncpool.Bucket2.{Bucket2, apply_reset}
use byte_buffer.Syncpool.Bucket2.Slots.{
  contents, first_full, first_empty, length-contents-le, mark, marks, length-marks, marks-IsFields,
  get-marks,
}
use byte_buffer.Syncpool.Bucket2.Quiet.{IsQuiet}
use byte_buffer.Syncpool.Concurrent.{
  Task, idle, scanning, locking, is_get, announce, advance, getting, putting, System, Reach, later,
  Onward, here,
}
use byte_buffer.Syncpool.Concurrent.Pair.{
  two, Works, start_two, first_turn, second_turn, first_turns, second_turns,
}
use byte_buffer.Syncpool.Concurrent.Turns.{advance-found}
use byte_buffer.Syncpool.Concurrent.Visit.{toggled, toggled_twice, toggles, visited, left_in, visit}

mark-lt {ℓ} : {T : Type ℓ} (o : Option T) → mark o < 2
mark-lt none = omega arith
mark-lt (some v) = omega arith

module _ {ℓ} {T : Type ℓ} where
  -- Two threads aim at slot `i` of a quiet bucket in which there is `o`; the second locks it when the
  -- first has left, and leaves it as the first did.
  module _ (reset : Option (T → T)) (b : Bucket2 T) (q : IsQuiet b) (t0 t1 : Task T) (i n1 n2 : ℕ)
      (o o' : Option T) (at : get_elem? b.slot i ≡ some o) (first : left_in reset t0 o ≡ o')
      (second : left_in reset t1 o' ≡ o') where
    abbrev counted_twice : Bucket2 T
    counted_twice = record b { len = n2 }

    -- Both aim; the first has left; the second has left too.
    abbrev aiming : System T
    aiming = two counted_twice (locking t0 3 i) (locking t1 3 i)

    abbrev first_gone : System T
    first_gone =
        two (visited counted_twice (marks b.slot) i (mark o) (set b.slot i o')) idle
          (locking t1 3 i)

    abbrev both_gone : System T
    both_gone = two (record b { slot = set b.slot i o'; len = n2 }) idle idle

    module _ (found0 : first_from 0 (wanted (is_get t0)) (marks b.slot) ≡ some i)
        (found1 : first_from 0 (wanted (is_get t1)) (marks b.slot) ≡ some i)
        (began0 : announce b t0 ≡ (record b { len = n1 }, scanning t0 4))
        (began1 : announce (record b { len = n1 }) t1
          ≡ (record b { len = n2 }, scanning t1 4)) where
      both_aim : Reach reset b aiming
      unfolding advance
      both_aim =
          let ds = marks b.slot in
          let h = marks-IsFields b.slot in
          let eight = length-marks b.slot ∙ q.eight in
          let c : Bucket2 T = record b { len = n2 } in
          let b1 : Bucket2 T = record b { len = n1 } in
          let s0 = scanning t0 4 in
          let s1 = scanning t1 4 in
          let l0 = locking t0 3 i in
          let l1 = locking t1 3 i in
          let R = Reach reset b in
          let r1 = first_turn reset R b b1 t0 idle s0 idle began0 (later (start_two reset) 0 t0) in
          let r2 = second_turn reset R b1 c t1 s0 idle s1 began1 (later r1 1 t1) in
          let r3 =
            first_turn reset R c c t0 s0 l0 s1
              (advance-found c ds h eight q.marked reset t0 t0 3 i found0) (later r2 0 t0) in
          second_turn reset R c c t1 l0 s1 l1
            (advance-found c ds h eight q.marked reset t1 t1 3 i found1) (later r3 1 t1)

    first_goes : Onward reset aiming first_gone
    first_goes =
        let ds = marks b.slot in
        let at_ds = get-marks b.slot i at in
        let c : Bucket2 T = record b { len = n2 } in
        let v0 =
          visit reset c t0 ds (marks-IsFields b.slot) (length-marks b.slot ∙ q.eight) q.marked i
            (mark o) at_ds (mark-lt o) o at 3 in
        first_turns reset (locking t1 3 i) here (
          subst
            (λ w. Works reset t0 c (locking t0 3 i) (visited c ds i (mark o) (set b.slot i w)) idle)
            first v0)

    second_goes : Onward reset first_gone both_gone
    second_goes =
        let ds = marks b.slot in
        let h = marks-IsFields b.slot in
        let d = mark o in
        let at_ds = get-marks b.slot i at in
        let es = set ds i (toggled d) in
        let small = (toggles d (mark-lt o)).toggled_small in
        let c' = visited (record b { len = n2 }) ds i d (set b.slot i o') in
        let v1 =
          visit reset c' t1 es (set-IsFields ds i (toggled d) h (omega arith))
            (length-set ds i (toggled d) ∙ length-marks b.slot ∙ q.eight) refl i (toggled d)
            (get_elem?-set_self ds i (toggled d) (get_elem?-lt ds i at_ds)) small o'
            (get_elem?-set_self b.slot i o' (get_elem?-lt b.slot i at)) 3 in
        let slots : set (set b.slot i o') i (left_in reset t1 o') ≡ set b.slot i o' =
          rw second (set-set b.slot i o' o') in
        let back : pack (set es i (toggled (toggled d))) ≡ b.bitmap = ground (
          arith,
          set-set ds i (toggled d) (toggled (toggled d)),
          toggled_twice d (mark-lt o),
          set_self ds i d at_ds,
          q.marked,
        ) in
        second_turns reset idle here (
          subst
            (λ (w : List (Option T) × ℕ).
              Works reset t1 c' (locking t1 3 i) (record { slot = w.0; len = n2; bitmap = w.1 })
                idle)
            (λ k. (slots k, back k)) v1)

  -- The race of two getters, which choose the same full slot.
  module _ (reset : Option (T → T)) (b : Bucket2 T) (q : IsQuiet b) where
    eight_slots : (i : ℕ) {o : Option T} → get_elem? b.slot i ≡ some o → i < 8
    eight_slots i at = omega (arith, get_elem?-lt b.slot i at, q.eight)

    all_fields : fields 8 b.bitmap ≡ marks b.slot
    all_fields =
        ap (fields 8) q.marked
        ∙ subst (λ n. fields n (pack (marks b.slot)) ≡ marks b.slot) (length-marks b.slot ∙ q.eight)
            (fields-pack (marks b.slot) (marks-IsFields b.slot))

    -- What becomes of two threads that get.
    pub record GetCollision : Type ℓ where
      pub pos : ℕ
      pub taken : T
      pub aimed : System T
      pub first_done : System T
      pub over : System T
      pub reached : Reach reset b aimed
      pub first_aims : aimed.pc 0 ≡ locking getting 3 pos
      pub second_aims : aimed.pc 1 ≡ locking getting 3 pos
      pub nobody_else : (i : ℕ) → 2 ≤ i → aimed.pc i ≡ idle
      pub first_goes_on : Onward reset aimed first_done
      pub first_away : first_done.pc 0 ≡ idle
      pub second_waits : first_done.pc 1 ≡ locking getting 3 pos
      pub first_took : contents b.slot ≡ taken ∷ contents first_done.bucket.slot
      pub second_goes_on : Onward reset first_done over
      pub all_away : (i : ℕ) → over.pc i ≡ idle
      pub second_took_none : over.bucket.slot ≡ first_done.bucket.slot
      pub emptied : get_elem? over.bucket.slot pos ≡ some none
      pub marked_full : get_elem? (fields 8 over.bucket.bitmap) pos ≡ some 1
      pub miscounted : over.bucket.len + 1 ≡ length (contents over.bucket.slot)

    -- At a quiet bucket with two elements or more, two threads that get can come to the same slot:
    -- both are about to lock it, with nobody else at the bucket; the first locks it, takes its
    -- element and leaves; the second then goes through its call without any change to the slots.
    -- When both have left, the bitmap says that the slot is full, but it is empty, and the counter
    -- is one less than the number of elements.
    pub getters_collide : 2 ≤ length (contents b.slot) → GetCollision
    unfolding announce
    getters_collide many = elim (first_full b.slot 0) [
      | inl (missed, empty) ↦ absurd (omega (arith, ap length empty))
      | inr (i, v, found, at, split) ↦
          let lt = eight_slots i at in
          let few = length-contents-le b.slot in
          let count = q.counted in
          let n1 = b.len - 1 in
          let n2 = b.len - 1 - 1 in
          record {
            pos = i;
            taken = v;
            aimed = aiming reset b q getting getting i n1 n2 (some v) none at refl refl;
            first_done = first_gone reset b q getting getting i n1 n2 (some v) none at refl refl;
            over = both_gone reset b q getting getting i n1 n2 (some v) none at refl refl;
            reached =
                both_aim reset b q getting getting i n1 n2 (some v) none at refl refl (ground arith)
                  (ground arith) (ground (arith, q.eight)) (ground (arith, q.eight));
            first_aims = refl;
            second_aims = refl;
            nobody_else = λ j le. ground arith;
            first_goes_on = first_goes reset b q getting getting i n1 n2 (some v) none at refl refl;
            first_away = refl;
            second_waits = refl;
            first_took = split;
            second_goes_on =
                second_goes reset b q getting getting i n1 n2 (some v) none at refl refl;
            all_away = λ j. ground arith;
            second_took_none = refl;
            emptied = get_elem?-set_self b.slot i none (get_elem?-lt b.slot i at);
            marked_full = ap (λ l. get_elem? l i) all_fields ∙ get-marks b.slot i at;
            miscounted = omega (arith, ap length split);
          }
    ]

    -- What becomes of two threads that put `v` and `w`.
    pub record PutCollision (v w : T) : Type ℓ where
      pub pos : ℕ
      pub aimed : System T
      pub first_done : System T
      pub over : System T
      pub reached : Reach reset b aimed
      pub first_aims : aimed.pc 0 ≡ locking (putting v) 3 pos
      pub second_aims : aimed.pc 1 ≡ locking (putting w) 3 pos
      pub nobody_else : (i : ℕ) → 2 ≤ i → aimed.pc i ≡ idle
      pub first_goes_on : Onward reset aimed first_done
      pub first_away : first_done.pc 0 ≡ idle
      pub second_waits : first_done.pc 1 ≡ locking (putting w) 3 pos
      pub first_stored :
          Perm (contents first_done.bucket.slot) (apply_reset reset v ∷ contents b.slot)
      pub second_goes_on : Onward reset first_done over
      pub all_away : (i : ℕ) → over.pc i ≡ idle
      pub second_lost : over.bucket.slot ≡ first_done.bucket.slot
      pub miscounted : over.bucket.len ≡ length (contents over.bucket.slot) + 1
      pub marked_empty : get_elem? (fields 8 over.bucket.bitmap) pos ≡ some 0

    -- At a quiet bucket with two empty slots or more, two threads that put any two elements can
    -- come to the same slot: both are about to lock it, with nobody else at the bucket; the first locks it, puts its element, reset,
    -- beside the others and leaves; the second then goes through its call without any change to the
    -- slots, so that its element is lost. When both have left, the bitmap says that the slot is empty,
    -- and the counter is one more than the number of elements.
    pub putters_collide : length (contents b.slot) + 2 ≤ 8 → (v w : T) → PutCollision v w
    unfolding announce
    putters_collide room v w = elim (first_empty b.slot 0) [
      | inl (missed, full) ↦ absurd (omega (arith, full, q.eight))
      | inr (i, found, at, perm, more, short) ↦
          let new = apply_reset reset v in
          let count = q.counted in
          let n1 = b.len + 1 in
          let n2 = b.len + 1 + 1 in
          record {
            pos = i;
            aimed = aiming reset b q (putting v) (putting w) i n1 n2 none (some new) at refl refl;
            first_done =
                first_gone reset b q (putting v) (putting w) i n1 n2 none (some new) at refl refl;
            over = both_gone reset b q (putting v) (putting w) i n1 n2 none (some new) at refl refl;
            reached =
                both_aim reset b q (putting v) (putting w) i n1 n2 none (some new) at refl refl
                  (ground arith) (ground arith) (ground arith) (ground arith);
            first_aims = refl;
            second_aims = refl;
            nobody_else = λ j le. ground arith;
            first_goes_on =
                first_goes reset b q (putting v) (putting w) i n1 n2 none (some new) at refl refl;
            first_away = refl;
            second_waits = refl;
            first_stored = perm new;
            second_goes_on =
                second_goes reset b q (putting v) (putting w) i n1 n2 none (some new) at refl refl;
            all_away = λ j. ground arith;
            second_lost = refl;
            miscounted = omega (arith, more new);
            marked_empty = ap (λ l. get_elem? l i) all_fields ∙ get-marks b.slot i at;
          }
    ]
