-- ===== src/Syncpool/Calls/Hands.antt =====
-- What the threads of a pool have in hand, and how a turn changes it.
use mathlib.Core.List.Perm
use mathlib.Core.List.{append_assoc}
use byte_buffer.Prelude.{
  ℕ, zero, suc, ◌≡◌, ◌<◌, ◌≤◌, refl, ◌==◌, false, List, [], ◌∷◌, ◌++◌, Perm, arith, leb, leb→le,
  Bool-cases, inl, inr,
}
use byte_buffer.Syncpool.Concurrent.{update}
use byte_buffer.Syncpool.Calls.{
  Spot, away, counting, testing, entering, starting, at_bucket, marking, quitting, settling,
  moving_on, returning,
}
use byte_buffer.Syncpool.Calls.Elements.{swap_front, of_answer}

module _ {ℓ} {T : Type ℓ} where
  -- The element that a thread has taken out of a slot and not returned yet.
  abbrev pub in_hand : Spot T → List T
  in_hand (quitting answer pos i) = of_answer answer
  in_hand (settling val pos) = val ∷ []
  in_hand (returning answer) = of_answer answer
  in_hand away = []
  in_hand counting = []
  in_hand (testing task) = []
  in_hand (entering task) = []
  in_hand (starting task) = []
  in_hand (at_bucket task trials pos pc) = []
  in_hand (marking val trials pos i) = []
  in_hand (moving_on task trials) = []

  -- What the first `n` threads have in hand.
  abbrev pub in_hands : ℕ → (ℕ → Spot T) → List T
  in_hands zero spot = []
  in_hands (suc n) spot = in_hand (spot n) ++ in_hands n spot

  in_hands-above :
      (n i : ℕ) (spot : ℕ → Spot T) (x : Spot T)
      → n ≤ i
      → in_hands n (update spot i x) ≡ in_hands n spot
  in_hands-above zero i spot x le = refl
  in_hands-above (suc n) i spot x le =
      let other : (i == n) ≡ false = ground arith in
      rw (other, in_hands-above n i spot x (omega arith)) refl

  pub in_hands-more :
      (m n : ℕ) (spot : ℕ → Spot T)
      → n ≤ m
      → ((j : ℕ) → n ≤ j → spot j ≡ away)
      → in_hands m spot ≡ in_hands n spot
  in_hands-more zero n spot le quiet = let e : n ≡ 0 = omega arith in rw e refl
  in_hands-more (suc m) n spot le quiet = elim (Bool-cases (leb n m)) [
    | inl below ↦
        let le' : n ≤ m = leb→le n m below in
        rw (quiet m le', in_hands-more m n spot le' quiet) refl
    | inr last ↦ let e : n ≡ suc m = ground arith in rw e refl
  ]

  -- One thread moves, and the others keep what they have.
  pub in_hands-split :
      (n i : ℕ) (spot : ℕ → Spot T) (x : Spot T)
      → i < n
      → (others : List T) × Perm (in_hands n spot) (in_hand (spot i) ++ others)
        × Perm (in_hands n (update spot i x)) (in_hand x ++ others)
  in_hands-split zero i spot x lt = absurd (omega arith)
  in_hands-split (suc n) i spot x lt = elim (Bool-cases (i == n)) [
    | inl last ↦
        let same : i ≡ n = ground arith in
        (
          in_hands n spot,
          rw same Perm.rfl,
          rw (last, in_hands-above n i spot x (omega arith)) Perm.rfl,
        )
    | inr other ↦
        let (others, before, after) = in_hands-split n i spot x (ground arith) in
        (
          in_hand (spot n) ++ others,
          Perm.trans (Perm.append_left (in_hand (spot n)) before)
              (swap_front (in_hand (spot n)) (in_hand (spot i)) others),
          rw other (
              Perm.trans (Perm.append_left (in_hand (spot n)) after)
                (swap_front (in_hand (spot n)) (in_hand x) others)),
        )
  ]

  -- The balance of one turn, with that of the turns before.
  pub carry :
      (taken h h' gone others answers hands hands' out : List T)
      → Perm (taken ++ h) (h' ++ gone)
      → Perm hands (h ++ others)
      → Perm hands' (h' ++ others)
      → Perm out (hands ++ answers)
      → Perm (taken ++ out) (hands' ++ (gone ++ answers))
  carry taken h h' gone others answers hands hands' out one before after so_far =
      Perm.trans (Perm.append_left taken so_far) (
        Perm.trans (Perm.append_left taken (Perm.append_right answers before))
          (Perm.trans whole (Perm.append_right (gone ++ answers) (Perm.symm after))))
    where
      whole : Perm (taken ++ ((h ++ others) ++ answers)) ((h' ++ others) ++ (gone ++ answers))
      whole =
          rw
            (
              append_assoc h others answers,
              ← (append_assoc taken h (others ++ answers)),
              append_assoc h' others (gone ++ answers),
            )
            (Perm.trans (Perm.append_right (others ++ answers) one) (
              rw (append_assoc h' gone (others ++ answers))
                (Perm.append_left h' (swap_front gone others answers))))
