-- ===== src/Syncpool/Bucket2/Slots.antt =====
-- Slots as the elements that they hold, in order, and as the fields of the bitmap.
use mathlib.Core.List.Perm
use byte_buffer.Prelude.{
  ℕ, zero, suc, ◌+◌, ◌≤◌, ◌<◌, ◌≡◌, refl, ap, ◌⊎◌, inl, inr, Option, none, some, List, [], ◌∷◌,
  Perm, arith, length, get_elem?, get_or, set,
}
use byte_buffer.Prelude.Fields.{IsFields}
use byte_buffer.Syncpool.Utils.Enter.{first_from}

module _ {ℓ} {T : Type ℓ} where
  abbrev pub contents : List (Option T) → List T
  contents [] = []
  contents (none ∷ s) = contents s
  contents (some v ∷ s) = v ∷ contents s

  -- The two bits of an unlocked slot.
  abbrev pub mark : Option T → ℕ
  mark none = 0
  mark (some v) = 1

  abbrev pub marks : List (Option T) → List ℕ
  marks [] = []
  marks (o ∷ s) = mark o ∷ marks s

  pub length-marks : (s : List (Option T)) → length (marks s) ≡ length s
  length-marks [] = refl
  length-marks (o ∷ s) = ap suc (length-marks s)

  pub marks-IsFields : (s : List (Option T)) → IsFields (marks s)
  marks-IsFields [] = tt
  marks-IsFields (none ∷ s) = (omega arith, marks-IsFields s)
  marks-IsFields (some v ∷ s) = (omega arith, marks-IsFields s)

  pub marks-set :
      (s : List (Option T)) (i : ℕ) (o : Option T) → marks (set s i o) ≡ set (marks s) i (mark o)
  marks-set [] i o = refl
  marks-set (x ∷ s) zero o = refl
  marks-set (x ∷ s) (suc i) o = ap (◌∷◌ (mark x)) (marks-set s i o)

  pub get-marks :
      (s : List (Option T)) (i : ℕ) {o : Option T}
      → get_elem? s i ≡ some o
      → get_elem? (marks s) i ≡ some (mark o)
  get-marks [] i h = cc
  get-marks (x ∷ s) zero h = ground arith
  get-marks (x ∷ s) (suc i) h = get-marks s i h

  pub get_or-of_get :
      (s : List (Option T)) (i : ℕ) (d : Option T) {o : Option T}
      → get_elem? s i ≡ some o
      → get_or s i d ≡ o
  get_or-of_get [] i d h = cc
  get_or-of_get (x ∷ s) zero d h = ground arith
  get_or-of_get (x ∷ s) (suc i) d h = get_or-of_get s i d h

  pub length-contents-le : (s : List (Option T)) → length (contents s) ≤ length s
  length-contents-le [] = omega arith
  length-contents-le (none ∷ s) = omega (arith, length-contents-le s)
  length-contents-le (some v ∷ s) = omega (arith, length-contents-le s)

  -- The search for a full slot finds the one that holds the first element.
  abbrev pub FirstFull : ℕ → List (Option T) → Type ℓ
  FirstFull pos s =
      ((first_from pos 1 (marks s) ≡ none) × (contents s ≡ []))
      ⊎ ((i : ℕ) × (v : T) × (first_from pos 1 (marks s) ≡ some (pos + i))
          × (get_elem? s i ≡ some (some v))
          × (contents s ≡ v ∷ contents (set s i none)))

  pub first_full : (s : List (Option T)) (pos : ℕ) → FirstFull pos s
  first_full [] pos = inl (refl, refl)
  first_full (some v ∷ s) pos = inr (0, v, ground arith, refl, refl)
  first_full (none ∷ s) pos = next (first_full s (pos + 1))
    where
      next : FirstFull (pos + 1) s → FirstFull pos (none ∷ s)
      next (inl (e, empty)) = inl (e, empty)
      next (inr (i, v, e, at, split)) = inr (suc i, v, ground arith, at, split)

  -- The search for an empty slot finds one, unless every slot is full.
  abbrev pub FirstEmpty : ℕ → List (Option T) → Type ℓ
  FirstEmpty pos s =
      ((first_from pos 0 (marks s) ≡ none) × (length (contents s) ≡ length s))
      ⊎ ((i : ℕ) × (first_from pos 0 (marks s) ≡ some (pos + i))
          × (get_elem? s i ≡ some none)
          × ((v : T) → Perm (contents (set s i (some v))) (v ∷ contents s))
          × ((v : T) → length (contents (set s i (some v))) ≡ suc (length (contents s)))
          × (length (contents s) < length s))

  pub first_empty : (s : List (Option T)) (pos : ℕ) → FirstEmpty pos s
  first_empty [] pos = inl (refl, refl)
  first_empty (none ∷ s) pos =
      inr (0, ground arith, refl, λ v. Perm.rfl, λ v. refl, omega (arith, length-contents-le s))
  first_empty (some w ∷ s) pos = next (first_empty s (pos + 1))
    where
      next : FirstEmpty (pos + 1) s → FirstEmpty pos (some w ∷ s)
      next (inl (e, full)) = inl (e, ap suc full)
      next (inr (i, e, at, perm, more, room)) = inr (
        suc i,
        ground arith,
        at,
        λ v. Perm.trans (Perm.cons w (perm v)) (Perm.swap v w (contents s)),
        λ v. ap suc (more v),
        omega arith,
      )
