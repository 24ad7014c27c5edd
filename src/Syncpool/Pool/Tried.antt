-- ===== src/Syncpool/Pool/Tried.antt =====
-- The buckets that the loops of `get` and `put` look at: first the one at the counter, then, trial
-- by trial, the one at the counter's value before it is advanced.
use byte_buffer.Prelude.{
  ℕ, zero, suc, ◌+◌, ◌*◌, ◌%◌, ◌≤◌, ◌<◌, ◌≡◌, subst, List, [], ◌∷◌, some, arith, length,
  length-append, get_elem?,
}
use byte_buffer.Syncpool.Words.{wrapping_add, usize_mod}
use byte_buffer.Syncpool.Bucket2.{Bucket2, slot_cap}
use byte_buffer.Syncpool.Bucket2.Slots.{contents}
use byte_buffer.Syncpool.Pool.Elements.{elements}

-- The counter after `n` failed trials.
abbrev pub advance : ℕ → ℕ → ℕ
advance zero curr = curr
advance (suc n) curr = advance n (wrapping_add curr 1)

-- `P` holds at the buckets of `n` trials, the next at `pos`, with the counter at `curr`.
abbrev pub Tried {κ} : (ℕ → Type κ) → ℕ → ℕ → ℕ → ℕ → Type κ
Tried P cap zero pos curr = Unit
Tried P cap (suc n) pos curr = P pos × Tried P cap n (curr % cap) (wrapping_add curr 1)

-- While the counter does not wrap, the trials go through consecutive buckets.
pub Tried-at {κ} :
    (P : ℕ → Type κ) (cap n curr j : ℕ)
    → curr + n ≤ usize_mod
    → j < n
    → Tried P cap n (curr % cap) (wrapping_add curr 1)
    → P ((curr + j) % cap)
Tried-at P cap zero curr j fits lt t = absurd (omega arith)
Tried-at P cap (suc n) curr zero fits lt t = let here : curr + 0 ≡ curr = omega arith in rw here t.0
Tried-at P cap (suc zero) curr (suc j) fits lt t = absurd (omega arith)
Tried-at P cap (suc (suc n)) curr (suc j) fits lt t =
    let next : wrapping_add curr 1 ≡ curr + 1 = omega arith in
    let there : curr + suc j ≡ curr + 1 + j = omega arith in
    rw there (
      Tried-at P cap (suc n) (curr + 1) j (omega arith) (omega arith)
        (subst (λ c. Tried P cap (suc n) (c % cap) (wrapping_add c 1)) next t.1))

-- And a property of these buckets holds at the trials.
pub Tried-of {κ} :
    (P : ℕ → Type κ) (cap n curr : ℕ)
    → curr + n ≤ usize_mod
    → ((j : ℕ) → j < n → P ((curr + j) % cap))
    → Tried P cap n (curr % cap) (wrapping_add curr 1)
Tried-of P cap zero curr fits h = tt
Tried-of P cap (suc zero) curr fits h =
    let here : curr + 0 ≡ curr = omega arith in (rw here at (h 0 (omega arith)), tt)
Tried-of P cap (suc (suc n)) curr fits h =
    let next : curr + 1 ≡ wrapping_add curr 1 = omega arith in
    let here : curr + 0 ≡ curr = omega arith in
    (
      rw here at (h 0 (omega arith)),
      subst (λ c. Tried P cap (suc n) (c % cap) (wrapping_add c 1)) next
          (Tried-of P cap (suc n) (curr + 1) (omega arith) (λ j lt.
            let there : curr + suc j ≡ curr + 1 + j = omega arith in
            rw there at (h (suc j) (omega arith)))),
    )

module _ {ℓ} {T : Type ℓ} where
  -- Bucket `pos` holds nothing; it holds as much as it can.
  abbrev pub EmptyAt : List (Bucket2 T) → ℕ → Type ℓ
  EmptyAt slots pos = (b : Bucket2 T) × (get_elem? slots pos ≡ some b) × (contents b.slot ≡ [])

  abbrev pub FullAt : List (Bucket2 T) → ℕ → Type ℓ
  FullAt slots pos =
      (b : Bucket2 T) × (get_elem? slots pos ≡ some b) × (length (contents b.slot) ≡ slot_cap)

  pub all_full :
      (slots : List (Bucket2 T))
      → ((i : ℕ) → i < length slots → FullAt slots i)
      → length (elements slots) ≡ length slots * slot_cap
  all_full [] h = omega arith
  all_full (b ∷ slots) h =
      let (x, at, full) = h 0 (omega arith) in
      ground (
        arith,
        length-append (contents b.slot) (elements slots),
        all_full slots (λ i lt. h (suc i) (omega arith)),
      )
