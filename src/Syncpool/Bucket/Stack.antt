-- ===== src/Syncpool/Bucket/Stack.antt =====
-- The bucket is a stack of at most eight elements.
use byte_buffer.Prelude.{
  ℕ, zero, suc, ◌+◌, ◌≤◌, ◌<◌, ◌≡◌, refl, ap, ◌∙◌, inl, inr, ◌⊎◌, Bool, true, false, Option, none,
  some, List, [], ◌∷◌, ◌++◌, arith, length, length-append, get_elem?, set, replicate,
}
use native.Mathlib.Decide.{dec_lt}
use byte_buffer.Syncpool.Bucket2.{slot_cap, apply_reset}
use byte_buffer.Syncpool.Bucket.{
  Bucket, done, take_flag, new, access, leave, checkout, release, get_from, put_to,
}

-- The attempts to take the flag find that nobody holds it.
abbrev pub nobody : ℕ → Bool
nobody k = false

module _ {ℓ} {T : Type ℓ} where
  -- `n` slots, the lowest of which hold `xs`.
  abbrev pub stacked : ℕ → List T → List (Option T)
  stacked n [] = replicate n none
  stacked zero (x ∷ xs) = []
  stacked (suc n) (x ∷ xs) = some x ∷ stacked n xs

  -- Nobody is at the bucket, and it holds the stack `xs`, whose top is last.
  pub record Holds (b : Bucket T) (xs : List T) : Type ℓ where
    pub slots : b.slot ≡ stacked slot_cap xs
    pub counted : b.len ≡ length xs
    pub fits : length xs ≤ slot_cap
    pub free : b.access_flag ≡ false

  get-stacked :
      (n : ℕ) (xs : List T) → length xs < n → get_elem? (stacked n xs) (length xs) ≡ some none
  get-stacked zero xs h = absurd (omega arith)
  get-stacked (suc n) [] h = refl
  get-stacked (suc n) (x ∷ xs) h = get-stacked n xs (omega arith)

  set-stacked :
      (n : ℕ) (xs : List T) (v : T)
      → length xs < n
      → set (stacked n xs) (length xs) (some v) ≡ stacked n (xs ++ v ∷ [])
  set-stacked zero xs v h = absurd (omega arith)
  set-stacked (suc n) [] v h = refl
  set-stacked (suc n) (x ∷ xs) v h = ap (◌∷◌ (some x)) (set-stacked n xs v (omega arith))

  top-stacked :
      (n : ℕ) (xs : List T) (v : T)
      → length xs < n
      → get_elem? (stacked n (xs ++ v ∷ [])) (length xs) ≡ some (some v)
  top-stacked zero xs v h = absurd (omega arith)
  top-stacked (suc n) [] v h = refl
  top-stacked (suc n) (x ∷ xs) v h = top-stacked n xs v (omega arith)

  pop-stacked :
      (n : ℕ) (xs : List T) (v : T)
      → length xs < n
      → set (stacked n (xs ++ v ∷ [])) (length xs) none ≡ stacked n xs
  pop-stacked zero xs v h = absurd (omega arith)
  pop-stacked (suc n) [] v h = refl
  pop-stacked (suc n) (x ∷ xs) v h = ap (◌∷◌ (some x)) (pop-stacked n xs v (omega arith))

  module _ (b : Bucket T) (xs : List T) (h : Holds b xs) where
    open h use {slots, counted, fits, free}

    put_to-push :
        (val : T) (reset : Option (T → T))
        → length xs < slot_cap
        → put_to nobody b val reset ≡ (
          record b {
            slot = stacked slot_cap (xs ++ apply_reset reset val ∷ []);
            len = length xs + 1;
            access_flag = false;
          },
          true,
        )
    unfolding put_to access release leave take_flag
    put_to-push val reset room = ground (
      arith,
      slots,
      counted,
      get-stacked slot_cap xs room,
      set-stacked slot_cap xs (apply_reset reset val) room,
    )

    put_to-full :
        (val : T) (reset : Option (T → T))
        → length xs ≡ slot_cap
        → put_to nobody b val reset ≡ (b, false)
    unfolding put_to access leave take_flag
    put_to-full val reset full = ground (arith, counted, free)

    get_from-empty : xs ≡ [] → get_from nobody b ≡ done (b, none)
    unfolding get_from access leave take_flag
    get_from-empty empty =
        let none_left : b.len ≡ 0 = counted ∙ ap length empty in ground (arith, free)

  get_from-pop :
      (b : Bucket T) (xs : List T) (v : T)
      → Holds b (xs ++ v ∷ [])
      → get_from nobody b
        ≡ done
            (record b { slot = stacked slot_cap xs; len = length xs; access_flag = false }, some v)
  unfolding get_from access leave checkout take_flag
  get_from-pop b xs v h =
      let room : length xs < slot_cap = omega (arith, h.fits, length-append xs (v ∷ [])) in
      let top : b.len ≡ suc (length xs) = omega (arith, h.counted, length-append xs (v ∷ [])) in
      ground (arith, h.slots, top, top-stacked slot_cap xs v room, pop-stacked slot_cap xs v room)

-- What a bounded stack does: `put_to` and `get_from` of a bucket that holds `xs`.
module _ {ℓ} {T : Type ℓ} where
  abbrev pub PutOutcome : Bucket T → List T → T → Option (T → T) → Type ℓ
  PutOutcome b xs val reset =
      ((length xs ≡ slot_cap) × (put_to nobody b val reset ≡ (b, false)))
      ⊎ ((b' : Bucket T) × (length xs < slot_cap)
          × (put_to nobody b val reset ≡ (b', true))
          × Holds b' (xs ++ apply_reset reset val ∷ [])
          × (get_from nobody b' ≡ done (b, some (apply_reset reset val))))

  -- With nobody else at it a `Bucket` is a stack of at most eight elements: a put pushes the
  -- element, reset, or is refused by a full bucket, which stays as it is; the get after a put
  -- takes the same element off and gives back the bucket as it was before; and an empty bucket
  -- gives nothing and stays as it is.
  pub Bucket-stack :
      (b : Bucket T) (xs : List T)
      → Holds b xs
      → ((val : T) (reset : Option (T → T)) → PutOutcome b xs val reset)
        × (xs ≡ [] → get_from nobody b ≡ done (b, none))
  Bucket-stack b xs h = (
    λ val reset. elim (dec_lt (length xs) slot_cap) [
      | yes room ↦
          let new = apply_reset reset val in
          let b' : Bucket T = record b {
            slot = stacked slot_cap (xs ++ new ∷ []);
            len = length xs + 1;
            access_flag = false;
          } in
          let held : Holds b' (xs ++ new ∷ []) = record {
            slots = refl;
            counted = omega (arith, length-append xs (new ∷ []));
            fits = omega (arith, length-append xs (new ∷ []));
            free = refl;
          } in
          inr (
            b',
            room,
            put_to-push b xs h val reset room,
            held,
            get_from-pop b' xs new held ∙ ground (arith, h.slots, h.counted, h.free),
          )
      | no full ↦
          let all : length xs ≡ slot_cap = omega (arith, h.fits) in
          inl (all, put_to-full b xs h val reset all)
    ],
    get_from-empty b xs h,
  )

  -- A bucket that is made with no filler says that it is full: it gives nothing, takes nothing, and
  -- stays so.
  pub new_is_useless :
      (get_from nobody (new {T = T} none) ≡ done (new none, none))
      × ((val : T) (reset : Option (T → T))
          → put_to nobody (new none) val reset ≡ (new none, false))
  unfolding get_from put_to access leave checkout take_flag new
  new_is_useless = (refl, λ val reset. refl)

  pub new-Holds : (handle : Unit {0} → T) → Holds (new (some handle)) (replicate 8 (handle tt))
  unfolding new
  new-Holds handle = record { slots = refl; counted = refl; fits = omega arith; free = refl }

  -- A thread that finds the flag of a `Bucket` raised at each of its first five attempts gives up
  -- and changes nothing.
  access-gives_up :
      (found : ℕ → Bool) (b : Bucket T) (get : Bool)
      → ((k : ℕ) → k ≤ 4 → found k ≡ true)
      → access found b get ≡ (b, false)
  unfolding access take_flag
  access-gives_up found b true raised =
      ground (arith, raised 0, raised 1, raised 2, raised 3, raised 4)
  access-gives_up found b false raised = ground (arith, raised 0, raised 1, raised 2)
