-- ===== src/Syncpool/Bucket2/Quiet.antt =====
-- A bucket that nobody is working at, and what the pool's two uses of it do there.
use byte_buffer.Prelude.{
  ℕ, ◌≤◌, ◌<◌, ◌≡◌, ap, sym, ◌∙◌, ◌⊎◌, inl, inr, Bool, true, false, Option, none, some, List, [],
  ◌∷◌, Perm, arith, length, get_elem?, set, set-set, length-set, get_elem?-lt, get_elem?-set_self,
}
use byte_buffer.Prelude.Fields.{pack, set-IsFields}
use byte_buffer.Syncpool.Words.{wrapping_add, wrapping_sub}
use byte_buffer.Syncpool.Utils.Enter.{first_from}
use byte_buffer.Syncpool.Utils.States.{flip, lock_cases}
use byte_buffer.Syncpool.Bucket2.{
  Bucket2, slot_cap, access_failure, access, leave, checkout, apply_reset, release, take_from,
  put_into,
}
use byte_buffer.Syncpool.Bucket2.Slots.{
  contents, mark, marks, length-marks, marks-IsFields, marks-set, get-marks, get_or-of_get,
  length-contents-le, first_full, first_empty,
}
use byte_buffer.Syncpool.Bucket2.Rounds.{try_access-hit, try_access-miss, leave_loop-locked}

-- Nobody is at a slot, the bitmap says which slots are full, and the counter how many are.
pub record IsQuiet {ℓ} {T : Type ℓ} (b : Bucket2 T) : Type ℓ where
  pub eight : length b.slot ≡ slot_cap
  pub marked : b.bitmap ≡ pack (marks b.slot)
  pub counted : b.len ≡ length (contents b.slot)

module _ {ℓ} {T : Type ℓ} (b : Bucket2 T) where
  abbrev pub TakeOutcome : Bucket2 T × Option (Option T) → Type ℓ
  TakeOutcome r =
      ((r ≡ (b, none)) × (contents b.slot ≡ []))
      ⊎ ((b' : Bucket2 T) × (v : T) × (r ≡ (b', some (some v)))
          × IsQuiet b'
          × (contents b.slot ≡ v ∷ contents b'.slot))

  abbrev pub PutOutcome : T → Option (T → T) → Bucket2 T × Bool → Type ℓ
  PutOutcome val reset r =
      ((r ≡ (b, false)) × (length (contents b.slot) ≡ slot_cap))
      ⊎ ((b' : Bucket2 T) × (r ≡ (b', true))
          × IsQuiet b'
          × Perm (contents b'.slot) (apply_reset reset val ∷ contents b.slot)
          × (length (contents b.slot) < slot_cap))

module _ {ℓ} {T : Type ℓ} (b : Bucket2 T) (q : IsQuiet b) where
  open q use {eight, marked, counted}

  eight_marks : length (marks b.slot) ≡ 8
  eight_marks = length-marks b.slot ∙ eight

  counter_fits : b.len ≤ 8
  counter_fits = omega (arith, length-contents-le b.slot)

  -- What the bucket is after `access` has locked slot `i`.
  abbrev entered : ℕ → ℕ → ℕ → Bucket2 T
  entered len i d = record b { len = len; bitmap = pack (set (marks b.slot) i d) }

  access-get :
      (i : ℕ) (v : T)
      → first_from 0 1 (marks b.slot) ≡ some i
      → get_elem? b.slot i ≡ some (some v)
      → 0 < length (contents b.slot)
      → access b true ≡ (entered (wrapping_sub b.len 1) i 3, some i)
  unfolding access
  access-get i v found at some_left = ground (
    arith,
    counter_fits,
    try_access-hit (record b { len = wrapping_sub b.len 1 }) (marks b.slot) (marks-IsFields b.slot)
        eight_marks marked true 3 i 1 found (get-marks b.slot i at) (omega arith),
    lock_cases 1 (omega arith),
  )

  -- An empty bucket is refused by its counter, which is then set back.
  access-get_empty : contents b.slot ≡ [] → access b true ≡ (b, none)
  unfolding access access_failure
  access-get_empty empty = let none_left : b.len ≡ 0 = counted ∙ ap length empty in ground arith

  access-put :
      (i : ℕ)
      → first_from 0 0 (marks b.slot) ≡ some i
      → get_elem? b.slot i ≡ some none
      → access b false ≡ (entered (wrapping_add b.len 1) i 2, some i)
  unfolding access
  access-put i found at = ground (
    arith,
    counter_fits,
    try_access-hit (record b { len = wrapping_add b.len 1 }) (marks b.slot) (marks-IsFields b.slot)
        eight_marks marked false 3 i 0 found (get-marks b.slot i at) (omega arith),
    lock_cases 0 (omega arith),
  )

  -- A full bucket passes the counter's test; its bitmap refuses every trial.
  access-put_full : first_from 0 0 (marks b.slot) ≡ none → access b false ≡ (b, none)
  unfolding access access_failure
  access-put_full missed = ground (
    arith,
    counter_fits,
    try_access-miss (record b { len = wrapping_add b.len 1 }) (marks b.slot) (marks-IsFields b.slot)
        eight_marks marked false 4 missed,
  )

  -- `leave` at the slot that was locked.
  leave-entered :
      (s : List (Option T)) (len i d : ℕ) {o : Option T}
      → get_elem? b.slot i ≡ some o
      → 2 ≤ d
      → d < 4
      → leave (record { slot = s; len = len; bitmap = pack (set (marks b.slot) i d) }) i
        ≡ record { slot = s; len = len; bitmap = pack (set (marks b.slot) i (flip d)) }
  unfolding leave
  leave-entered s len i d at locked small = ground (
    arith,
    leave_loop-locked (set (marks b.slot) i d) i d 1
        (set-IsFields (marks b.slot) i d (marks-IsFields b.slot) small)
        (length-set (marks b.slot) i d ∙ eight_marks)
        (get_elem?-set_self (marks b.slot) i d
          (omega (arith, get_elem?-lt b.slot i at, length-marks b.slot)))
        locked,
    set-set (marks b.slot) i d (flip d),
  )

  -- The bucket with slot `i` given another content and a matching counter is quiet again.
  set-IsQuiet :
      (i len : ℕ) (o : Option T)
      → len ≡ length (contents (set b.slot i o))
      → IsQuiet (record b {
        slot = set b.slot i o;
        len = len;
        bitmap = pack (set (marks b.slot) i (mark o));
      })
  set-IsQuiet i len o e = record {
    eight = length-set b.slot i o ∙ eight;
    marked = ap pack (sym (marks-set b.slot i o));
    counted = e;
  }

  taken :
      (i : ℕ) (v : T)
      → first_from 0 1 (marks b.slot) ≡ some i
      → get_elem? b.slot i ≡ some (some v)
      → 0 < length (contents b.slot)
      → take_from b ≡ (
        record b {
          slot = set b.slot i none;
          len = wrapping_sub b.len 1;
          bitmap = pack (set (marks b.slot) i 0);
        },
        some (some v),
      )
  unfolding take_from checkout
  taken i v found at some_left = ground (
    arith,
    access-get i v found at some_left,
    get_elem?-lt b.slot i at,
    get_or-of_get b.slot i none at,
    leave-entered (set b.slot i none) (wrapping_sub b.len 1) i 3 at,
  )

  pub take_from-empty : contents b.slot ≡ [] → take_from b ≡ (b, none)
  unfolding take_from
  take_from-empty empty = ground (arith, access-get_empty empty)

  -- Taking from a quiet bucket gives its first element and leaves the others, in a quiet bucket;
  -- only an empty bucket is refused, and it is left as it was.
  pub take_from-IsQuiet : TakeOutcome b (take_from b)
  take_from-IsQuiet = elim (first_full b.slot 0) [
    | inl (missed, empty) ↦ inl (take_from-empty empty, empty)
    | inr (i, v, found, at, split) ↦
        let some_left : 0 < length (contents b.slot) = omega (arith, ap length split) in
        inr (
          _,
          v,
          taken i v (ground arith) at some_left,
          set-IsQuiet i (wrapping_sub b.len 1) none (omega (arith, ap length split, counter_fits)),
          split,
        )
  ]

  placed :
      (i : ℕ) (val : T) (reset : Option (T → T))
      → first_from 0 0 (marks b.slot) ≡ some i
      → get_elem? b.slot i ≡ some none
      → put_into b val reset ≡ (
        record b {
          slot = set b.slot i (some (apply_reset reset val));
          len = wrapping_add b.len 1;
          bitmap = pack (set (marks b.slot) i 1);
        },
        true,
      )
  unfolding put_into release
  placed i val reset found at = ground (
    arith,
    access-put i found at,
    get_elem?-lt b.slot i at,
    get_or-of_get b.slot i none at,
    leave-entered (set b.slot i (some (apply_reset reset val))) (wrapping_add b.len 1) i 2 at,
  )

  put_refused :
      (val : T) (reset : Option (T → T))
      → first_from 0 0 (marks b.slot) ≡ none
      → put_into b val reset ≡ (b, false)
  unfolding put_into
  put_refused val reset missed = ground (arith, access-put_full missed)

  -- Putting into a quiet bucket adds the element, reset, to the others, in a quiet bucket; only a
  -- full bucket is refused, and it is left as it was.
  pub put_into-IsQuiet :
      (val : T) (reset : Option (T → T)) → PutOutcome b val reset (put_into b val reset)
  put_into-IsQuiet val reset = elim (first_empty b.slot 0) [
    | inl (missed, full) ↦ inl (put_refused val reset missed, full ∙ eight)
    | inr (i, found, at, perm, more, room) ↦
        let new = apply_reset reset val in
        inr (
          _,
          placed i val reset (ground arith) at,
          set-IsQuiet i (wrapping_add b.len 1) (some new) (omega (arith, counter_fits, more new)),
          perm new,
          omega arith,
        )
  ]
