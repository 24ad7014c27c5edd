-- ===== src/Syncpool/Concurrent/Alone.antt =====
-- A thread that nobody interrupts does what the sequential operations say.
use byte_buffer.Prelude.{
  ℕ, suc, ◌+◌, ◌-◌, [], ◌∷◌, ◌^◌, ◌≤◌, ◌<◌, ◌≡◌, refl, sym, ◌∙◌, Bool, true, false, inl, inr,
  Option, none, some, List, arith, length, length-set, get_elem?, get_elem?-lt, get_elem?-set_self,
  get_or, set, set-set, ltb, ◌==◌, ◌&&◌, ◌||◌, if◌then◌else◌, Bool-cases, Option-cases,
}
use byte_buffer.Prelude.Fields.{
  pack, fields, IsFields, set-IsFields, fields-IsFields, length-fields, pack-fields,
}
use byte_buffer.Syncpool.Words.{wrapping_add, wrapping_sub}
use byte_buffer.Syncpool.Utils.Enter.{first_from, wanted}
use byte_buffer.Syncpool.Utils.States.{lock}
use byte_buffer.Syncpool.Bucket2.{
  Bucket2, slot_cap, access_failure, try_access, access, leave, checkout, release, apply_reset,
  take_from, put_into,
}
use byte_buffer.Syncpool.Bucket2.Rounds.{leave_loop-locked, try_access-hit, try_access-miss}
use byte_buffer.Syncpool.Concurrent.{
  Task, getting, putting, reading, clearing, storing, Pc, idle, scanning, locking, inside, using,
  leaving, is_get, announce, test_slot, use_slot, advance,
}
use byte_buffer.Syncpool.Concurrent.Solo.{run_on, run_on-goes, run_on-ends, run_alone}
use byte_buffer.Syncpool.Concurrent.Visit.{toggled, toggles, visited}
use byte_buffer.Syncpool.Concurrent.Turns.{
  advance-found, advance-missed, try_lock-pack, try_leave-pack,
}

first_from-get :
    (pos t : ℕ) (ds : List ℕ) (i : ℕ)
    → first_from pos t ds ≡ some i
    → (pos ≤ i) × (get_elem? ds (i - pos) ≡ some t)
first_from-get pos t [] i h = cc
first_from-get pos t (d ∷ ds) i h = elim (Bool-cases (d == t)) [
  | inl here ↦
      let first : i ≡ pos = ground arith in
      let same : i - pos ≡ 0 = omega arith in (omega arith, rw same (ground arith))
  | inr later ↦
      let rest : first_from (pos + 1) t ds ≡ some i = rw later at h in
      let (le, at) = first_from-get (pos + 1) t ds i rest in
      let next : i - pos ≡ suc (i - (pos + 1)) = omega arith in (omega arith, rw next at)
]

wanted-lt : (get : Bool) → wanted get < 2
wanted-lt true = omega arith
wanted-lt false = omega arith

module _ {ℓ} {T : Type ℓ} (reset : Option (T → T)) (task : Task T) where
  -- What `SyncPool` does with a bucket once `access` has returned, and what it comes to.
  abbrev after_access : Task T → Bucket2 T × Option ℕ → Bucket2 T × Option (Option T)
  after_access task' (b, none) = (b, none)
  after_access getting (b, some i) = let (b', val) = checkout b i in (leave b' i, some val)
  after_access (putting val) (b, some i) = (leave (release b i val reset) i, some none)

  after_failure :
      (b : Bucket2 T) (get : Bool)
      → after_access task (access_failure b get) ≡ ((access_failure b get).0, none)
  unfolding access_failure
  after_failure b true = refl
  after_failure b false = refl

  module _ (b : Bucket2 T) (ds : List ℕ) (h : IsFields ds) (e : length ds ≡ 8)
      (packed : b.bitmap ≡ pack ds) where
    fails :
        (n : ℕ)
        → run_on reset task (suc n) b (scanning task 0) none
          ≡ some ((access_failure b (is_get task)).0, none)
    unfolding advance
    fails n =
        let over : Pc T = idle in
        run_on-ends reset task n b (scanning task 0) (access_failure b (is_get task)).0 over none
          refl refl

    misses :
        first_from 0 (wanted (is_get task)) ds ≡ none
        → run_on reset task 6 b (scanning task 4) none
          ≡ some ((access_failure b (is_get task)).0, none)
    misses none_fits =
        let miss = λ (n : ℕ). advance-missed b ds h e packed reset task task n none_fits in
        run_on-goes reset task 5 b (scanning task 4) b (scanning task 3) none (miss 3) refl
        ∙ run_on-goes reset task 4 b (scanning task 3) b (scanning task 2) none (miss 2) refl
        ∙ run_on-goes reset task 3 b (scanning task 2) b (scanning task 1) none (miss 1) refl
        ∙ run_on-goes reset task 2 b (scanning task 1) b (scanning task 0) none (miss 0) refl
        ∙ fails 1

    -- From the last access to the slot on.
    module _ (i d : ℕ) (at : get_elem? ds i ≡ some d) (free : d < 2) (slots : List (Option T)) where
      abbrev locked : Bucket2 T
      locked = record b { slot = slots; bitmap = pack (set ds i (lock d)) }

      left : leave locked i ≡ visited b ds i d slots
      unfolding leave
      left =
          let facts = toggles d free in
          ground (
            arith,
            leave_loop-locked (set ds i (lock d)) i (lock d) 1
                (set-IsFields ds i (lock d) h facts.lock_small.1) (length-set ds i (lock d) ∙ e)
                (get_elem?-set_self ds i (lock d) (get_elem?-lt ds i at)) facts.lock_small.0,
            set-set ds i (lock d) (toggled d),
          )

      leaves :
          (n : ℕ) (got : Option (Option T))
          → run_on reset task (suc n) locked (leaving i) got ≡ some (leave locked i, got)
      unfolding advance
      leaves n got =
          let facts = toggles d free in
          let over : Pc T = idle in
          run_on-ends reset task n locked (leaving i) (leave locked i) over got
            (rw left (
              ground (
                arith,
                try_leave-pack locked (set ds i (lock d))
                    (set-IsFields ds i (lock d) h facts.lock_small.1) (length-set ds i (lock d) ∙ e)
                    refl i (lock d) (get_elem?-set_self ds i (lock d) (get_elem?-lt ds i at))
                    facts.lock_small.0,
                set-set ds i (lock d) (toggled d),
              )))
            refl

    -- From the null test on.
    uses :
        (task' : Task T) (i d : ℕ)
        → get_elem? ds i ≡ some d
        → d < 2
        → run_on reset task 4 (record b { bitmap = pack (set ds i (lock d)) }) (inside task' i) none
          ≡ some (after_access task' (record b { bitmap = pack (set ds i (lock d)) }, some i))
    unfolding advance test_slot use_slot checkout release
    uses getting i d at free = elim (Option-cases (get_or b.slot i none)) [
      | inl empty ↦
          let lt = get_elem?-lt ds i at in
          let x = locked i d at free b.slot in
          run_on-goes reset task 3 x (inside getting i) x (leaving i) none (ground (arith, empty))
            refl
          ∙ leaves i d at free b.slot 2 (some none)
          ∙ ground (arith, empty)
      | inr (v, full) ↦
          let lt = get_elem?-lt ds i at in
          let x = locked i d at free b.slot in
          let x' = locked i d at free (set b.slot i none) in
          run_on-goes reset task 3 x (inside getting i) x (using reading i) none
            (ground (arith, full)) refl
          ∙ run_on-goes reset task 2 x (using reading i) x (using (clearing (some v)) i) (some none)
              (ground (arith, full)) refl
          ∙ run_on-goes reset task 1 x (using (clearing (some v)) i) x' (leaving i) (some none) refl
              refl
          ∙ leaves i d at free (set b.slot i none) 0 (some (some v))
          ∙ ground (arith, full)
    ]
    uses (putting val) i d at free = elim (Option-cases (get_or b.slot i none)) [
      | inl empty ↦
          let lt = get_elem?-lt ds i at in
          let slots = set b.slot i (some (apply_reset reset val)) in
          let x = locked i d at free b.slot in
          let x' = locked i d at free slots in
          run_on-goes reset task 3 x (inside (putting val) i) x (using (storing val) i) none
            (ground (arith, empty)) refl
          ∙ run_on-goes reset task 2 x (using (storing val) i) x' (leaving i) (some none) refl refl
          ∙ leaves i d at free slots 1 (some none)
          ∙ ground (arith, empty)
      | inr (w, full) ↦
          let lt = get_elem?-lt ds i at in
          let x = locked i d at free b.slot in
          run_on-goes reset task 3 x (inside (putting val) i) x (leaving i) none
            (ground (arith, full)) refl
          ∙ leaves i d at free b.slot 2 (some none)
          ∙ ground (arith, full)
    ]

    hits :
        (i : ℕ)
        → first_from 0 (wanted (is_get task)) ds ≡ some i
        → run_on reset task 6 b (scanning task 4) none
          ≡ some (after_access task (try_access 4 b (is_get task)))
    unfolding advance
    hits i found =
        let (_, at') = first_from-get 0 (wanted (is_get task)) ds i found in
        let at : get_elem? ds i ≡ some (wanted (is_get task)) = ground (arith, at') in
        let d = wanted (is_get task) in
        let free : d < 2 = wanted-lt (is_get task) in
        let entered : Bucket2 T = record b { bitmap = pack (set ds i (lock d)) } in
        rw (try_access-hit b ds h e packed (is_get task) 3 i d found at free) (
          run_on-goes reset task 5 b (scanning task 4) b (locking task 3 i) none
            (advance-found b ds h e packed reset task task 3 i found) refl
          ∙ run_on-goes reset task 4 b (locking task 3 i) entered (inside task i) none
              (ground (arith, try_lock-pack b ds h e packed i d at task 3)) refl
          ∙ uses task i d at free)

    tries :
        run_on reset task 6 b (scanning task 4) none
        ≡ some (after_access task (try_access 4 b (is_get task)))
    tries = elim (Option-cases (first_from 0 (wanted (is_get task)) ds)) [
      | inl none_fits ↦
          rw (try_access-miss b ds h e packed (is_get task) 4 none_fits)
            (rw (after_failure b (is_get task)) (misses none_fits))
      | inr (i, found) ↦ hits i found
    ]

  pub alone-access :
      (b : Bucket2 T)
      → b.bitmap < 2 ^ 16
      → run_alone reset task b ≡ some (after_access task (access b (is_get task)))
  unfolding access advance announce
  alone-access b fits =
      let ds = fields 8 b.bitmap in
      let h = fields-IsFields 8 b.bitmap in
      let e = length-fields 8 b.bitmap in
      let packed = sym (pack-fields 8 b.bitmap fits) in
      let get = is_get task in
      let over = ltb slot_cap b.len || (get && (b.len == 0)) in
      let b' : Bucket2 T = record b {
        len = if get then wrapping_sub b.len 1 else wrapping_add b.len 1;
      } in
      let begin : Pc T = idle in
      run_on-goes reset task 6 b begin b' (scanning task (if over then 0 else 4)) none refl refl
      ∙ elim (Bool-cases over) [
        | inl refused ↦ rw refused (rw (after_failure b' get) (fails b' ds h e packed 5))
        | inr goes_on ↦ rw goes_on (tries b' ds h e packed)
      ]

module _ {ℓ} {T : Type ℓ} (reset : Option (T → T)) (b : Bucket2 T) (fits : b.bitmap < 2 ^ 16) where
  -- At every bitmap of 16 bits and every counter, a thread that gets or puts with no other thread in
  -- between is idle again within seven turns, and comes to what the sequential operation computes:
  -- the bucket after it; of a get whether it has locked a slot, and which element it has taken out of
  -- it; and of a put whether it has locked one.
  pub alone-sequential :
      (run_alone reset getting b ≡ some (take_from b))
      × ((val : T)
          → run_alone reset (putting val) b
            ≡ some ((put_into b val reset).0, if (put_into b val reset).1 then some none else none))
  unfolding take_from put_into
  alone-sequential = (
    elim (Option-cases (access b true).1) [
      | inl refused ↦ alone-access reset getting b fits ∙ ground arith
      | inr (i, entered) ↦ alone-access reset getting b fits ∙ ground arith
    ],
    λ val. elim (Option-cases (access b false).1) [
      | inl refused ↦ alone-access reset (putting val) b fits ∙ ground arith
      | inr (i, entered) ↦ alone-access reset (putting val) b fits ∙ ground arith
    ],
  )
