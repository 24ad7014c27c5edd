-- ===== src/Syncpool/Bucket2/Rounds.antt =====
-- The rounds of the loops of `access` and `leave`, over the fields of the bitmap.
use byte_buffer.Prelude.{
  ℕ, zero, suc, ◌-◌, ◌≤◌, ◌<◌, ◌≡◌, refl, ap, ◌∙◌, inl, inr, Bool, Option, none, some, List, arith,
  length, get_elem?, set, ltb, if◌then◌else◌, set-set, set_self, Bool-cases, length-set,
  get_elem?-lt, get_elem?-set_self,
}
use byte_buffer.Prelude.Fields.{pack, IsFields, pow4-pos, set-IsFields}
use byte_buffer.Syncpool.Words.{shl_field}
use byte_buffer.Syncpool.Utils.Enter.{first_from, wanted, enter-pack}
use byte_buffer.Syncpool.Utils.States.{lock, flip, flip_cases, or_lock, and_lock, xor_flip}
use byte_buffer.Syncpool.Bucket2.{Bucket2, access_failure, try_access, leave_loop}

module _ {ℓ} {T : Type ℓ} (b : Bucket2 T) (ds : List ℕ) (h : IsFields ds) (e : length ds ≡ 8)
    (packed : b.bitmap ≡ pack ds) (get : Bool) where
  -- A trial that finds an unlocked slot locks it.
  pub try_access-hit :
      (n i d : ℕ)
      → first_from 0 (wanted get) ds ≡ some i
      → get_elem? ds i ≡ some d
      → d < 2
      → try_access (suc n) b get ≡ (record b { bitmap = pack (set ds i (lock d)) }, some i)
  unfolding try_access
  try_access-hit n i d found at free =
      ground (arith, enter-pack ds h e get, or_lock ds h e i d at, and_lock ds h e i d at)

  -- With no slot to find, the trials run out and the counter is set back.
  pub try_access-miss :
      (n : ℕ) → first_from 0 (wanted get) ds ≡ none → try_access n b get ≡ access_failure b get
  unfolding try_access
  try_access-miss zero missed = refl
  try_access-miss (suc n) missed = ground (arith, enter-pack ds h e get, try_access-miss n missed)

-- At a locked slot the first round of `leave` returns.
pub leave_loop-locked :
    (ds : List ℕ) (i d n : ℕ)
    → IsFields ds
    → length ds ≡ 8
    → get_elem? ds i ≡ some d
    → 2 ≤ d
    → leave_loop (suc n) (pack ds) i ≡ some (pack (set ds i (flip d)))
unfolding leave_loop
leave_loop-locked ds i d n h e at locked =
    ground
      (arith, xor_flip ds h e i d at, and_lock ds h e i d at, shl_field 2 i, get_elem?-lt ds i at)

-- At an unlocked slot a round goes on.
leave_loop-unlocked :
    (ds : List ℕ) (i d n : ℕ)
    → IsFields ds
    → length ds ≡ 8
    → get_elem? ds i ≡ some d
    → d < 2
    → leave_loop (suc n) (pack ds) i ≡ leave_loop n (pack (set ds i (flip d))) i
unfolding leave_loop
leave_loop-unlocked ds i d n h e at free = ground (
  arith,
  xor_flip ds h e i d at,
  and_lock ds h e i d at,
  shl_field 2 i,
  pow4-pos i,
  get_elem?-lt ds i at,
)

leave_loop-undone :
    (ds : List ℕ) (i d : ℕ)
    → IsFields ds
    → length ds ≡ 8
    → get_elem? ds i ≡ some d
    → d < 2
    → leave_loop 2 (pack ds) i ≡ some (pack ds)
leave_loop-undone ds i d h e at free =
    let es = set ds i (flip d) in
    let flipped : flip d ≡ 3 - d = flip_cases d (omega arith) in
    let back : flip (flip d) ≡ d = ground (arith, flip_cases (3 - d)) in
    let same : set es i (flip (flip d)) ≡ ds =
      ground (arith, set-set ds i (flip d) (flip (flip d)), set_self ds i d at) in
    leave_loop-unlocked ds i d 1 h e at free
    ∙ leave_loop-locked es i (flip d) 0 (set-IsFields ds i (flip d) h (omega arith))
        (length-set ds i (flip d) ∙ e) (get_elem?-set_self ds i (flip d) (get_elem?-lt ds i at))
        (omega arith)
    ∙ ap {B = Option ℕ} (λ l. some (pack l)) same

-- `leave` ends within two rounds at every bitmap of eight fields and each of its slots: at a locked
-- slot it clears the lock and flips the element bit, and at an unlocked one its two rounds undo
-- each other.
pub leave_loop-total :
    (ds : List ℕ) (i d : ℕ)
    → IsFields ds
    → length ds ≡ 8
    → get_elem? ds i ≡ some d
    → leave_loop 2 (pack ds) i ≡ some (pack (if ltb d 2 then ds else set ds i (flip d)))
leave_loop-total ds i d h e at = elim (Bool-cases (ltb d 2)) [
  | inr locked ↦ rw locked (leave_loop-locked ds i d 1 h e at (ground arith))
  | inl free ↦ rw free (leave_loop-undone ds i d h e at (ground arith))
]
