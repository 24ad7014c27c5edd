-- ===== src/Syncpool/Pool/Elements.antt =====
-- The elements of a pool, bucket after bucket, and the invariant of a pool that nobody works at.
use mathlib.Core.List.{perm_middle}
use mathlib.Core.List.Perm
use byte_buffer.Prelude.{
  ℕ, zero, suc, ◌<◌, ◌≡◌, subst, false, some, List, [], ◌∷◌, ◌++◌, Perm, arith, length, get_elem?,
  set,
}
use byte_buffer.Syncpool.Bucket2.{Bucket2}
use byte_buffer.Syncpool.Bucket2.Slots.{contents}
use byte_buffer.Syncpool.Bucket2.Quiet.{IsQuiet}
use byte_buffer.Syncpool.Pool.{SyncPool}

module _ {ℓ} {T : Type ℓ} where
  abbrev pub elements : List (Bucket2 T) → List T
  elements [] = []
  elements (b ∷ slots) = contents b.slot ++ elements slots

  abbrev pub AllQuiet : List (Bucket2 T) → Type ℓ
  AllQuiet [] = Unit
  AllQuiet (b ∷ slots) = IsQuiet b × AllQuiet slots

  pub get-AllQuiet :
      (slots : List (Bucket2 T)) (i : ℕ) {b : Bucket2 T}
      → AllQuiet slots
      → get_elem? slots i ≡ some b
      → IsQuiet b
  get-AllQuiet [] i {b} q e = cc
  get-AllQuiet (x ∷ slots) zero {b} q e = let same : x ≡ b = ground arith in subst IsQuiet same q.0
  get-AllQuiet (x ∷ slots) (suc i) {b} q e = get-AllQuiet slots i q.1 e

  pub set-AllQuiet :
      (slots : List (Bucket2 T)) (i : ℕ) (b : Bucket2 T)
      → AllQuiet slots
      → IsQuiet b
      → AllQuiet (set slots i b)
  set-AllQuiet [] i b q qb = tt
  set-AllQuiet (x ∷ slots) zero b q qb = (qb, q.1)
  set-AllQuiet (x ∷ slots) (suc i) b q qb = (q.0, set-AllQuiet slots i b q.1 qb)

  pub append-AllQuiet : (xs ys : List (Bucket2 T)) → AllQuiet xs → AllQuiet ys → AllQuiet (xs ++ ys)
  append-AllQuiet [] ys qx qy = qy
  append-AllQuiet (x ∷ xs) ys qx qy = (qx.0, append-AllQuiet xs ys qx.1 qy)

  -- One bucket gives an element away: so does the pool.
  pub elements-take :
      (slots : List (Bucket2 T)) (i : ℕ) (b b' : Bucket2 T) (v : T)
      → get_elem? slots i ≡ some b
      → contents b.slot ≡ v ∷ contents b'.slot
      → Perm (elements slots) (v ∷ elements (set slots i b'))
  elements-take [] i b b' v e split = cc
  elements-take (x ∷ slots) zero b b' v e split =
      let same : contents x.slot ≡ v ∷ contents b'.slot = ground arith in rw same Perm.rfl
  elements-take (x ∷ slots) (suc i) b b' v e split =
      Perm.trans (Perm.append_left (contents x.slot) (elements-take slots i b b' v e split))
        (perm_middle (contents x.slot) (elements (set slots i b')))

  -- One bucket takes an element in: so does the pool.
  pub elements-put :
      (slots : List (Bucket2 T)) (i : ℕ) (b b' : Bucket2 T) (v : T)
      → get_elem? slots i ≡ some b
      → Perm (contents b'.slot) (v ∷ contents b.slot)
      → Perm (elements (set slots i b')) (v ∷ elements slots)
  elements-put [] i b b' v e more = cc
  elements-put (x ∷ slots) zero b b' v e more =
      let same : b ≡ x = ground arith in
      Perm.append_right (elements slots)
        (subst (λ y. Perm (contents b'.slot) (v ∷ contents y.slot)) same more)
  elements-put (x ∷ slots) (suc i) b b' v e more =
      Perm.trans (Perm.append_left (contents x.slot) (elements-put slots i b b' v e more))
        (perm_middle (contents x.slot) (elements slots))

  -- Nobody is in the pool, and every bucket is quiet.
  pub record IsIdle (p : SyncPool T) : Type ℓ where
    pub some_bucket : 0 < length p.slots
    pub alone : p.visitors ≡ 1
    pub lowered : p.barrier ≡ false
    pub quiet : AllQuiet p.slots
