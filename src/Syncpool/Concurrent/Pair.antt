-- ===== src/Syncpool/Concurrent/Pair.antt =====
-- Two threads at a bucket.
use mathlib.Core.Path.{fun_ext}
use byte_buffer.Prelude.{ℕ, ◌≡◌, false, subst, Option, arith, ◌==◌, if◌then◌else◌}
use byte_buffer.Syncpool.Bucket2.{Bucket2}
use byte_buffer.Syncpool.Concurrent.{
  Task, Pc, idle, is_idle, advance, update, System, turn, Reach, start, Onward, on,
}

module _ {ℓ} {T : Type ℓ} where
  -- Threads 0 and 1 at a bucket, and no other.
  abbrev pub two : Bucket2 T → Pc T → Pc T → System T
  two b p q = record { bucket = b; pc = λ j. if j == 0 then p else if j == 1 then q else idle }

  module _ (reset : Option (T → T)) where
    -- Turns of one thread in its call.
    pub data Works (next : Task T) (b : Bucket2 T) (p : Pc T) : Bucket2 T → Pc T → Type ℓ where
      rest : Works next b p b p
      work :
          {b' b'' : Bucket2 T} {p' p'' : Pc T}
          → Works next b p b' p'
          → is_idle p' ≡ false
          → advance reset next b' p' ≡ (b'', p'')
          → Works next b p b'' p''

    pub Works-trans :
        {next : Task T} {b b' : Bucket2 T} {p p' : Pc T} {b'' : Bucket2 T} {p'' : Pc T}
        → Works next b p b' p'
        → Works next b' p' b'' p''
        → Works next b p b'' p''
    Works-trans before rest = before
    Works-trans before (work after busy e) = work (Works-trans before after) busy e

    pub start_two : {b₀ : Bucket2 T} → Reach reset b₀ (two b₀ idle idle)
    start_two {b₀} = subst (Reach reset b₀) (λ i. record { bucket = b₀; pc = fun_ext pcs i }) start
      where
        pcs : (j : ℕ) → idle ≡ (two b₀ idle idle).pc j
        pcs j = ground arith

    module _ (P : System T → Type ℓ) (b b' : Bucket2 T) (next : Task T) where
      -- A turn of thread 0, and one of thread 1.
      pub first_turn :
          (p p' q : Pc T)
          → advance reset next b p ≡ (b', p')
          → P (turn reset 0 next (two b p q))
          → P (two b' p' q)
      unfolding turn
      first_turn p p' q e r = subst P (λ i. record { bucket = (e i).0; pc = fun_ext pcs i }) r
        where
          pcs : (j : ℕ) → update (two b p q).pc 0 (advance reset next b p).1 j ≡ (two b' p' q).pc j
          pcs j = ground arith

      pub second_turn :
          (p q q' : Pc T)
          → advance reset next b q ≡ (b', q')
          → P (turn reset 1 next (two b p q))
          → P (two b' p q')
      unfolding turn
      second_turn p q q' e r = subst P (λ i. record { bucket = (e i).0; pc = fun_ext pcs i }) r
        where
          pcs : (j : ℕ) → update (two b p q).pc 1 (advance reset next b q).1 j ≡ (two b' p q').pc j
          pcs j = ground arith

    -- The call of one of them goes on.
    pub first_turns :
        {m : System T} {next : Task T} {b : Bucket2 T} {p : Pc T} {b' : Bucket2 T} {p' : Pc T}
        (q : Pc T)
        → Onward reset m (two b p q)
        → Works next b p b' p'
        → Onward reset m (two b' p' q)
    first_turns q o rest = o
    first_turns {m = m} {next = next} q o (work {b'} {b''} {p'} {p''} before busy e) =
        first_turn (Onward reset m) b' b'' next p' p'' q e (on (first_turns q o before) 0 next busy)

    pub second_turns :
        {m : System T} {next : Task T} {b : Bucket2 T} {q : Pc T} {b' : Bucket2 T} {q' : Pc T}
        (p : Pc T)
        → Onward reset m (two b p q)
        → Works next b q b' q'
        → Onward reset m (two b' p q')
    second_turns p o rest = o
    second_turns {m = m} {next = next} p o (work {b'} {b''} {p' = q'} {p'' = q''} before busy e) =
        second_turn (Onward reset m) b' b'' next p q' q'' e
          (on (second_turns p o before) 1 next busy)
