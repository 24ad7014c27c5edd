-- ===== src/Syncpool/Concurrent/Solo.antt =====
-- The turns of one thread at a bucket, with no other thread in between.
use byte_buffer.Prelude.{ℕ, zero, suc, ◌≡◌, ap, true, false, Option, none, some}
use byte_buffer.Syncpool.Bucket2.{Bucket2}
use byte_buffer.Syncpool.Concurrent.{
  Task, reading, clearing, storing, Pc, idle, scanning, locking, inside, using, leaving, is_idle,
  advance,
}

module _ {ℓ} {T : Type ℓ} (reset : Option (T → T)) (task : Task T) where
  -- What the thread has come to with its turn: it has locked a slot, or taken an element out of it.
  abbrev pub note : Option (Option T) → Pc T → Option (Option T)
  note got (inside task' pos) = some none
  note got (using (clearing val) pos) = some val
  note got (using reading pos) = got
  note got (using (storing val) pos) = got
  note got idle = got
  note got (scanning task' n) = got
  note got (locking task' n pos) = got
  note got (leaving pos) = got

  -- The turns of a thread with no other in between, until it is idle again: the bucket then, and what
  -- it has come to; `none` when the fuel is spent.
  unfoldable pub run_on :
      ℕ → Bucket2 T → Pc T → Option (Option T) → Option (Bucket2 T × Option (Option T))
  run_on zero b p got = none
  run_on (suc n) b p got =
      let (b', p') = advance reset task b p in
      elim (is_idle p') [ true ↦ some (b', note got p) | false ↦ run_on n b' p' (note got p) ]

  pub run_on-goes :
      (n : ℕ) (b : Bucket2 T) (p : Pc T) (b' : Bucket2 T) (p' : Pc T) (got : Option (Option T))
      → advance reset task b p ≡ (b', p')
      → is_idle p' ≡ false
      → run_on (suc n) b p got ≡ run_on n b' p' (note got p)
  unfolding run_on
  run_on-goes n b p b' p' got e busy =
      let on : is_idle (advance reset task b p).1 ≡ false = rw e busy in
      rw (on, run_on) (ap (λ (r : Bucket2 T × Pc T). run_on n r.0 r.1 (note got p)) e)

  pub run_on-ends :
      (n : ℕ) (b : Bucket2 T) (p : Pc T) (b' : Bucket2 T) (p' : Pc T) (got : Option (Option T))
      → advance reset task b p ≡ (b', p')
      → is_idle p' ≡ true
      → run_on (suc n) b p got ≡ some (b', note got p)
  unfolding run_on
  run_on-ends n b p b' p' got e over =
      let done : is_idle (advance reset task b p).1 ≡ true = rw e over in
      rw (done, run_on) (ap (λ (r : Bucket2 T × Pc T). some (r.0, note got p)) e)

  -- Seven turns are enough.
  abbrev pub run_alone : Bucket2 T → Option (Bucket2 T × Option (Option T))
  run_alone b = run_on 7 b idle none
