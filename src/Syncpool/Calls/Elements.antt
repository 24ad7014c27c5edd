-- ===== src/Syncpool/Calls/Elements.antt =====
-- Which elements the threads of a pool take out of it and put into it.
use mathlib.Core.List.Perm
use mathlib.Core.List.{perm_append_comm, append_assoc}
use byte_buffer.Prelude.{
  ℕ, zero, suc, ◌<◌, ◌≡◌, subst, true, none, some, List, [], ◌∷◌, ◌++◌, Perm, arith, ◌==◌,
  if◌then◌else◌, length, get_elem?, get_elem?-lt, get_elem?-of_lt, set, Option-cases, inl, inr,
}
use byte_buffer.Syncpool.Bucket2.{Bucket2}
use byte_buffer.Syncpool.Bucket2.Slots.{contents}
use byte_buffer.Syncpool.Concurrent.{Task, getting, putting, idle, leaving, try_leave, advance}
use byte_buffer.Syncpool.Concurrent.Conserve
use byte_buffer.Syncpool.Concurrent.Conserve.{join, handed, advance-Balanced}
use byte_buffer.Syncpool.Concurrent.Ready.{Ready, Reach-AllReady}
use byte_buffer.Syncpool.Pool.{SyncPool}
use byte_buffer.Syncpool.Pool.Elements.{elements, AllQuiet, get-AllQuiet}
use byte_buffer.Syncpool.Calls.Testing.{testing-cases}
use byte_buffer.Syncpool.Calls.Bounds.{Runs-InBounds}
use byte_buffer.Syncpool.Calls.Shadow.{pc_at, Runs-Reach}
use byte_buffer.Syncpool.Calls
use byte_buffer.Syncpool.Calls.{
  Answer, found, missed, stored, refused, Spot, away, counting, testing, entering, starting,
  at_bucket, marking, quitting, settling, moving_on, returning, move, Threads, moved, Runs,
}

pub swap_front {ℓ} : {T : Type ℓ} (a b c : List T) → Perm (a ++ (b ++ c)) (b ++ (a ++ c))
swap_front a b c =
    rw (← (append_assoc a b c), ← (append_assoc b a c)) (Perm.append_right c (perm_append_comm a b))

module _ {ℓ} {T : Type ℓ} where
  -- What a turn at one bucket moves, it moves in the pool.
  elements-set :
      (slots : List (Bucket2 T)) (pos : ℕ) (b b' : Bucket2 T) (out into : List T)
      → get_elem? slots pos ≡ some b
      → Perm (out ++ contents b'.slot) (into ++ contents b.slot)
      → Perm (out ++ elements (set slots pos b')) (into ++ elements slots)
  elements-set [] pos b b' out into e one = cc
  elements-set (x ∷ slots) zero b b' out into e one =
      let same : b ≡ x = ground arith in
      rw
        (
          ← same,
          ← (append_assoc out (contents b'.slot) (elements slots)),
          ← (append_assoc into (contents b.slot) (elements slots)),
        )
        (Perm.append_right (elements slots) one)
  elements-set (x ∷ slots) (suc pos) b b' out into e one =
      let rest = elements-set slots pos b b' out into e one in
      Perm.trans (swap_front out (contents x.slot) (elements (set slots pos b'))) (
        Perm.trans (Perm.append_left (contents x.slot) rest)
          (swap_front (contents x.slot) into (elements slots)))

  -- The element that a turn hands to a getter; the one that it puts into a slot.
  abbrev pub taken_out : SyncPool T → Spot T → List T
  taken_out p (at_bucket task trials pos pc) = elim (get_elem? p.slots pos) [
    | none ↦ []
    | some b ↦ handed pc
  ]
  taken_out p _ = []

  abbrev pub put_in : SyncPool T → Spot T → List T
  put_in p (at_bucket task trials pos pc) = elim (get_elem? p.slots pos) [
    | none ↦ []
    | some b ↦ Conserve.stored p.reset_handle pc
  ]
  put_in p _ = []

  -- The element that `get` returns with the turn.
  abbrev pub of_answer : Answer T → List T
  of_answer (found val) = val ∷ []
  of_answer missed = []
  of_answer stored = []
  of_answer (refused val) = []

  abbrev pub returned : Spot T → List T
  returned (returning answer) = of_answer answer
  returned _ = []

  -- The reachable states, with the elements taken out, put in and returned on the way.
  pub data Logged (p : SyncPool T) : Threads T → List T → List T → List T → Type ℓ where
    start : Logged p (record { pool = p; spot = λ i. away }) [] [] []
    later :
        {s : Threads T} {out into answers : List T}
        → Logged p s out into answers
        → (i : ℕ) (next : Task T)
        → Logged p
            (moved i next s)
            (taken_out s.pool (s.spot i) ++ out)
            (put_in s.pool (s.spot i) ++ into)
            (returned (s.spot i) ++ answers)

  pub Logged-Runs :
      (p : SyncPool T) {s : Threads T} {out into answers : List T}
      → Logged p s out into answers
      → Runs p s
  Logged-Runs p start = Calls.start
  Logged-Runs p (later log i next) = Calls.later (Logged-Runs p log) i next

  module _ (p : SyncPool T) where
    -- A thread behind its null test finds its slot as the test left it.
    abbrev AtHand : Spot T → Type ℓ
    AtHand (at_bucket task trials pos pc) =
        (x : Bucket2 T) → get_elem? p.slots pos ≡ some x → Ready x.slot pc
    AtHand _ = Unit

    at_hand :
        (spot : Spot T)
        → ((k : ℕ) (x : Bucket2 T) → get_elem? p.slots k ≡ some x → Ready x.slot (pc_at k spot))
        → AtHand spot
    at_hand (at_bucket task trials pos pc) h =
        let same : (pos == pos) ≡ true = ground arith in
        λ x at. subst (λ t. Ready x.slot (if t then pc else idle)) same (h pos x at)
    at_hand away h = tt
    at_hand counting h = tt
    at_hand (testing task) h = tt
    at_hand (entering task) h = tt
    at_hand (starting task) h = tt
    at_hand (marking val trials pos i) h = tt
    at_hand (quitting answer pos i) h = tt
    at_hand (settling val pos) h = tt
    at_hand (moving_on task trials) h = tt
    at_hand (returning answer) h = tt

    abbrev Weighed : Spot T → SyncPool T → Type ℓ
    Weighed spot p' =
        Perm (taken_out p spot ++ elements p'.slots) (put_in p spot ++ elements p.slots)

    move-Weighed : (next : Task T) (spot : Spot T) → AtHand spot → Weighed spot (move next p spot).0
    unfolding move advance
    move-Weighed next away h = Perm.rfl
    move-Weighed next (testing task) h =
        testing-cases (λ r. Weighed (testing task) r.0) next task p Perm.rfl Perm.rfl Perm.rfl
    move-Weighed next (entering task) h = Perm.rfl
    move-Weighed next (starting getting) h = Perm.rfl
    move-Weighed next (starting (putting val)) h = Perm.rfl
    move-Weighed next (at_bucket task trials pos pc) h =
        elim (Option-cases (get_elem? p.slots pos)) [
          | inl out ↦ rw (out, move, taken_out, put_in) Perm.rfl
          | inr (x, at) ↦
              rw (at, move, taken_out, put_in)
                (elements-set p.slots pos x (advance p.reset_handle task x pc).0 (handed pc)
                  (Conserve.stored p.reset_handle pc) at
                  (advance-Balanced p.reset_handle task x pc (h x at)))
        ]
    move-Weighed next (marking val trials pos i) h = Perm.rfl
    move-Weighed next (quitting answer pos i) h = elim (Option-cases (get_elem? p.slots pos)) [
      | inl out ↦ rw (out, move) Perm.rfl
      | inr (x, at) ↦
          rw (at, move)
            (elements-set p.slots pos x (try_leave x i).0 [] [] at
              (advance-Balanced p.reset_handle next x (leaving i) tt))
    ]
    move-Weighed next (settling val pos) h = Perm.rfl
    move-Weighed next (moving_on getting trials) h = Perm.rfl
    move-Weighed next (moving_on (putting val) trials) h = Perm.rfl
    move-Weighed next (returning missed) h = Perm.rfl
    move-Weighed next (returning (found val)) h = Perm.rfl
    move-Weighed next (returning stored) h = Perm.rfl
    move-Weighed next (returning (refused val)) h = Perm.rfl
    move-Weighed next counting h = Perm.rfl

  module _ (p : SyncPool T) (some_bucket : 0 < length p.slots) (quiet : AllQuiet p.slots) where
    -- The locks see to it: what the threads do at a bucket is what threads there alone can do.
    Runs-AtHand : {s : Threads T} → Runs p s → (i : ℕ) → AtHand s.pool (s.spot i)
    Runs-AtHand {s} r i = at_hand s.pool (s.spot i) (λ k x at.
        let (size, bounds) = Runs-InBounds p some_bucket r in
        let lt : k < length p.slots = omega (arith, get_elem?-lt s.pool.slots k at) in
        let (b, first) = get_elem?-of_lt p.slots k lt in
        let (x', at', seen) = Runs-Reach p k b first r in
        let same : x' ≡ x = ground arith in
        let (eight, ready) =
          Reach-AllReady p.reset_handle b (get-AllQuiet p.slots k quiet first) seen in
        subst (λ y. Ready y.slot (pc_at k (s.spot i))) same (ready i))

    -- What was taken out of slots and what lies in the pool are, together, what lay in it at first
    -- and what was put into a slot.
    pub taken_conserved :
        {s : Threads T} {out into answers : List T}
        → Logged p s out into answers
        → Perm (out ++ elements s.pool.slots) (into ++ elements p.slots)
    unfolding moved
    taken_conserved start = Perm.rfl
    taken_conserved (later {s} {out} {into} log i next) =
        let at_slot = Runs-AtHand (Logged-Runs p log) i in
        join (taken_out s.pool (s.spot i)) out (put_in s.pool (s.spot i)) into _ _ _
          (move-Weighed s.pool next (s.spot i) at_slot) (taken_conserved log)
