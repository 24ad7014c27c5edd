-- ===== src/Syncpool/Visitors/Tally.antt =====
-- How many of the callers stand at a given point.
use byte_buffer.Prelude.{
  ℕ, zero, suc, ◌+◌, ◌≤◌, ◌≡◌, some, List, [], ◌∷◌, arith, length, get_elem?, set,
}
use byte_buffer.Syncpool.Visitors.{Caller, outside, passed, visiting}

abbrev pub at_test : Caller → ℕ
at_test outside = 0
at_test passed = 1
at_test visiting = 0

abbrev pub at_work : Caller → ℕ
at_work outside = 0
at_work passed = 0
at_work visiting = 1

abbrev pub tally : (Caller → ℕ) → List Caller → ℕ
tally f [] = 0
tally f (c ∷ cs) = f c + tally f cs

-- One caller moves.
pub tally-set :
    (f : Caller → ℕ) (cs : List Caller) (i : ℕ) (c c' : Caller)
    → get_elem? cs i ≡ some c
    → tally f (set cs i c') + f c ≡ tally f cs + f c'
tally-set f [] i c c' e = cc
tally-set f (d ∷ cs) zero c c' e = ground arith
tally-set f (d ∷ cs) (suc i) c c' e = omega (arith, tally-set f cs i c c' e)

pub tally-at_work_le : (cs : List Caller) → tally at_work cs ≤ length cs
tally-at_work_le [] = omega arith
tally-at_work_le (outside ∷ cs) = omega (arith, tally-at_work_le cs)
tally-at_work_le (passed ∷ cs) = omega (arith, tally-at_work_le cs)
tally-at_work_le (visiting ∷ cs) = omega (arith, tally-at_work_le cs)
