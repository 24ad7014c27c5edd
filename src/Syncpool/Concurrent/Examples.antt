-- ===== src/Syncpool/Concurrent/Examples.antt =====
-- The theorems about threads at a bucket, at a bucket with two elements.
use byte_buffer.Prelude.{ℕ, ◌≡◌, ◌↔◌, refl, true, none, some, ◌∷◌, if◌then◌else◌, arith, replicate}
use byte_buffer.Syncpool.Utils.{enter, scan_from_start, trailing_zeros, zeros_from, scan}
use byte_buffer.Syncpool.Bucket2.{Bucket2, take_from, put_into}
use byte_buffer.Syncpool.Bucket2.Quiet.{IsQuiet}
use byte_buffer.Syncpool.Concurrent.{
  getting, putting, idle, announce, try_lock, test_slot, use_slot, advance, System, turn, Reach,
  start, later,
}
use byte_buffer.Syncpool.Concurrent.Locks.{owns}
use byte_buffer.Syncpool.Concurrent.Exclusion.{is_locked, locked_iff_owned, leave_in_one_round}
use byte_buffer.Syncpool.Concurrent.Stale.{
  GetCollision, getters_collide, PutCollision, putters_collide,
}
use byte_buffer.Syncpool.Concurrent.Solo.{run_alone}
use byte_buffer.Syncpool.Concurrent.Alone.{alone-sequential}

abbrev bucket : Bucket2 ℕ
bucket = record { slot = some 1 ∷ none ∷ some 3 ∷ replicate 5 none; len = 2; bitmap = 0b010001 }

bucket-IsQuiet : IsQuiet bucket
bucket-IsQuiet = record { eight = refl; marked = refl; counted = refl }

abbrev at_first : System ℕ → System ℕ
at_first s = turn none 0 getting s

abbrev begun : System ℕ
begun = record { bucket = bucket; pc = λ i. idle }

-- Thread 0 has locked slot 0; then it has tested, read and emptied it.
abbrev entered : System ℕ
entered = at_first (at_first (at_first begun))

abbrev emptied : System ℕ
emptied = at_first (at_first (at_first entered))

entered-Reach : Reach none bucket entered
entered-Reach = later (later (later start 0 getting) 0 getting) 0 getting

emptied-Reach : Reach none bucket emptied
emptied-Reach = later (later (later entered-Reach 0 getting) 0 getting) 0 getting

locked_iff_owned_example :
    (is_locked entered.bucket.bitmap 0 ≡ true) ↔ ((i : ℕ) × (owns (entered.pc i) ≡ some 0))
locked_iff_owned_example = locked_iff_owned none bucket bucket-IsQuiet entered-Reach 0 (omega arith)

leave_in_one_round_example : (turn none 0 getting emptied).pc 0 ≡ idle
unfolding turn advance announce try_lock test_slot use_slot enter scan_from_start trailing_zeros
    zeros_from scan
leave_in_one_round_example =
    leave_in_one_round none bucket bucket-IsQuiet emptied-Reach 0 0 getting refl

getters_collide_example : GetCollision none bucket bucket-IsQuiet
getters_collide_example = getters_collide none bucket bucket-IsQuiet (omega arith)

putters_collide_example : PutCollision none bucket bucket-IsQuiet 8 9
putters_collide_example = putters_collide none bucket bucket-IsQuiet (omega arith) 8 9

alone-sequential_example :
    (run_alone none getting bucket ≡ some (take_from bucket))
    × ((val : ℕ)
        → run_alone none (putting val) bucket
          ≡ some (
            (put_into bucket val none).0,
            if (put_into bucket val none).1 then some none else none,
          ))
alone-sequential_example = alone-sequential none bucket (omega arith)
