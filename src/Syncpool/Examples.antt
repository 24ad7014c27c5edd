-- ===== src/Syncpool/Examples.antt =====
-- The theorems about syncpool at concrete pools and words.
use byte_buffer.Prelude.{
  ℕ, zero, suc, ◌+◌, ◌-◌, ◌*◌, ◌%◌, ◌<◌, ◌≤◌, ◌≡◌, ◌≢◌, ◌↔◌, refl, true, false, Option, none, some,
  List, [], ◌∷◌, ◌++◌, arith, length, min, replicate,
}
use byte_buffer.Prelude.Fields.{pack, fields}
use byte_buffer.Syncpool.Builder.{ElemBuilder, builder, make_elem}
use byte_buffer.Syncpool.Utils.{enter, check_len}
use byte_buffer.Syncpool.Utils.Enter.{first_from, enter-first}
use byte_buffer.Syncpool.Utils.CheckLen.{count_full, check_len-count}
use byte_buffer.Syncpool.Bucket2.{Bucket2, slot_cap, leave_loop, take_from, put_into}
use byte_buffer.Syncpool.Bucket2.Rounds.{leave_loop-total}
use byte_buffer.Syncpool.Bucket2.Quiet.{
  IsQuiet, TakeOutcome, PutOutcome, take_from-IsQuiet, put_into-IsQuiet,
}
use byte_buffer.Syncpool.Pool.{SyncPool, get, put, make_pool}
use byte_buffer.Syncpool.Pool.State.{len, capacity, is_empty, expansion_enabled}
use byte_buffer.Syncpool.Pool.Manager.{allow_expansion, set_reset_handle, refill, expand}
use byte_buffer.Syncpool.Pool.Elements.{IsIdle, elements}
use byte_buffer.Syncpool.Pool.Get.{GetOutcome, get-outcome, missed}
use byte_buffer.Syncpool.Pool.Put
use byte_buffer.Syncpool.Pool.Tried.{EmptyAt}
use byte_buffer.Syncpool.Pool.Missed.{get_misses_last_bucket}
use byte_buffer.Syncpool.Pool.Make.{make_pool-IsIdle}
use byte_buffer.Syncpool.Pool.Len.{len-elements}
use byte_buffer.Syncpool.Pool.Refill.{Refilled, refill-Refilled}
use byte_buffer.Syncpool.Pool.Configure.{allow_expansion-sets, allow_expansion-races}
use byte_buffer.Syncpool.Pool.Handle.{set_reset_handle-outcome}
use byte_buffer.Syncpool.Pool.Expand.{MayExpand, all_leave, expand-grows, expand_forgets_visitors}

-- Elements are numbers, new ones are 7, and a reset makes them 5.
abbrev sevens : ElemBuilder ℕ
sevens = builder (λ _. 7)

abbrev full_slots : List (Option ℕ)
full_slots = replicate 8 (some 7)

abbrev empty_slots : List (Option ℕ)
empty_slots = replicate 8 none

abbrev full_bucket : Bucket2 ℕ
full_bucket = record { slot = full_slots; len = 8; bitmap = 0x5555 }

abbrev empty_bucket : Bucket2 ℕ
empty_bucket = record { slot = empty_slots; len = 0; bitmap = 0 }

-- Slots 0 and 2 are full.
abbrev mixed_bucket : Bucket2 ℕ
mixed_bucket = record {
  slot = some 1 ∷ none ∷ some 3 ∷ replicate 5 none;
  len = 2;
  bitmap = 0b010001;
}

full-IsQuiet : IsQuiet full_bucket
full-IsQuiet = record { eight = refl; marked = refl; counted = refl }

empty-IsQuiet : IsQuiet empty_bucket
empty-IsQuiet = record { eight = refl; marked = refl; counted = refl }

mixed-IsQuiet : IsQuiet mixed_bucket
mixed-IsQuiet = record { eight = refl; marked = refl; counted = refl }

abbrev pool_of : List (Bucket2 ℕ) → ℕ → ℕ → SyncPool ℕ
pool_of slots visitors configure = record {
  slots = slots;
  curr_get = 0;
  curr_put = 0;
  visitors = visitors;
  barrier = false;
  miss_count = 3;
  configure = configure;
  reset_handle = some (λ _. 5);
  elem_builder = sevens;
}

-- The elements lie in the bucket that the loop of `get` does not reach.
abbrev hidden : SyncPool ℕ
hidden = pool_of (empty_bucket ∷ full_bucket ∷ []) 1 1

hidden-IsIdle : IsIdle hidden
hidden-IsIdle = record {
  some_bucket = omega arith;
  alone = refl;
  lowered = refl;
  quiet = (empty-IsQuiet, (full-IsQuiet, tt));
}

abbrev mixed : SyncPool ℕ
mixed = pool_of (mixed_bucket ∷ []) 1 0

mixed-IsIdle : IsIdle mixed
mixed-IsIdle = record {
  some_bucket = omega arith;
  alone = refl;
  lowered = refl;
  quiet = (mixed-IsQuiet, tt);
}

get-outcome_example : GetOutcome 0 mixed (get 0 mixed)
get-outcome_example = get-outcome 0 mixed mixed-IsIdle

put-outcome_example : Put.PutOutcome mixed 9 (put mixed 9)
put-outcome_example = Put.put-outcome mixed mixed-IsIdle 9 (omega arith)

take_from-IsQuiet_example : TakeOutcome mixed_bucket (take_from mixed_bucket)
take_from-IsQuiet_example = take_from-IsQuiet mixed_bucket mixed-IsQuiet

put_into-IsQuiet_example : PutOutcome mixed_bucket 9 none (put_into mixed_bucket 9 none)
put_into-IsQuiet_example = put_into-IsQuiet mixed_bucket mixed-IsQuiet 9 none

enter-first_example : enter 0b0101010001010111 true ≡ first_from 0 1 (fields 8 0b0101010001010111)
enter-first_example = enter-first 0b0101010001010111 true (omega arith)

check_len-count_example : check_len 0b0111 ≡ count_full (fields 8 0b0111)
check_len-count_example = check_len-count 0b0111 (omega arith)

-- Slot 1 is locked and full, slot 2 is locked and empty.
abbrev some_fields : List ℕ
some_fields = 0 ∷ 3 ∷ 2 ∷ 1 ∷ 0 ∷ 0 ∷ 0 ∷ 0 ∷ []

leave_loop-total_example : leave_loop 2 (pack some_fields) 0 ≡ some (pack some_fields)
leave_loop-total_example = leave_loop-total some_fields 0 0 (omega arith) refl refl

hidden_others :
    (i : ℕ)
    → i < length hidden.slots
    → i ≢ (hidden.curr_get + (length hidden.slots - 1)) % length hidden.slots
    → EmptyAt hidden.slots i
hidden_others zero lt ne = (empty_bucket, refl, refl)
hidden_others (suc zero) lt ne = absurd (ne refl)
hidden_others (suc (suc i)) lt ne = absurd (omega arith)

get_misses_last_bucket_example : get 0 hidden ≡ (missed 0 hidden, 7)
unfolding make_elem
get_misses_last_bucket_example =
    get_misses_last_bucket 0 hidden hidden-IsIdle (omega arith) (omega arith) hidden_others

refill-Refilled_example :
    (p' : SyncPool ℕ) × (refill 0 mixed 4 [] ≡ (p', min 4 (capacity mixed - len mixed)))
    × Refilled 0 (min 4 (capacity mixed - len mixed)) mixed p'
refill-Refilled_example = refill-Refilled 0 mixed 4 [] mixed-IsIdle (omega arith) (omega arith)

len-elements_example :
    (len mixed ≡ length (elements mixed.slots))
    × (len mixed ≤ capacity mixed)
    × ((is_empty mixed ≡ true) ↔ (elements mixed.slots ≡ []))
len-elements_example = len-elements mixed mixed-IsIdle

make_pool-IsIdle_example :
    IsIdle (make_pool 0 2 sevens)
    × (length (make_pool 0 2 sevens).slots ≡ 2)
    × (elements (make_pool 0 2 sevens).slots ≡ replicate (2 * slot_cap) 7)
unfolding make_elem
make_pool-IsIdle_example = make_pool-IsIdle 0 sevens 2 (omega arith)

allow_expansion-sets_example : expansion_enabled (allow_expansion mixed true [] (2 ∷ 4 ∷ [])) ≡ true
allow_expansion-sets_example = allow_expansion-sets mixed true (2 ∷ 4 ∷ [])

allow_expansion-races_example : expansion_enabled (allow_expansion mixed true (1 ∷ []) []) ≡ false
unfolding expansion_enabled
allow_expansion-races_example = allow_expansion-races mixed true 1 refl refl

hidden-MayExpand : MayExpand 0 hidden
unfolding expansion_enabled
hidden-MayExpand = record { enabled = refl; below_cap = omega arith; lowered = refl }

expand-grows_example :
    (p' : SyncPool ℕ) × (expand 0 hidden 1 false false [] ≡ (p', some true))
    × IsIdle p'
    × (length p'.slots ≡ length hidden.slots + 1)
    × (elements p'.slots ≡ elements hidden.slots ++ replicate (1 * slot_cap) (make_elem 0 sevens))
    × (p'.miss_count ≡ 0)
expand-grows_example = expand-grows 0 hidden 1 false [] hidden-IsIdle hidden-MayExpand

-- One visitor is in the pool.
abbrev visited : SyncPool ℕ
visited = pool_of (full_bucket ∷ []) 2 1

visited-MayExpand : MayExpand 0 visited
unfolding expansion_enabled
visited-MayExpand = record { enabled = refl; below_cap = omega arith; lowered = refl }

expand_forgets_visitors_example : (all_leave 1 (expand 0 visited 1 false false []).0).visitors ≢ 1
expand_forgets_visitors_example =
    expand_forgets_visitors 0 visited 0 1 visited-MayExpand refl (omega arith)

set_reset_handle-outcome_example :
    set_reset_handle mixed (λ _. 6) (false ∷ false ∷ [])
    ≡ record mixed { reset_handle = some (λ _. 6); barrier = false }
set_reset_handle-outcome_example =
    set_reset_handle-outcome mixed (λ _. 6) (false ∷ false ∷ []) (omega arith)
