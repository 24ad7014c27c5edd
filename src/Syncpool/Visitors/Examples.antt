-- ===== src/Syncpool/Visitors/Examples.antt =====
-- The theorems about callers and `expand` at a pool of one bucket.
use byte_buffer.Prelude.{
  ℕ, ◌+◌, ◌≤◌, ◌≡◌, ◌↔◌, refl, true, false, none, some, [], ◌∷◌, arith, get_elem?, replicate,
}
use byte_buffer.Syncpool.Builder.{builder}
use byte_buffer.Syncpool.Pool.{SyncPool}
use byte_buffer.Syncpool.Pool.State.{expansion_enabled}
use byte_buffer.Syncpool.Pool.Expand.{MayExpand}
use byte_buffer.Syncpool.Visitors.{
  outside, passed, visiting, resting, growing, awaiting, World, call_turn, expand_turn,
  caller_moves, expander_moves, During, begun, called, worked,
}
use byte_buffer.Syncpool.Visitors.Tally.{at_test, at_work, tally}
use byte_buffer.Syncpool.Visitors.Call.{expand_keeps_out, expand_waits}
use byte_buffer.Syncpool.Visitors.Race.{at, overtaken, afterwards, overtaken-visiting}

abbrev pool_with : ℕ → SyncPool ℕ
pool_with visitors = record {
  slots = record { slot = replicate 8 (some 7); len = 8; bitmap = 0x5555 } ∷ [];
  curr_get = 0;
  curr_put = 0;
  visitors = visitors;
  barrier = false;
  miss_count = 0;
  configure = 1;
  reset_handle = none;
  elem_builder = builder (λ _. 7);
}

may_expand : MayExpand 0 (pool_with 1)
unfolding expansion_enabled
may_expand = record { enabled = refl; below_cap = omega arith; lowered = refl }

overtaken-visiting_example :
    ((overtaken 0 1 false true (pool_with 1) (outside ∷ outside ∷ []) 1).stage ≡ growing)
    × (get_elem? (overtaken 0 1 false true (pool_with 1) (outside ∷ outside ∷ []) 1).callers 1
        ≡ some visiting)
    × ((afterwards 0 1 false true (pool_with 1) (outside ∷ outside ∷ []) 1).stage ≡ resting)
    × ((afterwards 0 1 false true (pool_with 1) (outside ∷ outside ∷ []) 1).callers
        ≡ outside ∷ outside ∷ [])
    × ((afterwards 0 1 false true (pool_with 1) (outside ∷ outside ∷ []) 1).pool.visitors ≡ 0)
overtaken-visiting_example =
    overtaken-visiting 0 1 false true (pool_with 1) (outside ∷ outside ∷ []) 1 may_expand refl refl

-- One caller is inside and one stands between its test and its count.
abbrev two_callers : World ℕ
two_callers = at (pool_with 2) (visiting ∷ passed ∷ []) resting

-- The first leaves, `expand` goes ahead, and the second counts itself in.
abbrev crowded : World ℕ
crowded =
    let work = expander_moves 0 1 true in
    caller_moves 1 true (work (caller_moves 0 true (work two_callers)))

crowded-During : During 0 1 true (expander_moves 0 1 true two_callers) crowded
unfolding caller_moves call_turn expander_moves expand_turn expansion_enabled
crowded-During = called (worked (called begun 0 true) refl) 1 true

crowded-growing : crowded.stage ≡ growing
unfolding caller_moves call_turn expander_moves expand_turn expansion_enabled
crowded-growing = refl

expand_keeps_out_example :
    tally at_test crowded.callers + tally at_work crowded.callers
    ≤ tally at_test two_callers.callers
expand_keeps_out_example =
    expand_keeps_out 0 1 true two_callers refl refl (omega arith) crowded-During crowded-growing

-- The flag is up, and the first caller is still inside.
abbrev waiting_world : World ℕ
waiting_world = expander_moves 0 1 true two_callers

waiting_world-awaiting : waiting_world.stage ≡ awaiting 8
unfolding expander_moves expand_turn expansion_enabled
waiting_world-awaiting = refl

expand_waits_example :
    ((expander_moves 0 1 true waiting_world).stage ≡ growing)
    ↔ (tally at_work waiting_world.callers ≡ 0)
expand_waits_example =
    expand_waits 0 1 true two_callers refl refl (omega arith) 8 begun waiting_world-awaiting
