-- ===== src/Syncpool/Visitors/Race.antt =====
-- A caller that is between its test of the flag and its count when `expand` raises the flag.
use byte_buffer.Prelude.{
  ℕ, ◌<◌, ◌≤◌, ◌≡◌, refl, Bool, true, false, some, List, arith, length, get_elem?, set,
  get_elem?-lt, get_elem?-set_self, set-set, set_self,
}
use byte_buffer.Syncpool.Pool.{SyncPool, register, guard_in, guard_out, add_slots}
use byte_buffer.Syncpool.Pool.State.{expansion_enabled}
use byte_buffer.Syncpool.Pool.Manager.{expansion_cap}
use byte_buffer.Syncpool.Pool.Expand.{MayExpand}
use byte_buffer.Syncpool.Visitors.{
  Caller, outside, passed, visiting, Stage, resting, growing, awaiting, World, call_turn,
  expand_turn, caller_moves, expander_moves,
}
use byte_buffer.Syncpool.Visitors.Call.{caller_moves-some}

module _ {ℓ} {T : Type ℓ} where
  abbrev pub at : SyncPool T → List Caller → Stage → World T
  at p cs stage = record { pool = p; callers = cs; stage = stage }

  -- The turns of the caller at `i`.
  module _ (p : SyncPool T) (cs : List Caller) (stage : Stage) (i : ℕ) (get : Bool) where
    tests :
        get_elem? cs i ≡ some outside
        → p.barrier ≡ false
        → caller_moves i get (at p cs stage) ≡ at p (set cs i passed) stage
    unfolding call_turn register
    tests e lowered = ground (arith, caller_moves-some i get (at p cs stage) outside e)

    counts_in :
        i < length cs
        → caller_moves i get (at p (set cs i passed) stage)
          ≡ at (guard_in p) (set cs i visiting) stage
    unfolding call_turn
    counts_in lt =
        let here = get_elem?-set_self cs i passed lt in
        let move = caller_moves-some i get (at p (set cs i passed) stage) passed here in
        rw (move, set-set cs i passed visiting) refl

    counts_out :
        get_elem? cs i ≡ some outside
        → caller_moves i get (at p (set cs i visiting) stage) ≡ at (guard_out p) cs stage
    unfolding call_turn
    counts_out e =
        let here = get_elem?-set_self cs i visiting (get_elem?-lt cs i e) in
        let move = caller_moves-some i get (at p (set cs i visiting) stage) visiting here in
        rw (move, set-set cs i visiting outside, set_self cs i outside e) refl

  module _ (zeroed : T) (additional : ℕ) (block : Bool) (p : SyncPool T) (cs : List Caller) where
    raises :
        MayExpand zeroed p
        → expander_moves zeroed additional block (at p cs resting)
          ≡ at (record p { barrier = true }) cs (awaiting 8)
    unfolding expander_moves expand_turn
    raises may =
        let lowered : p.barrier ≡ false = may.lowered in
        let enabled : expansion_enabled p ≡ true = may.enabled in
        let below : length p.slots ≤ expansion_cap = may.below_cap in ground arith

    goes_ahead :
        (count : ℕ)
        → p.visitors ≡ 1
        → expander_moves zeroed additional block (at p cs (awaiting count))
          ≡ at (record p { visitors = 0 }) cs growing
    unfolding expander_moves expand_turn
    goes_ahead count alone = ground arith

    -- The pool after the rest of the call.
    abbrev expanded : SyncPool T
    expanded = record (add_slots zeroed p additional true) {
      miss_count = 0;
      visitors = 1;
      barrier = false;
    }

    finishes :
        (let work = expander_moves zeroed additional block in
          work (work (work (at p cs growing))) ≡ at expanded cs resting)
    unfolding expander_moves expand_turn
    finishes = refl

module _ {ℓ} {T : Type ℓ} (zeroed : T) (additional : ℕ) (block get : Bool) (p : SyncPool T)
    (cs : List Caller) (i : ℕ) where
  -- The caller at `i` tests the flag, `expand` raises it and finds nobody inside, and the caller
  -- counts itself in.
  abbrev pub overtaken : World T
  overtaken =
      let work = expander_moves zeroed additional block in
      caller_moves i get (work (work (caller_moves i get (at p cs resting))))

  -- And `expand` ends, and the caller leaves.
  abbrev pub afterwards : World T
  afterwards =
      let work = expander_moves zeroed additional block in
      caller_moves i get (work (work (work overtaken)))

  module _ (may : MayExpand zeroed p) (alone : p.visitors ≡ 1)
      (e : get_elem? cs i ≡ some outside) where
    abbrev entered : SyncPool T
    entered = record p { visitors = 1; barrier = true }

    overtaken_lem : overtaken ≡ at entered (set cs i visiting) growing
    overtaken_lem =
        let cs' = set cs i passed in
        let raised : SyncPool T = record p { barrier = true } in
        let zero_in : SyncPool T = record p { barrier = true; visitors = 0 } in
        rw
          (
            tests p cs resting i get e may.lowered,
            raises zeroed additional block p cs' may,
            goes_ahead zeroed additional block raised cs' 8 alone,
            counts_in zero_in cs growing i get (get_elem?-lt cs i e),
          )
          refl

    -- In every pool that may expand and has nobody inside, a caller that tests the flag before
    -- `expand` raises it can be inside while `expand` adds buckets. Once `expand` has ended and the
    -- caller has left, the count of visitors is 0, one less than that of a pool with nobody in it.
    pub overtaken-visiting :
        (overtaken.stage ≡ growing)
        × (get_elem? overtaken.callers i ≡ some visiting)
        × (afterwards.stage ≡ resting)
        × (afterwards.callers ≡ cs)
        × (afterwards.pool.visitors ≡ 0)
    overtaken-visiting =
        let finished = finishes zeroed additional block entered (set cs i visiting) in
        let left = counts_out (expanded zeroed additional block entered cs) cs resting i get e in
        rw (overtaken_lem, finished, left)
          (refl, get_elem?-set_self cs i visiting (get_elem?-lt cs i e), refl, refl, refl)
