-- ===== src/Syncpool/Visitors.antt =====
-- syncpool/src/pool.rs, `VisitorGuard` and the barrier between threads: callers of `get` and `put`
-- that register and leave while a thread is in `expand`. Each turn of a thread is one access to the
-- counter and the flag of `visitor_counter`; what a caller does at the buckets in between is left
-- out.
pub mod Tally
pub mod Call
pub mod Race
mod Examples
use byte_buffer.Prelude.{
  ℕ, ◌+◌, ◌≡◌, Bool, true, false, not, Option, none, some, List, [], ◌∷◌, ltb, ◌==◌, ◌||◌, ◌&&◌,
  if◌then◌else◌, length, get_elem?, set,
}
use byte_buffer.Syncpool.Words.{wrapping_sub}
use byte_buffer.Syncpool.Pool.{
  SyncPool, registered, turned_away, spinning, register, guard_in, guard_out, add_slots,
}
use byte_buffer.Syncpool.Pool.State.{expansion_enabled}
use byte_buffer.Syncpool.Pool.Manager.{expansion_cap}

-- Where a caller stands: before the test of the flag, between the test and the `fetch_add`, and
-- with its guard in hand.
pub data Caller : Type 0 where
  outside passed visiting : Caller

-- Where the thread in `expand` stands: before the exchange that raises the flag, in the loop that
-- waits for the visitors, with what `count` is, at the slots, and before each of the two stores at
-- the end.
pub data Stage : Type 0 where
  resting growing : Stage
  awaiting : ℕ → Stage
  storing lowering : Stage

abbrev pub is_resting : Stage → Bool
is_resting resting = true
is_resting growing = false
is_resting (awaiting count) = false
is_resting storing = false
is_resting lowering = false

-- The threads at one pool. The calls of `expand` are of one thread, one after the other.
pub record World {ℓ} (T : Type ℓ) : Type ℓ where
  pub pool : SyncPool T
  pub callers : List Caller
  pub stage : Stage

module _ {ℓ} {T : Type ℓ} where
  -- One turn of a caller. A getter that finds the flag up goes away without a guard, and a putter
  -- tests it again.
  unfoldable pub call_turn : SyncPool T → Bool → Caller → SyncPool T × Caller
  call_turn p get outside = elim (register (p.barrier ∷ []) get) [
    | registered ↦ (p, passed)
    | turned_away ↦ (p, outside)
    | spinning ↦ (p, outside)
  ]
  call_turn p get passed = (guard_in p, visiting)
  call_turn p get visiting = (guard_out p, outside)

  -- One turn of the thread in `expand`. The tests before the exchange go with it.
  unfoldable pub expand_turn : T → ℕ → Bool → SyncPool T → Stage → SyncPool T × Stage
  expand_turn zeroed additional block p resting =
      if not (expansion_enabled p) || (ltb expansion_cap (length p.slots) || p.barrier)
      then (p, resting)
      else (record p { barrier = true }, awaiting 8)
  expand_turn zeroed additional block p (awaiting count) =
      let count' = wrapping_sub count 1 in
      if p.visitors == 1
      then (record p { visitors = 0 }, growing)
      else if ltb count' 4 || block
      then (p, awaiting count')
      else (p, storing)
  expand_turn zeroed additional block p growing =
      (record (add_slots zeroed p additional true) { miss_count = 0 }, storing)
  expand_turn zeroed additional block p storing = (record p { visitors = 1 }, lowering)
  expand_turn zeroed additional block p lowering = (record p { barrier = false }, resting)

  unfoldable pub caller_moves : ℕ → Bool → World T → World T
  caller_moves i get w = elim (get_elem? w.callers i) [
    | none ↦ w
    | some c ↦
        let (p, c') = call_turn w.pool get c in record w { pool = p; callers = set w.callers i c' }
  ]

  module _ (zeroed : T) (additional : ℕ) (block : Bool) where
    unfoldable pub expander_moves : World T → World T
    expander_moves w =
        let (p, stage) = expand_turn zeroed additional block w.pool w.stage in
        record w { pool = p; stage = stage }

    -- The states that the turns lead to, in any order, up to the end of one call of `expand`.
    pub data During (w : World T) : World T → Type ℓ where
      begun : During w w
      called : {v : World T} → During w v → (i : ℕ) (get : Bool) → During w (caller_moves i get v)
      worked : {v : World T} → During w v → is_resting v.stage ≡ false → During w (expander_moves v)
