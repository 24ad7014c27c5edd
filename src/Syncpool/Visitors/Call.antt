-- ===== src/Syncpool/Visitors/Call.antt =====
-- One call of `expand` while callers come and go.
use byte_buffer.Prelude.{
  ℕ, ◌+◌, ◌≤◌, ◌<◌, ◌≡◌, ◌↔◌, Bool, true, false, none, some, List, refl, subst, ◌∙◌, inl, inr,
  Option-cases, arith, length, length-set, get_elem?, set,
}
use byte_buffer.Syncpool.Words.{usize_mod}
use byte_buffer.Syncpool.Pool.{SyncPool, register, add_slots}
use byte_buffer.Syncpool.Visitors.{
  Caller, outside, passed, visiting, Stage, resting, growing, awaiting, storing, lowering, World,
  call_turn, expand_turn, caller_moves, expander_moves, is_resting, During, begun, called, worked,
}
use byte_buffer.Syncpool.Visitors.Tally.{at_test, at_work, tally, tally-set, tally-at_work_le}

-- What holds at each stage, with `k` callers between their test and their count when the call
-- began.
abbrev Guarded : ℕ → Stage → Bool → ℕ → ℕ → ℕ → Type 0
Guarded k resting up visitors tested working = Unit
Guarded k (awaiting count) up visitors tested working =
    (up ≡ true) × (visitors ≡ 1 + working) × (tested ≤ k)
Guarded k growing up visitors tested working =
    (up ≡ true) × (visitors ≡ working) × (tested + working ≤ k)
Guarded k storing up visitors tested working = Unit
Guarded k lowering up visitors tested working = Unit

module _ {ℓ} {T : Type ℓ} where
  abbrev Holds : ℕ → World T → Type 0
  Holds k w =
      Guarded k w.stage w.pool.barrier w.pool.visitors (tally at_test w.callers)
        (tally at_work w.callers)

  module _ (k : ℕ) (p : SyncPool T) (cs : List Caller) (i : ℕ) (get : Bool)
      (fits : length cs + 1 < usize_mod) where
    -- What one turn of the caller at `i` leaves of what holds.
    abbrev Kept : Stage → Caller → Type 0
    Kept stage c =
        get_elem? cs i ≡ some c
        → Guarded k stage p.barrier p.visitors (tally at_test cs) (tally at_work cs)
        → Guarded k stage (call_turn p get c).0.barrier (call_turn p get c).0.visitors
            (tally at_test (set cs i (call_turn p get c).1))
            (tally at_work (set cs i (call_turn p get c).1))

    moved :
        (c c' : Caller)
        → get_elem? cs i ≡ some c
        → (tally at_test (set cs i c') + at_test c ≡ tally at_test cs + at_test c')
          × (tally at_work (set cs i c') + at_work c ≡ tally at_work cs + at_work c')
    moved c c' e = (tally-set at_test cs i c c' e, tally-set at_work cs i c c' e)

    Kept-awaiting : (count : ℕ) (c : Caller) → Kept (awaiting count) c
    unfolding call_turn register
    Kept-awaiting count outside at (up, counted, few) = ground (arith, moved outside outside at)
    Kept-awaiting count passed at (up, counted, few) =
        let bound = tally-at_work_le (set cs i visiting) in
        ground (arith, moved passed visiting at, bound, length-set cs i visiting)
    Kept-awaiting count visiting at (up, counted, few) =
        ground (arith, moved visiting outside at, tally-at_work_le cs)

    Kept-growing : (c : Caller) → Kept growing c
    unfolding call_turn register
    Kept-growing outside at (up, counted, few) = ground (arith, moved outside outside at)
    Kept-growing passed at (up, counted, few) =
        let bound = tally-at_work_le (set cs i visiting) in
        ground (arith, moved passed visiting at, bound, length-set cs i visiting)
    Kept-growing visiting at (up, counted, few) =
        ground (arith, moved visiting outside at, tally-at_work_le cs)

    call_turn-Kept : (stage : Stage) (c : Caller) → Kept stage c
    call_turn-Kept resting c at h = tt
    call_turn-Kept growing c at h = Kept-growing c at h
    call_turn-Kept (awaiting count) c at h = Kept-awaiting count c at h
    call_turn-Kept storing c at h = tt
    call_turn-Kept lowering c at h = tt

  module _ (zeroed : T) (additional : ℕ) (block : Bool) where
    expand_turn-Guarded :
        (k : ℕ) (p : SyncPool T) (stage : Stage) (tested working : ℕ)
        → Guarded k stage p.barrier p.visitors tested working
        → is_resting stage ≡ false
        → (let r = expand_turn zeroed additional block p stage in
            Guarded k r.1 r.0.barrier r.0.visitors tested working)
    unfolding expand_turn add_slots
    expand_turn-Guarded k p resting tested working h busy = cc
    expand_turn-Guarded k p growing tested working h busy = tt
    expand_turn-Guarded k p (awaiting count) tested working (up, counted, few) busy = ground arith
    expand_turn-Guarded k p storing tested working h busy = tt
    expand_turn-Guarded k p lowering tested working h busy = tt

    goes_ahead_iff :
        (p : SyncPool T) (stage : Stage) (count working : ℕ)
        → stage ≡ awaiting count
        → p.visitors ≡ 1 + working
        → ((expand_turn zeroed additional block p stage).1 ≡ growing) ↔ (working ≡ 0)
    unfolding expand_turn
    goes_ahead_iff p stage count working waits counted = rw waits (ground arith)

    raise-Guarded :
        (p : SyncPool T) (stage : Stage) (tested working : ℕ)
        → stage ≡ resting
        → p.visitors ≡ 1 + working
        → (let r = expand_turn zeroed additional block p stage in
            Guarded tested r.1 r.0.barrier r.0.visitors tested working)
    unfolding expand_turn
    raise-Guarded p stage tested working first counted = rw first (ground arith)

  module _ (i : ℕ) (get : Bool) (w : World T) where
    caller_moves-none : get_elem? w.callers i ≡ none → caller_moves i get w ≡ w
    unfolding caller_moves
    caller_moves-none e = ground arith

    pub caller_moves-some :
        (c : Caller)
        → get_elem? w.callers i ≡ some c
        → caller_moves i get w ≡ record w {
          pool = (call_turn w.pool get c).0;
          callers = set w.callers i (call_turn w.pool get c).1;
        }
    unfolding caller_moves
    caller_moves-some c e = ground arith

    length-caller_moves : length (caller_moves i get w).callers ≡ length w.callers
    length-caller_moves = elim (Option-cases (get_elem? w.callers i)) [
      | inl e ↦ rw (caller_moves-none e) refl
      | inr (c, e) ↦ rw (caller_moves-some c e) (length-set w.callers i (call_turn w.pool get c).1)
    ]

    caller_moves-Holds :
        (k : ℕ) → length w.callers + 1 < usize_mod → Holds k w → Holds k (caller_moves i get w)
    caller_moves-Holds k fits h = elim (Option-cases (get_elem? w.callers i)) [
      | inl e ↦ rw (caller_moves-none e) h
      | inr (c, e) ↦
          rw (caller_moves-some c e) (call_turn-Kept k w.pool w.callers i get fits w.stage c e h)
    ]

  module _ (zeroed : T) (additional : ℕ) (block : Bool) (w : World T) (first : w.stage ≡ resting)
      (counted : w.pool.visitors ≡ 1 + tally at_work w.callers)
      (fits : length w.callers + 1 < usize_mod) where
    abbrev Followed : World T → Type 0
    Followed v = (length v.callers ≡ length w.callers) × Holds (tally at_test w.callers) v

    begun-Followed : Followed (expander_moves zeroed additional block w)
    unfolding expander_moves
    begun-Followed = (
      refl,
      raise-Guarded zeroed additional block w.pool w.stage (tally at_test w.callers)
          (tally at_work w.callers) first counted,
    )

    During-Followed :
        (v : World T)
        → During zeroed additional block (expander_moves zeroed additional block w) v
        → Followed v
    unfolding expander_moves
    During-Followed v begun = begun-Followed
    During-Followed v (called {v = u} d i get) =
        let (same, h) = During-Followed u d in
        (
          length-caller_moves i get u ∙ same,
          caller_moves-Holds i get u (tally at_test w.callers) (omega (arith, same)) h,
        )
    During-Followed v (worked {v = u} d busy) =
        let (same, h) = During-Followed u d in
        (
          same,
          expand_turn-Guarded zeroed additional block (tally at_test w.callers) u.pool u.stage
              (tally at_test u.callers) (tally at_work u.callers) h busy,
        )

    -- What holds, at the stage that is known.
    Holds-at :
        (k : ℕ) (v : World T) (g : Stage)
        → v.stage ≡ g
        → Holds k v
        → Guarded k g v.pool.barrier v.pool.visitors
            (tally at_test v.callers)
            (tally at_work v.callers)
    Holds-at k v g e h =
        let at_stage = λ (g : Stage).
          Guarded k g v.pool.barrier v.pool.visitors (tally at_test v.callers)
            (tally at_work v.callers) in
        subst at_stage e h

    -- With fewer callers than a machine word counts, whatever turns the threads take in a call of
    -- `expand` that begins with the visitors counted, the callers that are inside, or about to
    -- count themselves in, while it adds buckets are at most as many as stood between their test of
    -- the flag and their count when it raised the flag.
    pub expand_keeps_out :
        {v : World T}
        → During zeroed additional block (expander_moves zeroed additional block w) v
        → v.stage ≡ growing
        → tally at_test v.callers + tally at_work v.callers ≤ tally at_test w.callers
    expand_keeps_out {v} d e =
        (Holds-at (tally at_test w.callers) v growing e (During-Followed v d).1).2

    -- With fewer callers than a machine word counts, in a call of `expand` that begins with the
    -- visitors counted, whatever turns the threads have taken, while `expand` waits its next turn
    -- goes ahead exactly if no caller is inside.
    pub expand_waits :
        {v : World T} (count : ℕ)
        → During zeroed additional block (expander_moves zeroed additional block w) v
        → v.stage ≡ awaiting count
        → ((expander_moves zeroed additional block v).stage ≡ growing)
          ↔ (tally at_work v.callers ≡ 0)
    unfolding expander_moves
    expand_waits {v} count d e =
        let h = Holds-at (tally at_test w.callers) v (awaiting count) e (During-Followed v d).1 in
        goes_ahead_iff zeroed additional block v.pool v.stage count (tally at_work v.callers) e h.1
