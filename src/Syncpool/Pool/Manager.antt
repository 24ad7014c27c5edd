-- ===== src/Syncpool/Pool/Manager.antt =====
-- `PoolManager` for `SyncPool`. What other threads do to the shared atomics during a call is an
-- argument: the values that the call's successive attempts meet.
use byte_buffer.Prelude.{
  ℕ, zero, suc, ◌+◌, ◌-◌, ◌%◌, Bool, true, false, not, xor, ◌&&◌, Option, none, some, List, [], ◌∷◌,
  bit_and, bit_xor, ltb, ◌==◌, if◌then◌else◌, length,
}
use byte_buffer.Syncpool.Words.{wrapping_sub}
use byte_buffer.Syncpool.Builder.{make_elem}
use byte_buffer.Syncpool.Pool.{SyncPool, stored, given_back, waiting, add_slots, put}
use byte_buffer.Syncpool.Pool.State.{config_allow_expansion, expansion_enabled, capacity, len}

abbrev pub expansion_cap : ℕ
expansion_cap = 512

-- The compare-exchange loop of `update_config`, as the value of `configure` at its end. Each
-- attempt finds what another thread has just stored; after the list no one else stores, and the
-- attempt after a failed one finds the value that it expects.
unfoldable pub config_loop : List ℕ → ℕ → ℕ → Bool → ℕ → ℕ
config_loop [] config mask target current =
    if current == config
    then bit_xor config mask
    else if not (xor (ltb 0 (bit_and current mask)) target)
    then current
    else bit_xor current mask
config_loop (old ∷ stores) config mask target current =
    let again = config_loop stores old mask target old in
    if old == config
    then bit_xor config mask
    else if not (xor (ltb 0 (bit_and old mask)) target)
    then old
    else again

-- The loop of `reset_handle` that raises the barrier: one entry for each attempt that fails, which
-- says if the 16ms are over by then.
unfoldable pub raise_barrier : List Bool → ℕ → Bool
raise_barrier [] count = true
raise_barrier (late ∷ attempts) count =
    let count' = wrapping_sub count 1 in
    let again = raise_barrier attempts count' in
    if ltb count' 4 then again else if late then false else again

-- The loop of `expand` that waits for the visitors to leave: the counter that each attempt finds.
-- `none` is a wait that is not over at the end of the list.
unfoldable pub await_visitors : List ℕ → ℕ → Bool → Option Bool
await_visitors [] count block = none
await_visitors (found ∷ attempts) count block =
    let count' = wrapping_sub count 1 in
    let again = await_visitors attempts count' block in
    if found == 1
    then some true
    else if ltb count' 4
    then again
    else if not block
    then some false
    else again

-- The value that a load finds after the stores of other threads.
abbrev pub last_stored : ℕ → List ℕ → ℕ
last_stored current [] = current
last_stored current (v ∷ stores) = last_stored v stores

module _ {ℓ} {T : Type ℓ} where
  unfoldable pub update_config : SyncPool T → ℕ → Bool → List ℕ → SyncPool T
  update_config p mask target stores = record p {
    configure = config_loop stores p.configure mask target p.configure;
  }

  -- `before` holds the stores of other threads between the test and the load of `update_config`.
  unfoldable pub allow_expansion : SyncPool T → Bool → List ℕ → List ℕ → SyncPool T
  allow_expansion p allow before stores =
      if not (xor (expansion_enabled p) allow)
      then p
      else update_config (record p { configure = last_stored p.configure before })
          config_allow_expansion allow stores

  unfoldable pub set_reset_handle : SyncPool T → (T → T) → List Bool → SyncPool T
  set_reset_handle p handle attempts =
      if raise_barrier attempts 8
      then record p { reset_handle = some handle; barrier = false }
      else p

  -- `spurious` is a weak compare-exchange that fails for no reason.
  unfoldable pub expand : T → SyncPool T → ℕ → Bool → Bool → List ℕ → SyncPool T × Option Bool
  expand zeroed p additional block spurious visits =
      if not (expansion_enabled p)
      then (p, some false)
      else if ltb expansion_cap (length p.slots)
      then (p, some false)
      else if p.barrier
      then (p, some false)
      else if spurious
      then (p, some false)
      else elim (await_visitors (p.visitors ∷ visits) 8 block) [
        | none ↦ (record p { barrier = true }, none)
        | some safe ↦
            let grown : SyncPool T =
              if safe then record (add_slots zeroed p additional true) { miss_count = 0 } else p in
            (record grown { visitors = 1; barrier = false }, some safe)
      ]

  -- The inner loop of `refill`. An entry of the list says if the 16ms are over at that reading of
  -- the clock; they are over at the end of the list. The rest of the list is returned if the
  -- element was placed, and `none` if the loop gives up.
  unfoldable pub put_again : List Bool → ℕ → ℕ → SyncPool T → T → SyncPool T × Option (List Bool)
  put_again [] runs cap p val =
      let (p', result) = put p val in
      elim result [
        | stored ↦ (p', some [])
        | given_back ret ↦ (p', none)
        | waiting ret ↦ (p', none)
      ]
  put_again (late ∷ clock) runs cap p val =
      let (p', result) = put p val in
      elim result [
        | stored ↦ (p', some (late ∷ clock))
        | waiting ret ↦ (p', none)
        | given_back ret ↦
            let again = put_again clock (runs + 1) cap p' ret in
            if late
            then (p', none)
            else if ((runs + 1) % 4 == 0) && (len p' == cap)
            then (p', none)
            else again
      ]

  -- The outer loop of `refill`, with the elements that are still to be put.
  unfoldable pub refill_loop : T → ℕ → ℕ → List Bool → ℕ → SyncPool T → SyncPool T × ℕ
  refill_loop zeroed zero count clock cap p = (p, count)
  refill_loop zeroed (suc left) count clock cap p =
      let (p', result) = put_again clock 0 cap p (make_elem zeroed p.elem_builder) in
      elim result [
        | none ↦ (p', count)
        | some clock' ↦ refill_loop zeroed left (count + 1) clock' cap p'
      ]

  unfoldable pub refill : T → SyncPool T → ℕ → List Bool → SyncPool T × ℕ
  refill zeroed p additional clock =
      let cap = capacity p in
      let empty_slots = cap - len p in
      if empty_slots == 0
      then (p, 0)
      else let quota = if ltb empty_slots additional then empty_slots else additional in
        refill_loop zeroed quota 0 clock cap p
