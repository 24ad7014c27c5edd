-- ===== src/Syncpool/Calls/Testing.antt =====
-- The test of the barrier by a thread that begins a call.
use byte_buffer.Prelude.{[], ◌∷◌}
use byte_buffer.Syncpool.Concurrent.{Task, is_get}
use byte_buffer.Syncpool.Pool.{SyncPool, registered, turned_away, spinning, register}
use byte_buffer.Syncpool.Calls.{Spot, away, testing, entering, move}

module _ {ℓ κ} {T : Type ℓ} (P : SyncPool T × Spot T → Type κ) where
  -- What holds of the three ways in which it goes on holds of its turn.
  pub testing-cases :
      (next task : Task T) (p : SyncPool T)
      → P (p, entering task)
      → P (p, away)
      → P (p, testing task)
      → P (move next p (testing task))
  unfolding move
  testing-cases next task p goes_in goes_away stays =
      elim (register (p.barrier ∷ []) (is_get task))
        as (λ r. P (elim r [
          | registered ↦ (p, entering task)
          | turned_away ↦ (p, away)
          | spinning ↦ (p, testing task)
        ])) [ registered ↦ goes_in | turned_away ↦ goes_away | spinning ↦ stays ]
