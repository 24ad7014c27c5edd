-- ===== src/Syncpool/Experimental/Defaults.antt =====
-- What the pool of syncpool/src/experimental/chain.rs gives: nothing but default values.
use byte_buffer.Prelude.{◌≡◌, false, List, [], ◌∷◌}
use byte_buffer.Syncpool.Experimental.Chain.{Container}

abbrev pub NoSender : List Container → Type 0
NoSender [] = Unit
NoSender (c ∷ out) = (c.chan ≡ false) × NoSender out
