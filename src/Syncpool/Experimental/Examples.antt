-- ===== src/Syncpool/Experimental/Examples.antt =====
-- A pool that gives a value, takes it back and is asked for another.
use byte_buffer.Prelude.{ℕ, true, false, none, some, [], ◌∷◌}
use byte_buffer.Syncpool.Experimental.{Memory}
use byte_buffer.Syncpool.Experimental.Chain.{Container, Inner}

abbrev nothing_yet : Memory ℕ
nothing_yet = record { places = []; dropped = [] }

abbrev one_given : Memory ℕ
one_given = record { places = some 7 ∷ []; dropped = [] }

abbrev one_dropped : Memory ℕ
one_dropped = record { places = some 7 ∷ []; dropped = 7 ∷ [] }

abbrev empty_inner : Inner
empty_inner = record {
  head = none;
  tail = none;
  chan = record { queue = []; bound = 1; connected = true };
  close = false;
}

abbrev given : Container
given = record { val = 0; chan = false }
