-- ===== src/Pool/Examples.antt =====
-- pkg/pool/pool.go: the theorems at concrete pools, and test runs.
use fa.Prelude.{ℕ, ◌≡◌, refl, true, none, some, List, [], ◌∷◌, arith}
use fa.Prelude.Int.{pos, ◌+ℤ◌, ◌-ℤ◌}
use fa.Pool.{Buffer, Pool, new, granted, refused, put, Event, gets, puts, run}
use fa.Pool.Invariant.{IsValid, run-new-IsValid}

abbrev buffer : ℕ → Buffer
buffer a = record { array = a; len = 8; cap = 8 }

abbrev session : List Event
session =
    gets refused
    ∷ gets (granted (buffer 1))
    ∷ gets (granted (buffer 2))
    ∷ puts (buffer 1)
    ∷ puts (buffer 2)
    ∷ []

-- The pool after the session: both buffers cached, a flush due.
abbrev idle : Pool
idle = record {
  cache = buffer 2 ∷ buffer 1 ∷ [];
  min_fill = 0;
  buffer_size = 8;
  pool_size = 2;
  in_use = pos 0;
  alloced = pos 2;
  flush_pending = true;
  armed = true;
}

session-run : run session (new 8 2) ≡ some idle
unfolding run new ◌+ℤ◌ ◌-ℤ◌
session-run = refl

-- A buffer of another size panics; a full pool frees what it is given.
put_wrong : put (record { array = 3; len = 8; cap = 9 }) idle ≡ none
unfolding put
put_wrong = refl

idle-IsValid : IsValid 8 idle
unfolding ◌+ℤ◌
idle-IsValid = ground arith

run-new-IsValid_example : (q : Pool) × (run session (new 8 2) ≡ some q) × IsValid 8 q
run-new-IsValid_example = run-new-IsValid 8 2 session (omega arith)
