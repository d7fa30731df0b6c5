-- ===== src/Pool.antt =====
-- The buffer pool, pkg/pool/pool.go: the cache, its counters, the aged flush and its timer.
-- Every operation holds the mutex from its start to its end, except that a `Get` whose allocation
-- fails releases it before the next round of its loop. So an `Event` is one critical section, and an
-- interleaving of goroutines is a list of events. The system's memory (`alloc`, `free`) is outside:
-- its answer is an argument of the event. `none` is a panic.
pub mod Invariant
pub mod Aging
mod Examples
use fa.Prelude.{
  ℕ, zero, suc, ◌≡◌, Bool, true, false, Option, none, some, List, [], ◌∷◌, length, ltb, ◌==◌,
  if◌then◌else◌,
}
use fa.Prelude.Int.{ℤ, pos, ◌+ℤ◌, ◌-ℤ◌}
use fa.Prelude.Monad.{◌>>=◌}

-- A byte slice: its backing array, its length and its capacity.
pub record Buffer : Type 0 where
  pub array : ℕ
  pub len : ℕ
  pub cap : ℕ

pub record Pool : Type 0 where
  -- The head of the list is the end of the slice.
  pub cache : List Buffer
  pub min_fill : ℕ
  pub buffer_size : ℕ
  pub pool_size : ℕ
  pub in_use : ℤ
  pub alloced : ℤ
  pub flush_pending : Bool
  -- The timer is running: `AfterFunc` and `Reset` start it, and it stops when it fires.
  pub armed : Bool

-- New
pub new : ℕ → ℕ → Pool
new buffer_size pool_size = record {
  cache = [];
  min_fill = 0;
  buffer_size = buffer_size;
  pool_size = pool_size;
  in_use = pos 0;
  alloced = pos 0;
  flush_pending = false;
  armed = true;
}

-- get: the last buffer of the cache; an empty cache is indexed at -1.
pub get_last : Pool → Option (Buffer × Pool)
get_last p = elim p.cache [ [] ↦ none | b ∷ rest ↦ some (b, record p { cache = rest }) ]

-- freeBuffer: an error of `free` is only logged.
pub free_buffer : Pool → Pool
free_buffer p = record p { alloced = p.alloced -ℤ pos 1 }

pub flush_loop : ℕ → Pool → Option Pool
flush_loop zero p = some p
flush_loop (suc n) p = get_last p >>= λ (b, q). flush_loop n (free_buffer q)

-- flush
pub flush : ℕ → Pool → Option Pool
flush n p = flush_loop n p >>= λ q. some (record q { min_fill = length q.cache })

-- Flush
pub flush_all : Pool → Option Pool
unfolding flush
flush_all p = flush (length p.cache) p

pub kick_flusher : Pool → Pool
kick_flusher p = if p.flush_pending then p else record p { flush_pending = true; armed = true }

pub reschedule : Pool → Pool
unfolding kick_flusher
reschedule p = elim p.cache [ [] ↦ p | b ∷ rest ↦ kick_flusher p ]

pub flush_aged : Pool → Option Pool
unfolding flush reschedule
flush_aged p = flush p.min_fill (record p { flush_pending = false }) >>= λ q. some (reschedule q)

pub update_min_fill : Pool → Pool
update_min_fill p =
    if ltb (length p.cache) p.min_fill then record p { min_fill = length p.cache } else p

-- What the system answers to `alloc`.
pub data Allocation : Type 0 where
  granted : Buffer → Allocation
  refused : Allocation

pub taken : Pool → Pool
unfolding update_min_fill
taken p = update_min_fill (record p { in_use = p.in_use +ℤ pos 1 })

-- One round of the loop in Get, under the lock. `none` goes round again.
pub get_round : Allocation → Pool → Option Buffer × Pool
unfolding taken
get_round a p = elim p.cache [
  | [] ↦ elim a [
    | granted b ↦ (some b, taken (record p { alloced = p.alloced +ℤ pos 1 }))
    | refused ↦ (none, p)
  ]
  | b ∷ rest ↦ (some b, taken (record p { cache = rest }))
]

-- Get undisturbed: the rounds against the answers of the system. `none` waits for ever.
pub get : List Allocation → Pool → Option (Buffer × Pool)
unfolding get_round
get [] p = none
get (a ∷ answers) p = elim (get_round a p).0 [
  | some b ↦ some (b, (get_round a p).1)
  | none ↦ get answers (get_round a p).1
]

pub store : Buffer → Pool → Pool
unfolding free_buffer
store b p =
    if ltb (length p.cache) p.pool_size then record p { cache = b ∷ p.cache } else free_buffer p

pub returned : Pool → Pool
unfolding update_min_fill kick_flusher
returned p = kick_flusher (update_min_fill (record p { in_use = p.in_use -ℤ pos 1 }))

-- Put: the slice is taken at its full capacity, and a wrong size panics.
pub put : Buffer → Pool → Option Pool
unfolding store returned
put b p =
    if b.cap == p.buffer_size then some (returned (store (record b { len = b.cap }) p)) else none

pub data Event : Type 0 where
  gets : Allocation → Event
  puts : Buffer → Event
  flushes fires : Event

-- The timer fires only while it runs, and stops.
pub fire : Pool → Option Pool
unfolding flush_aged
fire p = if p.armed then flush_aged (record p { armed = false }) else some p

pub step : Event → Pool → Option Pool
unfolding get_round put flush_all fire
step (gets a) p = some (get_round a p).1
step (puts b) p = put b p
step flushes p = flush_all p
step fires p = fire p

pub run : List Event → Pool → Option Pool
unfolding step
run [] p = some p
run (e ∷ es) p = step e p >>= run es
