-- ===== src/AsyncReader/Examples.antt =====
-- pkg/asyncreader/asyncreader.go: the theorems over a reader of a short list, and test runs.
use fa.Prelude.{
  ℕ, zero, suc, ◌≤◌, ◌<◌, ◌≡◌, refl, ◌⊎◌, inl, inr, true, false, Option, none, some, List, [], ◌∷◌,
  ◌++◌, ◌+◌, length, length-take, take, drop, arith,
}
use fa.AsyncReader.{
  Error, eof, is_some, Reply, AsyncReader, got, init, hand_over, read_fill, can_produce, read, room,
}
use fa.AsyncReader.ReadFill.{IsReader, Fills, read_fill-Fills}
use fa.AsyncReader.Writing.{Answer, Written, IsWriter, write_to}
use fa.AsyncReader.Delivery.{write_to-stream}
use fa.AsyncReader.Runs.{Runs, starts, produces, reads, waits, read-stream}
use fa.AsyncReader.Tokens.{Runs-room}

-- A reader that answers what there is room for, and then the end.
abbrev at_end : List ℕ → Option Error
at_end [] = some eof
at_end (x ∷ xs) = none

abbrev list_read : List ℕ → ℕ → Reply (List ℕ)
list_read s n = record { bytes = take n s; failed = at_end s; next = drop n s }

list_read-progress :
    (s : List ℕ) (n : ℕ)
    → 0 < n
    → (is_some (list_read s n).failed ≡ true) ⊎ (0 < length (list_read s n).bytes)
list_read-progress [] n h = inl refl
list_read-progress (x ∷ xs) zero h = absurd (omega arith)
list_read-progress (x ∷ xs) (suc n) h = inr (omega arith)

list_read-IsReader : IsReader list_read
list_read-IsReader = record {
  fits = λ s n. omega (arith, length-take n s);
  goes_on = list_read-progress;
}

read_fill-Fills_example :
    (r : Reply (List ℕ)) × (read_fill list_read 5 (1 ∷ 2 ∷ 3 ∷ []) 2 ≡ some r) × Fills 2 r
read_fill-Fills_example =
    read_fill-Fills list_read 5 (1 ∷ 2 ∷ 3 ∷ []) 2 list_read-IsReader (omega arith)

-- A new reader of two buffers, after the goroutine's first round.
abbrev start : AsyncReader (List ℕ)
unfolding init
start = init (1 ∷ 2 ∷ 3 ∷ []) 2

abbrev reply : Reply (List ℕ)
reply = record { bytes = 1 ∷ 2 ∷ 3 ∷ []; failed = some eof; next = [] }

abbrev ready : AsyncReader (List ℕ)
unfolding hand_over init
ready = hand_over reply start

abbrev partly : AsyncReader (List ℕ)
partly = record {
  input = [];
  ready = [];
  token = 1;
  exit = false;
  exited = true;
  buffers = 2;
  err = none;
  cur = some (record { buf = 1 ∷ 2 ∷ 3 ∷ []; err = some eof; offset = 2 });
  size = 8192;
  closed = false;
  held = 1;
}

ready-Runs : Runs list_read (1 ∷ 2 ∷ 3 ∷ []) 2 ready (1 ∷ 2 ∷ 3 ∷ []) 0
unfolding can_produce init read_fill room hand_over ready
ready-Runs = produces 5 reply starts refl refl

partly-Runs : Runs list_read (1 ∷ 2 ∷ 3 ∷ []) 2 partly (1 ∷ 2 ∷ 3 ∷ []) 2
unfolding read hand_over init
partly-Runs = reads 2 (1 ∷ 2 ∷ []) none ready-Runs refl

start_produces : can_produce start ≡ true
unfolding can_produce init
start_produces = refl

-- A read of a new reader waits for the goroutine.
waiting-Runs : Runs list_read (1 ∷ 2 ∷ 3 ∷ []) 2 start [] 0
unfolding init read
waiting-Runs = waits 3 starts refl

Runs-room_example : (length start.ready < 2) × (start.token ≤ 2)
Runs-room_example = Runs-room waiting-Runs start_produces

read_rest :
    read 5 partly
    ≡ got (3 ∷ []) (some eof) (record partly {
      err = some eof;
      cur = some (record { buf = 1 ∷ 2 ∷ 3 ∷ []; err = some eof; offset = 3 });
    })
unfolding read
read_rest = refl

read-stream_example : (◌≡◌ {A = List ℕ} (3 ∷ []) (take 1 (drop 2 (1 ∷ 2 ∷ 3 ∷ [])))) × (1 ≤ 5)
read-stream_example = read-stream 5 partly-Runs read_rest

-- A writer that keeps what it is given.
abbrev list_write : List ℕ → List ℕ → Answer (List ℕ)
list_write kept bytes = record { count = length bytes; error = none; next = kept ++ bytes }

list_write-IsWriter : IsWriter list_write
list_write-IsWriter = record { fits = λ w bytes. omega arith; whole = λ w bytes e. refl }

abbrev emptied : Written (List ℕ) (List ℕ)
emptied = record {
  bytes = 3 ∷ [];
  ended = true;
  error = none;
  writer = 3 ∷ [];
  reader = record partly {
    err = some eof;
    cur = some (record { buf = 1 ∷ 2 ∷ 3 ∷ []; err = some eof; offset = 3 });
  };
}

written_rest : write_to list_write 2 [] partly ≡ some emptied
unfolding write_to
written_rest = refl

write_to-stream_example :
    (r : Written (List ℕ) (List ℕ)) × (write_to list_write (length partly.ready + 2) [] partly
      ≡ some r)
    × (r.bytes ≡ drop 2 (1 ∷ 2 ∷ 3 ∷ []))
    × (r.ended ≡ partly.exited)
write_to-stream_example =
    write_to-stream list_write list_write-IsWriter (λ w bytes. refl) [] partly-Runs
