-- ===== src/AsyncReader/Runs.antt =====
-- pkg/asyncreader/asyncreader.go: runs of the goroutine and the consumer, until it is abandoned.
use mathlib.Core.Path.{subst}
use fa.Prelude.{
  ℕ, suc, ◌+◌, ◌-◌, ◌≤◌, ◌≡◌, true, false, arith, Option, some, List, [], ◌++◌, length, take, drop,
  Bool-cases, inl, inr,
}
use fa.Prelude.Int.{pos, negsuc}
use fa.AsyncReader.{
  Error, Reply, AsyncReader, got, blocked, init, room, hand_over, read_fill, can_produce, finish,
  read, skip_bytes, stop,
}
use fa.AsyncReader.Position.{At, hand_over-At, ended-At, init-At}
use fa.AsyncReader.Stream.{ReadAt, read-At}
use fa.AsyncReader.Writing.{Answer, IsWriter, Written, WrittenAt, write_to, write_to-At}
use fa.AsyncReader.Skipping.{SkipAt, BackAt, skip_bytes-At, skip_bytes-BackAt}

-- `Runs a stream c`: some interleaving of the goroutine and the consumer leads from a new reader of
-- `n` buffers to `a`, the goroutine read the bytes `stream`, and the consumer took `c` of them, net.
pub data Runs {S : Type 0} (rd : S → ℕ → Reply S) (s : S) (n : ℕ)
    : AsyncReader S → List ℕ → ℕ → Type 0 where
  starts : Runs rd s n (init s n) [] 0
  produces :
      {a : AsyncReader S} {stream : List ℕ} {c : ℕ} (fuel : ℕ) (r : Reply S)
      → Runs rd s n a stream c
      → can_produce a ≡ true
      → read_fill rd fuel a.input (room a) ≡ some r
      → Runs rd s n (hand_over r a) (stream ++ r.bytes) c
  finishes :
      {a : AsyncReader S} {stream : List ℕ} {c : ℕ}
      → Runs rd s n a stream c
      → Runs rd s n (finish a) stream c
  stops :
      {a : AsyncReader S} {stream : List ℕ} {c : ℕ}
      → Runs rd s n a stream c
      → Runs rd s n (stop a) stream c
  reads :
      {a a' : AsyncReader S} {stream : List ℕ} {c : ℕ} (k : ℕ) (bytes : List ℕ) (e : Option Error)
      → Runs rd s n a stream c
      → read k a ≡ got bytes e a'
      → Runs rd s n a' stream (c + length bytes)
  waits :
      {a a' : AsyncReader S} {stream : List ℕ} {c : ℕ} (k : ℕ)
      → Runs rd s n a stream c
      → read k a ≡ blocked a'
      → Runs rd s n a' stream c
  skips :
      {a a' : AsyncReader S} {stream : List ℕ} {c : ℕ} (k : ℕ)
      → Runs rd s n a stream c
      → skip_bytes (pos k) a ≡ some (true, a')
      → Runs rd s n a' stream (c + k)
  rewinds :
      {a a' : AsyncReader S} {stream : List ℕ} {c : ℕ} (k : ℕ)
      → Runs rd s n a stream c
      → skip_bytes (negsuc k) a ≡ some (true, a')
      → Runs rd s n a' stream (c - suc k)
  -- The writer's state is a number, which may count its calls.
  writes :
      {a : AsyncReader S} {stream : List ℕ} {c : ℕ} (write : ℕ → List ℕ → Answer ℕ) (w : ℕ)
      (r : Written S ℕ)
      → IsWriter write
      → Runs rd s n a stream c
      → write_to write (length a.ready + 2) w a ≡ some r
      → Runs rd s n r.reader stream (c + length r.bytes)

finish-At :
    {S : Type 0} (a : AsyncReader S) (stream : List ℕ) (c : ℕ)
    → At a.exited a.cur a.ready stream c
    → At (finish a).exited (finish a).cur (finish a).ready stream c
unfolding finish
finish-At a stream c v = elim (Bool-cases a.exit) [
  | inl e ↦ rw e (ended-At a.cur a.ready v)
  | inr e ↦ rw e v
]

running : {S : Type 0} (a : AsyncReader S) → can_produce a ≡ true → a.exited ≡ false
unfolding can_produce
running a e = ground arith

module _ {S : Type 0} {rd : S → ℕ → Reply S} {s : S} {n : ℕ} where
  pub Runs-At :
      {a : AsyncReader S} {stream : List ℕ} {c : ℕ}
      → Runs rd s n a stream c
      → At a.exited a.cur a.ready stream c
  unfolding hand_over finish stop
  Runs-At starts = init-At s n
  Runs-At (produces {a = a} {stream = stream} {c = c} fuel r run can e) =
      hand_over-At a.cur a.ready r.bytes r.failed
        (subst (λ x. At x a.cur a.ready stream c) (running a can) (Runs-At run))
  Runs-At (finishes {a = a} {stream = stream} {c = c} run) = finish-At a stream c (Runs-At run)
  Runs-At (stops run) = Runs-At run
  Runs-At (reads {a = a} {stream = stream} {c = c} k bytes e run h) =
      (subst (ReadAt stream c k) h (read-At stream c k a (Runs-At run))).0
  Runs-At (waits {a = a} {stream = stream} {c = c} k run h) =
      subst (ReadAt stream c k) h (read-At stream c k a (Runs-At run))
  Runs-At (skips {a = a} {stream = stream} {c = c} k run h) =
      subst (SkipAt stream c k) h (skip_bytes-At stream k c a (Runs-At run))
  Runs-At (rewinds {a = a} {stream = stream} {c = c} k run h) =
      (subst (BackAt stream c (suc k)) h (skip_bytes-BackAt stream k c a (Runs-At run))).1
  Runs-At (writes {a = a} {stream = stream} {c = c} write w r v run h) =
      (subst (WrittenAt stream c) h (write_to-At stream write v w a c (Runs-At run))).0

  -- After any interleaving a read of `k` bytes answers at most `k` bytes, and they are those that
  -- follow, in the stream that the goroutine read, the bytes that the consumer has taken so far.
  pub read-stream :
      {a a' : AsyncReader S} {stream : List ℕ} {c : ℕ} (k : ℕ) {bytes : List ℕ} {e : Option Error}
      → Runs rd s n a stream c
      → read k a ≡ got bytes e a'
      → (bytes ≡ take (length bytes) (drop c stream)) × (length bytes ≤ k)
  read-stream {a} {stream = stream} {c = c} k run h =
      let (_, same, fits) = subst (ReadAt stream c k) h (read-At stream c k a (Runs-At run)) in
      (same, fits)
