-- ===== src/AsyncReader/Tokens.antt =====
-- pkg/asyncreader/asyncreader.go: each buffer is a token, a queued buffer or the current one.
use mathlib.Core.Path.{subst}
use fa.Prelude.{
  ℕ, zero, suc, ◌+◌, ◌-◌, ◌≤◌, ◌<◌, ◌≡◌, refl, inl, inr, Bool, true, false, Option, none, some,
  List, [], ◌∷◌, ◌++◌, length, length-append, arith, Bool-cases,
}
use fa.Prelude.Int.{ℤ, pos, negsuc}
use fa.AsyncReader.{
  Buffer, is_empty, is_some, unread, increment, Reply, AsyncReader, Filled, filled, failed, waiting,
  Read, got, blocked, init, hand_over, can_produce, finish, put_cur, receive, fill, serve,
  serve_filled, read, skip_by, skip_over, skip_next, skip_loop, skip_back, skip_bytes, stop, drain,
}
use fa.AsyncReader.Runs.{
  Runs, starts, produces, finishes, stops, reads, waits, skips, rewinds, writes,
}
use fa.AsyncReader.Writing.{Answer, Written, write_buffer, write_filled, write_to}

abbrev pub one : Option Buffer → ℕ
one none = 0
one (some b) = 1

-- `owed` tokens are still to be given back.
pub record IsCounted {S : Type 0} (n owed : ℕ) (a : AsyncReader S) : Type 0 where
  pub tokens : a.token + owed + length a.ready + one a.cur ≡ n
  pub pooled : a.held ≡ length a.ready + one a.cur

module _ {S : Type 0} (n : ℕ) where
  init-IsCounted : (s : S) → IsCounted n 0 (init s n)
  unfolding init
  init-IsCounted s = record { tokens = omega arith; pooled = omega arith }

  hand_over-IsCounted :
      (r : Reply S) (a : AsyncReader S)
      → can_produce a ≡ true
      → IsCounted n 0 a
      → IsCounted n 0 (hand_over r a)
  unfolding hand_over can_produce
  hand_over-IsCounted r a e v =
      ground
        (arith, length-append a.ready (record { buf = r.bytes; err = r.failed; offset = 0 } ∷ []))

  abbrev CountedRead : Read S → Type 0
  CountedRead (got bytes e a) = IsCounted n 0 a
  CountedRead (blocked a) = IsCounted n 0 a

  read-IsCounted : (k : ℕ) (a : AsyncReader S) → IsCounted n 0 a → CountedRead (read k a)
  unfolding read fill receive put_cur serve serve_filled is_empty
  read-IsCounted k a v = ground arith

  -- A skip that fails owes its tokens, but no buffer.
  abbrev CountedSkip : Option (Bool × AsyncReader S) → Type 0
  CountedSkip none = Unit
  CountedSkip (some (true, a)) = IsCounted n 0 a
  CountedSkip (some (false, a)) = a.held ≡ length a.ready + one a.cur

  abbrev CountedPass : (ℕ → ℕ → AsyncReader S → Option (Bool × AsyncReader S)) → Type 0
  CountedPass again =
      (refill k : ℕ) (a : AsyncReader S) → IsCounted n refill a → CountedSkip (again refill k a)

  skip_by-Counted :
      (again : ℕ → ℕ → AsyncReader S → Option (Bool × AsyncReader S)) (m : ℕ) (b : Buffer)
      (refill k : ℕ) (a : AsyncReader S)
      → CountedPass again
      → a.token + refill + length a.ready + 1 ≡ n
      → a.held ≡ length a.ready + 1
      → CountedSkip (skip_by again m b refill k a)
  unfolding skip_by is_empty
  skip_by-Counted again m b refill k a next t h =
      ground (arith, next refill (k - m) (record a { cur = some (increment b m) }))

  skip_next-Counted :
      (again : ℕ → ℕ → AsyncReader S → Option (Bool × AsyncReader S)) (refill k : ℕ)
      (a : AsyncReader S) (ready : List Buffer)
      → CountedPass again
      → a.ready ≡ ready
      → a.cur ≡ none
      → IsCounted n refill a
      → CountedSkip (skip_next again refill k a)
  unfolding skip_next skip_over
  skip_next-Counted again refill k a [] next q e v = ground arith
  skip_next-Counted again refill k a (b ∷ rest) next q e v =
      rw (q, skip_next)
        (skip_by-Counted again _ b refill k (record a { ready = rest; cur = some b }) next
          (ground arith) (ground arith))

  skip_loop-Counted : (fuel : ℕ) → CountedPass (skip_loop fuel)
  unfolding skip_loop put_cur skip_over
  skip_loop-Counted zero refill k a v = tt
  skip_loop-Counted (suc fuel) refill k a v = by_cur a.cur refl (skip_loop-Counted fuel)
    where
      by_cur :
          (cur : Option Buffer)
          → a.cur ≡ cur
          → CountedPass (skip_loop fuel)
          → CountedSkip (skip_loop (suc fuel) refill k a)
      by_cur none e next = rw (e, skip_loop) (skip_next-Counted _ refill k a a.ready next refl e v)
      by_cur (some b) e next = elim (Bool-cases (is_empty (some b))) [
        | inl done ↦
            rw (e, skip_loop)
              (rw (done, e, put_cur)
                (skip_next-Counted _ (refill + 1) k _ a.ready next refl refl
                  (record { tokens = ground arith; pooled = ground arith })))
        | inr more ↦
            rw (e, skip_loop)
              (rw more (skip_by-Counted _ _ b refill k a next (ground arith) (ground arith)))
      ]

  skip_bytes-Counted : (z : ℤ) (a : AsyncReader S) → IsCounted n 0 a → CountedSkip (skip_bytes z a)
  unfolding skip_bytes skip_back
  skip_bytes-Counted (pos k) a v = ground (arith, skip_loop-Counted (length a.ready + 2) 0 k a v)
  skip_bytes-Counted (negsuc k) a v = ground arith

  finish-IsCounted : (a : AsyncReader S) → IsCounted n 0 a → IsCounted n 0 (finish a)
  unfolding finish
  finish-IsCounted a v = ground arith

  -- WriteTo keeps the count in each pass.
  abbrev CountedWritten : {W : Type 0} → Option (Written S W) → Type 0
  CountedWritten none = Unit
  CountedWritten (some r) = IsCounted n 0 r.reader

  abbrev CountedFilled : Filled S → Type 0
  CountedFilled (filled b a) = (a.cur ≡ some b) × IsCounted n 0 a
  CountedFilled (failed e a) = IsCounted n 0 a
  CountedFilled (waiting a) = IsCounted n 0 a

  fill-Counted : (a : AsyncReader S) → IsCounted n 0 a → CountedFilled (fill a)
  unfolding fill receive put_cur
  fill-Counted a v = ground arith

  CountedWritten-append :
      {W : Type 0} (bytes : List ℕ) (o : Option (Written S W))
      → CountedWritten o
      → CountedWritten
          (elim o [ none ↦ none | some t ↦ some (record t { bytes = bytes ++ t.bytes }) ])
  CountedWritten-append bytes none h = h
  CountedWritten-append bytes (some t) h = h

  module _ {W : Type 0} (write : W → List ℕ → Answer W) where
    write_filled-Counted :
        (again : W → AsyncReader S → Option (Written S W)) (w : W) (f : Filled S)
        → ((next : W) (d : AsyncReader S) → IsCounted n 0 d → CountedWritten (again next d))
        → CountedFilled f
        → CountedWritten (write_filled write again w f)
    unfolding write_filled write_buffer
    write_filled-Counted again w (filled b a) later (e, v) =
        let r = write w (unread b) in
        let moved : IsCounted n 0 (record a { cur = some (increment b r.count) }) = record {
          tokens = ground arith;
          pooled = ground arith;
        } in
        elim (Bool-cases (is_some r.error)) [
          | inl bad ↦ rw bad moved
          | inr good ↦ rw good (elim (Bool-cases (is_some b.err)) [
            | inl ends ↦ rw ends (record { tokens = moved.tokens; pooled = moved.pooled })
            | inr goes ↦ rw goes (CountedWritten-append _ _ (later r.next _ moved))
          ])
        ]
    write_filled-Counted again w (failed e a) later v = v
    write_filled-Counted again w (waiting a) later v = v

    write_to-Counted :
        (fuel : ℕ) (w : W) (a : AsyncReader S)
        → IsCounted n 0 a
        → CountedWritten (write_to write fuel w a)
    unfolding write_to
    write_to-Counted zero w a v = tt
    write_to-Counted (suc fuel) w a v =
        write_filled-Counted (write_to write fuel) w (fill a)
          (λ next d h. write_to-Counted fuel next d h) (fill-Counted a v)

module _ {S : Type 0} {rd : S → ℕ → Reply S} {s : S} {n : ℕ} where
  Runs-IsCounted :
      {a : AsyncReader S} {stream : List ℕ} {c : ℕ} → Runs rd s n a stream c → IsCounted n 0 a
  unfolding stop
  Runs-IsCounted starts = init-IsCounted n s
  Runs-IsCounted (produces {a = a} fuel r run can e) =
      hand_over-IsCounted n r a can (Runs-IsCounted run)
  Runs-IsCounted (finishes {a = a} run) = finish-IsCounted n a (Runs-IsCounted run)
  Runs-IsCounted (stops {a = a} run) =
      let v = Runs-IsCounted run in record { tokens = v.tokens; pooled = v.pooled }
  Runs-IsCounted (reads {a = a} k bytes e run h) =
      subst (CountedRead n) h (read-IsCounted n k a (Runs-IsCounted run))
  Runs-IsCounted (waits {a = a} k run h) =
      subst (CountedRead n) h (read-IsCounted n k a (Runs-IsCounted run))
  Runs-IsCounted (skips {a = a} k run h) =
      subst (CountedSkip n) h (skip_bytes-Counted n (pos k) a (Runs-IsCounted run))
  Runs-IsCounted (rewinds {a = a} k run h) =
      subst (CountedSkip n) h (skip_bytes-Counted n (negsuc k) a (Runs-IsCounted run))
  Runs-IsCounted (writes {a = a} write w r v run h) =
      subst (CountedWritten n) h
        (write_to-Counted n write (length a.ready + 2) w a (Runs-IsCounted run))

  -- After any interleaving, whenever the goroutine may take a token there is room in the channel
  -- `ready` of capacity `n`, so that its send does not block, and `token` is within its capacity.
  pub Runs-room :
      {a : AsyncReader S} {stream : List ℕ} {c : ℕ}
      → Runs rd s n a stream c
      → can_produce a ≡ true
      → (length a.ready < n) × (a.token ≤ n)
  unfolding can_produce
  Runs-room {a} run e = let v = Runs-IsCounted run in (ground arith, omega arith)

  -- After any interleaving that ended the goroutine, Abandon returns every buffer to the pool.
  pub Runs-drain :
      {a : AsyncReader S} {stream : List ℕ} {c : ℕ}
      → Runs rd s n a stream c
      → a.exited ≡ true
      → ((drain a).held ≡ 0) × ((drain a).ready ≡ []) × ((drain a).cur ≡ none)
  unfolding drain put_cur
  Runs-drain {a} run e = let v = Runs-IsCounted run in ground arith

  -- The same after a call of SkipBytes that failed on the way.
  pub skip_bytes-drain :
      {a a' : AsyncReader S} {stream : List ℕ} {c : ℕ} (z : ℤ)
      → Runs rd s n a stream c
      → skip_bytes z a ≡ some (false, a')
      → a'.exited ≡ true
      → (drain a').held ≡ 0
  unfolding drain put_cur
  skip_bytes-drain {a} {a'} z run h e =
      let w = subst (CountedSkip n) h (skip_bytes-Counted n z a (Runs-IsCounted run)) in
      ground arith
