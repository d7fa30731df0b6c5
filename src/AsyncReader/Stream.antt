-- ===== src/AsyncReader/Stream.antt =====
-- pkg/asyncreader/asyncreader.go: the consumer sees the bytes of the supplied reader, in order.
use mathlib.Core.Path.{subst}
use fa.Prelude.{
  ℕ, ◌+◌, ◌≤◌, ◌≡◌, refl, sym, inl, inr, Option, none, some, List, [], ◌∷◌, length, length-take,
  take, drop, take_prefix, arith, Bool-cases,
}
use fa.AsyncReader.{
  Buffer, is_empty, unread, increment, AsyncReader, Filled, filled, failed, waiting, Read, got,
  blocked, put_cur, receive, fill, serve, serve_filled, read,
}
use fa.AsyncReader.Position.{queued, At, put-At, receive-At, move-At, unread-At}

-- Where the consumer stands after `fill`.
abbrev pub FillAt : {S : Type 0} → List ℕ → ℕ → Filled S → Type 0
FillAt stream c (filled b a) = (a.cur ≡ some b) × At a.exited (some b) a.ready stream c
FillAt stream c (failed e a) = At a.exited a.cur a.ready stream c
FillAt stream c (waiting a) = At a.exited a.cur a.ready stream c

-- What `Read` of `n` bytes at `c` may answer.
abbrev pub ReadAt : {S : Type 0} → List ℕ → ℕ → ℕ → Read S → Type 0
ReadAt stream c n (got bytes e a) =
    At a.exited a.cur a.ready stream (c + length bytes)
    × (bytes ≡ take (length bytes) (drop c stream))
    × (length bytes ≤ n)
ReadAt stream c n (blocked a) = At a.exited a.cur a.ready stream c

module _ {S : Type 0} (stream : List ℕ) (c : ℕ) where
  receive-At_fill :
      (a : AsyncReader S) (ready : List Buffer)
      → a.ready ≡ ready
      → a.cur ≡ none
      → At a.exited none ready stream c
      → FillAt stream c (receive a)
  unfolding receive
  receive-At_fill a [] q e v = ground arith
  receive-At_fill a (b ∷ rest) q e v = rw (q, receive) (refl, receive-At b rest v)

  pub fill-At :
      (a : AsyncReader S) (cur : Option Buffer)
      → a.cur ≡ cur
      → At a.exited cur a.ready stream c
      → FillAt stream c (fill a)
  unfolding fill put_cur
  fill-At a none e v = rw (e, fill) (receive-At_fill a a.ready refl e v)
  fill-At a (some b) e v = elim (Bool-cases (is_empty (some b))) [
    | inl done ↦
        rw (e, fill)
          (rw done (
            rw (e, put_cur) (receive-At_fill _ a.ready refl refl (put-At (some b) a.ready done v))))
    | inr more ↦ rw (e, fill) (rw more (e, v))
  ]

  serve-At :
      (n : ℕ) (b : Buffer) (a : AsyncReader S)
      → At a.exited (some b) a.ready stream c
      → ReadAt stream c n (serve n b a)
  unfolding serve
  serve-At n b a v =
      let fits = length-take n (unread b) in
      let moved = move-At b a.ready (length (take n (unread b))) (omega (arith, fits)) v in
      let same : take n (unread b) ≡ take (length (take n (unread b))) (drop c stream) =
        rw (unread-At b a.ready v) (sym (take_prefix n (unread b) (queued a.ready))) in
      elim (Bool-cases (is_empty (some (increment b (length (take n (unread b))))))) [
        | inl done ↦ rw done (moved, same, omega (arith, fits))
        | inr more ↦ rw more (moved, same, omega (arith, fits))
      ]

  serve_filled-At :
      (n : ℕ) (f : Filled S) → FillAt stream c f → ReadAt stream c n (serve_filled n f)
  unfolding serve_filled
  serve_filled-At n (filled b a) (e, v) = serve-At n b a v
  serve_filled-At n (failed e a) v =
      (subst (At a.exited a.cur a.ready stream) (omega arith) v, refl, omega arith)
  serve_filled-At n (waiting a) v = v

  pub read-At :
      (n : ℕ) (a : AsyncReader S)
      → At a.exited a.cur a.ready stream c
      → ReadAt stream c n (read n a)
  unfolding read
  read-At n a v = serve_filled-At n (fill a) (fill-At a a.cur refl v)
