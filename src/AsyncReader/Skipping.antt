-- ===== src/AsyncReader/Skipping.antt =====
-- pkg/asyncreader/asyncreader.go: SkipBytes moves the consumer in the stream, and its loop ends.
use mathlib.Core.Path.{subst}
use native.Mathlib.Nat.{add-zero}
use fa.Prelude.{
  ℕ, zero, suc, ◌+◌, ◌-◌, ◌≤◌, ◌<◌, ◌≡◌, refl, sym, inl, inr, Bool, true, false, Option, none, some,
  List, [], ◌∷◌, length, length-drop, arith, Bool-cases, ltb, leb, leb→le, ◌==◌, ◌*◌,
}
use fa.Prelude.Int.{pos, negsuc}
use fa.AsyncReader.{
  Buffer, is_empty, is_some, unread, increment, AsyncReader, buffer_size, put_cur, skip_by,
  skip_over, skip_next, skip_loop, skip_back, skip_bytes,
}
use fa.AsyncReader.Position.{At, put-At, receive-At, move-At, back-At}

-- A skip of `k` bytes from `c` returns; the consumer is `k` bytes on if it is done, and else between.
abbrev pub SkipAt : {S : Type 0} → List ℕ → ℕ → ℕ → Option (Bool × AsyncReader S) → Type 0
SkipAt stream c k none = ⊥
SkipAt stream c k (some (true, a)) = At a.exited a.cur a.ready stream (c + k)
SkipAt stream c k (some (false, a)) = (d : ℕ) × (d ≤ k) × At a.exited a.cur a.ready stream (c + d)

-- A skip of `k` bytes back from `c`.
abbrev pub BackAt : {S : Type 0} → List ℕ → ℕ → ℕ → Option (Bool × AsyncReader S) → Type 0
BackAt stream c k none = ⊥
BackAt stream c k (some (true, a)) = (k ≤ c) × At a.exited a.cur a.ready stream (c - k)
BackAt stream c k (some (false, a)) = At a.exited a.cur a.ready stream c

module _ {S : Type 0} (stream : List ℕ) where
  SkipAt-add :
      (c n k : ℕ) (r : Option (Bool × AsyncReader S))
      → n ≤ k
      → SkipAt stream (c + n) (k - n) r
      → SkipAt stream c k r
  SkipAt-add c n k none h v = v
  SkipAt-add c n k (some (true, a)) h v = subst (At a.exited a.cur a.ready stream) (omega arith) v
  SkipAt-add c n k (some (false, a)) h (d, l, v) =
      (n + d, omega arith, subst (At a.exited a.cur a.ready stream) (omega arith) v)

  -- The next pass, if there is one, comes after the whole buffer.
  skip_by-At :
      (again : ℕ → ℕ → AsyncReader S → Option (Bool × AsyncReader S)) (n : ℕ) (b : Buffer)
      (refill k c : ℕ) (a : AsyncReader S)
      → At a.exited (some b) a.ready stream c
      → n ≤ k
      → n ≤ length (unread b)
      → (n < k
          → SkipAt stream
              (c + n)
              (k - n)
              (again refill (k - n) (record a { cur = some (increment b n) })))
      → SkipAt stream c k (skip_by again n b refill k a)
  unfolding skip_by
  skip_by-At again n b refill k c a v short fits next =
      let moved = move-At b a.ready n fits v in
      elim (Bool-cases (k - n == 0)) [
        | inl done ↦ rw done (subst (At a.exited _ a.ready stream) (ground arith) moved)
        | inr more ↦ rw more (elim (Bool-cases (is_some b.err)) [
          | inl ends ↦ rw ends (n, short, moved)
          | inr goes ↦ rw goes (SkipAt-add c n k _ short (next (ground arith)))
        ])
      ]

  skip_over-At :
      (again : ℕ → ℕ → AsyncReader S → Option (Bool × AsyncReader S)) (b : Buffer) (refill k c : ℕ)
      (a : AsyncReader S)
      → At a.exited (some b) a.ready stream c
      → (is_empty (some (increment b (length (unread b)))) ≡ true
          → At a.exited
              (some (increment b (length (unread b))))
              a.ready
              stream
              (c + length (unread b))
          → SkipAt stream (c + length (unread b)) (k - length (unread b)) (
              again refill
                (k - length (unread b))
                (record a { cur = some (increment b (length (unread b))) })))
      → SkipAt stream c k (skip_over again b refill k a)
  unfolding skip_over is_empty
  skip_over-At again b refill k c a v next = elim (Bool-cases (ltb k (length (unread b)))) [
    | inl short ↦
        rw short (
          skip_by-At again k b refill k c a v (omega arith) (ground arith)
            λ h. absurd (omega arith))
    | inr long ↦ rw long (
        skip_by-At again (length (unread b)) b refill k c a v (ground arith) (omega arith) λ h.
          next (ground (arith, length-drop b.offset b.buf, v.inside))
            (move-At b a.ready (length (unread b)) (omega arith) v))
  ]

  -- Every pass but the first takes a buffer from the queue, so the fuel is enough.
  skip_next-At :
      (again : ℕ → ℕ → AsyncReader S → Option (Bool × AsyncReader S)) (refill k c : ℕ)
      (a : AsyncReader S) (ready : List Buffer)
      → a.ready ≡ ready
      → a.cur ≡ none
      → At a.exited none ready stream c
      → ((refill' k' c' : ℕ) (a' : AsyncReader S)
          → length a'.ready < length ready
          → is_empty a'.cur ≡ true
          → At a'.exited a'.cur a'.ready stream c'
          → SkipAt stream c' k' (again refill' k' a'))
      → SkipAt stream c k (skip_next again refill k a)
  unfolding skip_next
  skip_next-At again refill k c a [] q e v next =
      rw (q, skip_next)
        (0, omega arith, rw (e, q) (subst (At a.exited none [] stream) (sym (add-zero c)) v))
  skip_next-At again refill k c a (b ∷ rest) q e v next =
      rw (q, skip_next)
        (skip_over-At again b refill k c (record a { ready = rest; cur = some b })
          (receive-At b rest v) λ done moved. next _ _ _ _ (omega arith) done moved)

  skip_loop-At :
      (fuel refill k c : ℕ) (a : AsyncReader S) (cur : Option Buffer)
      → a.cur ≡ cur
      → is_empty cur ≡ true
      → length a.ready < fuel
      → At a.exited cur a.ready stream c
      → SkipAt stream c k (skip_loop fuel refill k a)
  unfolding skip_loop put_cur
  skip_loop-At zero refill k c a cur e done h v = absurd (omega arith)
  skip_loop-At (suc fuel) refill k c a none e done h v =
      rw (e, skip_loop)
        (skip_next-At _ refill k c a a.ready refl e v λ refill' k' c' a' l d w.
          skip_loop-At fuel refill' k' c' a' a'.cur refl d (omega arith) w)
  skip_loop-At (suc fuel) refill k c a (some b) e done h v =
      rw (e, skip_loop)
        (rw (done, e, put_cur)
          (skip_next-At _ (refill + 1) k c _ a.ready refl refl (put-At (some b) a.ready done v)
            λ refill' k' c' a' l d w.
              skip_loop-At fuel refill' k' c' a' a'.cur refl d (omega arith) w))

  skip_first-At :
      (fuel k c : ℕ) (a : AsyncReader S) (cur : Option Buffer)
      → a.cur ≡ cur
      → length a.ready + 1 < fuel
      → At a.exited cur a.ready stream c
      → SkipAt stream c k (skip_loop fuel 0 k a)
  unfolding skip_loop
  skip_first-At zero k c a cur e h v = absurd (omega arith)
  skip_first-At (suc fuel) k c a none e h v =
      skip_loop-At (suc fuel) 0 k c a none e refl (omega arith) v
  skip_first-At (suc fuel) k c a (some b) e h v = elim (Bool-cases (is_empty (some b))) [
    | inl done ↦ skip_loop-At (suc fuel) 0 k c a (some b) e done (omega arith) v
    | inr more ↦
        rw (e, skip_loop)
          (rw more (
            skip_over-At (skip_loop fuel) b 0 k c a v
              λ done moved. skip_loop-At fuel 0 _ _ _ _ refl done (omega arith) moved))
  ]

  skip_first_from :
      (fuel k c : ℕ) (a : AsyncReader S)
      → length a.ready + 1 < fuel
      → At a.exited a.cur a.ready stream c
      → SkipAt stream c k (skip_loop fuel 0 k a)
  skip_first_from fuel k c a h v = skip_first-At fuel k c a a.cur refl h v

  -- A call of SkipBytes for `k` bytes forward always returns. If it is done the consumer is exactly
  -- `k` bytes further in the stream, and if not it is at most `k` bytes further.
  pub skip_bytes-At :
      (k c : ℕ) (a : AsyncReader S)
      → At a.exited a.cur a.ready stream c
      → SkipAt stream c k (skip_bytes (pos k) a)
  unfolding skip_bytes
  skip_bytes-At k c a v = elim (Bool-cases (is_some a.err)) [
    | inl bad ↦ rw bad stays
    | inr good ↦ rw good (elim (Bool-cases (leb ((length a.ready + 1) * buffer_size) k)) [
      | inl far ↦ rw far stays
      | inr near ↦ rw near (skip_first_from (length a.ready + 2) k c a (omega arith) v)
    ])
  ]
    where
      stays : SkipAt stream c k (some (false, a))
      stays = (0, omega arith, subst (At a.exited a.cur a.ready stream) (sym (add-zero c)) v)

  skip_back-At :
      (k c : ℕ) (a : AsyncReader S) (cur : Option Buffer)
      → a.cur ≡ cur
      → At a.exited cur a.ready stream c
      → BackAt stream c k (some (skip_back k a))
  unfolding skip_back
  skip_back-At k c a none e v = rw (e, skip_back) (rw e v)
  skip_back-At k c a (some b) e v = elim (Bool-cases (leb k b.offset)) [
    | inl inside ↦
        rw (e, skip_back)
          (rw inside (
            omega (arith, v.place, leb→le k b.offset inside),
            back-At b a.ready k (ground arith) v,
          ))
    | inr outside ↦ rw (e, skip_back) (rw outside (rw e v))
  ]

  -- A call of SkipBytes for `suc k` bytes back returns. If it is done there were as many bytes before
  -- the consumer, which is now exactly that far back, and if not it has not moved.
  pub skip_bytes-BackAt :
      (k c : ℕ) (a : AsyncReader S)
      → At a.exited a.cur a.ready stream c
      → BackAt stream c (suc k) (skip_bytes (negsuc k) a)
  unfolding skip_bytes
  skip_bytes-BackAt k c a v = elim (Bool-cases (is_some a.err)) [
    | inl bad ↦ rw bad v
    | inr good ↦ rw good (skip_back-At (suc k) c a a.cur refl v)
  ]
