-- ===== src/AsyncReader/Passes.antt =====
-- pkg/asyncreader/asyncreader.go: what a pass of a loop over `fill` uses up.
use fa.Prelude.{
  ℕ, suc, ◌≤◌, ◌<◌, ◌≡◌, refl, inl, inr, Bool, true, false, Option, none, some, List, [], ◌∷◌,
  length, drop, drop_past, arith, Bool-cases,
}
use fa.AsyncReader.{
  Buffer, is_empty, is_some, AsyncReader, Filled, filled, failed, waiting, put_cur, receive, fill,
}
use fa.AsyncReader.Position.{EndsWell, At}

module _ {S : Type 0} where
  -- With an empty buffer, or none, `fill` takes the next one from the queue.
  abbrev pub Shorter : ℕ → Filled S → Type 0
  Shorter n (filled b a) = length a.ready < n
  Shorter n _ = Unit

  receive-Shorter :
      (a : AsyncReader S) (ready : List Buffer)
      → a.ready ≡ ready
      → Shorter (length ready) (receive a)
  unfolding receive
  receive-Shorter a [] q = ground arith
  receive-Shorter a (b ∷ rest) q = rw (q, receive) (omega arith)

  pub fill-Shorter :
      (a : AsyncReader S) (cur : Option Buffer)
      → a.cur ≡ cur
      → is_empty cur ≡ true
      → Shorter (length a.ready) (fill a)
  unfolding fill put_cur
  fill-Shorter a none e h = rw (e, fill) (receive-Shorter a a.ready refl)
  fill-Shorter a (some b) e h =
      rw (e, fill) (rw h (rw (e, put_cur) (receive-Shorter _ a.ready refl)))

  pub Shorter-within : (m n : ℕ) (f : Filled S) → m ≤ n → Shorter m f → Shorter n f
  Shorter-within m n (filled b a) l s = omega arith
  Shorter-within m n (failed e a) l s = tt
  Shorter-within m n (waiting a) l s = tt

  pub fill-within :
      (a : AsyncReader S) (cur : Option Buffer)
      → a.cur ≡ cur
      → Shorter (suc (length a.ready)) (fill a)
  unfolding fill
  fill-within a none e =
      Shorter-within (length a.ready) (suc (length a.ready)) (fill a) (omega arith)
        (fill-Shorter a none e refl)
  fill-within a (some b) e = elim (Bool-cases (is_empty (some b))) [
    | inl done ↦
        Shorter-within (length a.ready) (suc (length a.ready)) (fill a) (omega arith)
          (fill-Shorter a (some b) e done)
    | inr more ↦ rw (e, fill) (rw more (omega arith))
  ]

  -- How `fill` ends, by whether the goroutine has.
  abbrev pub FillRest : Bool → Filled S → Type 0
  FillRest x (filled b a) = a.exited ≡ x
  FillRest x (failed e a) = (x ≡ true) × (a.cur ≡ none) × (a.ready ≡ [])
  FillRest x (waiting a) = (x ≡ false) × (a.cur ≡ none) × (a.ready ≡ [])

  receive-FillRest :
      (a : AsyncReader S) (ready : List Buffer)
      → a.ready ≡ ready
      → a.cur ≡ none
      → FillRest a.exited (receive a)
  unfolding receive
  receive-FillRest a [] q e = ground arith
  receive-FillRest a (b ∷ rest) q e = rw (q, receive) refl

  pub fill-FillRest :
      (a : AsyncReader S) (cur : Option Buffer) → a.cur ≡ cur → FillRest a.exited (fill a)
  unfolding fill put_cur
  fill-FillRest a none e = rw (e, fill) (receive-FillRest a a.ready refl e)
  fill-FillRest a (some b) e = elim (Bool-cases (is_empty (some b))) [
    | inl done ↦ rw (e, fill) (rw done (rw (e, put_cur) (receive-FillRest _ a.ready refl refl)))
    | inr more ↦ rw (e, fill) (rw more refl)
  ]

-- A buffer with an error is the last one.
pub EndsWell-last :
    (x : Bool) (b : Buffer) (ready : List Buffer)
    → EndsWell x (b ∷ ready)
    → is_some b.err ≡ true
    → (x ≡ true) × (ready ≡ [])
EndsWell-last x b [] h e = (h e, refl)
EndsWell-last x b (c ∷ rest) h e = ground (arith, h.0)

-- With no buffer left, nothing is left of the stream.
pub At-nothing :
    {x : Bool} {stream : List ℕ} {c : ℕ} (cur : Option Buffer) (ready : List Buffer)
    → cur ≡ none
    → ready ≡ []
    → At x cur ready stream c
    → drop c stream ≡ []
At-nothing none [] p q v = rw (v.whole, v.place) (drop_past v.past [] 0)
At-nothing none (b ∷ rest) p q v = absurd (ground (arith, q))
At-nothing (some b) ready p q v = absurd (ground (arith, p))
