-- ===== src/AsyncReader/Delivery.antt =====
-- pkg/asyncreader/asyncreader.go: WriteTo hands over all that was read, to a writer that never fails.
use mathlib.Core.Path.{subst}
use fa.Prelude.{
  ℕ, zero, suc, ◌+◌, ◌<◌, ◌≡◌, refl, sym, ap, ◌∙◌, inl, inr, Bool, true, false, Option, none, some,
  List, [], ◌∷◌, ◌++◌, append-nil, length, length-drop, take, drop, arith, Bool-cases, leb,
}
use fa.AsyncReader.{
  Buffer, is_empty, is_some, unread, increment, AsyncReader, Reply, Filled, filled, failed, waiting,
  fill,
}
use fa.AsyncReader.Position.{queued, At, move-At, unread-At}
use fa.AsyncReader.Stream.{FillAt, fill-At}
use fa.AsyncReader.Passes.{
  Shorter, fill-Shorter, Shorter-within, fill-within, FillRest, fill-FillRest, EndsWell-last,
  At-nothing,
}
use fa.AsyncReader.Writing.{
  Answer, Written, write_buffer, write_filled, write_to, IsWriter, drop_add, drop-prefix,
}
use fa.AsyncReader.Runs.{Runs, Runs-At}

-- No call of Write fails.
abbrev pub IsFaultless : {W : Type 0} → (W → List ℕ → Answer W) → Type 0
IsFaultless {W} write = (w : W) (bytes : List ℕ) → is_some (write w bytes).error ≡ false

-- All that is left of the stream was written, and `x` is whether WriteTo has ended.
abbrev WholeAt : {S W : Type 0} → List ℕ → ℕ → Bool → Option (Written S W) → Type 0
WholeAt stream c x none = ⊥
WholeAt stream c x (some r) = (r.bytes ≡ drop c stream) × (r.ended ≡ x)

-- A later pass, whose current buffer is served.
abbrev Later : (S : Type 0) {W : Type 0} → List ℕ → Bool → (W → List ℕ → Answer W) → ℕ → Type 0
Later S {W} stream x write fuel =
    (next : W) (d : AsyncReader S) (k : ℕ)
    → length d.ready < fuel
    → d.exited ≡ x
    → is_empty d.cur ≡ true
    → At d.exited d.cur d.ready stream k
    → WholeAt stream k x (write_to write fuel next d)

WholeAt-result :
    {S W : Type 0} (stream : List ℕ) (c : ℕ) (x : Bool) (o : Option (Written S W))
    → WholeAt stream c x o
    → (r : Written S W) × (o ≡ some r) × (r.bytes ≡ drop c stream) × (r.ended ≡ x)
WholeAt-result stream c x none h = absurd h
WholeAt-result stream c x (some r) (e, f) = (r, refl, e, f)

take_exact : (n : ℕ) (xs : List ℕ) → n ≡ length xs → take n xs ≡ xs
take_exact zero [] e = refl
take_exact zero (x ∷ xs) e = absurd (omega (arith, e))
take_exact (suc n) [] e = absurd (omega (arith, e))
take_exact (suc n) (x ∷ xs) e = ap (◌∷◌ x) (take_exact n xs (omega (arith, e)))

module _ {S W : Type 0} (stream : List ℕ) (x : Bool) where
  WholeAt-append :
      (c : ℕ) (bytes later : List ℕ) (o : Option (Written S W))
      → drop c stream ≡ bytes ++ later
      → WholeAt stream (c + length bytes) x o
      → WholeAt stream c x
          (elim o [ none ↦ none | some t ↦ some (record t { bytes = bytes ++ t.bytes }) ])
  WholeAt-append c bytes later none h v = v
  WholeAt-append c bytes later (some t) h (e, v) =
      let rest : t.bytes ≡ later =
        e
        ∙ drop_add c (length bytes) stream
        ∙ ap (drop (length bytes)) h
        ∙ drop-prefix bytes later in
      (ap (◌++◌ bytes) rest ∙ sym h, v)

  module _ (write : W → List ℕ → Answer W) (v : IsWriter write) (f : IsFaultless write) where
    -- A pass: its buffer is written whole, and is the last one if it has an error.
    write_buffer-WholeAt :
        (again : W → AsyncReader S → Option (Written S W)) (b : Buffer) (w : W) (a : AsyncReader S)
        (c : ℕ)
        → a.exited ≡ x
        → At a.exited (some b) a.ready stream c
        → ((next : W) (d : AsyncReader S)
            → d.ready ≡ a.ready
            → d.exited ≡ x
            → is_empty d.cur ≡ true
            → At d.exited d.cur d.ready stream (c + length (unread b))
            → WholeAt stream (c + length (unread b)) x (again next d))
        → WholeAt stream c x (write_buffer write again b (write w (unread b)) a)
    unfolding write_buffer is_empty
    write_buffer-WholeAt again b w a c same h next =
        let r = write w (unread b) in
        let good = f w (unread b) in
        let all : r.count ≡ length (unread b) = v.whole w (unread b) good in
        let moved = move-At b a.ready r.count (omega (arith, all)) h in
        let bytes : take r.count (unread b) ≡ unread b = take_exact r.count (unread b) all in
        let split = unread-At b a.ready h in
        rw good (elim (Bool-cases (is_some b.err)) [
          | inl ends ↦
              let (out, none_left) = EndsWell-last a.exited b a.ready h.last ends in
              rw ends (
                bytes
                    ∙ sym (append-nil (unread b))
                    ∙ ap (λ l. unread b ++ queued l) (sym none_left)
                    ∙ sym split,
                sym out ∙ same,
              )
          | inr goes ↦
              let done : leb (length b.buf) (b.offset + r.count) ≡ true =
                ground (arith, all, h.inside, length-drop b.offset b.buf) in
              let here : At a.exited (some (increment b r.count)) a.ready stream
                  (c + length (unread b)) =
                rw (← all) moved in
              let place : c + length (unread b) ≡ c + length (take r.count (unread b)) =
                ap (λ xs. c + length xs) (sym bytes) in
              let rest = again r.next (record a { cur = some (increment b r.count) }) in
              rw goes (
                WholeAt-append c (take r.count (unread b)) (queued a.ready) rest
                  (split ∙ ap (λ xs. xs ++ queued a.ready) (sym bytes))
                  (subst (λ n. WholeAt stream n x rest) place
                    (next r.next (record a { cur = some (increment b r.count) }) refl same done
                      here)))
        ])

    write_filled-WholeAt :
        (fuel : ℕ) (w : W) (c : ℕ) (g : Filled S)
        → Later S stream x write fuel
        → FillAt stream c g
        → FillRest x g
        → Shorter fuel g
        → WholeAt stream c x (write_filled write (write_to write fuel) w g)
    unfolding write_filled
    write_filled-WholeAt fuel w c (filled b d) later h same s =
        write_buffer-WholeAt (write_to write fuel) b w d c same h.1
          (λ next e q out done at. later next e _ (rw q s) out done at)
    write_filled-WholeAt fuel w c (failed e d) later h (out, no_cur, no_ready) s =
        (sym (At-nothing d.cur d.ready no_cur no_ready h), sym out)
    write_filled-WholeAt fuel w c (waiting d) later h (out, no_cur, no_ready) s =
        (sym (At-nothing d.cur d.ready no_cur no_ready h), sym out)

    write_to-later : (fuel : ℕ) → Later S stream x write fuel
    unfolding write_to
    write_to-later zero w a c l same e h = absurd (omega arith)
    write_to-later (suc fuel) w a c l same e h =
        write_filled-WholeAt fuel w c (fill a) (write_to-later fuel)
          (fill-At stream c a a.cur refl h) (rw (← same) (fill-FillRest a a.cur refl))
          (Shorter-within (length a.ready) fuel (fill a) (omega arith)
            (fill-Shorter a a.cur refl e))

    write_to-WholeAt :
        (w : W) (a : AsyncReader S) (c : ℕ)
        → a.exited ≡ x
        → At a.exited a.cur a.ready stream c
        → WholeAt stream c x (write_to write (length a.ready + 2) w a)
    unfolding write_to
    write_to-WholeAt w a c same h =
        let fuel : length a.ready + 2 ≡ suc (length a.ready + 1) = omega arith in
        rw fuel (
          write_filled-WholeAt (length a.ready + 1) w c (fill a)
            (write_to-later (length a.ready + 1)) (fill-At stream c a a.cur refl h)
            (rw (← same) (fill-FillRest a a.cur refl))
            (Shorter-within (suc (length a.ready)) (length a.ready + 1) (fill a) (omega arith)
              (fill-within a a.cur refl)))

-- After any interleaving WriteTo, to a writer that never fails, returns or waits within a pass for
-- each queued buffer and two more: it has written all that the goroutine has read and the consumer has
-- not taken, nothing else, and it has ended exactly when the goroutine has; otherwise it waits.
pub write_to-stream :
    {S W : Type 0} {rd : S → ℕ → Reply S} {s : S} {n : ℕ} {a : AsyncReader S} {stream : List ℕ}
    {c : ℕ} (write : W → List ℕ → Answer W)
    → IsWriter write
    → IsFaultless write
    → (w : W) → Runs rd s n a stream c
    → (r : Written S W) × (write_to write (length a.ready + 2) w a ≡ some r)
      × (r.bytes ≡ drop c stream)
      × (r.ended ≡ a.exited)
write_to-stream {a} {stream} {c} write v f w run =
    WholeAt-result stream c a.exited _
      (write_to-WholeAt stream a.exited write v f w a c refl (Runs-At run))
