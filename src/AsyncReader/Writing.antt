-- ===== src/AsyncReader/Writing.antt =====
-- pkg/asyncreader/asyncreader.go: WriteTo, to a writer that is a parameter, as io.Writer is.
use mathlib.Core.Path.{subst}
use native.Mathlib.Nat.{add-zero}
use fa.Prelude.{
  ℕ, zero, suc, ◌+◌, ◌≤◌, ◌<◌, ◌≡◌, refl, sym, ap, ◌∙◌, inl, inr, Bool, true, false, Option, none,
  some, List, [], ◌∷◌, ◌++◌, length, length-append, length-take, length-drop, take, drop,
  take-append-drop, append_assoc, arith, Bool-cases, if◌then◌else◌, leb,
}
use fa.AsyncReader.{
  Error, eof, Buffer, is_empty, is_some, unread, increment, AsyncReader, Filled, filled, failed,
  waiting, fill,
}
use fa.AsyncReader.Position.{queued, At, move-At, unread-At}
use fa.AsyncReader.Stream.{FillAt, fill-At}
use fa.AsyncReader.Passes.{Shorter, fill-Shorter, Shorter-within, fill-within}

-- What a call of Write answers: how many bytes it took, its error, and the writer after it.
pub record Answer (W : Type 0) : Type 0 where
  pub count : ℕ
  pub error : Option Error
  pub next : W

-- The bytes that were written, whether WriteTo has ended, and with which error.
pub record Written (S W : Type 0) : Type 0 where
  pub bytes : List ℕ
  pub ended : Bool
  pub error : Option Error
  pub writer : W
  pub reader : AsyncReader S

-- What WriteTo returns of an error of the reader: none at its end.
unfoldable pub end_error : Error → Option Error
end_error eof = none
end_error e = some e

unfoldable pub end_of : Option Error → Option Error
unfolding end_error
end_of none = none
end_of (some e) = end_error e

module _ {S W : Type 0} (write : W → List ℕ → Answer W) where
  -- A pass of the loop, after `fill`; `again` is the next one.
  unfoldable pub write_buffer :
      (W → AsyncReader S → Option (Written S W))
      → Buffer
      → Answer W
      → AsyncReader S
      → Option (Written S W)
  unfolding end_of
  write_buffer again b r a =
      let bytes = take r.count (unread b) in
      let a' = record a { cur = some (increment b r.count) } in
      let rest = again r.next a' in
      if is_some r.error
      then some
          (record { bytes = bytes; ended = true; error = r.error; writer = r.next; reader = a' })
      else if is_some b.err
      then some (record {
        bytes = bytes;
        ended = true;
        error = end_of b.err;
        writer = r.next;
        reader = record a' { err = b.err };
      })
      else elim rest [ none ↦ none | some t ↦ some (record t { bytes = bytes ++ t.bytes }) ]

  unfoldable pub write_filled :
      (W → AsyncReader S → Option (Written S W)) → W → Filled S → Option (Written S W)
  unfolding write_buffer end_error
  write_filled again w (filled b a) = write_buffer again b (write w (unread b)) a
  write_filled again w (failed e a) =
      some (record { bytes = []; ended = true; error = end_error e; writer = w; reader = a })
  write_filled again w (waiting a) =
      some (record { bytes = []; ended = false; error = none; writer = w; reader = a })

  -- WriteTo, up to its end or until `fill` waits for the goroutine. `none`: the fuel ran out.
  unfoldable pub write_to : ℕ → W → AsyncReader S → Option (Written S W)
  unfolding write_filled fill
  write_to zero w a = none
  write_to (suc fuel) w a = write_filled (write_to fuel) w (fill a)

-- What io.Writer documents: no more bytes than were given, and an error if it is fewer.
pub record IsWriter {W : Type 0} (write : W → List ℕ → Answer W) : Type 0 where
  pub fits : (w : W) (bytes : List ℕ) → (write w bytes).count ≤ length bytes
  pub whole :
      (w : W) (bytes : List ℕ)
      → is_some (write w bytes).error ≡ false
      → (write w bytes).count ≡ length bytes

-- The bytes that were written from `c` on are those of the stream, and the consumer stands after them.
abbrev pub WrittenAt : {S W : Type 0} → List ℕ → ℕ → Option (Written S W) → Type 0
WrittenAt stream c none = ⊥
WrittenAt stream c (some r) =
    At r.reader.exited r.reader.cur r.reader.ready stream (c + length r.bytes)
    × ((later : List ℕ) × (drop c stream ≡ r.bytes ++ later))

drop_nil : (m : ℕ) → drop {A = ℕ} m [] ≡ []
drop_nil zero = refl
drop_nil (suc m) = refl

pub drop_add : (c m : ℕ) (xs : List ℕ) → drop (c + m) xs ≡ drop m (drop c xs)
drop_add zero m xs = ap (λ k. drop k xs) (omega arith)
drop_add (suc c) m [] = drop_nil (suc c + m) ∙ sym (drop_nil m)
drop_add (suc c) m (x ∷ xs) =
    let shift : suc c + m ≡ suc (c + m) = omega arith in rw shift (drop_add c m xs)

pub drop-prefix : (xs ys : List ℕ) → drop (length xs) (xs ++ ys) ≡ ys
drop-prefix [] ys = refl
drop-prefix (x ∷ xs) ys = drop-prefix xs ys

module _ {S W : Type 0} (stream : List ℕ) where
  WrittenAt-append :
      (c : ℕ) (bytes later : List ℕ) (o : Option (Written S W))
      → drop c stream ≡ bytes ++ later
      → WrittenAt stream (c + length bytes) o
      → WrittenAt stream c
          (elim o [ none ↦ none | some t ↦ some (record t { bytes = bytes ++ t.bytes }) ])
  WrittenAt-append c bytes later none h v = v
  WrittenAt-append c bytes later (some t) h (v, (last, e)) =
      let place : c + length bytes + length t.bytes ≡ c + length (bytes ++ t.bytes) =
        omega (arith, length-append bytes t.bytes) in
      let rest : later ≡ t.bytes ++ last =
        sym (drop-prefix bytes later)
        ∙ ap (drop (length bytes)) (sym h)
        ∙ sym (drop_add c (length bytes) stream)
        ∙ e in
      (
        subst (At t.reader.exited t.reader.cur t.reader.ready stream) place v,
        (last, h ∙ ap (◌++◌ bytes) rest ∙ sym (append_assoc bytes t.bytes last)),
      )

  module _ (write : W → List ℕ → Answer W) (v : IsWriter write) where
    write_buffer-At :
        (again : W → AsyncReader S → Option (Written S W)) (b : Buffer) (w : W) (a : AsyncReader S)
        (c : ℕ)
        → At a.exited (some b) a.ready stream c
        → ((next : W) (d : AsyncReader S)
            → d.ready ≡ a.ready
            → is_empty d.cur ≡ true
            → At d.exited d.cur d.ready stream (c + length (unread b))
            → WrittenAt stream (c + length (unread b)) (again next d))
        → WrittenAt stream c (write_buffer write again b (write w (unread b)) a)
    unfolding write_buffer is_empty
    write_buffer-At again b w a c h next =
        let r = write w (unread b) in
        let fits = v.fits w (unread b) in
        let count : length (take r.count (unread b)) ≡ r.count =
          omega (arith, length-take r.count (unread b)) in
        let moved = move-At b a.ready r.count fits h in
        let there : At a.exited (some (increment b r.count)) a.ready stream
            (c + length (take r.count (unread b))) =
          rw count moved in
        let split : drop c stream
            ≡ take r.count (unread b) ++ (drop r.count (unread b) ++ queued a.ready) =
          unread-At b a.ready h
          ∙ ap (λ xs. xs ++ queued a.ready) (sym (take-append-drop r.count (unread b)))
          ∙ append_assoc (take r.count (unread b)) (drop r.count (unread b)) (queued a.ready) in
        elim (Bool-cases (is_some r.error)) [
          | inl bad ↦ rw bad (there, (_, split))
          | inr good ↦ rw good (elim (Bool-cases (is_some b.err)) [
            | inl ends ↦ rw ends (there, (_, split))
            | inr goes ↦
                let all : r.count ≡ length (unread b) = v.whole w (unread b) good in
                let place : c + length (unread b) ≡ c + length (take r.count (unread b)) =
                  omega (arith, count, all) in
                let done : leb (length b.buf) (b.offset + r.count) ≡ true =
                  ground (arith, all, h.inside, length-drop b.offset b.buf) in
                let here : At a.exited (some (increment b r.count)) a.ready stream
                    (c + length (unread b)) =
                  rw (← all) moved in
                let rest = again r.next (record a { cur = some (increment b r.count) }) in
                rw goes (
                  WrittenAt-append c (take r.count (unread b))
                    (drop r.count (unread b) ++ queued a.ready) rest split
                    (subst (λ n. WrittenAt stream n rest) place
                      (next r.next (record a { cur = some (increment b r.count) }) refl done here)))
          ])
        ]

    write_filled-At :
        (fuel : ℕ) (w : W) (c : ℕ)
        → ((next : W) (d : AsyncReader S) (k : ℕ)
            → length d.ready < fuel
            → is_empty d.cur ≡ true
            → At d.exited d.cur d.ready stream k
            → WrittenAt stream k (write_to write fuel next d))
        → (f : Filled S) → FillAt stream c f
        → Shorter fuel f
        → WrittenAt stream c (write_filled write (write_to write fuel) w f)
    unfolding write_filled
    write_filled-At fuel w c later (filled b d) g s =
        write_buffer-At (write_to write fuel) b w d c g.1
          (λ next e q done h. later next e _ (rw q s) done h)
    write_filled-At fuel w c later (failed x d) g s =
        (subst (At d.exited d.cur d.ready stream) (sym (add-zero c)) g, (drop c stream, refl))
    write_filled-At fuel w c later (waiting d) g s =
        (subst (At d.exited d.cur d.ready stream) (sym (add-zero c)) g, (drop c stream, refl))

    -- A later pass: the buffer is empty.
    write_to-later :
        (fuel : ℕ) (w : W) (a : AsyncReader S) (c : ℕ)
        → length a.ready < fuel
        → is_empty a.cur ≡ true
        → At a.exited a.cur a.ready stream c
        → WrittenAt stream c (write_to write fuel w a)
    unfolding write_to
    write_to-later zero w a c l e h = absurd (omega arith)
    write_to-later (suc fuel) w a c l e h =
        write_filled-At fuel w c (λ next d k. write_to-later fuel next d k) (fill a)
          (fill-At stream c a a.cur refl h)
          (Shorter-within (length a.ready) fuel (fill a) (omega arith)
            (fill-Shorter a a.cur refl e))

    pub write_to-At :
        (w : W) (a : AsyncReader S) (c : ℕ)
        → At a.exited a.cur a.ready stream c
        → WrittenAt stream c (write_to write (length a.ready + 2) w a)
    unfolding write_to
    write_to-At w a c h =
        let fuel : length a.ready + 2 ≡ suc (length a.ready + 1) = omega arith in
        rw fuel (
          write_filled-At (length a.ready + 1) w c
            (λ next d k. write_to-later (length a.ready + 1) next d k) (fill a)
            (fill-At stream c a a.cur refl h)
            (Shorter-within (suc (length a.ready)) (length a.ready + 1) (fill a) (omega arith)
              (fill-within a a.cur refl)))
