-- ===== src/AsyncReader/Position.antt =====
-- pkg/asyncreader/asyncreader.go: where the consumer stands in the bytes read so far.
use fa.Prelude.{
  ℕ, ◌+◌, ◌-◌, ◌≤◌, ◌≡◌, refl, sym, ap, ◌∙◌, Bool, true, false, Option, none, some, List, [], ◌∷◌,
  ◌++◌, append_assoc, append-nil, length, length-append, length-drop, drop, drop_past, drop_within,
  arith, All,
}
use fa.AsyncReader.{Error, Buffer, is_empty, is_some, unread, increment, init}

abbrev pub cur_bytes : Option Buffer → List ℕ
cur_bytes none = []
cur_bytes (some b) = b.buf

abbrev pub cur_offset : Option Buffer → ℕ
cur_offset none = 0
cur_offset (some b) = b.offset

abbrev pub queued : List Buffer → List ℕ
queued [] = []
queued (b ∷ bs) = b.buf ++ queued bs

queued-append : (xs ys : List Buffer) → queued (xs ++ ys) ≡ queued xs ++ queued ys
queued-append [] ys = refl
queued-append (x ∷ xs) ys = ap (◌++◌ x.buf) (queued-append xs ys) ∙ sym (append_assoc x.buf _ _)

-- Only the last buffer may carry an error, and then the goroutine has ended.
abbrev pub EndsWell : Bool → List Buffer → Type 0
EndsWell x [] = Unit
EndsWell x (b ∷ []) = is_some b.err ≡ true → x ≡ true
EndsWell x (b ∷ c ∷ rest) = (is_some b.err ≡ false) × EndsWell x (c ∷ rest)

abbrev pub held : Option Buffer → List Buffer → List Buffer
held none ready = ready
held (some b) ready = b ∷ ready

EndsWell-tail : (x : Bool) (b : Buffer) (bs : List Buffer) → EndsWell x (b ∷ bs) → EndsWell x bs
EndsWell-tail x b [] h = tt
EndsWell-tail x b (c ∷ bs) h = h.1

EndsWell-offset :
    (x : Bool) (b : Buffer) (n : ℕ) (bs : List Buffer)
    → EndsWell x (b ∷ bs)
    → EndsWell x (record b { offset = n } ∷ bs)
EndsWell-offset x b n [] h = h
EndsWell-offset x b n (c ∷ bs) h = h

EndsWell-true : (x : Bool) (bs : List Buffer) → EndsWell x bs → EndsWell true bs
EndsWell-true x [] h = tt
EndsWell-true x (b ∷ []) h = λ e. refl
EndsWell-true x (b ∷ c ∷ bs) h = (h.0, EndsWell-true x (c ∷ bs) h.1)

EndsWell-put :
    (x : Bool) (cur : Option Buffer) (ready : List Buffer)
    → EndsWell x (held cur ready)
    → EndsWell x ready
EndsWell-put x none ready h = h
EndsWell-put x (some b) ready h = EndsWell-tail x b ready h

-- While the goroutine runs no buffer carries an error.
EndsWell-append :
    (bs : List Buffer) (b : Buffer) → EndsWell false bs → EndsWell (is_some b.err) (bs ++ (b ∷ []))
EndsWell-append [] b h = λ e. e
EndsWell-append (c ∷ []) b h = (first_clean (is_some c.err) h, λ e. e)
  where
    first_clean : (e : Bool) → (e ≡ true → false ≡ true) → e ≡ false
    first_clean true h = sym (h refl)
    first_clean false h = refl
EndsWell-append (c ∷ d ∷ bs) b h = (h.0, EndsWell-append (d ∷ bs) b h.1)

EndsWell-hand_over :
    (cur : Option Buffer) (ready : List Buffer) (b : Buffer)
    → EndsWell false (held cur ready)
    → EndsWell (is_some b.err) (held cur (ready ++ (b ∷ [])))
EndsWell-hand_over none ready b h = EndsWell-append ready b h
EndsWell-hand_over (some c) ready b h = EndsWell-append (c ∷ ready) b h

-- `x` is that the goroutine has ended. The consumer stands at `c` in `stream`, all that was read so far: `past` was served from buffers
-- that are gone, and the rest lies in the current buffer and in the queue.
pub record At (x : Bool) (cur : Option Buffer) (ready : List Buffer) (stream : List ℕ) (c : ℕ)
    : Type 0 where
  pub past : List ℕ
  pub whole : stream ≡ past ++ (cur_bytes cur ++ queued ready)
  pub place : c ≡ length past + cur_offset cur
  pub inside : cur_offset cur ≤ length (cur_bytes cur)
  pub fresh : All (λ b. b.offset ≡ 0) ready
  pub last : EndsWell x (held cur ready)

pub served : (cur : Option Buffer) → is_empty cur ≡ true → length (cur_bytes cur) ≤ cur_offset cur
unfolding is_empty
served none e = omega arith
served (some b) e = ground arith

All-append {ℓ κ} :
    {A : Type ℓ} (P : A → Type κ) (xs ys : List A) → All P xs → All P ys → All P (xs ++ ys)
All-append P [] ys hx hy = hy
All-append P (x ∷ xs) ys hx hy = (hx.0, All-append P xs ys hx.1 hy)

module _ {stream : List ℕ} {c : ℕ} where
  pub hand_over-At :
      (cur : Option Buffer) (ready : List Buffer) (bytes : List ℕ) (e : Option Error)
      → At false cur ready stream c
      → At
          (is_some e)
          cur
          (ready ++ record { buf = bytes; err = e; offset = 0 } ∷ [])
          (stream ++ bytes)
          c
  hand_over-At cur ready bytes e v = record {
    past = v.past;
    whole = simp (v.whole, queued-append, append_assoc, append-nil);
    place = v.place;
    inside = v.inside;
    fresh = All-append _ ready _ v.fresh (refl, tt);
    last = EndsWell-hand_over cur ready (record { buf = bytes; err = e; offset = 0 }) v.last;
  }

module _ {x : Bool} {stream : List ℕ} {c : ℕ} where
  -- An empty buffer is put back.
  pub put-At :
      (cur : Option Buffer) (ready : List Buffer)
      → is_empty cur ≡ true
      → At x cur ready stream c
      → At x none ready stream c
  put-At cur ready e v = record {
    past = v.past ++ cur_bytes cur;
    whole = v.whole ∙ sym (append_assoc v.past (cur_bytes cur) (queued ready));
    place = omega (arith, length-append v.past (cur_bytes cur), served cur e, v.place, v.inside);
    inside = omega arith;
    fresh = v.fresh;
    last = EndsWell-put x cur ready v.last;
  }

  pub receive-At :
      (b : Buffer) (rest : List Buffer)
      → At x none (b ∷ rest) stream c
      → At x (some b) rest stream c
  receive-At b rest v = record {
    past = v.past;
    whole = v.whole;
    place = omega (arith, v.place, v.fresh.0);
    inside = omega (arith, v.fresh.0);
    fresh = v.fresh.1;
    last = v.last;
  }

  -- The goroutine ends.
  pub ended-At :
      (cur : Option Buffer) (ready : List Buffer)
      → At x cur ready stream c
      → At true cur ready stream c
  ended-At cur ready v = record {
    past = v.past;
    whole = v.whole;
    place = v.place;
    inside = v.inside;
    fresh = v.fresh;
    last = EndsWell-true x (held cur ready) v.last;
  }

  -- The consumer moves on in the current buffer.
  pub move-At :
      (b : Buffer) (ready : List Buffer) (n : ℕ)
      → n ≤ length (unread b)
      → At x (some b) ready stream c
      → At x (some (increment b n)) ready stream (c + n)
  move-At b ready n h v = record {
    past = v.past;
    whole = v.whole;
    place = omega (arith, v.place);
    inside = omega (arith, v.inside, length-drop b.offset b.buf);
    fresh = v.fresh;
    last = EndsWell-offset x b (b.offset + n) ready v.last;
  }

  pub back-At :
      (b : Buffer) (ready : List Buffer) (k : ℕ)
      → k ≤ b.offset
      → At x (some b) ready stream c
      → At x (some (record b { offset = b.offset - k })) ready stream (c - k)
  back-At b ready k h v = record {
    past = v.past;
    whole = v.whole;
    place = omega (arith, v.place);
    inside = omega (arith, v.inside);
    fresh = v.fresh;
    last = EndsWell-offset x b (b.offset - k) ready v.last;
  }

  -- What is left of the current buffer is what comes next in the stream.
  pub unread-At :
      (b : Buffer) (ready : List Buffer)
      → At x (some b) ready stream c
      → drop c stream ≡ unread b ++ queued ready
  unread-At b ready v =
      rw (v.whole, v.place)
        (drop_past v.past (b.buf ++ queued ready) b.offset
          ∙ drop_within b.offset b.buf (queued ready) v.inside)

pub init-At :
    {S : Type 0} (s : S) (n : ℕ) → At (init s n).exited (init s n).cur (init s n).ready [] 0
unfolding init
init-At s n = record {
  past = [];
  whole = refl;
  place = omega arith;
  inside = omega arith;
  fresh = tt;
  last = tt;
}
