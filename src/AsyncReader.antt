-- ===== src/AsyncReader.antt =====
-- pkg/asyncreader/asyncreader.go: a goroutine reads ahead into buffers, which a consumer serves.
-- The goroutine's round (take a token, read, hand the buffer over) is one step, and so is each call
-- of the consumer, up to the point where it would block; a run is any sequence of such steps. A call
-- that blocks has returned its empty buffer already, and goes on by the same call. The supplied
-- reader is outside: `Reply` is what a call of its `Read` answers.
pub mod ReadFill
pub mod Position
pub mod Stream
pub mod Passes
pub mod Writing
pub mod Skipping
pub mod Runs
pub mod Delivery
pub mod Tokens
mod Examples
use fa.Prelude.{
  ℕ, zero, suc, ◌+◌, ◌-◌, ◌*◌, ◌≡◌, Bool, true, false, ◌||◌, Option, none, some, List, [], ◌∷◌,
  ◌++◌, length, take, drop, ltb, leb, ◌==◌, if◌then◌else◌,
}
use fa.Prelude.Int.{ℤ, pos, negsuc}
use fa.Prelude.Monad.{◌>>=◌}

pub data Error : Type 0 where
  eof stream_abandoned : Error
  failure : ℕ → Error

abbrev pub is_some {ℓ} : {A : Type ℓ} → Option A → Bool
is_some none = false
is_some (some a) = true

-- BufferSize and softStartInitial
abbrev pub buffer_size : ℕ
buffer_size = 1024 * 1024

abbrev pub soft_start_initial : ℕ
soft_start_initial = 4 * 1024

-- `offset` is where the consumer is in `buf`.
pub record Buffer : Type 0 where
  pub buf : List ℕ
  pub err : Option Error
  pub offset : ℕ

-- buffer.isEmpty, of a pointer that may be nil
pub is_empty : Option Buffer → Bool
is_empty none = true
is_empty (some b) = leb (length b.buf) b.offset

-- buffer.buffer and buffer.increment
abbrev pub unread : Buffer → List ℕ
unread b = drop b.offset b.buf

abbrev pub increment : Buffer → ℕ → Buffer
increment b n = record b { offset = b.offset + n }

-- What the reader answers to `Read` with a slice of some length.
pub record Reply (S : Type 0) : Type 0 where
  pub bytes : List ℕ
  pub failed : Option Error
  pub next : S

-- `S` is the state of the supplied reader.
pub record AsyncReader (S : Type 0) : Type 0 where
  pub input : S
  -- The channels `ready` (its head is received first) and `token`.
  pub ready : List Buffer
  pub token : ℕ
  -- `exit` is closed; `ready` and `exited` are, as the goroutine ends.
  pub exit : Bool
  pub exited : Bool
  pub buffers : ℕ
  pub err : Option Error
  pub cur : Option Buffer
  pub size : ℕ
  pub closed : Bool
  -- How many buffers were taken from the pool and not put back.
  pub held : ℕ

-- How `fill` ends: with a current buffer, with an error, or waiting for the goroutine.
pub data Filled (S : Type 0) : Type 0 where
  filled : Buffer → AsyncReader S → Filled S
  failed : Error → AsyncReader S → Filled S
  waiting : AsyncReader S → Filled S

-- How `Read` ends.
pub data Read (S : Type 0) : Type 0 where
  got : List ℕ → Option Error → AsyncReader S → Read S
  blocked : AsyncReader S → Read S

-- init
pub init : {S : Type 0} → S → ℕ → AsyncReader S
init input buffers = record {
  input = input;
  ready = [];
  token = buffers;
  exit = false;
  exited = false;
  buffers = buffers;
  err = none;
  cur = none;
  size = soft_start_initial;
  closed = false;
  held = 0;
}

-- New, of a reader that is not nil: an error if there are to be no buffers.
pub new : {S : Type 0} → S → ℕ → Option (AsyncReader S)
unfolding init
new input buffers = if leb buffers 0 then none else some (init input buffers)

-- The buffer is cut to `size` while that is small, and `size` doubles.
pub room : {S : Type 0} → AsyncReader S → ℕ
room a = if ltb a.size buffer_size then a.size else buffer_size

-- The goroutine sends the buffer that it filled, and ends after an error.
pub hand_over : {S : Type 0} → Reply S → AsyncReader S → AsyncReader S
hand_over r a = record a {
  input = r.next;
  ready = a.ready ++ record { buf = r.bytes; err = r.failed; offset = 0 } ∷ [];
  token = a.token - 1;
  exited = is_some r.failed;
  size = if ltb a.size buffer_size then a.size * 2 else a.size;
  held = a.held + 1;
}

module _ {S : Type 0} (rd : S → ℕ → Reply S) where
  -- ReadFill into `room` bytes. `none`: the fuel ran out.
  pub read_fill : ℕ → S → ℕ → Option (Reply S)
  read_fill zero s room = none
  read_fill (suc fuel) s room =
      let r = rd s room in
      let rest = read_fill fuel r.next (room - length r.bytes) in
      let go_on = rest >>= λ t. some (record t { bytes = r.bytes ++ t.bytes }) in
      if room == 0
      then some (record { bytes = []; failed = none; next = s })
      else if is_some r.failed
      then some r
      else go_on

  -- A round of the goroutine, which has a token. `none`: the reader does not return.
  pub produce : ℕ → AsyncReader S → Option (AsyncReader S)
  unfolding read_fill hand_over
  produce fuel a = read_fill fuel a.input (room a) >>= λ r. some (hand_over r a)

module _ {S : Type 0} where
  -- The goroutine may take a token only while it runs.
  pub can_produce : AsyncReader S → Bool
  can_produce a = if a.exited then false else ltb 0 a.token

  -- The goroutine sees `exit` closed, and ends.
  pub finish : AsyncReader S → AsyncReader S
  finish a = if a.exit then record a { exited = true } else a

  -- putBuffer of the current buffer, if any
  pub put_cur : AsyncReader S → AsyncReader S
  put_cur a = elim a.cur [ none ↦ a | some b ↦ record a { cur = none; held = a.held - 1 } ]

  -- Receive from `ready`; the state keeps the buffer as the current one.
  pub receive : AsyncReader S → Filled S
  receive a = elim a.ready [
    | [] ↦
        if a.exited
        then elim a.err [ none ↦ failed stream_abandoned a | some e ↦ failed e a ]
        else waiting a
    | b ∷ rest ↦ filled b (record a { ready = rest; cur = some b })
  ]

  -- fill
  pub fill : AsyncReader S → Filled S
  unfolding is_empty put_cur receive
  fill a = elim a.cur [
    | none ↦ receive a
    | some b ↦
        if is_empty (some b)
        then receive (record (put_cur a) { token = a.token + 1 })
        else filled b a
  ]

  -- Copy what fits from the current buffer; its error is passed on with its last bytes.
  pub serve : ℕ → Buffer → AsyncReader S → Read S
  unfolding is_empty
  serve n b a =
      let bytes = take n (unread b) in
      let b' = increment b (length bytes) in
      if is_empty (some b')
      then got bytes b'.err (record a { cur = some b'; err = b'.err })
      else got bytes none (record a { cur = some b' })

  -- The rest of Read, once `fill` is done.
  pub serve_filled : ℕ → Filled S → Read S
  unfolding serve
  serve_filled n (filled b a) = serve n b a
  serve_filled n (failed e a) = got [] (some e) a
  serve_filled n (waiting a) = blocked a

  -- Read into `n` bytes
  pub read : ℕ → AsyncReader S → Read S
  unfolding fill serve_filled
  read n a = serve_filled n (fill a)

  -- A pass of the loop in SkipBytes by `n` bytes of the current buffer; `again` is the next pass.
  pub skip_by :
      (ℕ → ℕ → AsyncReader S → Option (Bool × AsyncReader S))
      → ℕ
      → Buffer
      → ℕ
      → ℕ
      → AsyncReader S
      → Option (Bool × AsyncReader S)
  unfolding is_empty
  skip_by again n b refill skip a =
      let b' = increment b n in
      let ends = if is_empty (some b') then is_some b'.err else false in
      if skip - n == 0
      then some (
        true,
        record a { cur = some b'; token = a.token + refill; err = if ends then b'.err else a.err },
      )
      else if is_some b'.err
      then some (false, record a { cur = some b'; err = b'.err })
      else again refill (skip - n) (record a { cur = some b' })

  -- As far as the current buffer and `skip` allow.
  pub skip_over :
      (ℕ → ℕ → AsyncReader S → Option (Bool × AsyncReader S))
      → Buffer
      → ℕ
      → ℕ
      → AsyncReader S
      → Option (Bool × AsyncReader S)
  skip_over again b refill skip a =
      skip_by again (if ltb skip (length (unread b)) then skip else length (unread b)) b refill skip
        a

  -- Take the next buffer, or give up if there is none yet.
  pub skip_next :
      (ℕ → ℕ → AsyncReader S → Option (Bool × AsyncReader S))
      → ℕ
      → ℕ
      → AsyncReader S
      → Option (Bool × AsyncReader S)
  skip_next again refill skip a = elim a.ready [
    | [] ↦ some (false, a)
    | b ∷ rest ↦ skip_over again b refill skip (record a { ready = rest; cur = some b })
  ]

  -- The loop in SkipBytes, which counts the tokens to give back. `none`: the fuel ran out.
  pub skip_loop : ℕ → ℕ → ℕ → AsyncReader S → Option (Bool × AsyncReader S)
  unfolding is_empty put_cur
  skip_loop zero refill skip a = none
  skip_loop (suc fuel) refill skip a = elim a.cur [
    | none ↦ skip_next (skip_loop fuel) refill skip a
    | some b ↦
        if is_empty (some b)
        then skip_next (skip_loop fuel) (refill + 1) skip (put_cur a)
        else skip_over (skip_loop fuel) b refill skip a
  ]

  pub skip_back : ℕ → AsyncReader S → Bool × AsyncReader S
  skip_back k a = elim a.cur [
    | none ↦ (false, a)
    | some b ↦
        if leb k b.offset
        then (true, record a { cur = some (record b { offset = b.offset - k }) })
        else (false, a)
  ]

  -- SkipBytes up to its deferred `Abandon`, which follows if it returns false. While the loop runs
  -- the goroutine sends nothing.
  pub skip_bytes : ℤ → AsyncReader S → Option (Bool × AsyncReader S)
  unfolding skip_back
  skip_bytes (negsuc k) a = if is_some a.err then some (false, a) else some (skip_back (suc k) a)
  skip_bytes (pos k) a =
      if is_some a.err
      then some (false, a)
      else if leb ((length a.ready + 1) * buffer_size) k
      then some (false, a)
      else skip_loop (length a.ready + 2) 0 k a

  -- StopBuffering closes `exit`, and waits for the goroutine to end.
  pub stop : AsyncReader S → AsyncReader S
  stop a = record a { exit = true }

  -- The rest of Abandon, once the goroutine has ended: all buffers go back to the pool.
  pub drain : AsyncReader S → AsyncReader S
  unfolding put_cur
  drain a =
      let a' = put_cur a in
      if a.exited then record a' { ready = []; held = a'.held - length a'.ready } else a

  -- The rest of Close; the flag says that the input is closed now.
  pub close : AsyncReader S → Bool × AsyncReader S
  unfolding drain
  close a = if a.closed then (false, drain a) else (true, record (drain a) { closed = true })
