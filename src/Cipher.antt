-- ===== src/Cipher.antt =====
-- pkg/cipher/md5.go: the digest of a file by chunks, read in order and read concurrently.
-- MD5, the hexadecimal text and the format "%s-%d" are parameters. Sizes are natural numbers whose
-- products stay below 2 ^ 63, which holds for files of less than 2 ^ 62 bytes.
pub mod Chunks
pub mod Sequential
pub mod Concurrent
mod Examples
use fa.Prelude.{
  ℕ, zero, suc, ◌+◌, ◌-◌, ◌*◌, ◌/◌, Bool, true, false, ◌&&◌, Option, none, some, List, [], ◌∷◌,
  ◌++◌, length, take, drop, replicate, ltb, leb, if◌then◌else◌,
}
use fa.Prelude.Monad.{◌>>=◌}
use fa.Prelude.Sorting.{sort_by}

pub record Digest : Type 0 where
  pub md5 : List ℕ → List ℕ
  -- hex.EncodeToString
  pub hex : List ℕ → List ℕ
  -- fmt.Sprintf("%s-%d")
  pub numbered : List ℕ → ℕ → List ℕ

-- An io.Reader: its bytes, and whether it fails after them instead of ending.
pub record Source : Type 0 where
  pub bytes : List ℕ
  pub broken : Bool

-- io.Copy from the whole reader, and from an io.LimitReader of `n` bytes of it.
unfoldable pub copy : Source → Option (List ℕ)
copy s = if s.broken then none else some s.bytes

pub copy_limited : ℕ → Source → Option (List ℕ × Source)
copy_limited n s =
    if s.broken && ltb (length s.bytes) n
    then none
    else some (take n s.bytes, record s { bytes = drop n s.bytes })

-- The length of chunk `i` of a file.
pub read_size : ℕ → ℕ → ℕ → ℕ
read_size total chunk i = if ltb ((i + 1) * chunk) total then chunk else total - i * chunk

-- How a digest ends: with its text, with an error of the reader, in a panic, or not at all.
pub data Sum : Type 0 where
  sum : List ℕ → Sum
  read_error panic endless : Sum

abbrev pub sum_or_error : Option (List ℕ) → Sum
sum_or_error none = read_error
sum_or_error (some t) = sum t

module _ (d : Digest) where
  open d use {md5, hex, numbered}

  -- MD5Single drops the error of the reader, and returns an empty text.
  unfoldable pub md5_single : Source → List ℕ
  unfolding copy
  md5_single s = elim (copy s) [ none ↦ [] | some b ↦ hex (md5 b) ]

  -- The digest in one piece.
  pub whole : Source → Sum
  unfolding copy
  whole s = sum_or_error (copy s >>= λ b. some (hex (md5 b)))

  module _ (total chunk : ℕ) where
    -- The loop in MD5ByChunk, with fuel.
    pub chunk_loop : ℕ → ℕ → List ℕ → Source → Sum
    unfolding copy_limited read_size
    chunk_loop zero i md5s s = endless
    chunk_loop (suc fuel) i md5s s =
        let next : Sum = elim (copy_limited (read_size total chunk i) s) [
          | none ↦ read_error
          | some (b, rest) ↦ chunk_loop fuel (i + 1) (md5s ++ md5 b) rest
        ] in
        if ltb (i * chunk) total then next else sum (numbered (hex (md5 md5s)) i)

  -- MD5ByChunk
  pub md5_by_chunk : ℕ → Source → ℕ → ℕ → Sum
  unfolding whole chunk_loop
  md5_by_chunk fuel s total chunk =
      if leb total chunk then whole s else chunk_loop total chunk fuel 0 [] s

-- A digest of a chunk, with the chunk's index.
pub record Md5Chunk : Type 0 where
  pub md5 : List ℕ
  pub idx : ℕ

-- The collecting goroutine's list, made for the expected number of chunks and written from the front:
-- what is not written stays empty, and one digest too many panics.
abbrev pub no_chunk : Md5Chunk
no_chunk = record { md5 = []; idx = 0 }

pub collect : ℕ → List Md5Chunk → Option (List Md5Chunk)
collect zero [] = some []
collect zero (c ∷ cs) = none
collect (suc n) [] = some (replicate (suc n) no_chunk)
collect (suc n) (c ∷ cs) = collect n cs >>= λ rest. some (c ∷ rest)

-- sort.Sort of the collected digests by index.
pub sort_chunks : List Md5Chunk → List Md5Chunk
unfolding sort_by
sort_chunks cs = sort_by (λ c. c.idx) cs

-- What the collecting goroutine hashes.
unfoldable pub joined : List Md5Chunk → List ℕ
joined [] = []
joined (c ∷ cs) = c.md5 ++ joined cs

module _ (d : Digest) (content : List ℕ) (total chunk : ℕ) where
  open d use {md5, hex, numbered}

  -- The digest that the goroutine of chunk `i` sends; it reads the file by offset.
  pub chunk_digest : ℕ → Md5Chunk
  unfolding read_size
  chunk_digest i = record {
    md5 = md5 (take (read_size total chunk i) (drop (i * chunk) content));
    idx = i;
  }

  -- The loop that starts the goroutines, with fuel: what they send, in the order of their start.
  unfoldable pub spawn : ℕ → ℕ → List Md5Chunk
  unfolding chunk_digest
  spawn zero i = []
  spawn (suc fuel) i =
      let rest = spawn fuel (i + 1) in if ltb (i * chunk) total then chunk_digest i ∷ rest else []

  -- MD5ByChunkConcurrent on a file that can be read, when the digests arrive in the order `arrived`.
  pub md5_by_chunk_concurrent : List Md5Chunk → Sum
  unfolding sort_chunks joined whole collect
  md5_by_chunk_concurrent arrived =
      let total_chunks = (total + chunk - 1) / chunk in
      if leb total chunk
      then whole d (record { bytes = content; broken = false })
      else elim (collect total_chunks arrived) [
        | none ↦ panic
        | some list ↦ sum (numbered (hex (md5 (joined (sort_chunks list)))) total_chunks)
      ]
