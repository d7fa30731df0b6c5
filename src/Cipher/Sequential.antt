-- ===== src/Cipher/Sequential.antt =====
-- pkg/cipher/md5.go: MD5ByChunk returns the digest of the file's chunks.
use fa.Prelude.{
  ℕ, zero, suc, ◌+◌, ◌-◌, ◌*◌, ◌≤◌, ◌<◌, ◌≡◌, ◌∙◌, inl, inr, true, false, List, [], ◌∷◌, ◌++◌,
  append_assoc, append-nil, length, length-drop, take, drop, arith, Bool-cases, ltb, leb,
}
use fa.Cipher.{Digest, Source, sum, copy, copy_limited, whole, chunk_loop, md5_by_chunk}
use fa.Cipher.Chunks.{chunks, pieces, hashes, etag, read_size-take}

abbrev pub intact : List ℕ → Source
intact xs = record { bytes = xs; broken = false }

module _ (d : Digest) (total chunk : ℕ) where
  open d use {md5, hex, numbered}

  -- From `i` chunks on, with the digests `acc` so far.
  abbrev Finishes : ℕ → ℕ → ℕ → List ℕ → List ℕ → Type 0
  Finishes fuel n i acc xs =
      chunk_loop d total chunk fuel i acc (intact xs)
      ≡ sum (
          numbered (hex (md5 (acc ++ hashes d (chunks n chunk xs))))
            (i + length (chunks n chunk xs)))

  chunk_loop-end :
      (fuel n i : ℕ) (acc : List ℕ) → total ≤ i * chunk → Finishes (suc fuel) n i acc []
  unfolding chunk_loop chunks hashes
  chunk_loop-end fuel zero i acc h = stops
    where
      stops : Finishes (suc fuel) zero i acc []
      stops = ground (arith, append-nil acc)
  chunk_loop-end fuel (suc n) i acc h = ground (arith, append-nil acc)

  chunk_loop-chunks :
      (fuel n i : ℕ) (acc xs : List ℕ)
      → 0 < chunk
      → length xs ≡ total - i * chunk
      → length xs < fuel
      → length xs ≤ n
      → Finishes fuel n i acc xs
  unfolding chunk_loop chunks hashes copy_limited
  chunk_loop-chunks zero n i acc xs p h f l = absurd (omega arith)
  chunk_loop-chunks (suc fuel) n i acc [] p h f l = chunk_loop-end fuel n i acc (omega arith)
  chunk_loop-chunks (suc fuel) zero i acc (x ∷ xs) p h f l = absurd (omega arith)
  chunk_loop-chunks (suc fuel) (suc n) i acc (x ∷ xs) p h f l =
      let (cut, rest) = read_size-take total chunk i (x ∷ xs) (omega arith) in
      let shorter = length-drop chunk (x ∷ xs) in
      let inside : ltb (i * chunk) total ≡ true = ground arith in
      let next =
        chunk_loop-chunks fuel n (i + 1) (acc ++ md5 (take chunk (x ∷ xs))) (drop chunk (x ∷ xs)) p
          (omega (arith, shorter)) (omega (arith, shorter)) (omega (arith, shorter)) in
      rw (inside, cut, rest)
        (next
          ∙ ground (
            arith,
            append_assoc acc (md5 (take chunk (x ∷ xs)))
                (hashes d (chunks n chunk (drop chunk (x ∷ xs)))),
          ))

-- On a file that can be read MD5ByChunk ends, after at most one round for each byte and one more, and
-- returns the digest of the file or of its chunks with their number. The chunk size is positive.
pub md5_by_chunk-etag :
    (d : Digest) (chunk fuel : ℕ) (content : List ℕ)
    → 0 < chunk
    → length content < fuel
    → md5_by_chunk d fuel (intact content) (length content) chunk ≡ sum (etag d chunk content)
unfolding md5_by_chunk etag whole copy pieces
md5_by_chunk-etag d chunk fuel content p f = elim (Bool-cases (leb (length content) chunk)) [
  | inl small ↦ rw small
  | inr large ↦ rw large (
      chunk_loop-chunks d (length content) chunk fuel (length content) 0 [] content p (omega arith)
        f (omega arith)
      ∙ ground arith)
]
