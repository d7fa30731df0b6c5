-- ===== src/Cipher/Concurrent.antt =====
-- pkg/cipher/md5.go: MD5ByChunkConcurrent agrees with MD5ByChunk in every order of its goroutines.

use mathlib.Core.Path.{subst}
use mathlib.Core.List.{Perm}
use fa.Prelude.{
  ℕ, zero, suc, ◌+◌, ◌-◌, ◌*◌, ◌≤◌, ◌<◌, ◌≡◌, refl, sym, ap, ◌∙◌, inl, inr, false, some, List, [],
  ◌∷◌, ◌++◌, length, length-drop, take, drop, arith, Bool-cases, All, ltb, leb,
}
use fa.Prelude.Sorting.{insert_by, sort_by, IsJob, sort_by-perm, length-perm}
use fa.Cipher.{
  Digest, sum, whole, copy, md5_by_chunk, Md5Chunk, collect, sort_chunks, joined, chunk_digest,
  spawn, md5_by_chunk_concurrent,
}
use fa.Cipher.Chunks.{chunks, pieces, hashes, etag, read_size-take, pieces-count}
use fa.Cipher.Sequential.{intact, md5_by_chunk-etag}

Md5Chunk-set : IsSet (List Md5Chunk)
Md5Chunk-set = hlevel

drop_nil {ℓ} : {A : Type ℓ} (n : ℕ) → drop {A = A} n [] ≡ []
drop_nil zero = refl
drop_nil (suc n) = refl

drop-drop {ℓ} : {A : Type ℓ} (m n : ℕ) (xs : List A) → drop n (drop m xs) ≡ drop (m + n) xs
drop-drop zero n xs = ap (λ k. drop k xs) (omega arith)
drop-drop (suc m) n [] = let shift : suc m + n ≡ suc (m + n) = omega arith in rw shift (drop_nil n)
drop-drop (suc m) n (x ∷ xs) =
    let shift : suc m + n ≡ suc (m + n) = omega arith in rw shift (drop-drop m n xs)

chunks-nil : (n c : ℕ) (xs : List ℕ) → length xs ≡ 0 → chunks n c xs ≡ []
unfolding chunks
chunks-nil zero c xs h = refl
chunks-nil (suc n) c [] h = refl
chunks-nil (suc n) c (x ∷ xs) h = absurd (omega arith)

pub chunks-cut :
    (n c : ℕ) (xs : List ℕ)
    → 0 < length xs
    → chunks (suc n) c xs ≡ take c xs ∷ chunks n c (drop c xs)
unfolding chunks
chunks-cut n c [] h = absurd (omega arith)
chunks-cut n c (x ∷ xs) h = refl

module _ (d : Digest) (content : List ℕ) (total chunk : ℕ) where
  pub spawn-IsJob :
      (fuel i : ℕ)
      → All
          (IsJob (λ c. c.idx) (chunk_digest d content total chunk))
          (spawn d content total chunk fuel i)
  unfolding spawn
  spawn-IsJob zero i = tt
  spawn-IsJob (suc fuel) i = elim (Bool-cases (ltb (i * chunk) total)) [
    | inl more ↦ rw more (refl, spawn-IsJob fuel (i + 1))
    | inr done ↦ rw done tt
  ]

  -- The digests are started in the order of their indices.
  pub sort_by-spawn :
      (fuel i : ℕ)
      → sort_by (λ c. c.idx) (spawn d content total chunk fuel i)
        ≡ spawn d content total chunk fuel i
  unfolding spawn insert_by sort_by
  sort_by-spawn zero i = refl
  sort_by-spawn (suc fuel) i = elim (Bool-cases (ltb (i * chunk) total)) [
    | inl more ↦ rw more (rw (sort_by-spawn fuel (i + 1)) (front fuel))
    | inr done ↦ rw done
  ]
    where
      front :
          (fuel : ℕ)
          → insert_by
              (λ c. c.idx)
              (chunk_digest d content total chunk i)
              (spawn d content total chunk fuel (i + 1))
            ≡ chunk_digest d content total chunk i ∷ spawn d content total chunk fuel (i + 1)
      front zero = refl
      front (suc fuel) = ground arith

  -- What is sent from chunk `i` on is the digests of the file's chunks.
  abbrev pub Covers : List Md5Chunk → List (List ℕ) → Type 0
  Covers cs bs = (joined cs ≡ hashes d bs) × (length cs ≡ length bs)

  spawn-Covers :
      (fuel i n : ℕ)
      → length content ≡ total
      → 0 < chunk
      → total - i * chunk < fuel
      → total - i * chunk ≤ n
      → Covers (spawn d content total chunk fuel i) (chunks n chunk (drop (i * chunk) content))
  unfolding spawn joined chunks hashes chunk_digest
  spawn-Covers zero i n t p f l = absurd (omega arith)
  spawn-Covers (suc fuel) i zero t p f l =
      let done : ltb (i * chunk) total ≡ false = ground arith in rw done (refl, refl)
  spawn-Covers (suc fuel) i (suc n) t p f l = elim (Bool-cases (ltb (i * chunk) total)) [
    | inl more ↦
        let left = length-drop (i * chunk) content in
        let (cut, rest) =
          read_size-take total chunk i (drop (i * chunk) content) (ground (arith, left)) in
        let next : i * chunk + chunk ≡ (i + 1) * chunk = omega arith in
        let (same, count) = spawn-Covers fuel (i + 1) n t p (ground arith) (ground arith) in
        rw
          (
            more,
            chunks-cut n chunk (drop (i * chunk) content) (ground (arith, left)),
            cut,
            drop-drop (i * chunk) chunk content,
            next,
          )
          (ap (◌++◌ (d.md5 (take chunk (drop (i * chunk) content)))) same, ap suc count)
    | inr done ↦
        rw
          (
            done,
            chunks-nil (suc n) chunk (drop (i * chunk) content)
                (ground (arith, length-drop (i * chunk) content)),
          )
          (refl, refl)
  ]

pub spawn-pieces :
    (d : Digest) (content : List ℕ) (chunk fuel : ℕ)
    → 0 < chunk
    → length content < fuel
    → Covers d content
        (length content)
        chunk
        (spawn d content (length content) chunk fuel 0)
        (pieces chunk content)
unfolding pieces
spawn-pieces d content chunk fuel p f =
    let start : 0 * chunk ≡ 0 = omega arith in
    subst
      (λ k.
        Covers d content (length content) chunk (spawn d content (length content) chunk fuel 0)
          (chunks (length content) chunk (drop k content)))
      start
      (spawn-Covers d content (length content) chunk fuel 0 (length content) refl p (omega arith)
        (omega arith))

collect-full : (cs : List Md5Chunk) → collect (length cs) cs ≡ some cs
unfolding collect
collect-full [] = refl
collect-full (c ∷ cs) = rw (collect-full cs)

-- With the digests of the chunks in any order, the collecting goroutine has the chunks in order.
sort_chunks-arrived :
    (d : Digest) (content : List ℕ) (total chunk fuel : ℕ) (arrived : List Md5Chunk)
    → Perm arrived (spawn d content total chunk fuel 0)
    → sort_chunks arrived ≡ spawn d content total chunk fuel 0
unfolding sort_chunks
sort_chunks-arrived d content total chunk fuel arrived perm =
    sort_by-perm (λ c. c.idx) (chunk_digest d content total chunk) Md5Chunk-set perm
      (spawn-IsJob d content total chunk fuel 0)
    ∙ sort_by-spawn d content total chunk fuel 0

-- In every order in which the goroutines finish, MD5ByChunkConcurrent returns the digest of the file
-- or of its chunks with their number, which is what MD5ByChunk returns. The chunk size is positive,
-- and the digests that arrive are those of the started goroutines.
pub md5_by_chunk_concurrent-etag :
    (d : Digest) (chunk fuel : ℕ) (content : List ℕ) (arrived : List Md5Chunk)
    → 0 < chunk
    → length content < fuel
    → Perm arrived (spawn d content (length content) chunk fuel 0)
    → (md5_by_chunk_concurrent d content (length content) chunk arrived
        ≡ sum (etag d chunk content))
      × (md5_by_chunk_concurrent d content (length content) chunk arrived
          ≡ md5_by_chunk d fuel (intact content) (length content) chunk)
unfolding md5_by_chunk_concurrent etag whole copy
md5_by_chunk_concurrent-etag d chunk fuel content arrived p f perm =
    (same, same ∙ sym (md5_by_chunk-etag d chunk fuel content p f))
  where
    same :
        md5_by_chunk_concurrent d content (length content) chunk arrived
        ≡ sum (etag d chunk content)
    same = elim (Bool-cases (leb (length content) chunk)) [
      | inl small ↦ rw small
      | inr large ↦
          let (joins, count) = spawn-pieces d content chunk fuel p f in
          let number = length-perm perm ∙ count ∙ pieces-count chunk content p in
          rw (
            large,
            ← number,
            collect-full arrived,
            sort_chunks-arrived d content (length content) chunk fuel arrived perm,
            joins,
            pieces-count chunk content p,
          )
    ]
