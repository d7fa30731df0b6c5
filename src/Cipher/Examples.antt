-- ===== src/Cipher/Examples.antt =====
-- pkg/cipher/md5.go: the theorems on a file of five bytes in chunks of two.
use mathlib.Core.List.{Permᴰ, Perm}
use fa.Prelude.{ℕ, ◌+◌, ◌≡◌, refl, true, List, [], ◌∷◌, ◌++◌, arith}
use fa.Cipher.{Digest, sum, read_error, Md5Chunk, spawn, md5_by_chunk, md5_by_chunk_concurrent}
use fa.Cipher.Chunks.{concat, pieces, etag, pieces-concat}
use fa.Cipher.Sequential.{intact}
use fa.Cipher.Concurrent.{md5_by_chunk_concurrent-etag}

abbrev total_of : List ℕ → ℕ
total_of [] = 0
total_of (x ∷ xs) = x + total_of xs

-- A digest that adds the bytes up.
abbrev adding : Digest
adding = record { md5 = λ b. total_of b ∷ []; hex = λ b. 7 ∷ b; numbered = λ b n. b ++ (n ∷ []) }

abbrev file : List ℕ
file = 1 ∷ 2 ∷ 3 ∷ 4 ∷ 5 ∷ []

-- The chunks' digests, as they arrive.
abbrev late : List Md5Chunk
late =
    record { md5 = 7 ∷ []; idx = 1 }
    ∷ record { md5 = 3 ∷ []; idx = 0 }
    ∷ record { md5 = 5 ∷ []; idx = 2 }
    ∷ []

late-perm : Perm late (spawn adding file 5 2 6 0)
unfolding spawn
late-perm = ∣ Permᴰ.swap refl refl ∣₁

pieces_run : pieces 2 file ≡ (1 ∷ 2 ∷ []) ∷ (3 ∷ 4 ∷ []) ∷ (5 ∷ []) ∷ []
unfolding pieces
pieces_run = refl

sequential_run : md5_by_chunk adding 6 (intact file) 5 2 ≡ sum (7 ∷ 15 ∷ 3 ∷ [])
unfolding md5_by_chunk
sequential_run = refl

-- A reader that fails before the last chunk, and one that only fails at its end.
broken_run :
    md5_by_chunk adding 6 (record { bytes = 1 ∷ 2 ∷ 3 ∷ []; broken = true }) 5 2 ≡ read_error
unfolding md5_by_chunk
broken_run = refl

broken_late_run :
    md5_by_chunk adding 6 (record { bytes = file; broken = true }) 5 2 ≡ sum (7 ∷ 15 ∷ 3 ∷ [])
unfolding md5_by_chunk
broken_late_run = refl

pieces-concat_example : concat (pieces 2 file) ≡ file
pieces-concat_example = pieces-concat 2 file (omega arith)

md5_by_chunk_concurrent-etag_example :
    (md5_by_chunk_concurrent adding file 5 2 late ≡ sum (etag adding 2 file))
    × (md5_by_chunk_concurrent adding file 5 2 late ≡ md5_by_chunk adding 6 (intact file) 5 2)
md5_by_chunk_concurrent-etag_example =
    md5_by_chunk_concurrent-etag adding 2 6 file late (omega arith) (omega arith) late-perm
