-- ===== src/Cipher/Chunks.antt =====
-- pkg/cipher/md5.go: the chunks of a file, as a specification apart from the loops.

use native.Mathlib.Nat.{div-eq_of_lt, add-div_right}
use native.Mathlib.Decide.{dec_lt}
use fa.Prelude.{
  ℕ, zero, suc, ◌+◌, ◌-◌, ◌*◌, ◌/◌, ◌≤◌, ◌<◌, ◌≡◌, refl, sym, ap, ◌∙◌, inl, inr, List, [], ◌∷◌,
  ◌++◌, length, length-drop, take, drop, take-append-drop, arith, Bool-cases, ltb, leb,
  if◌then◌else◌,
}
use fa.Cipher.{Digest, read_size}

-- Cut from the front, `c` bytes at a time.
unfoldable pub chunks : ℕ → ℕ → List ℕ → List (List ℕ)
chunks zero c xs = []
chunks (suc n) c [] = []
chunks (suc n) c (x ∷ xs) = take c (x ∷ xs) ∷ chunks n c (drop c (x ∷ xs))

-- The chunks of a whole file.
unfoldable pub pieces : ℕ → List ℕ → List (List ℕ)
unfolding chunks
pieces c xs = chunks (length xs) c xs

abbrev pub concat : List (List ℕ) → List ℕ
concat [] = []
concat (b ∷ bs) = b ++ concat bs

chunks-concat : (n c : ℕ) (xs : List ℕ) → 0 < c → length xs ≤ n → concat (chunks n c xs) ≡ xs
unfolding chunks
chunks-concat zero c [] p h = refl
chunks-concat zero c (x ∷ xs) p h = absurd (omega arith)
chunks-concat (suc n) c [] p h = refl
chunks-concat (suc n) c (x ∷ xs) p h =
    ap (◌++◌ (take c (x ∷ xs)))
      (chunks-concat n c (drop c (x ∷ xs)) p (omega (arith, length-drop c (x ∷ xs))))
    ∙ take-append-drop c (x ∷ xs)

-- Fuel beyond the length changes nothing.
pub chunks_enough :
    (n m c : ℕ) (xs : List ℕ)
    → 0 < c
    → length xs ≤ n
    → length xs ≤ m
    → chunks n c xs ≡ chunks m c xs
unfolding chunks
chunks_enough zero zero c xs p h k = refl
chunks_enough zero (suc m) c [] p h k = refl
chunks_enough zero (suc m) c (x ∷ xs) p h k = absurd (omega arith)
chunks_enough (suc n) zero c [] p h k = refl
chunks_enough (suc n) zero c (x ∷ xs) p h k = absurd (omega arith)
chunks_enough (suc n) (suc m) c [] p h k = refl
chunks_enough (suc n) (suc m) c (x ∷ xs) p h k = ap (◌∷◌ (take c (x ∷ xs))) (
    chunks_enough n m c (drop c (x ∷ xs)) p (omega (arith, length-drop c (x ∷ xs)))
      (omega (arith, length-drop c (x ∷ xs))))

take_all : (n : ℕ) (xs : List ℕ) → length xs ≤ n → take n xs ≡ xs
take_all zero [] h = refl
take_all zero (x ∷ xs) h = absurd (omega arith)
take_all (suc n) [] h = refl
take_all (suc n) (x ∷ xs) h = ap (◌∷◌ x) (take_all n xs (omega arith))

drop_beyond : (n : ℕ) (xs : List ℕ) → length xs ≤ n → drop n xs ≡ []
drop_beyond zero [] h = refl
drop_beyond zero (x ∷ xs) h = absurd (omega arith)
drop_beyond (suc n) [] h = refl
drop_beyond (suc n) (x ∷ xs) h = drop_beyond n xs (omega arith)

-- The loop's length for chunk `i` cuts off the next chunk of the bytes that are left.
pub read_size-take :
    (total chunk i : ℕ) (xs : List ℕ)
    → i * chunk + length xs ≡ total
    → (take (read_size total chunk i) xs ≡ take chunk xs)
      × (drop (read_size total chunk i) xs ≡ drop chunk xs)
unfolding read_size
read_size-take total chunk i xs h = elim (Bool-cases (ltb ((i + 1) * chunk) total)) [
  | inl more ↦ rw more (refl, refl)
  | inr last ↦
      let left : total - i * chunk ≡ length xs = omega arith in
      let short : length xs ≤ chunk = ground arith in
      rw (last, left)
        (
          take_all (length xs) xs (omega arith) ∙ sym (take_all chunk xs short),
          drop_beyond (length xs) xs (omega arith) ∙ sym (drop_beyond chunk xs short),
        )
]

-- Rounding up, with and without one more chunk.
ceil_zero : (c : ℕ) → 0 < c → 0 ≡ (0 + c - 1) / c
ceil_zero c p = sym (div-eq_of_lt (omega arith))

ceil_suc : (n c : ℕ) → 0 < c → (suc n + c - 1) / c ≡ suc ((suc n - c + c - 1) / c)
ceil_suc n c p = elim (dec_lt n c) [
  | yes short ↦
      let top : suc n + c - 1 ≡ n + c = omega arith in
      let none_left : suc n - c + c - 1 ≡ c - 1 = omega arith in
      rw (top, none_left)
        (omega (arith, add-div_right n p, div-eq_of_lt short, div-eq_of_lt (last_lt c p)))
  | no long ↦
      let top : suc n + c - 1 ≡ n + c = omega arith in
      let rest : suc n - c + c - 1 ≡ n = omega arith in
      rw (top, rest) (omega (arith, add-div_right n p))
]
  where
    last_lt : (c : ℕ) → 0 < c → c - 1 < c
    last_lt c p = omega arith

chunks-count :
    (n c : ℕ) (xs : List ℕ)
    → 0 < c
    → length xs ≤ n
    → length (chunks n c xs) ≡ (length xs + c - 1) / c
unfolding chunks
chunks-count zero c [] p h = ceil_zero c p
chunks-count zero c (x ∷ xs) p h = absurd (omega arith)
chunks-count (suc n) c [] p h = ceil_zero c p
chunks-count (suc n) c (x ∷ xs) p h =
    let cut = length-drop c (x ∷ xs) in
    ap suc
      (chunks-count n c (drop c (x ∷ xs)) p (omega (arith, cut)) ∙ ap (λ k. (k + c - 1) / c) cut)
    ∙ sym (ceil_suc (length xs) c p)

-- The chunks are the file, and there are as many as its length rounded up makes.
pub pieces-concat : (c : ℕ) (xs : List ℕ) → 0 < c → concat (pieces c xs) ≡ xs
unfolding pieces
pieces-concat c xs p = chunks-concat (length xs) c xs p (omega arith)

pub pieces-count : (c : ℕ) (xs : List ℕ) → 0 < c → length (pieces c xs) ≡ (length xs + c - 1) / c
unfolding pieces
pieces-count c xs p = chunks-count (length xs) c xs p (omega arith)

-- The digests of chunks, one after the other.
unfoldable pub hashes : Digest → List (List ℕ) → List ℕ
hashes d [] = []
hashes d (b ∷ bs) = d.md5 b ++ hashes d bs

-- The digest that a file should have: of its content, or of its chunks' digests, with their number.
unfoldable pub etag : Digest → ℕ → List ℕ → List ℕ
unfolding hashes
etag d chunk content =
    if leb (length content) chunk
    then d.hex (d.md5 content)
    else d.numbered (d.hex (d.md5 (hashes d (pieces chunk content))))
        (length (pieces chunk content))
