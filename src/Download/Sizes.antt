-- ===== src/Download/Sizes.antt =====
-- internal/download/cachemgr.go: what each operation on the recorders does to the sizes of a key.

use fa.Prelude.{
  ℕ, ◌+◌, ◌≤◌, ◌≡◌, refl, inl, inr, none, some, List, [], ◌∷◌, ◌==◌, if◌then◌else◌, arith,
  Bool-cases,
}
use fa.Prelude.Int.{ℤ, pos, negsuc}
use fa.Download.{
  DlRecorder, find, put, delete, DlCacheMgr, publish_one, publish_batch, publish_all, Event,
  recorded, timed_out,
}

-- What a size counts for a key; the sizes of a key in a list of recorders, and in the requests.
abbrev pub share : ℕ → ℕ → ℕ → ℕ
share k key n = if key == k then n else 0

unfoldable pub size_of : ℕ → List DlRecorder → ℕ
size_of k [] = 0
size_of k (r ∷ rs) = share k r.path_key r.cum_size + size_of k rs

abbrev pub bytes : ℤ → ℕ
bytes (pos n) = n
bytes (negsuc n) = 0

unfoldable pub requested : ℕ → List Event → ℕ
requested k [] = 0
requested k (recorded dl ∷ es) = share k dl.path_key (bytes dl.size) + requested k es
requested k (timed_out ∷ es) = requested k es

-- All that is known of a key: cached, and published.
abbrev pub total : ℕ → DlCacheMgr → ℕ
total k m = size_of k m.cache + size_of k m.published

publish_batch-total :
    (k : ℕ) (rs : List DlRecorder) (m : DlCacheMgr)
    → (size_of k (publish_batch rs m).published ≡ size_of k rs + size_of k m.published)
      × ((publish_batch rs m).cache ≡ m.cache)
unfolding publish_batch publish_one size_of
publish_batch-total k [] m = (omega arith, refl)
publish_batch-total k (r ∷ rs) m =
    let (t, c) = publish_batch-total k rs (publish_one r m) in (omega (arith, t), c)

pub publish_all-total :
    (k : ℕ) (m : DlCacheMgr) → (total k (publish_all m) ≡ total k m) × ((publish_all m).cache ≡ [])
unfolding publish_all size_of
publish_all-total k m =
    let (t, c) = publish_batch-total k m.cache (record m { cache = [] }) in
    (rw c (omega (arith, t)), c)

pub find-size :
    (key k : ℕ) (xs : List DlRecorder) (r : DlRecorder)
    → find key xs ≡ some r
    → (r.path_key ≡ key) × (share k key r.cum_size ≤ size_of k xs)
unfolding find size_of
find-size key k [] r h = cc
find-size key k (x ∷ xs) r h = elim (Bool-cases (x.path_key == key)) [
  | inl same ↦ let e : x ≡ r = ground arith in rw (← e) (ground arith)
  | inr other ↦
      let h' : find key xs ≡ some r = ground arith in
      let (e, l) = find-size key k xs r h' in (e, omega (arith, l))
]

pub put_new-size :
    (k : ℕ) (r : DlRecorder) (xs : List DlRecorder)
    → find r.path_key xs ≡ none
    → size_of k (put r xs) ≡ share k r.path_key r.cum_size + size_of k xs
unfolding find put size_of
put_new-size k r [] h = refl
put_new-size k r (x ∷ xs) h = elim (Bool-cases (x.path_key == r.path_key)) [
  | inl same ↦ absurd (ground arith)
  | inr other ↦
      let h' : find r.path_key xs ≡ none = ground arith in
      rw other (omega (arith, put_new-size k r xs h'))
]

pub put_found-size :
    (k : ℕ) (r old : DlRecorder) (xs : List DlRecorder)
    → find r.path_key xs ≡ some old
    → size_of k (put r xs) + share k r.path_key old.cum_size
      ≡ share k r.path_key r.cum_size + size_of k xs
unfolding find put size_of
put_found-size k r old [] h = cc
put_found-size k r old (x ∷ xs) h = elim (Bool-cases (x.path_key == r.path_key)) [
  | inl same ↦ let e : x ≡ old = ground arith in rw (same, ← e) (ground arith)
  | inr other ↦
      let h' : find r.path_key xs ≡ some old = ground arith in
      rw other (omega (arith, put_found-size k r old xs h'))
]

pub delete_new : (key : ℕ) (xs : List DlRecorder) → find key xs ≡ none → delete key xs ≡ xs
unfolding find delete
delete_new key [] h = refl
delete_new key (x ∷ xs) h = ground (arith, delete_new key xs)

pub delete_found-size :
    (k key : ℕ) (old : DlRecorder) (xs : List DlRecorder)
    → find key xs ≡ some old
    → size_of k (delete key xs) + share k key old.cum_size ≡ size_of k xs
unfolding find delete size_of
delete_found-size k key old [] h = cc
delete_found-size k key old (x ∷ xs) h = elim (Bool-cases (x.path_key == key)) [
  | inl same ↦ let e : x ≡ old = ground arith in rw (same, ← e) (ground arith)
  | inr other ↦
      let h' : find key xs ≡ some old = ground arith in
      rw other (omega (arith, delete_found-size k key old xs h'))
]
