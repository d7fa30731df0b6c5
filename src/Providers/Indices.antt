-- ===== src/Providers/Indices.antt =====
-- internal/backup/priority_queue.go: every item knows its place.
use mathlib.Core.Path.{subst}
use native.Mathlib.Decide.{ℕ_discrete}
use fa.Prelude.{
  ℕ, zero, suc, ◌<◌, ◌≡◌, ◌≢◌, ◌⊎◌, inl, inr, refl, sym, ap, ◌∙◌, some, List, [], ◌∷◌, ◌++◌, length,
  get_elem?, set, take, get_elem?-set_self, get_elem?-set_ne, length-set, length-append,
  length-take, get_elem?-within, ◌-◌, arith,
}
use fa.Prelude.Int.{ℤ, pos}
use fa.Prelude.Monad.{>>=-eq-some}
use fa.Providers.{
  ProviderItem, swap, push, pop, assign, Op, swaps, pushes, pops, assigns, step, run,
}

-- The item at place `i` has the index `i`.
abbrev pub IsIndexed : List ProviderItem → Type 0
IsIndexed pq = (i : ℕ) (x : ProviderItem) → get_elem? pq i ≡ some x → x.index ≡ pos i

found-bound :
    (pq : List ProviderItem) (i : ℕ) (x : ProviderItem) → get_elem? pq i ≡ some x → i < length pq
found-bound [] i x h = cc
found-bound (y ∷ pq) zero x h = omega arith
found-bound (y ∷ pq) (suc i) x h = omega (arith, found-bound pq i x h)

set-IsIndexed :
    (pq : List ProviderItem) (j : ℕ) (a : ProviderItem)
    → j < length pq
    → a.index ≡ pos j
    → ((i : ℕ) (x : ProviderItem) → i ≢ j → get_elem? pq i ≡ some x → x.index ≡ pos i)
    → IsIndexed (set pq j a)
set-IsIndexed pq j a l e h i x found = elim (ℕ_discrete j i) [
  | yes same ↦
      let at = get_elem?-set_self pq j a l in
      let here : some a ≡ some x = sym at ∙ ap (get_elem? (set pq j a)) same ∙ found in
      ground (arith, here, e, same)
  | no other ↦ h i x (λ s. other (sym s)) (sym (get_elem?-set_ne pq a other) ∙ found)
]

last_or_before :
    (pq : List ProviderItem) (z y : ProviderItem) (i : ℕ)
    → get_elem? (pq ++ z ∷ []) i ≡ some y
    → (get_elem? pq i ≡ some y) ⊎ ((i ≡ length pq) × (z ≡ y))
last_or_before [] z y zero h = inr (refl, cc)
last_or_before [] z y (suc i) h = cc
last_or_before (x ∷ pq) z y zero h = inl h
last_or_before (x ∷ pq) z y (suc i) h = elim (last_or_before pq z y i h) [
  | inl before ↦ inl before
  | inr (at, same) ↦ inr (ap suc at, same)
]

in_take :
    (n i : ℕ) (pq : List ProviderItem) (y : ProviderItem)
    → get_elem? (take n pq) i ≡ some y
    → get_elem? pq i ≡ some y
in_take zero i pq y h = cc
in_take (suc n) i [] y h = h
in_take (suc n) zero (x ∷ pq) y h = h
in_take (suc n) (suc i) (x ∷ pq) y h = in_take n i pq y h

push-IsIndexed : (x : ProviderItem) (pq : List ProviderItem) → IsIndexed pq → IsIndexed (push x pq)
unfolding push
push-IsIndexed x pq h i y found =
    elim (last_or_before pq (record x { index = pos (length pq) }) y i found) [
      | inl before ↦ h i y before
      | inr (at, same) ↦ sym (ap (λ z. z.index) same) ∙ ap pos (sym at)
    ]

swap-IsIndexed :
    (i j : ℕ) (pq r : List ProviderItem) → IsIndexed pq → swap i j pq ≡ some r → IsIndexed r
unfolding swap
swap-IsIndexed i j pq r h e =
    let (a, found_a, e') = >>=-eq-some (get_elem? pq i) _ e in
    let (b, found_b, e'') = >>=-eq-some (get_elem? pq j) _ e' in
    let b' : ProviderItem = record b { index = pos i } in
    let done : set (set pq i b') j (record a { index = pos j }) ≡ r = cc in
    let bound : j < length (set pq i b') =
      omega (arith, length-set pq i b', found-bound pq j b found_b) in
    subst IsIndexed done (
      set-IsIndexed (set pq i b') j (record a { index = pos j }) bound refl
        (λ k x _ found.
          set-IsIndexed pq i b' (found-bound pq i a found_a) refl (λ m y _ f. h m y f) k x found))

pop-IsIndexed :
    (pq r : List ProviderItem) (x : ProviderItem)
    → IsIndexed pq
    → pop pq ≡ some (x, r)
    → IsIndexed r
unfolding pop
pop-IsIndexed [] r x h e = cc
pop-IsIndexed (y ∷ pq) r x h e =
    let (item, found, e') = >>=-eq-some (get_elem? (y ∷ pq) (length pq)) _ e in
    let done : take (length pq) (y ∷ pq) ≡ r = cc in
    subst IsIndexed done (λ i z f. h i z (in_take (length pq) i (y ∷ pq) z f))

assign-IsIndexed :
    (i value : ℕ) (priority : ℤ) (pq r : List ProviderItem)
    → IsIndexed pq
    → assign i value priority pq ≡ some r
    → IsIndexed r
unfolding assign
assign-IsIndexed i value priority pq r h e =
    let (a, found, e') = >>=-eq-some (get_elem? pq i) _ e in
    let a' : ProviderItem = record a { value = value; priority = priority } in
    let done : set pq i a' ≡ r = cc in
    subst IsIndexed done
      (set-IsIndexed pq i a' (found-bound pq i a found) (h i a found) (λ m y _ f. h m y f))

step-IsIndexed :
    (o : Op) (pq r : List ProviderItem) → IsIndexed pq → step o pq ≡ some r → IsIndexed r
unfolding step
step-IsIndexed (swaps i j) pq r h e = swap-IsIndexed i j pq r h e
step-IsIndexed (pushes x) pq r h e =
    let done : push x pq ≡ r = cc in subst IsIndexed done (push-IsIndexed x pq h)
step-IsIndexed pops pq r h e =
    let ((x, rest), popped, e') = >>=-eq-some (pop pq) _ e in
    let done : rest ≡ r = cc in subst IsIndexed done (pop-IsIndexed pq rest x h popped)
step-IsIndexed (assigns i v p) pq r h e = assign-IsIndexed i v p pq r h e

-- The length after an operation, and which operations are within a queue of a length.
abbrev after : Op → ℕ → ℕ
after (swaps i j) n = n
after (pushes x) n = suc n
after pops n = n - 1
after (assigns i v p) n = n

abbrev pub IsInside : Op → ℕ → Type 0
IsInside (swaps i j) n = (i < n) × (j < n)
IsInside (pushes x) n = Unit
IsInside pops n = 0 < n
IsInside (assigns i v p) n = i < n

abbrev pub AreInside : List Op → ℕ → Type 0
AreInside [] n = Unit
AreInside (o ∷ os) n = IsInside o n × AreInside os (after o n)

step-succeeds :
    (o : Op) (pq : List ProviderItem)
    → IsInside o (length pq)
    → (r : List ProviderItem) × (step o pq ≡ some r) × (length r ≡ after o (length pq))
unfolding step swap push pop assign
step-succeeds (swaps i j) pq (k, l) =
    let (a, found_a) = get_elem?-within pq i k in
    let (b, found_b) = get_elem?-within pq j l in
    (
      set (set pq i (record b { index = pos i })) j (record a { index = pos j }),
      rw (found_a, found_b),
      length-set (set pq i (record b { index = pos i })) j (record a { index = pos j })
          ∙ length-set pq i (record b { index = pos i }),
    )
step-succeeds (pushes x) pq k =
    (push x pq, refl, omega (arith, length-append pq (record x { index = pos (length pq) } ∷ [])))
step-succeeds pops [] k = absurd (omega arith)
step-succeeds pops (y ∷ pq) k =
    let (item, found) = get_elem?-within (y ∷ pq) (length pq) (omega arith) in
    (take (length pq) (y ∷ pq), rw found, omega (arith, length-take (length pq) (y ∷ pq)))
step-succeeds (assigns i v p) pq k =
    let (a, found) = get_elem?-within pq i k in
    let a' : ProviderItem = record a { value = v; priority = p } in
    (set pq i a', rw found, length-set pq i a')

-- However container/heap swaps, pushes and pops within a queue in which the index of every item is its
-- place, and update assigns, nothing panics, and the index of every item is its place again, which
-- heap.Fix is given.
pub run-IsIndexed :
    (os : List Op) (pq : List ProviderItem)
    → IsIndexed pq
    → AreInside os (length pq)
    → (r : List ProviderItem) × (run os pq ≡ some r) × IsIndexed r
unfolding run
run-IsIndexed [] pq h k = (pq, refl, h)
run-IsIndexed (o ∷ os) pq h (k, ks) =
    let (q, stepped, size) = step-succeeds o pq k in
    let (r, runs, indexed) = run-IsIndexed os q (step-IsIndexed o pq q h stepped) (rw size ks) in
    (r, rw stepped runs, indexed)
