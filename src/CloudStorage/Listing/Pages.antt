-- ===== src/CloudStorage/Listing/Pages.antt =====
-- web/routers/file.go: the pages of a list.
use native.Mathlib.Nat.{div-lt_iff_lt-mul, div-mul-le_self}
use fa.Prelude.{
  ℕ, zero, suc, ◌+◌, ◌-◌, ◌*◌, ◌/◌, ◌^◌, ◌≤◌, ◌<◌, ◌≡◌, refl, sym, ap, ◌∙◌, inl, inr, ◌↔◌, true,
  false, Option, some, List, [], ◌∷◌, ◌++◌, length, take, drop, length-take, length-drop, leb,
  Bool-cases, arith,
}
use fa.Prelude.Monad.{◌>>=◌}
use fa.Prelude.Int.{
  pos, negsuc, int64, int64-pos, pos-mul, pos-add, quotient, ltb_ℤ, eq_ℤ, ◌*ℤ◌, ◌+ℤ◌, ◌-ℤ◌,
}
use fa.CloudStorage.Listing.{Pagable, slice, page_of, total_pages}

abbrev pub page_at : (page size : ℕ) → Pagable
page_at page size = record { page = pos page; size = pos size }

module _ {ℓ} {A : Type ℓ} where
  take_all : (n : ℕ) (xs : List A) → length xs ≤ n → take n xs ≡ xs
  take_all zero [] h = refl
  take_all zero (x ∷ xs) h = absurd (omega arith)
  take_all (suc n) [] h = refl
  take_all (suc n) (x ∷ xs) h = ap (◌∷◌ x) (take_all n xs (omega arith))

  drop_all : (n : ℕ) (xs : List A) → length xs ≤ n → drop n xs ≡ []
  drop_all zero [] h = refl
  drop_all zero (x ∷ xs) h = absurd (omega arith)
  drop_all (suc n) [] h = refl
  drop_all (suc n) (x ∷ xs) h = drop_all n xs (omega arith)

  take_nil : (n : ℕ) → take {A = A} n [] ≡ []
  take_nil zero = refl
  take_nil (suc n) = refl

  take-sum : (m n : ℕ) (xs : List A) → take (m + n) xs ≡ take m xs ++ take n (drop m xs)
  take-sum zero n xs = ap (λ k. take k xs) (omega arith)
  take-sum (suc m) n [] = take_nil (suc m + n) ∙ sym (take_nil n)
  take-sum (suc m) n (x ∷ xs) =
      let shift : suc m + n ≡ suc (m + n) = omega arith in rw shift (ap (◌∷◌ x) (take-sum m n xs))

  page_of-take :
      (xs : List A) (p s : ℕ)
      → s * p + s < 2 ^ 63
      → p < 2 ^ 62
      → page_of xs (page_at p s) ≡ some (take s (drop (s * p) xs))
  unfolding page_of slice
  page_of-take xs p s h small =
      let off : int64 (pos s *ℤ pos p) ≡ pos (s * p) =
        ap int64 (pos-mul s p) ∙ int64-pos (s * p) (omega arith) in
      let next : int64 (pos p +ℤ pos 1) ≡ pos (p + 1) =
        ap int64 (pos-add p 1) ∙ int64-pos (p + 1) (omega arith) in
      let step : s * (p + 1) ≡ s * p + s = omega arith in
      let end_ : int64 (pos s *ℤ int64 (pos p +ℤ pos 1)) ≡ pos (s * p + s) =
        ap (λ k. int64 (pos s *ℤ k)) next
        ∙ ap int64 (pos-mul s (p + 1))
        ∙ ap (λ k. int64 (pos k)) step
        ∙ int64-pos (s * p + s) (omega arith) in
      let sized : eq_ℤ (pos s) (negsuc 0) ≡ false = ground arith in
      elim (Bool-cases (ltb_ℤ (pos (length xs)) (pos (s * p)))) [
        | inl past ↦
            let beyond : length xs ≤ s * p = ground arith in
            rw (page_of, sized, off, end_, past)
              (ap some (sym (ap (take s) (drop_all (s * p) xs beyond) ∙ take_nil s)))
        | inr within ↦ elim (Bool-cases (ltb_ℤ (pos (length xs)) (pos (s * p + s)))) [
          | inl cut ↦
              let rest = drop (s * p) xs in
              let open_ : leb (s * p) (length xs) ≡ true = ground arith in
              let long : length rest ≤ length xs - s * p = omega (arith, length-drop (s * p) xs) in
              let short : length rest ≤ s = ground (arith, length-drop (s * p) xs) in
              rw (page_of, sized, off, end_, within, cut, open_)
                (ap some (take_all (length xs - s * p) rest long ∙ sym (take_all s rest short)))
          | inr full ↦
              let open_ : leb (s * p) (s * p + s) ≡ true = ground arith in
              let gap : s * p + s - s * p ≡ s = omega arith in
              rw (page_of, sized, off, end_, within, full, open_, gap) refl
        ]
      ]

  -- The pages of one size, from page 0 on, end to end.
  unfoldable pub first_pages : List A → (size count : ℕ) → Option (List A)
  first_pages xs s zero = some []
  first_pages xs s (suc k) = do
    front ← first_pages xs s k
    page ← page_of xs (page_at k s)
    some (front ++ page)

  first_pages-take :
      (xs : List A) (s k : ℕ)
      → s * k < 2 ^ 63
      → k < 2 ^ 62
      → first_pages xs s k ≡ some (take (s * k) xs)
  unfolding first_pages
  first_pages-take xs s zero h small = let start : s * zero ≡ 0 = omega arith in rw start refl
  first_pages-take xs s (suc k) h small =
      let step : s * suc k ≡ s * k + s = omega arith in
      rw
        (
          first_pages-take xs s k (omega arith) (omega arith),
          page_of-take xs k s (omega arith) (omega arith),
          step,
        )
        (ap some (sym (take-sum (s * k) s xs)))

-- The number of pages that the handler reports.
total_pages-ceil :
    (total size : ℕ)
    → 1 ≤ size
    → total + size < 2 ^ 62
    → total_pages total (pos size) ≡ pos ((total + size - 1) / size)
unfolding total_pages quotient ◌-ℤ◌
total_pages-ceil total size h small =
    let sum : int64 (pos total +ℤ pos size) ≡ pos (total + size) =
      ap int64 (pos-add total size) ∙ int64-pos (total + size) (omega arith) in
    let less : pos (total + size) -ℤ pos 1 ≡ pos (total + size - 1) = ground arith in
    let back = ap int64 less ∙ int64-pos (total + size - 1) (omega arith) in rw (sum, back) refl

-- A page of a size of one object or more holds the objects after those of the pages before it, as
-- many as the size if there are so many left. It is empty exactly from the page on whose number the
-- handler reports as the number of pages. The page's end and number, and the list's length with the
-- size, are below 2 ^ 62, so that nothing wraps.
pub page_of-total_pages {ℓ} :
    {A : Type ℓ} (xs : List A) (p s : ℕ)
    → 1 ≤ s
    → s * p + s < 2 ^ 62
    → p < 2 ^ 62
    → length xs + s < 2 ^ 62
    → (ys : List A) × (pages : ℕ) × (page_of xs (page_at p s) ≡ some ys)
      × (ys ≡ take s (drop (s * p) xs))
      × (length ys ≤ s)
      × (total_pages (length xs) (pos s) ≡ pos pages)
      × ((length ys ≡ 0) ↔ (pages ≤ p))
page_of-total_pages xs p s one h small fits =
    let ys = take s (drop (s * p) xs) in
    let k = (length xs + s - 1) / s in
    let size = length-take s (drop (s * p) xs) in
    let rest = length-drop (s * p) xs in
    (
      ys,
      k,
      page_of-take xs p s (omega arith) small,
      refl,
      omega (arith, size),
      total_pages-ceil (length xs) s one fits,
      (
        λ empty.
            let done_ : length xs ≤ s * p = omega (arith, size, rest) in
            let k_small : k < p + 1 = (div-lt_iff_lt-mul one).1 (omega arith) in omega arith,
        λ past.
            let covered : length xs + s - 1 < (p + 1) * s =
              (div-lt_iff_lt-mul one).0 (omega arith) in
            omega (arith, size, rest),
      ),
    )

-- The pages that the handler reports for a size of one object or more, put end to end, are the
-- whole list, if the list's length and the size together are below 2 ^ 62.
pub first_pages-total_pages {ℓ} :
    {A : Type ℓ} (xs : List A) (s : ℕ)
    → 1 ≤ s
    → length xs + s < 2 ^ 62
    → (pages : ℕ) × (total_pages (length xs) (pos s) ≡ pos pages)
      × (first_pages xs s pages ≡ some xs)
first_pages-total_pages xs s one fits =
    let k = (length xs + s - 1) / s in
    let covered : length xs + s - 1 < (k + 1) * s = (div-lt_iff_lt-mul one).0 (omega arith) in
    let few : k < 2 ^ 62 = (div-lt_iff_lt-mul one).1 (omega arith) in
    let whole : length xs ≤ s * k = omega arith in
    let small : k * s ≤ length xs + s - 1 = div-mul-le_self (length xs + s - 1) s in
    (
      k,
      total_pages-ceil (length xs) s one fits,
      first_pages-take xs s k (omega arith) few ∙ ap some (take_all (s * k) xs whole),
    )
