-- ===== src/Upload/Writes.antt =====
-- web/routers/uploader.go: what a write of bytes at an offset does to each place of a file.
use mathlib.Core.Path.{subst}
use fa.Prelude.{
  ℕ, zero, suc, ◌+◌, ◌-◌, ◌≤◌, ◌<◌, ◌≡◌, refl, ap, ◌∙◌, List, [], ◌∷◌, ◌++◌, length, get_elem?,
  length-append, length-drop, drop, take, arith,
}
use fa.Upload.{write_at}

-- Lists with the same elements at the same places are equal.
pub same_list {ℓ} :
    {A : Type ℓ} (xs ys : List A) → ((p : ℕ) → get_elem? xs p ≡ get_elem? ys p) → xs ≡ ys
same_list [] [] h = refl
same_list [] (y ∷ ys) h = let e = h 0 in cc
same_list (x ∷ xs) [] h = let e = h 0 in cc
same_list (x ∷ xs) (y ∷ ys) h = let head = h 0 in let tail = same_list xs ys (λ p. h (suc p)) in cc

pub get_elem?-drop {ℓ} :
    {A : Type ℓ} (n p : ℕ) (xs : List A) → get_elem? (drop n xs) p ≡ get_elem? xs (n + p)
get_elem?-drop zero p xs = ap (get_elem? xs) (omega arith)
get_elem?-drop (suc n) p [] = refl
get_elem?-drop (suc n) p (x ∷ xs) =
    let shift : suc n + p ≡ suc (n + p) = omega arith in rw shift (get_elem?-drop n p xs)

pub get_elem?-take {ℓ} :
    {A : Type ℓ} (n p : ℕ) (xs : List A) → p < n → get_elem? (take n xs) p ≡ get_elem? xs p
get_elem?-take zero p xs h = absurd (omega arith)
get_elem?-take (suc n) p [] h = refl
get_elem?-take (suc n) zero (x ∷ xs) h = refl
get_elem?-take (suc n) (suc p) (x ∷ xs) h = get_elem?-take n p xs (omega arith)

get_elem?-left {ℓ} :
    {A : Type ℓ} (xs ys : List A) (p : ℕ) → p < length xs → get_elem? (xs ++ ys) p ≡ get_elem? xs p
get_elem?-left [] ys p h = absurd (omega arith)
get_elem?-left (x ∷ xs) ys zero h = refl
get_elem?-left (x ∷ xs) ys (suc p) h = get_elem?-left xs ys p (omega arith)

get_elem?-right {ℓ} :
    {A : Type ℓ} (xs ys : List A) (p : ℕ) → get_elem? (xs ++ ys) (length xs + p) ≡ get_elem? ys p
get_elem?-right [] ys p = ap (get_elem? ys) (omega arith)
get_elem?-right (x ∷ xs) ys p =
    let shift : suc (length xs) + p ≡ suc (length xs + p) = omega arith in
    rw shift (get_elem?-right xs ys p)

-- A write changes the places it covers, and no other that the file has.
pub write_at-before :
    (n p : ℕ) (bs file : List ℕ)
    → p < n
    → p < length file
    → get_elem? (write_at n bs file) p ≡ get_elem? file p
unfolding write_at
write_at-before n p [] file h k = refl
write_at-before zero p (b ∷ bs) file h k = absurd (omega arith)
write_at-before (suc n) p (b ∷ bs) [] h k = absurd (omega arith)
write_at-before (suc n) zero (b ∷ bs) (x ∷ file) h k = refl
write_at-before (suc n) (suc p) (b ∷ bs) (x ∷ file) h k =
    write_at-before n p (b ∷ bs) file (omega arith) (omega arith)

pub write_at-inside :
    (n p : ℕ) (bs file : List ℕ)
    → p < length bs
    → get_elem? (write_at n bs file) (n + p) ≡ get_elem? bs p
unfolding write_at
write_at-inside n p [] file h = absurd (omega arith)
write_at-inside zero p (b ∷ bs) file h =
    let start : 0 + p ≡ p = omega arith in
    rw start (get_elem?-left (b ∷ bs) (drop (suc (length bs)) file) p h)
write_at-inside (suc n) p (b ∷ bs) [] h =
    let shift : suc n + p ≡ suc (n + p) = omega arith in
    rw shift (write_at-inside n p (b ∷ bs) [] h)
write_at-inside (suc n) p (b ∷ bs) (x ∷ file) h =
    let shift : suc n + p ≡ suc (n + p) = omega arith in
    rw shift (write_at-inside n p (b ∷ bs) file h)

pub write_at-after :
    (n p : ℕ) (bs file : List ℕ)
    → n + length bs ≤ p
    → get_elem? (write_at n bs file) p ≡ get_elem? file p
unfolding write_at
write_at-after n p [] file h = refl
write_at-after zero p (b ∷ bs) file h =
    let past : length (b ∷ bs) + (p - length (b ∷ bs)) ≡ p = omega arith in
    subst (λ k. get_elem? (b ∷ bs ++ drop (suc (length bs)) file) k ≡ get_elem? file k) past
      (get_elem?-right (b ∷ bs) (drop (suc (length bs)) file) (p - length (b ∷ bs))
        ∙ get_elem?-drop (suc (length bs)) (p - length (b ∷ bs)) file)
write_at-after (suc n) zero (b ∷ bs) file h = absurd (omega arith)
write_at-after (suc n) (suc p) (b ∷ bs) [] h = write_at-after n p (b ∷ bs) [] (omega arith)
write_at-after (suc n) (suc p) (b ∷ bs) (x ∷ file) h =
    write_at-after n p (b ∷ bs) file (omega arith)

pub length-write_at :
    (n l : ℕ) (bs file : List ℕ)
    → length file ≤ l
    → n + length bs ≤ l
    → length (write_at n bs file) ≤ l
unfolding write_at
length-write_at n l [] file h k = h
length-write_at zero l (b ∷ bs) file h k =
    omega
      (arith, length-append bs (drop (suc (length bs)) file), length-drop (suc (length bs)) file)
length-write_at (suc n) zero (b ∷ bs) file h k = absurd (omega arith)
length-write_at (suc n) (suc l) (b ∷ bs) [] h k =
    omega (arith, length-write_at n l (b ∷ bs) [] (omega arith) (omega arith))
length-write_at (suc n) (suc l) (b ∷ bs) (x ∷ file) h k =
    omega (arith, length-write_at n l (b ∷ bs) file (omega arith) (omega arith))
