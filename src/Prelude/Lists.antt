-- ===== src/Prelude/Lists.antt =====
-- Lists measured and indexed by native numbers, under the library's names.
use Prim.Native.Nat.{ℕ, zero, suc, ◌+◌, ◌-◌, ◌≤◌, ◌<◌, min}
use mathlib.Core.Path.{◌≡◌, refl, ap, subst}
use mathlib.Core.Logic.{◌≢◌}
use mathlib.Core.List.{List, [], ◌∷◌, ◌++◌, map}
use mathlib.Core.Bool.{Bool, true, false}
use mathlib.Core.Option.{Option, none, some}
use fa.Prelude.Tests.{if◌then◌else◌}
use native.Mathlib.Omega.{arith}

module _ {ℓ} {A : Type ℓ} where
  abbrev pub length : List A → ℕ
  length [] = 0
  length (x ∷ xs) = suc (length xs)

  abbrev pub get_elem? : List A → ℕ → Option A
  get_elem? [] i = none
  get_elem? (x ∷ xs) zero = some x
  get_elem? (x ∷ xs) (suc i) = get_elem? xs i

  -- A write out of bounds changes nothing.
  abbrev pub set : List A → ℕ → A → List A
  set [] i v = []
  set (x ∷ xs) zero v = v ∷ xs
  set (x ∷ xs) (suc i) v = x ∷ set xs i v

  pub length-append : (xs ys : List A) → length (xs ++ ys) ≡ length xs + length ys
  length-append [] ys = omega arith
  length-append (x ∷ xs) ys = omega (arith, length-append xs ys)

module _ {ℓ} {A : Type ℓ} where
  pub length-set : (xs : List A) (i : ℕ) (v : A) → length (set xs i v) ≡ length xs
  length-set [] i v = refl
  length-set (x ∷ xs) zero v = refl
  length-set (x ∷ xs) (suc i) v = ap suc (length-set xs i v)

  pub get_elem?-set_self :
      (xs : List A) (i : ℕ) (v : A) → i < length xs → get_elem? (set xs i v) i ≡ some v
  get_elem?-set_self [] i v h = elim h [ ]
  get_elem?-set_self (x ∷ xs) zero v h = refl
  get_elem?-set_self (x ∷ xs) (suc i) v h = get_elem?-set_self xs i v (omega arith)

  pub get_elem?-set_ne :
      (xs : List A) {i j : ℕ} (v : A) → i ≢ j → get_elem? (set xs i v) j ≡ get_elem? xs j
  get_elem?-set_ne [] v h = refl
  get_elem?-set_ne (x ∷ xs) {i = zero} {j = zero} v h = absurd (h refl)
  get_elem?-set_ne (x ∷ xs) {i = zero} {j = suc j} v h = refl
  get_elem?-set_ne (x ∷ xs) {i = suc i} {j = zero} v h = refl
  get_elem?-set_ne (x ∷ xs) {i = suc i} {j = suc j} v h = get_elem?-set_ne xs v (λ e. h (ap suc e))

module _ {ℓ} {A : Type ℓ} where
  abbrev pub get_or : List A → ℕ → A → A
  get_or [] i d = d
  get_or (x ∷ xs) zero d = x
  get_or (x ∷ xs) (suc i) d = get_or xs i d

  abbrev pub take : ℕ → List A → List A
  take zero xs = []
  take (suc n) [] = []
  take (suc n) (x ∷ xs) = x ∷ take n xs

  abbrev pub drop : ℕ → List A → List A
  drop zero xs = xs
  drop (suc n) [] = []
  drop (suc n) (x ∷ xs) = drop n xs

  abbrev pub replicate : ℕ → A → List A
  replicate zero a = []
  replicate (suc n) a = a ∷ replicate n a

  pub take-append-drop : (n : ℕ) (xs : List A) → take n xs ++ drop n xs ≡ xs
  take-append-drop zero xs = refl
  take-append-drop (suc n) [] = refl
  take-append-drop (suc n) (x ∷ xs) = rw (take-append-drop n xs)

  pub length-take : (n : ℕ) (xs : List A) → length (take n xs) ≡ min n (length xs)
  length-take zero xs = omega arith
  length-take (suc n) [] = omega arith
  length-take (suc n) (x ∷ xs) = omega (arith, length-take n xs)

  pub length-drop : (n : ℕ) (xs : List A) → length (drop n xs) ≡ length xs - n
  length-drop zero xs = omega arith
  length-drop (suc n) [] = omega arith
  length-drop (suc n) (x ∷ xs) = omega (arith, length-drop n xs)

  pub length-replicate : (n : ℕ) (a : A) → length (replicate n a) ≡ n
  length-replicate zero a = refl
  length-replicate (suc n) a = ap suc (length-replicate n a)

  pub length-map {κ} : {B : Type κ} (xs : List A) (f : A → B) → length (map f xs) ≡ length xs
  length-map [] f = refl
  length-map (x ∷ xs) f = ap suc (length-map xs f)

-- A predicate by recursion, which computes to tuples.
abbrev pub All {ℓ κ} : {A : Type ℓ} → (A → Type κ) → List A → Type κ
All P [] = Unit
All P (x ∷ xs) = P x × All P xs

module _ {ℓ} {A : Type ℓ} where
  pub take_prefix : (n : ℕ) (xs ys : List A) → take (length (take n xs)) (xs ++ ys) ≡ take n xs
  take_prefix zero xs ys = refl
  take_prefix (suc n) [] ys = refl
  take_prefix (suc n) (x ∷ xs) ys = ap (◌∷◌ x) (take_prefix n xs ys)

  pub drop_past : (xs ys : List A) (n : ℕ) → drop (length xs + n) (xs ++ ys) ≡ drop n ys
  drop_past [] ys n = ap (λ k. drop k ys) (omega arith)
  drop_past (x ∷ xs) ys n =
      let shift : suc (length xs) + n ≡ suc (length xs + n) = omega arith in
      rw shift (drop_past xs ys n)

  pub drop_within : (n : ℕ) (xs ys : List A) → n ≤ length xs → drop n (xs ++ ys) ≡ drop n xs ++ ys
  drop_within zero xs ys h = refl
  drop_within (suc n) [] ys h = absurd (omega arith)
  drop_within (suc n) (x ∷ xs) ys h = drop_within n xs ys (omega arith)

pub get_elem?-beyond {ℓ} :
    {A : Type ℓ} (xs : List A) (p : ℕ) → length xs ≤ p → get_elem? xs p ≡ none
get_elem?-beyond [] p h = refl
get_elem?-beyond (x ∷ xs) zero h = absurd (omega arith)
get_elem?-beyond (x ∷ xs) (suc p) h = get_elem?-beyond xs p (omega arith)

pub get_elem?-within {ℓ} :
    {A : Type ℓ} (xs : List A) (p : ℕ) → p < length xs → (v : A) × (get_elem? xs p ≡ some v)
get_elem?-within [] p h = absurd (omega arith)
get_elem?-within (x ∷ xs) zero h = (x, refl)
get_elem?-within (x ∷ xs) (suc p) h = get_elem?-within xs p (omega arith)

module _ {ℓ} {A : Type 0} (P : A → Type ℓ) where
  pub All-set : (xs : List A) (i : ℕ) (a : A) → All P xs → P a → All P (set xs i a)
  All-set [] i a h p = h
  All-set (x ∷ xs) zero a h p = (p, h.1)
  All-set (x ∷ xs) (suc i) a h p = (h.0, All-set xs i a h.1 p)

  pub All-get : (xs : List A) (i : ℕ) (a : A) → All P xs → get_elem? xs i ≡ some a → P a
  All-get [] i a h e = cc
  All-get (x ∷ xs) zero a h e = let same : x ≡ a = cc in subst P same h.0
  All-get (x ∷ xs) (suc i) a h e = All-get xs i a h.1 e

  pub All-snoc : (xs : List A) (a : A) → All P xs → P a → All P (xs ++ (a ∷ []))
  All-snoc [] a h p = (p, tt)
  All-snoc (x ∷ xs) a h p = (h.0, All-snoc xs a h.1 p)

pub All-both {ℓ κ μ} :
    {A : Type 0} (P : A → Type ℓ) (Q : A → Type κ) (R : A → Type μ)
    → ((a : A) → P a → Q a → R a)
    → (xs : List A) → All P xs
    → All Q xs
    → All R xs
All-both P Q R f [] h k = tt
All-both P Q R f (x ∷ xs) h k = (f x h.0 k.0, All-both P Q R f xs h.1 k.1)

pub get_elem?-set_there {ℓ} :
    {A : Type ℓ} (xs : List A) (i : ℕ) (a v : A)
    → get_elem? xs i ≡ some a
    → get_elem? (set xs i v) i ≡ some v
get_elem?-set_there [] i a v h = cc
get_elem?-set_there (x ∷ xs) zero a v h = refl
get_elem?-set_there (x ∷ xs) (suc i) a v h = get_elem?-set_there xs i a v h

-- The items that pass a test, and the first of them.
unfoldable pub filter : {A : Type 0} → (A → Bool) → List A → List A
filter p [] = []
filter p (x ∷ xs) = let rest = filter p xs in if p x then x ∷ rest else rest

unfoldable pub first : {A : Type 0} → (A → Bool) → List A → Option A
first p [] = none
first p (x ∷ xs) = let later = first p xs in if p x then some x else later

pub All-filter {ℓ} :
    {A : Type 0} (P : A → Type ℓ) (q : A → Bool) (xs : List A) → All P xs → All P (filter q xs)
unfolding filter
All-filter P q [] h = tt
All-filter P q (x ∷ xs) h = tested (q x) (All-filter P q xs h.1)
  where
    tested : (b : Bool) → All P (filter q xs) → All P (if b then x ∷ filter q xs else filter q xs)
    tested true rest = (h.0, rest)
    tested false rest = rest
