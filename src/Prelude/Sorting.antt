-- ===== src/Prelude/Sorting.antt =====
-- Sorting by a key, as Go's sort.Sort and sort.SliceStable do, and its indifference to the order of
-- what it is given when the keys tell the items apart.
use mathlib.Core.Logic.{∥∥₁_elim}
use mathlib.Core.Path.{◌≡◌, refl, ap, ◌∙◌, subst}
use mathlib.Core.List.{List, [], ◌∷◌, map, Permᴰ, Perm}
use mathlib.Core.List.Permᴰ.{symm}
use Prim.Native.Nat.{ℕ, suc}
use native.Mathlib.Nat.{ℕ_set}
use native.Mathlib.Omega.{arith}
use fa.Prelude.Tests.{ltb, if◌then◌else◌}
use fa.Prelude.Lists.{length, All}

module _ {A : Type 0} (key : A → ℕ) where
  unfoldable pub insert_by : A → List A → List A
  insert_by c [] = c ∷ []
  insert_by c (x ∷ xs) = if ltb (key x) (key c) then x ∷ insert_by c xs else c ∷ x ∷ xs

  unfoldable pub sort_by : List A → List A
  unfolding insert_by
  sort_by [] = []
  sort_by (c ∷ cs) = insert_by c (sort_by cs)

  module _ (job : ℕ → A) where
    -- An item is known by its key.
    abbrev pub IsJob : A → Type 0
    IsJob c = c ≡ job (key c)

    insert_by_comm :
        (a b : A) (xs : List A)
        → IsJob a
        → IsJob b
        → insert_by a (insert_by b xs) ≡ insert_by b (insert_by a xs)
    unfolding insert_by
    insert_by_comm a b [] p q = ground arith
    insert_by_comm a b (x ∷ xs) p q = ground (arith, insert_by_comm a b xs p q)

    All-perm : {xs ys : List A} → Permᴰ xs ys → All IsJob xs → All IsJob ys
    All-perm Permᴰ.nil h = h
    All-perm (Permᴰ.cons e p) h = (subst IsJob e h.0, All-perm p h.1)
    All-perm (Permᴰ.swap e f) h = (subst IsJob f h.1.0, (subst IsJob e h.0, h.1.1))
    All-perm (Permᴰ.trans p q) h = All-perm q (All-perm p h)

    sort_by-permᴰ : {xs ys : List A} → Permᴰ xs ys → All IsJob xs → sort_by xs ≡ sort_by ys
    unfolding sort_by
    sort_by-permᴰ Permᴰ.nil h = refl
    sort_by-permᴰ (Permᴰ.cons {b = b} e p) h = rw e (ap (insert_by b) (sort_by-permᴰ p h.1))
    sort_by-permᴰ (Permᴰ.swap {a = a} {b = b} {l = l} e f) h =
        rw (← e, ← f) (insert_by_comm a b (sort_by l) h.0 h.1.0)
    sort_by-permᴰ (Permᴰ.trans p q) h = sort_by-permᴰ p h ∙ sort_by-permᴰ q (All-perm p h)

    pub sort_by-perm :
        {xs ys : List A} → IsSet (List A) → Perm xs ys → All IsJob ys → sort_by xs ≡ sort_by ys
    sort_by-perm s perm h = ∥∥₁_elim perm (s _ _) (λ q. sort_by-permᴰ q (All-perm (symm q) h))

length-permᴰ {ℓ} : {A : Type ℓ} {xs ys : List A} → Permᴰ xs ys → length xs ≡ length ys
length-permᴰ Permᴰ.nil = refl
length-permᴰ (Permᴰ.cons e p) = ap suc (length-permᴰ p)
length-permᴰ (Permᴰ.swap e f) = refl
length-permᴰ (Permᴰ.trans p q) = length-permᴰ p ∙ length-permᴰ q

pub length-perm {ℓ} : {A : Type ℓ} {xs ys : List A} → Perm xs ys → length xs ≡ length ys
length-perm perm = ∥∥₁_elim perm (ℕ_set _ _) length-permᴰ

module _ {A B : Type 0} (f : A → B) (key : A → ℕ) (key' : B → ℕ)
    (same : (a : A) → key' (f a) ≡ key a) where
  insert_by-map :
      (c : A) (ys : List A) → insert_by key' (f c) (map f ys) ≡ map f (insert_by key c ys)
  unfolding insert_by
  insert_by-map c [] = refl
  insert_by-map c (y ∷ ys) = rw (same y, same c) (ground (arith, insert_by-map c ys))

  -- Sorting sees no more of an item than its key.
  pub sort_by-map : (xs : List A) → sort_by key' (map f xs) ≡ map f (sort_by key xs)
  unfolding sort_by
  sort_by-map [] = refl
  sort_by-map (x ∷ xs) = rw (sort_by-map xs) (insert_by-map x (sort_by key xs))
