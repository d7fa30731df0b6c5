-- ===== src/CloudStorage/Roots.antt =====
-- web/routers/file.go: rootPath, the directory of a storage.
use mathlib.Core.Path.{subst}
use mathlib.Core.List.{reverse, reverse-append, reverse-reverse}
use fa.Prelude.{
  ℕ, zero, suc, ◌+◌, ◌/◌, ◌%◌, ◌≤◌, ◌<◌, ◌≡◌, refl, sym, ap, ◌∙◌, inl, inr, true, false, [], ◌∷◌,
  ◌++◌, append_assoc, All, ltb, Bool-cases, arith,
}
use fa.Prelude.Int.{ℤ, pos, negsuc}
use fa.Prelude.Text.{Text, eq_text, is_space, trim_left, trim_space, digits, decimal}
use fa.Paths.{clean, parse, starts_at_root, dot_dot}
use fa.Paths.Parts.{IsTame, NoSlash}
use fa.Paths.Chain.{tame-Holds}
use fa.Files.Places.{LiesIn, clean-LiesIn}
use fa.Files.Ownership.{owner_of_itself}
use fa.CloudStorage.{
  root_of, CloudStorage, Storage, system, audit_root, approved, external, storage_of, bound,
  root_path,
}

-- A text that ends with a digit.
abbrev EndsInDigit : Text → Type 0
EndsInDigit s = (front : Text) × (d : ℕ) × (s ≡ front ++ (b'0' + d) ∷ []) × (d < 10)

abbrev IsHigh : ℕ → Type 0
IsHigh c = b'0' ≤ c

All-last : (s : Text) (c : ℕ) → All IsHigh s → IsHigh c → All IsHigh (s ++ c ∷ [])
All-last [] c h k = (k, tt)
All-last (x ∷ s) c h k = (h.0, All-last s c h.1 k)

digits-EndsInDigit : (fuel n : ℕ) → EndsInDigit (digits (suc fuel) n)
unfolding digits
digits-EndsInDigit fuel n = elim (Bool-cases (ltb n 10)) [
  | inl few ↦ ([], n, rw few refl, ground arith)
  | inr many ↦ (digits fuel (n / 10), n % 10, rw many refl, omega arith)
]

digits-IsHigh : (fuel n : ℕ) → All IsHigh (digits fuel n)
unfolding digits
digits-IsHigh zero n = tt
digits-IsHigh (suc fuel) n = elim (Bool-cases (ltb n 10)) [
  | inl few ↦ rw few (omega arith, tt)
  | inr many ↦
      rw many (
        All-last (digits fuel (n / 10)) (b'0' + n % 10) (digits-IsHigh fuel (n / 10)) (omega arith))
]

IsHigh-NoSlash : (s : Text) → All IsHigh s → NoSlash s
IsHigh-NoSlash [] h = tt
IsHigh-NoSlash (c ∷ s) h = let high = h.0 in (ground arith, IsHigh-NoSlash s h.1)

decimal-EndsInDigit : (n : ℤ) → EndsInDigit (decimal n)
unfolding decimal
decimal-EndsInDigit (pos n) = digits-EndsInDigit n n
decimal-EndsInDigit (negsuc n) =
    let (front, d, same, low) = digits-EndsInDigit (suc n) (suc n) in
    (b'-' ∷ front, d, ap (◌∷◌ b'-') same, low)

decimal-IsTame : (n : ℤ) → IsTame (decimal n)
unfolding decimal
decimal-IsTame (pos n) = (
  high_up (digits (suc n) n) (digits-IsHigh (suc n) n),
  IsHigh-NoSlash (digits (suc n) n) (digits-IsHigh (suc n) n),
)
  where
    high_up : (s : Text) → All IsHigh s → eq_text s dot_dot ≡ false
    high_up [] h = refl
    high_up (c ∷ s) h = let high = h.0 in ground arith
decimal-IsTame (negsuc n) = (
  refl,
  (refl, IsHigh-NoSlash (digits (suc (suc n)) (suc n)) (digits-IsHigh (suc (suc n)) (suc n))),
)

digit-solid : (d : ℕ) → d < 10 → is_space (b'0' + d) ≡ false
unfolding is_space
digit-solid d low = ground arith

-- A text from the root that ends with a digit has no white space around it.
trim_space-same : (s : Text) → starts_at_root s ≡ true → EndsInDigit s → trim_space s ≡ s
unfolding trim_space trim_left starts_at_root is_space
trim_space-same [] root ends = absurd (ground arith)
trim_space-same (c ∷ s) root (front, d, same, low) =
    let slash : c ≡ b'/' = ground arith in
    let solid : is_space c ≡ false = rw slash refl in
    let back : reverse (c ∷ s) ≡ (b'0' + d) ∷ reverse front =
      ap reverse same ∙ reverse-append front ((b'0' + d) ∷ []) in
    rw (solid, back, digit-solid d low) (ap reverse (sym back) ∙ reverse-reverse (c ∷ s))

append-EndsInDigit : (s t : Text) → EndsInDigit t → EndsInDigit (s ++ t)
append-EndsInDigit s t (front, d, same, low) =
    (s ++ front, d, ap (λ u. s ++ u) same ∙ sym (append_assoc s front ((b'0' + d) ∷ [])), low)

rooted_append : (s t : Text) → starts_at_root s ≡ true → starts_at_root (s ++ t) ≡ true
unfolding starts_at_root
rooted_append [] t h = absurd (ground arith)
rooted_append (c ∷ s) t h = h

root_of-LiesIn :
    (cs : CloudStorage) (st : Storage)
    → starts_at_root (bound cs st) ≡ true
    → LiesIn (bound cs st) (root_of cs st)
unfolding root_of bound
root_of-LiesIn cs system root = owner_of_itself cs.system_root_prefix root
root_of-LiesIn cs audit_root root = owner_of_itself cs.audit_root_prefix root
root_of-LiesIn cs approved root = owner_of_itself cs.audit_approved_root_prefix root
root_of-LiesIn cs (external n) root =
    let prefix = cs.external_mnt_prefix in
    let full = prefix ++ b'/' ∷ decimal n in
    let ends =
      append-EndsInDigit prefix (b'/' ∷ decimal n)
        (append-EndsInDigit (b'/' ∷ []) (decimal n) (decimal-EndsInDigit n)) in
    let trimmed = trim_space-same full (rooted_append prefix (b'/' ∷ decimal n) root) ends in
    let lies =
      tame-Holds prefix prefix (decimal n) root (decimal-IsTame n)
        (owner_of_itself prefix root).1 in
    subst (λ t. LiesIn prefix (clean t)) (sym trimmed) (clean-LiesIn prefix full lies)

-- The root of every storage, that of a mounted one too, lies in the directory that the storage's paths
-- are checked against, if that directory's name begins at the root.
pub root_path-LiesIn :
    (cs : CloudStorage) (id : ℤ)
    → starts_at_root (bound cs (storage_of id)) ≡ true
    → LiesIn (bound cs (storage_of id)) (root_path cs id)
unfolding root_path
root_path-LiesIn cs id root = root_of-LiesIn cs (storage_of id) root

pub LiesIn-trans : (outer inner p : Text) → LiesIn outer inner → LiesIn inner p → LiesIn outer p
LiesIn-trans outer inner p (root, (xs, shape)) (root2, (ys, shape2)) =
    (root2, (xs ++ ys, shape2 ∙ ap (λ l. l ++ ys) shape ∙ append_assoc (parse outer).parts xs ys))
