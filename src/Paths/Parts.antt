-- ===== src/Paths/Parts.antt =====
-- pkg/iotools/file.go: the parts of a clean path that begins at the root.
use mathlib.Core.Path.{subst}
use mathlib.Core.List.{reverse, reverse-cons}
use fa.Prelude.{
  ℕ, ◌≡◌, refl, sym, ap, ◌∙◌, inl, inr, Bool, true, false, List, [], ◌∷◌, ◌++◌, append_assoc,
  append-nil, All, ◌==◌, Bool-cases,
}
use fa.Prelude.Text.{Text, eq_text}
use fa.Paths.{
  CleanPath, into_first, split, join, dot, dot_dot, up, settle, starts_at_root, parse, show, clean,
}

abbrev pub NoSlash : Text → Type 0
NoSlash [] = Unit
NoSlash (c ∷ s) = ((c == b'/') ≡ false) × NoSlash s

-- A name of a directory or a file.
abbrev pub IsName : Text → Type 0
IsName e =
    (eq_text e [] ≡ false) × (eq_text e dot ≡ false) × (eq_text e dot_dot ≡ false) × NoSlash e

abbrev pub IsAbsolute : CleanPath → Type 0
IsAbsolute p = (p.rooted ≡ true) × All IsName p.parts

module _ {A : Type 0} (P : A → Type 0) where
  pub All-append : (xs ys : List A) → All P xs → All P ys → All P (xs ++ ys)
  All-append [] ys h k = k
  All-append (x ∷ xs) ys h k = (h.0, All-append xs ys h.1 k)

  All-reverse : (xs : List A) → All P xs → All P (reverse xs)
  All-reverse [] h = tt
  All-reverse (x ∷ xs) h =
      rw (reverse-cons x xs) (All-append (reverse xs) (x ∷ []) (All-reverse xs h.1) (h.0, tt))

into_first-NoSlash :
    (c : ℕ) (es : List Text) → (c == b'/') ≡ false → All NoSlash es → All NoSlash (into_first c es)
unfolding into_first
into_first-NoSlash c [] h k = ((h, tt), tt)
into_first-NoSlash c (e ∷ es) h k = ((h, k.0), k.1)

split-NoSlash : (s : Text) → All NoSlash (split s)
unfolding split
split-NoSlash [] = (tt, tt)
split-NoSlash (c ∷ s) = elim (Bool-cases (c == b'/')) [
  | inl slash ↦ rw slash (tt, split-NoSlash s)
  | inr other ↦ rw other (into_first-NoSlash c (split s) other (split-NoSlash s))
]

settle-IsName :
    (st es : List Text) → All IsName st → All NoSlash es → All IsName (settle true st es)
unfolding settle up
settle-IsName st [] h k = All-reverse IsName st h
settle-IsName st (e ∷ es) h k = elim (Bool-cases (eq_text e [])) [
  | inl empty ↦ rw empty (settle-IsName st es h k.1)
  | inr named ↦ elim (Bool-cases (eq_text e dot)) [
    | inl same ↦ rw (named, same) (settle-IsName st es h k.1)
    | inr other ↦ elim (Bool-cases (eq_text e dot_dot)) [
      | inl parent ↦ rw (named, other, parent) (settle-IsName (up true st) es (up-IsName st h) k.1)
      | inr name ↦
          rw (named, other, name) (settle-IsName (e ∷ st) es ((named, other, name, k.0), h) k.1)
    ]
  ]
]
  where
    up-IsName : (st : List Text) → All IsName st → All IsName (up true st)
    up-IsName [] h = tt
    up-IsName (x ∷ st) h = let top = h.0.2 in rw top (h.1)

-- A path that begins at the root is clean below it.
pub parse-IsAbsolute : (s : Text) → starts_at_root s ≡ true → IsAbsolute (parse s)
unfolding parse
parse-IsAbsolute s h = rw h (refl, settle-IsName [] (split s) tt (split-NoSlash s))

split-name : (e s : Text) → NoSlash e → split (e ++ b'/' ∷ s) ≡ e ∷ split s
unfolding split into_first
split-name [] s h = refl
split-name (c ∷ e) s h = rw (h.0, split-name e s h.1)

pub split-last : (e : Text) → NoSlash e → split e ≡ e ∷ []
unfolding split into_first
split-last [] h = refl
split-last (c ∷ e) h = rw (h.0, split-last e h.1)

split-join : (e : Text) (es : List Text) → All IsName (e ∷ es) → split (join (e ∷ es)) ≡ e ∷ es
unfolding join
split-join e [] h = split-last e h.0.3
split-join e (f ∷ es) h = split-name e (join (f ∷ es)) h.0.3 ∙ ap (◌∷◌ e) (split-join f es h.1)

pub settle-names :
    (rooted : Bool) (st es : List Text) → All IsName es → settle rooted st es ≡ reverse st ++ es
unfolding settle
settle-names rooted st [] h = sym (append-nil (reverse st))
settle-names rooted st (e ∷ es) h =
    rw (h.0.0, h.0.1, h.0.2)
      (settle-names rooted (e ∷ st) es h.1
        ∙ ap (λ l. l ++ es) (reverse-cons e st)
        ∙ append_assoc (reverse st) (e ∷ []) es)

absolute : List Text → CleanPath
absolute es = record { rooted = true; parts = es }

parse-absolute : (es : List Text) → All IsName es → parse (show (absolute es)) ≡ absolute es
unfolding parse show starts_at_root split absolute settle
parse-absolute [] h = refl
parse-absolute (e ∷ es) h =
    ap absolute (ap (settle true []) (split-join e es h) ∙ settle-names true [] (e ∷ es) h)

-- Showing a clean absolute path and parsing it again gives the path.
pub parse-show : (p : CleanPath) → IsAbsolute p → parse (show p) ≡ p
unfolding absolute
parse-show p h =
    let whole : absolute p.parts ≡ p = ap (λ r. record { rooted = r; parts = p.parts }) (sym h.0) in
    subst (λ q. parse (show q) ≡ q) whole (parse-absolute p.parts h.1)

-- filepath.Clean of a path that begins at the root keeps its meaning: it parses to the same parts, all
-- of them names of directories or files, and to clean it again changes nothing.
pub clean-parse :
    (s : Text)
    → starts_at_root s ≡ true
    → (parse (clean s) ≡ parse s) × IsAbsolute (parse s) × (clean (clean s) ≡ clean s)
unfolding clean
clean-parse s h =
    let absolute = parse-IsAbsolute s h in
    let again = parse-show (parse s) absolute in (again, absolute, ap show again)

pub clean-rooted : (s : Text) → starts_at_root s ≡ true → starts_at_root (clean s) ≡ true
unfolding parse
clean-rooted s h =
    let (same, absolute, again) = clean-parse s h in ap (λ p. p.rooted) same ∙ absolute.0

-- The last part that strings.Split cuts off.
abbrev pub last_part : List Text → Text
last_part [] = []
last_part (e ∷ []) = e
last_part (e ∷ f ∷ es) = last_part (f ∷ es)

-- No step that climbs, and no "/".
abbrev pub IsTame : Text → Type 0
IsTame e = (eq_text e dot_dot ≡ false) × NoSlash e

name-IsTame : (es : List Text) → All IsName es → All IsTame es
name-IsTame [] h = tt
name-IsTame (e ∷ es) h = ((h.0.2, h.0.3), name-IsTame es h.1)

last_part-IsTame : (es : List Text) → All IsTame es → IsTame (last_part es)
last_part-IsTame [] h = (refl, tt)
last_part-IsTame (e ∷ []) h = h.0
last_part-IsTame (e ∷ f ∷ es) h = last_part-IsTame (f ∷ es) h.1

shown-IsTame : (es : List Text) → All IsName es → All IsTame (split (show (absolute es)))
unfolding split show absolute
shown-IsTame [] h = ((refl, tt), ((refl, tt), tt))
shown-IsTame (e ∷ es) h = ((refl, tt), rw (split-join e es h) (name-IsTame (e ∷ es) h))

-- The last part of a clean path from the root.
pub clean-IsTame : (s : Text) → starts_at_root s ≡ true → IsTame (last_part (split (clean s)))
unfolding clean absolute
clean-IsTame s h =
    let (rooted, names) = parse-IsAbsolute s h in
    last_part-IsTame (split (show (parse s))) (
      subst (λ r. All IsTame (split (show (record { rooted = r; parts = (parse s).parts }))))
        (sym rooted) (shown-IsTame (parse s).parts names))
