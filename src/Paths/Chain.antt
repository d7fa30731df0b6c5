-- ===== src/Paths/Chain.antt =====
-- pkg/iotools/file.go: the path of an entry of a directory.

use mathlib.Core.List.{reverse, reverse-reverse}
use fa.Prelude.{
  ◌≡◌, refl, ap, ◌∙◌, inl, inr, true, false, ◌||◌, List, [], ◌∷◌, ◌++◌, append_assoc, ◌==◌,
  Bool-cases, arith,
}
use fa.Prelude.Text.{Text, eq_text}
use fa.Paths.{into_first, split, dot, dot_dot, up, settle, starts_at_root, parse, clean}
use fa.Paths.Parts.{IsTame, clean-parse, IsName, NoSlash, split-last, settle-names}
use fa.Paths.Subdirs.{Holds}

pub split_nonempty : (s : Text) → (e : Text) × (es : List Text) × (split s ≡ e ∷ es)
unfolding split into_first
split_nonempty [] = ([], [], refl)
split_nonempty (c ∷ s) = elim (Bool-cases (c == b'/')) [
  | inl slash ↦ ([], split s, rw slash)
  | inr other ↦ let (e, es, shape) = split_nonempty s in (c ∷ e, es, rw (other, shape))
]

split-append : (s t : Text) → split (s ++ b'/' ∷ t) ≡ split s ++ split t
unfolding split into_first
split-append [] t = refl
split-append (c ∷ s) t = elim (Bool-cases (c == b'/')) [
  | inl slash ↦ rw (slash, split-append s t)
  | inr other ↦ let (e, es, shape) = split_nonempty s in rw (other, split-append s t, shape)
]

settle-append :
    (st xs ys : List Text)
    → settle true st (xs ++ ys) ≡ settle true (reverse (settle true st xs)) ys
unfolding settle
settle-append st [] ys = rw (reverse-reverse st)
settle-append st (x ∷ xs) ys = elim (Bool-cases (eq_text x [] || eq_text x dot)) [
  | inl skip ↦ rw skip (settle-append st xs ys)
  | inr named ↦ elim (Bool-cases (eq_text x dot_dot)) [
    | inl parent ↦ rw (named, parent) (settle-append (up true st) xs ys)
    | inr name ↦ rw (named, name) (settle-append (x ∷ st) xs ys)
  ]
]

begins_same : (dir t : Text) → starts_at_root dir ≡ true → starts_at_root (dir ++ t) ≡ true
unfolding starts_at_root
begins_same [] t h = cc
begins_same (c ∷ dir) t h = h

-- An entry of a directory has the directory's parts, and its own name.
pub parse-entry :
    (dir e : Text)
    → starts_at_root dir ≡ true
    → IsName e
    → (starts_at_root (dir ++ b'/' ∷ e) ≡ true)
      × ((parse (dir ++ b'/' ∷ e)).parts ≡ (parse dir).parts ++ e ∷ [])
unfolding parse
parse-entry dir e root name =
    let begins = begins_same dir (b'/' ∷ e) root in
    (
      begins,
      rw
          (
            begins,
            root,
            split-append dir e,
            settle-append [] (split dir) (split e),
            split-last e name.3,
          )
          (settle-names true (reverse (settle true [] (split dir))) (e ∷ []) (name, tt)
            ∙ ap (λ l. l ++ e ∷ []) (reverse-reverse (settle true [] (split dir)))),
    )

-- What holds a directory holds its entries.
pub entry-Holds :
    (parent dir e : Text)
    → starts_at_root dir ≡ true
    → IsName e
    → Holds parent dir
    → Holds parent (dir ++ b'/' ∷ e)
entry-Holds parent dir e root name (more, shape) = (
  more ++ e ∷ [],
  (parse-entry dir e root name).1
      ∙ ap (λ l. l ++ e ∷ []) shape
      ∙ append_assoc (parse parent).parts more (e ∷ []),
)

-- A directory's own entry ".".
pub parse-dot :
    (dir : Text) → starts_at_root dir ≡ true → (parse (dir ++ b'/' ∷ dot)).parts ≡ (parse dir).parts
unfolding parse settle
parse-dot dir root =
    rw
      (
        begins_same dir (b'/' ∷ dot) root,
        root,
        split-append dir dot,
        settle-append [] (split dir) (split dot),
      )
      (reverse-reverse (settle true [] (split dir)))

-- A last part that is no name stands for the directory.
empty-entry :
    (dir e : Text)
    → starts_at_root dir ≡ true
    → NoSlash e
    → (eq_text e [] || eq_text e dot) ≡ true
    → (parse (dir ++ b'/' ∷ e)).parts ≡ (parse dir).parts
unfolding parse settle
empty-entry dir e root plain same =
    rw
      (
        begins_same dir (b'/' ∷ e) root,
        root,
        split-append dir e,
        settle-append [] (split dir) (split e),
        split-last e plain,
        same,
      )
      (reverse-reverse (settle true [] (split dir)))

-- What holds a directory holds whatever a tame last part leads to.
pub tame-Holds :
    (parent dir e : Text)
    → starts_at_root dir ≡ true
    → IsTame e
    → Holds parent dir
    → (starts_at_root (dir ++ b'/' ∷ e) ≡ true) × Holds parent (dir ++ b'/' ∷ e)
tame-Holds parent dir e root (stays, plain) (more, shape) = (
  begins_same dir (b'/' ∷ e) root,
  elim (Bool-cases (eq_text e [] || eq_text e dot)) [
    | inl same ↦ (more, empty-entry dir e root plain same ∙ shape)
    | inr other ↦
        let named : eq_text e [] ≡ false = ground arith in
        let apart : eq_text e dot ≡ false = ground arith in
        entry-Holds parent dir e root (named, apart, stays, plain) (more, shape)
  ],
)

pub clean-Holds :
    (parent s : Text) → starts_at_root s ≡ true → Holds parent s → Holds parent (clean s)
clean-Holds parent s root (more, shape) = (more, ap (λ p. p.parts) (clean-parse s root).0 ∙ shape)
