-- ===== src/CloudStorage/Sanitize.antt =====
-- web/routers/file.go: sanitizePath, the paths that it lets through.
use mathlib.Core.Path.{subst}
use mathlib.Core.List.{reverse, reverse-cons, reverse-append}
use fa.Prelude.{
  ℕ, ◌≡◌, ◌↔◌, refl, sym, ap, ◌∙◌, inl, inr, Bool, true, false, not, ◌&&◌, Option, none, some, List,
  [], ◌∷◌, ◌++◌, if◌then◌else◌, Bool-cases, arith,
}
use fa.Prelude.Int.{ℤ}
use fa.Prelude.Text.{Text, is_space, trim_left, trim_space}
use fa.Paths.{is_sub_dir, starts_at_root}
use fa.Paths.Parts.{IsTame, clean-rooted}
use fa.Paths.Subdirs.{is_sub_dir-Holds, Holds-is_sub_dir}
use fa.Proc.{Os, Err, left_root, bad_name, Call, returned, Proc, ◌>>=◌}
use fa.Proc.Keeps.{Keeps, Keeps-bind_known, returned_inj}
use fa.Files.{split_file}
use fa.Files.Places.{LiesIn, split_file-IsTame}
use fa.CloudStorage.{
  CloudStorage, Storage, storage_of, bound, below, place, sanitize_path, checked, sanitized,
}

trim_left-last :
    (xs : Text) (c : ℕ)
    → is_space c ≡ false
    → (ys : Text) × (trim_left (xs ++ c ∷ []) ≡ ys ++ c ∷ [])
unfolding trim_left
trim_left-last [] c solid = ([], rw solid)
trim_left-last (x ∷ xs) c solid = elim (Bool-cases (is_space x)) [
  | inl blank ↦ let (ys, same) = trim_left-last xs c solid in (ys, rw blank same)
  | inr other ↦ (x ∷ xs, rw other)
]

trim_space-rooted : (s : Text) → starts_at_root s ≡ true → starts_at_root (trim_space s) ≡ true
unfolding trim_space trim_left starts_at_root is_space
trim_space-rooted [] h = absurd (ground arith)
trim_space-rooted (c ∷ s) h =
    let slash : c ≡ b'/' = ground arith in
    let solid : is_space c ≡ false = rw slash refl in
    let (ys, same) = trim_left-last (reverse s) c solid in
    rw (solid, reverse-cons c s, same, reverse-append ys (c ∷ [])) h

appended_root : (s t : Text) → starts_at_root s ≡ true → starts_at_root (s ++ t) ≡ true
unfolding starts_at_root
appended_root [] t h = absurd (ground arith)
appended_root (c ∷ s) t h = h

-- Every path that sanitizePath makes begins at the root, when the storage's prefix does.
place-rooted :
    (cs : CloudStorage) (st : Storage) (path : Text)
    → starts_at_root (bound cs st) ≡ true
    → (starts_at_root (place cs st path) ≡ true) × IsTame (split_file (place cs st path)).1
unfolding place
place-rooted cs st path root =
    let full = bound cs st ++ b'/' ∷ below st path in
    let trimmed =
      trim_space-rooted full (appended_root (bound cs st) (b'/' ∷ below st path) root) in
    (clean-rooted (trim_space full) trimmed, split_file-IsTame (trim_space full) trimmed)

unfoldable pub NameFits : CloudStorage → Text → Type 0
NameFits cs path = (not cs.ignore_name_check && cs.bad_filename_regex (split_file path).1) ≡ false

-- sanitizePath lets a path through, and gives the place that it makes of it, exactly when the name
-- test does not refuse the last part and the place lies in the directory that the storage is checked
-- against, whose prefix begins at the root.
pub sanitize_path-LiesIn :
    (cs : CloudStorage) (path : Text) (id : ℤ)
    → starts_at_root (bound cs (storage_of id)) ≡ true
    → (sanitize_path cs path id ≡ (place cs (storage_of id) path, none))
      ↔ (NameFits cs path × LiesIn (bound cs (storage_of id)) (place cs (storage_of id) path))
unfolding sanitize_path NameFits
sanitize_path-LiesIn cs path id root =
    let st = storage_of id in
    let b = bound cs st in
    let p = place cs st path in
    elim (Bool-cases (not cs.ignore_name_check && cs.bad_filename_regex (split_file path).1)) [
      | inl refused ↦
          let answer : sanitize_path cs path id ≡ ([], some bad_name) =
            rw (sanitize_path, refused) in
          (
            λ accepted.
                let fails = no_error ([], some bad_name) p (sym answer ∙ accepted) in absurd cc,
            λ (fits, lies). absurd cc,
          )
      | inr fits ↦
          let answer : sanitize_path cs path id
              ≡ (p, if is_sub_dir b p then none else some left_root) =
            rw (sanitize_path, fits) in
          (
            λ accepted.
                let inside : is_sub_dir b p ≡ true =
                  accepts (is_sub_dir b p) (ap (λ r. r.1) (sym answer ∙ accepted)) in
                (fits, is_sub_dir-Holds b p root inside),
            λ (named, lies).
                let inside = Holds-is_sub_dir b p root (lies.0) (lies.1) in
                answer ∙ ap (λ d. (p, if d then none else some left_root)) inside,
          )
    ]
  where
    no_error : (r : Text × Option Err) (t : Text) → r ≡ (t, none) → r.1 ≡ none
    no_error r t same = ap (λ q. q.1) same

    accepts : (d : Bool) → (if d then none else some left_root) ≡ none → d ≡ true
    accepts true h = refl
    accepts false h = cc

accepted_place :
    (cs : CloudStorage) (path : Text) (id : ℤ) (q : Text)
    → sanitize_path cs path id ≡ (q, none)
    → q ≡ place cs (storage_of id) path
unfolding sanitize_path
accepted_place cs path id q same =
    elim (Bool-cases (not cs.ignore_name_check && cs.bad_filename_regex (split_file path).1)) [
      | inl refused ↦
          let answer : sanitize_path cs path id ≡ ([], some bad_name) =
            rw (sanitize_path, refused) in
          let fails = ap (λ r. r.1) (sym answer ∙ same) in absurd cc
      | inr fits ↦
          let answer : sanitize_path cs path id ≡ (
            place cs (storage_of id) path,
            if is_sub_dir (bound cs (storage_of id)) (place cs (storage_of id) path)
                then none
                else some left_root,
          ) =
            rw (sanitize_path, fits) in
          ap (λ r. r.0) (sym same ∙ answer)
    ]

-- What the handlers rely on.
sanitized-LiesIn :
    (cs : CloudStorage) (path : Text) (id : ℤ) (os : Os) (h : List Call) (p : Text)
    → starts_at_root (bound cs (storage_of id)) ≡ true
    → (sanitized cs path id os h).0 ≡ returned p
    → LiesIn (bound cs (storage_of id)) p × IsTame (split_file p).1
unfolding sanitized checked
sanitized-LiesIn cs path id os h p root given = from (sanitize_path cs path id) refl given
  where
    from :
        (r : Text × Option Err)
        → sanitize_path cs path id ≡ r
        → (checked r.0 r.1 os h).0 ≡ returned p
        → LiesIn (bound cs (storage_of id)) p × IsTame (split_file p).1
    from (q, none) same got =
        let st = storage_of id in
        let made = accepted_place cs path id q same in
        let (fits, lies) =
          (sanitize_path-LiesIn cs path id root).0 (same ∙ ap (λ t. (t, none)) made) in
        let there : q ≡ p = returned_inj got in
        subst (λ t. LiesIn (bound cs st) t × IsTame (split_file t).1) (sym made ∙ there)
          (lies, (place-rooted cs st path root).1)
    from (q, some e) same got = cc

module _ (os : Os) (P : Call → Type 0) where
  checked-Keeps : (q : Text) (e : Option Err) → Keeps os P (checked q e)
  unfolding checked
  checked-Keeps q none = λ h k. k
  checked-Keeps q (some e) = λ h k. k

module _ {ℓ} {B : Type ℓ} (os : Os) (P : Call → Type 0) (cs : CloudStorage) where
  pub Keeps-sanitized :
      (path : Text) (id : ℤ) (f : Text → Proc B)
      → starts_at_root (bound cs (storage_of id)) ≡ true
      → ((p : Text)
          → LiesIn (bound cs (storage_of id)) p
          → IsTame (split_file p).1
          → Keeps os P (f p))
      → Keeps os P (sanitized cs path id >>= f)
  unfolding sanitized
  Keeps-sanitized path id f root rest =
      Keeps-bind_known os P (sanitized cs path id) f
        (checked-Keeps os P (sanitize_path cs path id).0 (sanitize_path cs path id).1)
        (λ p h given.
          let (lies, tame) = sanitized-LiesIn cs path id os h p root given in rest p lies tame)
