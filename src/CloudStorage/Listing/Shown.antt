-- ===== src/CloudStorage/Listing/Shown.antt =====
-- web/routers/file.go: what listFile shows of a directory.
use mathlib.Core.Path.{subst}
use fa.Prelude.{
  ℕ, zero, suc, ◌+◌, ◌-◌, ◌≡◌, refl, sym, ◌∙◌, inl, inr, Bool, true, false, not, ◌&&◌, ◌||◌, Option,
  none, some, List, [], ◌∷◌, ◌++◌, All, length, length-append, take, drop, leb, if◌then◌else◌,
  Bool-cases, arith,
}
use fa.Prelude.Monad.{◌>>=◌}
use fa.Prelude.Int.{ℤ, pos, negsuc, ltb_ℤ, eq_ℤ, int64, ◌*ℤ◌}
use fa.Prelude.Text.{Text}
use fa.CloudStorage.{CloudStorage}
use fa.CloudStorage.Listing.{
  Pagable, slice, page_of, FileObject, FileType, dir, file, Info, Disk, Field, ListFileReq,
  is_listed, file_object, gather, tag_sort, cut_page, list_dir, listed_page, seen,
}

module _ {ℓ} {A : Type ℓ} (P : A → Type 0) where
  All-take : (n : ℕ) (xs : List A) → All P xs → All P (take n xs)
  All-take zero xs h = tt
  All-take (suc n) [] h = tt
  All-take (suc n) (x ∷ xs) h = (h.0, All-take n xs h.1)

  All-drop : (n : ℕ) (xs : List A) → All P xs → All P (drop n xs)
  All-drop zero xs h = h
  All-drop (suc n) [] h = tt
  All-drop (suc n) (x ∷ xs) h = All-drop n xs h.1

  All-append : (xs ys : List A) → All P xs → All P ys → All P (xs ++ ys)
  All-append [] ys h k = k
  All-append (x ∷ xs) ys h k = (h.0, All-append xs ys h.1 k)

  AllIn : Option (List A) → Type 0
  AllIn none = Unit
  AllIn (some ys) = All P ys

  AllIn-if : (b : Bool) (s t : Option (List A)) → AllIn s → AllIn t → AllIn (if b then s else t)
  AllIn-if true s t h k = h
  AllIn-if false s t h k = k

  slice-AllIn : (off end_ : ℤ) (xs : List A) → All P xs → AllIn (slice off end_ xs)
  unfolding slice AllIn
  slice-AllIn (pos i) (pos j) xs h =
      AllIn-if (leb i j) (some (take (j - i) (drop i xs))) none
        (All-take (j - i) (drop i xs) (All-drop i xs h)) tt
  slice-AllIn (pos i) (negsuc j) xs h = tt
  slice-AllIn (negsuc i) end_ xs h = tt

  page_of-AllIn : (xs : List A) (pagable : Pagable) → All P xs → AllIn (page_of xs pagable)
  unfolding page_of AllIn
  page_of-AllIn xs pagable h = AllIn-if (eq_ℤ pagable.size (negsuc 0)) (some xs) _ h (
      AllIn-if (ltb_ℤ (pos (length xs)) (int64 (pagable.size *ℤ pagable.page))) (some []) _ tt
        (slice-AllIn (int64 (pagable.size *ℤ pagable.page)) _ xs h))

abbrev pub is_dir_type : FileType → Bool
is_dir_type dir = true
is_dir_type file = false

-- An object that the listing may show: its name passes the pattern, it is no hidden file unless all
-- are asked for, and it is no unfinished upload.
abbrev pub IsShown : ListFileReq → FileObject → Type 0
IsShown req o =
    (is_listed req o.name ≡ true) × ((not req.only_directory || is_dir_type o.type_) ≡ true)

-- The entries that pass, or the directories among them; a symbolic link counts as a directory.
unfoldable pub count_listed : (only_directory : Bool) → ListFileReq → List Info → ℕ
count_listed only req [] = 0
count_listed only req (e ∷ es) =
    let rest = count_listed only req es in
    if is_listed req e.name && (not only || e.is_dir || e.is_symlink) then suc rest else rest

abbrev Passes : ListFileReq → FileObject → Type 0
Passes req o = is_listed req o.name ≡ true

gather-Passes :
    (disk : Disk) (cs : CloudStorage) (req : ListFileReq) (entries : List Info)
    → All (λ o. Passes req o × (o.type_ ≡ dir)) (gather disk cs req entries).0
      × All (Passes req) (gather disk cs req entries).1
      × (length (gather disk cs req entries).0 ≡ count_listed true req entries)
      × (length (gather disk cs req entries).0 + length (gather disk cs req entries).1
          ≡ count_listed false req entries)
unfolding gather count_listed file_object
gather-Passes disk cs req [] = (tt, tt, refl, refl)
gather-Passes disk cs req (e ∷ es) =
    let (ds, fs, only, sum) = gather-Passes disk cs req es in
    elim (Bool-cases (is_listed req e.name)) [
      | inr skipped ↦ rw skipped (ds, fs, only, sum)
      | inl shown ↦ elim (Bool-cases (e.is_dir || e.is_symlink)) [
        | inl folder ↦
            rw (shown, folder) (((shown, refl), ds), fs, omega (arith, only), omega (arith, sum))
        | inr plain ↦ rw (shown, plain) (ds, (shown, fs), only, omega (arith, sum))
      ]
    ]

-- What listFile relies on of Go's sort.Sort.
abbrev pub KeepsObjects : Disk → Type 1
KeepsObjects disk =
    (P : FileObject → Type 0) (less : FileObject → FileObject → Bool) (xs : List FileObject)
    → All P xs
    → All P (disk.sort less xs) × (length (disk.sort less xs) ≡ length xs)

weaken :
    (req : ListFileReq) (xs : List FileObject)
    → All (λ o. Passes req o × (o.type_ ≡ dir)) xs
    → All (IsShown req) xs
weaken req [] h = tt
weaken req (x ∷ xs) h = let folder = h.0.1 in ((h.0.0, ground arith), weaken req xs h.1)

open_ :
    (req : ListFileReq) (xs : List FileObject)
    → req.only_directory ≡ false
    → All (Passes req) xs
    → All (IsShown req) xs
open_ req [] all h = tt
open_ req (x ∷ xs) all h = ((h.0, ground arith), open_ req xs all h.1)

cut_page-IsShown :
    (req : ListFileReq) (objects page : List FileObject) (total : ℕ)
    → All (IsShown req) objects
    → cut_page objects req.pagable ≡ some (listed_page page total)
    → All (IsShown req) page × (total ≡ length objects)
unfolding cut_page AllIn
cut_page-IsShown req objects page total shown result =
    from (page_of objects req.pagable) (page_of-AllIn (IsShown req) objects req.pagable shown)
      result
  where
    from :
        (o : Option (List FileObject))
        → AllIn (IsShown req) o
        → (o >>= (λ ys. some (listed_page ys (length objects)))) ≡ some (listed_page page total)
        → All (IsShown req) page × (total ≡ length objects)
    from none all same = cc
    from (some ys) all same =
        let one : ys ≡ page = cc in
        let two : length objects ≡ total = cc in (subst (All (IsShown req)) one all, sym two)

-- Whatever page of a directory listFile gives, each object on it has a name that passes the pattern,
-- is hidden only if all are asked for, is no unfinished upload, and is a directory if only those are
-- asked for; the total is the number of all such entries. Go's sort.Sort keeps the objects and their
-- number.
pub list_dir-IsShown :
    (disk : Disk) (field_of : Text → Field) (cs : CloudStorage) (req : ListFileReq) (place : Text)
    → (entries : List Info) (page : List FileObject) (total : ℕ) → KeepsObjects disk
    → disk.read_dir place ≡ seen entries
    → list_dir disk field_of cs req place ≡ some (listed_page page total)
    → All (IsShown req) page × (total ≡ count_listed req.only_directory req entries)
unfolding list_dir count_listed
list_dir-IsShown disk field_of cs req place entries page total keeps there result =
    let (ds, fs, few, sum) = gather-Passes disk cs req entries in
    let less = tag_sort field_of req.sort req.asc in
    let dirs = (gather disk cs req entries).0 in
    let files = (gather disk cs req entries).1 in
    let (sorted_dirs, same_dirs) = keeps (λ o. Passes req o × (o.type_ ≡ dir)) less dirs ds in
    let (sorted_files, same_files) = keeps (Passes req) less files fs in
    let all_dirs = weaken req (disk.sort less dirs) sorted_dirs in
    elim (Bool-cases req.only_directory) [
      | inl only ↦
          let cut : cut_page (disk.sort less dirs) req.pagable ≡ some (listed_page page total) =
            rw (list_dir, there, only) at result in
          let (shown, count) = cut_page-IsShown req (disk.sort less dirs) page total all_dirs cut in
          (shown, rw only (count ∙ same_dirs ∙ few))
      | inr both ↦
          let cut : cut_page (disk.sort less dirs ++ disk.sort less files) req.pagable
              ≡ some (listed_page page total) =
            rw (list_dir, there, both) at result in
          let objects = disk.sort less dirs ++ disk.sort less files in
          let all_files = open_ req (disk.sort less files) both sorted_files in
          let all =
            All-append (IsShown req) (disk.sort less dirs) (disk.sort less files) all_dirs
              all_files in
          let (shown, count) = cut_page-IsShown req objects page total all cut in
          (
            shown,
            rw both (
                omega (
                  arith,
                  count,
                  sum,
                  same_dirs,
                  same_files,
                  length-append (disk.sort less dirs) (disk.sort less files),
                )),
          )
    ]
