-- ===== src/CloudStorage/Listing.antt =====
-- web/routers/file.go: listFile, which lists a directory, sorts it and cuts out a page, and
-- pkg/fsutils/fsutils.go: the order (TagSortFunc). The disk and Go's sort.Sort are parameters.
pub mod Handler
pub mod Pages
pub mod Shown
mod Examples
use fa.Prelude.{
  ℕ, ◌-◌, Bool, true, false, not, ◌&&◌, ◌||◌, Option, none, some, List, [], ◌∷◌, ◌++◌, length, take,
  drop, ltb, leb, if◌then◌else◌,
}
use fa.Prelude.Monad.{◌>>=◌}
use fa.Prelude.Int.{ℤ, pos, negsuc, ltb_ℤ, eq_ℤ, int64, quotient, ◌+ℤ◌, ◌-ℤ◌, ◌*ℤ◌}
use fa.Prelude.Text.{Text, eq_text, has_prefix, trim_space}
use mathlib.Core.List.{reverse}
use fa.Paths.{clean}
use fa.Proc.{Err, bad_name, absent}
use fa.CloudStorage.{CloudStorage, sanitize_path}

pub record Pagable : Type 0 where
  pub page : ℤ
  pub size : ℤ

-- A slice expression; `none` is the panic of a bad bound.
unfoldable pub slice {ℓ} : {A : Type ℓ} → (off end_ : ℤ) → List A → Option (List A)
slice (pos i) (pos j) xs = if leb i j then some (take (j - i) (drop i xs)) else none
slice (pos i) (negsuc j) xs = none
slice (negsuc i) end_ xs = none

-- FileObjectList.List
unfoldable pub page_of {ℓ} : {A : Type ℓ} → List A → Pagable → Option (List A)
unfolding slice
page_of xs pagable =
    if eq_ℤ pagable.size (negsuc 0)
    then some xs
    else (let off = int64 (pagable.size *ℤ pagable.page) in
        let end_ = int64 (pagable.size *ℤ int64 (pagable.page +ℤ pos 1)) in
        if ltb_ℤ (pos (length xs)) off
        then some []
        else slice off (if ltb_ℤ (pos (length xs)) end_ then pos (length xs) else end_) xs)

pub data FileType : Type 0 where
  dir : FileType
  file : FileType

pub record FileObject : Type 0 where
  pub type_ : FileType
  pub size : ℤ
  pub name : Text
  pub path : Text
  pub parent : Text
  pub mime : Text
  pub last_modified_time : ℤ
  pub storage_id : ℤ

pub record Info : Type 0 where
  pub name : Text
  pub size : ℤ
  pub modified : ℤ
  pub is_dir : Bool
  pub is_symlink : Bool

pub data Seen {ℓ} (A : Type ℓ) : Type ℓ where
  seen : A → Seen A
  unseen : Err → Seen A

-- What the disk answers; the mime type is the empty text on an error. `sort` is Go's sort.Sort.
pub record Disk : Type 0 where
  pub stat : Text → Seen Info
  pub read_dir : Text → Seen (List Info)
  pub read_mime : Text → Text
  pub sort : (FileObject → FileObject → Bool) → List FileObject → List FileObject

-- The order of sort.Sort for a json tag, by the field's kind: an int64 or a string. Fields of another
-- kind, as storage_id, and unknown tags compare nothing.
pub data Field : Type 0 where
  number : (FileObject → ℤ) → Field
  text : (FileObject → Text) → Field
  other : Field

-- Strings in order, byte by byte.
unfoldable pub less_text : Text → Text → Bool
less_text s [] = false
less_text [] (d ∷ t) = true
less_text (c ∷ s) (d ∷ t) = ltb c d || (not (ltb d c) && less_text s t)

unfoldable pub type_name : FileType → Text
type_name dir = b'D' ∷ b'I' ∷ b'R' ∷ []
type_name file = b'F' ∷ b'I' ∷ b'L' ∷ b'E' ∷ []

unfoldable pub less_field : Field → FileObject → FileObject → Bool
unfolding less_text
less_field (number f) a b = ltb_ℤ (f a) (f b)
less_field (text f) a b = less_text (f a) (f b)
less_field other a b = false

unfoldable pub tag_sort : (Text → Field) → Text → Bool → FileObject → FileObject → Bool
unfolding less_field
tag_sort field_of tag asc a b =
    if asc then less_field (field_of tag) a b else not (less_field (field_of tag) a b)

pub record ListFileReq : Type 0 where
  pub storage_id : ℤ
  pub path : Text
  pub pattern : Text
  pub pagable : Pagable
  pub sort : Text
  pub asc : Bool
  pub only_directory : Bool
  pub list_all : Bool

-- strings.Contains and strings.HasSuffix
unfoldable pub contains : Text → Text → Bool
contains [] sub = eq_text sub []
contains (c ∷ s) sub = has_prefix (c ∷ s) sub || contains s sub

unfoldable pub has_suffix : Text → Text → Bool
has_suffix s end_ = has_prefix (reverse s) (reverse end_)

abbrev pub star : Text
star = b'*' ∷ []

abbrev pub full_stop : Text
full_stop = b'.' ∷ []

abbrev pub upload_suffix : Text
upload_suffix = b'.' ∷ b'u' ∷ b'p' ∷ b'l' ∷ b'o' ∷ b'a' ∷ b'd' ∷ []

-- The entries that the loop does not pass over.
unfoldable pub is_listed : ListFileReq → Text → Bool
unfolding contains has_suffix
is_listed req name =
    (eq_text req.pattern star || contains name req.pattern)
    && (req.list_all || not (has_prefix name full_stop))
    && not (has_prefix name full_stop && has_suffix name upload_suffix)

unfoldable pub object_path : ListFileReq → Text → Text
object_path req name =
    if eq_text (trim_space req.path) [] then clean name else clean (req.path ++ b'/' ∷ name)

unfoldable pub file_object : Disk → CloudStorage → ListFileReq → Info → FileObject
unfolding object_path
file_object disk cs req entry =
    let path = object_path req entry.name in
    let folder = entry.is_dir || entry.is_symlink in
    record {
      type_ = if folder then dir else file;
      size = if folder then negsuc 0 else entry.size;
      name = entry.name;
      path = path;
      parent = clean req.path;
      mime = if folder then b'-' ∷ [] else disk.read_mime (cs.system_root_prefix ++ b'/' ∷ path);
      last_modified_time = entry.modified;
      storage_id = req.storage_id;
    }

-- The directories and the files, each in the order of the disk.
unfoldable pub gather :
    Disk → CloudStorage → ListFileReq → List Info → List FileObject × List FileObject
unfolding is_listed file_object
gather disk cs req [] = ([], [])
gather disk cs req (entry ∷ entries) =
    let (dirs, files) = gather disk cs req entries in
    let o = file_object disk cs req entry in
    if not (is_listed req entry.name)
    then (dirs, files)
    else if entry.is_dir || entry.is_symlink
    then (o ∷ dirs, files)
    else (dirs, o ∷ files)

-- The result: an error, or a page with the number of all objects; a panic is `none`.
pub data ListResult : Type 0 where
  refused : Err → ListResult
  listed_page : List FileObject → ℕ → ListResult

unfoldable pub cut_page : List FileObject → Pagable → Option ListResult
unfolding page_of
cut_page objects pagable = do
  page ← page_of objects pagable
  some (listed_page page (length objects))

unfoldable pub list_dir :
    Disk → (Text → Field) → CloudStorage → ListFileReq → Text → Option ListResult
unfolding gather tag_sort cut_page
list_dir disk field_of cs req place = elim (disk.read_dir place) [
  | unseen e ↦ some (refused e)
  | seen entries ↦
      let (dirs, files) = gather disk cs req entries in
      let by = disk.sort (tag_sort field_of req.sort req.asc) in
      if req.only_directory
      then cut_page (by dirs) req.pagable
      else cut_page (by dirs ++ by files) req.pagable
]

-- A bad name is no refusal here: the path is then empty.
unfoldable pub list_file : Disk → (Text → Field) → CloudStorage → ListFileReq → Option ListResult
unfolding sanitize_path list_dir
list_file disk field_of cs req =
    let (place, e) = sanitize_path cs req.path req.storage_id in
    elim e [
      | none ↦ list_place place
      | some bad_name ↦ list_place place
      | some x ↦ some (refused x)
    ]
  where
    list_place : Text → Option ListResult
    list_place place = elim (disk.stat place) [
      | unseen e ↦ some (refused e)
      | seen info ↦
          if info.is_dir
          then list_dir disk field_of cs req place
          else some (
              listed_page
                (record {
                  type_ = file;
                  size = info.size;
                  name = info.name;
                  path = req.path;
                  parent = clean req.path;
                  mime = disk.read_mime place;
                  last_modified_time = info.modified;
                  storage_id = req.storage_id;
                }
                  ∷ [])
                1)
    ]

-- The number of pages that the handler reports.
unfoldable pub total_pages : (total : ℕ) → (size : ℤ) → ℤ
total_pages total size = quotient (int64 (int64 (pos total +ℤ size) -ℤ pos 1)) size
