-- ===== src/CloudStorage/Listing/Examples.antt =====
-- web/routers/file.go: tests and witnesses for a directory with a subdirectory, a file, a hidden file
-- and an unfinished upload.
use fa.Prelude.{
  ℕ, ◌*◌, ◌≤◌, ◌≡◌, ◌↔◌, refl, Bool, true, false, some, List, [], ◌∷◌, ◌++◌, length, take, drop,
  arith,
}
use fa.Prelude.Int.{pos, negsuc, int64, quotient, ◌-ℤ◌, ◌+ℤ◌, ◌*ℤ◌}
use fa.Prelude.Text.{Text, trim_space, trim_left, is_space}
use fa.Paths.{clean, parse, split, into_first, settle, up, show, join, starts_at_root}
use fa.Proc.{absent}
use fa.CloudStorage.Examples.{cs, root}
use fa.CloudStorage.Listing.{
  page_of, slice, FileObject, dir, file, Info, Disk, Field, number, ListFileReq, list_dir, gather,
  is_listed, contains, has_suffix, file_object, object_path, cut_page, listed_page, seen, unseen,
  star, full_stop, upload_suffix, total_pages,
}
use fa.CloudStorage.Listing.Pages.{
  page_at, first_pages, page_of-total_pages, first_pages-total_pages,
}
use fa.CloudStorage.Listing.Shown.{KeepsObjects}

abbrev seven : List ℕ
seven = 1 ∷ 2 ∷ 3 ∷ 4 ∷ 5 ∷ 6 ∷ 7 ∷ []

last_page : page_of seven (page_at 2 3) ≡ some (7 ∷ [])
unfolding page_of slice int64 ◌+ℤ◌ ◌*ℤ◌
last_page = refl

page_of-total_pages_example :
    (ys : List ℕ) × (pages : ℕ) × (page_of seven (page_at 2 3) ≡ some ys)
    × (ys ≡ take 3 (drop (3 * 2) seven))
    × (length ys ≤ 3)
    × (total_pages (length seven) (pos 3) ≡ pos pages)
    × ((length ys ≡ 0) ↔ (pages ≤ 2))
page_of-total_pages_example =
    page_of-total_pages seven 2 3 (omega arith) (omega arith) (omega arith) (omega arith)

first_pages-total_pages_example :
    (pages : ℕ) × (total_pages (length seven) (pos 3) ≡ pos pages)
    × (first_pages seven 3 pages ≡ some seven)
first_pages-total_pages_example = first_pages-total_pages seven 3 (omega arith) (omega arith)

-- All objects are asked for, and the number of pages is negative.
pages_of_all : total_pages 7 (negsuc 0) ≡ negsuc 4
unfolding total_pages quotient int64 ◌+ℤ◌ ◌-ℤ◌
pages_of_all = refl

abbrev named : Text → Bool → Info
named name folder = record {
  name = name;
  size = pos 5;
  modified = pos 1;
  is_dir = folder;
  is_symlink = false;
}

abbrev entries : List Info
entries =
    named (b's' ∷ []) true
    ∷ named (full_stop ++ b'h' ∷ []) false
    ∷ named (full_stop ++ b'u' ∷ upload_suffix) false
    ∷ named (b'f' ∷ []) false
    ∷ []

abbrev disk : Disk
disk = record {
  stat = λ p. unseen absent;
  read_dir = λ p. seen entries;
  read_mime = λ p. [];
  sort = λ less xs. xs;
}

sort_KeepsObjects : KeepsObjects disk
sort_KeepsObjects P less xs h = (h, refl)

abbrev req : ListFileReq
req = record {
  storage_id = negsuc 0;
  path = [];
  pattern = star;
  pagable = page_at 0 10;
  sort = [];
  asc = true;
  only_directory = false;
  list_all = false;
}

abbrev by_size : Text → Field
by_size tag = number (λ o. o.size)

abbrev object_s : FileObject
object_s = record {
  type_ = dir;
  size = negsuc 0;
  name = b's' ∷ [];
  path = b's' ∷ [];
  parent = b'.' ∷ [];
  mime = b'-' ∷ [];
  last_modified_time = pos 1;
  storage_id = negsuc 0;
}

abbrev object_f : FileObject
object_f = record object_s {
  type_ = file;
  size = pos 5;
  name = b'f' ∷ [];
  path = b'f' ∷ [];
  mime = [];
}

listed_two : list_dir disk by_size cs req root ≡ some (listed_page (object_s ∷ object_f ∷ []) 2)
unfolding list_dir gather is_listed contains has_suffix file_object object_path cut_page page_of
    slice int64 ◌+ℤ◌ ◌*ℤ◌ clean parse split into_first settle up show join starts_at_root trim_space
    trim_left is_space
listed_two = refl
