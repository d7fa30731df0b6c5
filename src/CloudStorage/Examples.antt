-- ===== src/CloudStorage/Examples.antt =====
-- web/routers/file.go: tests and witnesses, with a storage at /d and a disk on which /d/a and /d/b are
-- directories with one file f.
use fa.Prelude.{
  ◌≡◌, ◌≢◌, ◌↔◌, refl, true, false, ◌||◌, Option, none, some, List, [], ◌∷◌, All, if◌then◌else◌,
}
use fa.Prelude.Int.{pos, negsuc}
use fa.Prelude.Text.{Text, eq_text, trim_space, trim_left, is_space}
use fa.Paths.{
  starts_at_root, is_sub_dir, clean, parse, split, into_first, settle, up, show, join, sub_elem,
  rel, way, ups, begins_up, stays_below,
}
use fa.Proc.{
  Os, Err, failure, Kind, folder, regular, Stat, found, missing, Entry, Listing, listed, unreadable,
  Call, look, create, ◌>>=◌, ◌>>◌, returned, raised,
}
use fa.Files.{split_file, copy_content, ensure_own_dir_r}
use fa.Files.Places.{LiesIn}
use fa.Files.Ownership.{GivesWithin, ensure_own_dir_r-GivesWithin}
use fa.CloudStorage.{CloudStorage, storage_of, bound, below, place, sanitize_path, DelFileReq}
use fa.CloudStorage.Copying.{CopyFileReq, copy_file, transfer}
use fa.CloudStorage.Sanitize.{NameFits, sanitize_path-LiesIn}
use fa.CloudStorage.Refusal.{IsLook, copy_file-refuse_child}

abbrev pub a : Text
a = b'a' ∷ []

abbrev pub b : Text
b = b'b' ∷ []

abbrev f : Text
f = b'f' ∷ []

abbrev pub root : Text
root = b'/' ∷ b'd' ∷ []

abbrev at_a : Text
at_a = b'/' ∷ b'd' ∷ b'/' ∷ b'a' ∷ []

abbrev at_b : Text
at_b = b'/' ∷ b'd' ∷ b'/' ∷ b'b' ∷ []

abbrev kind_at : Text → Kind
kind_at p = if eq_text p at_a || eq_text p at_b then folder else regular

abbrev pub os : Os
os = record {
  stat = λ h p. found (kind_at p) f;
  lstat = λ h p. found (kind_at p) f;
  read_dir = λ h p. listed (record { name = f; kind = regular } ∷ []);
  walk = λ h p. record { path = p; kind = regular; trouble = none } ∷ [];
  readlink = λ h p. none;
  answer = λ h c. none;
}

names_of : Listing → List Entry
names_of (listed es) = es
names_of (unreadable e) = []

base_of : Stat → Text
base_of (found kind base) = base
base_of (missing e) = []

-- A disk that answers the same whatever was done before, but may refuse calls.
refusing : (Call → Option Err) → Os
refusing refusal = record os { answer = λ h c. refusal c }

abbrev pub cs : CloudStorage
cs = record {
  system_root_prefix = root;
  audit_root_prefix = b'/' ∷ b'e' ∷ [];
  audit_approved_root_prefix = b'/' ∷ b'f' ∷ [];
  external_mnt_prefix = b'/' ∷ b'm' ∷ [];
  bad_filename_regex = λ name. eq_text name (b'?' ∷ []);
  ignore_name_check = false;
  uploads = λ h p. [];
  uid = 7;
  gid = 7;
}

root_rooted : starts_at_root (bound cs (storage_of (negsuc 0))) ≡ true
unfolding starts_at_root bound storage_of
root_rooted = refl

sanitize_path-LiesIn_example :
    (sanitize_path cs a (negsuc 0) ≡ (place cs (storage_of (negsuc 0)) a, none)) ↔ (
      NameFits cs a
      × LiesIn (bound cs (storage_of (negsuc 0))) (place cs (storage_of (negsuc 0)) a))
sanitize_path-LiesIn_example = sanitize_path-LiesIn cs a (negsuc 0) root_rooted

abbrev del_a : DelFileReq
del_a = record { storage_id = negsuc 0; path = a; file_only = true }

ensure_own_dir_r-GivesWithin_example :
    All (GivesWithin root) (ensure_own_dir_r at_a root 7 7 os []).1
unfolding starts_at_root
ensure_own_dir_r-GivesWithin_example = ensure_own_dir_r-GivesWithin os at_a root 7 7 refl [] tt

abbrev pub copy_a : CopyFileReq
copy_a = record {
  src_storage_id = negsuc 0;
  src = a;
  dst_storage_id = negsuc 0;
  dst = b;
  move = false;
  dst_file = false;
  force = true;
  exclude_dir = false;
}

a_passes : sanitize_path cs a (negsuc 0) ≡ (at_a, none)
unfolding sanitize_path place bound below storage_of split_file clean parse split into_first settle
    up show join starts_at_root trim_space trim_left is_space is_sub_dir sub_elem rel way ups
    begins_up stays_below
a_passes = refl

a_in_itself : is_sub_dir at_a at_a ≡ true
unfolding parse split into_first settle up starts_at_root is_sub_dir sub_elem rel way ups begins_up
    stays_below
a_in_itself = refl

abbrev into_itself : CopyFileReq
into_itself = record copy_a { dst = a }

copy_file-refuse_child_example :
    All IsLook (copy_file 2 cs into_itself os []).1
    × ((copy_file 2 cs into_itself os []).0 ≢ returned tt)
copy_file-refuse_child_example =
    copy_file-refuse_child os 2 cs into_itself at_a at_a a_passes a_passes a_in_itself [] tt

-- No file can be made.
no_create : Call → Option Err
no_create (create p) = some (failure 28)
no_create _ = none

abbrev at_f : Text
at_f = b'/' ∷ b'd' ∷ b'/' ∷ b'f' ∷ []

abbrev move_f : CopyFileReq
move_f = record copy_a { src = f; src_storage_id = pos 4; dst_file = true; move = true }

-- The copy of a move fails.
f_fails :
    transfer 2 cs move_f at_f at_b (refusing no_create) []
    ≡ (raised (failure 28), create at_b ∷ look at_f ∷ look at_f ∷ [])
unfolding transfer copy_content refusing no_create ◌>>=◌ ◌>>◌
f_fails = refl

mounts_rooted : starts_at_root (bound cs (storage_of (pos 4))) ≡ true
unfolding starts_at_root bound storage_of
mounts_rooted = refl
