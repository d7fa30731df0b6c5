-- ===== src/CloudStorage/Tests.antt =====
-- web/routers/file.go: tests of what the operations do with names that climb, and with errors.
use fa.Prelude.{◌≡◌, refl, false, none, [], ◌∷◌, ◌++◌}
use fa.Prelude.Int.{pos, negsuc}
use fa.Prelude.Text.{Text, trim_space, trim_left, is_space, decimal, digits}
use fa.Paths.{
  starts_at_root, is_sub_dir, clean, parse, split, into_first, settle, up, show, join, sub_elem,
  rel, way, ups, begins_up, stays_below,
}
use fa.Proc.{
  Os, wrong_parent, failure, absent, missing, look, mkdir_all, rename, audit, file_renamed, ◌>>=◌,
  ◌>>◌, returned, raised, stuck,
}
use fa.Files.{split_file, join_path, ensure_own_dir_r, own_parent, own_below}
use fa.CloudStorage.{
  root_of, storage_of, bound, below, place, root_path, sanitize_path, checked, sanitized, new_dir,
  rename_file, delete_file,
}
use fa.CloudStorage.Copying.{require_target, copy_file}
use fa.CloudStorage.Batches.{any_name, del_req, delete_each, batch_del_file}
use fa.CloudStorage.Examples.{a, root, os, cs, copy_a}

-- "../7/a" in the mounted storage 4 is the file a of the mounted storage 7.
abbrev up_7_a : Text
up_7_a = b'.' ∷ b'.' ∷ b'/' ∷ b'7' ∷ b'/' ∷ b'a' ∷ []

other_storage :
    sanitize_path cs up_7_a (pos 4) ≡ (b'/' ∷ b'm' ∷ b'/' ∷ b'7' ∷ b'/' ∷ b'a' ∷ [], none)
unfolding sanitize_path place bound below storage_of decimal digits split_file clean parse split
    into_first settle up show join starts_at_root trim_space trim_left is_space is_sub_dir sub_elem
    rel way ups begins_up stays_below
other_storage = refl

-- "../z" as the name of a new directory, and of a renamed file.
abbrev up_z : Text
up_z = b'.' ∷ b'.' ∷ b'/' ∷ b'z' ∷ []

abbrev at_z : Text
at_z = b'/' ∷ b'z' ∷ []

made_outside :
    new_dir cs (record { storage_id = negsuc 0; parent_path = []; name = up_z }) os []
    ≡ (raised wrong_parent, mkdir_all at_z ∷ [])
unfolding new_dir sanitized checked ensure_own_dir_r own_parent own_below root_path root_of
    sanitize_path place bound below storage_of split_file clean parse split into_first settle up
    show join starts_at_root trim_space trim_left is_space is_sub_dir sub_elem rel way ups begins_up
    stays_below ◌>>=◌ ◌>>◌
made_outside = refl

-- No file of that name is there yet.
abbrev free : Os
free = record os { lstat = λ h p. missing absent }

renamed_outside :
    rename_file cs (record { storage_id = negsuc 0; path = a; name = up_z }) free [] ≡ (
      returned tt,
      audit file_renamed
          ∷ rename (root ++ b'/' ∷ a) at_z
          ∷ look at_z
          ∷ look (root ++ b'/' ∷ a)
          ∷ [],
    )
unfolding rename_file sanitized checked join_path sanitize_path place bound below storage_of
    split_file clean parse split into_first settle up show join starts_at_root trim_space trim_left
    is_space is_sub_dir sub_elem rel way ups begins_up stays_below ◌>>=◌ ◌>>◌
renamed_outside = refl

-- Nothing is there to delete, and the batch succeeds.
batch_of_nothing :
    batch_del_file cs (negsuc 0) (a ∷ []) free [] ≡ (returned tt, look (root ++ b'/' ∷ a) ∷ [])
unfolding batch_del_file any_name delete_each del_req delete_file sanitized checked sanitize_path
    place bound below storage_of split_file clean parse split into_first settle up show join
    starts_at_root trim_space trim_left is_space is_sub_dir sub_elem rel way ups begins_up
    stays_below ◌>>=◌ ◌>>◌
batch_of_nothing = refl

-- Stat fails with another error than "not exist", as for a path below a file.
abbrev broken : Os
broken = record os { stat = λ h p. missing (failure 20) }

target_panic : (copy_file 1 cs (record copy_a { force = false }) broken []).0 ≡ stuck
unfolding copy_file require_target sanitized checked sanitize_path place bound below storage_of
    split_file clean parse split into_first settle up show join starts_at_root trim_space trim_left
    is_space is_sub_dir sub_elem rel way ups begins_up stays_below ◌>>=◌ ◌>>◌
target_panic = refl
