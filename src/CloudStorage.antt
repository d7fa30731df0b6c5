-- ===== src/CloudStorage.antt =====
-- web/routers/file.go: cloudStorage, the users' files in several storages. The regular expression for bad
-- names and the store of unfinished uploads are parameters, as is the operating system.
pub mod Copying
pub mod Sanitize
pub mod Roots
pub mod Confinement
pub mod Refusal
pub mod Listing
pub mod Batches
mod Examples
mod Tests
use fa.Prelude.{
  ℕ, Bool, true, false, not, ◌&&◌, ◌||◌, Option, none, some, List, [], ◌∷◌, ◌++◌, ◌==◌,
  if◌then◌else◌,
}
use fa.Prelude.Int.{ℤ, pos, negsuc}
use fa.Prelude.Text.{Text, eq_text, trim_space, decimal}
use fa.Paths.{clean, is_sub_dir}
use fa.Proc.{
  Err, left_root, bad_name, no_source, no_target, own_child, name_taken, Kind, folder, Stat, found,
  missing, Call, chown, rename, remove_all, file_created, file_copied, file_moved, file_renamed,
  file_deleted, Outcome, returned, raised, stuck, Proc, pure, raise, panic, ◌>>=◌, ◌>>◌, stat,
  lstat, run, report, attempt, settle_err, is_missing, is_folder,
}
use fa.Files.{
  split_file, join_path, ensure_own_dir_r, ensure_own_file_r, chown_r, remove_file_r, remove_any,
  copy_content, copy_to_dir, move_to_dir, move_to_file,
}

pub record CloudStorage : Type 0 where
  pub system_root_prefix : Text
  pub audit_root_prefix : Text
  pub audit_approved_root_prefix : Text
  pub external_mnt_prefix : Text
  pub bad_filename_regex : Text → Bool
  pub ignore_name_check : Bool
  pub uploads : List Call → Text → List Text
  pub uid : ℕ
  pub gid : ℕ

-- The storage identifiers -1, -99 and -2, and the mounted ones.
pub data Storage : Type 0 where
  system : Storage
  audit_root : Storage
  approved : Storage
  external : ℤ → Storage

unfoldable pub storage_of : ℤ → Storage
storage_of (pos n) = external (pos n)
storage_of (negsuc n) =
    if n == 0
    then system
    else if n == 98
    then audit_root
    else if n == 1
    then approved
    else external (negsuc n)

unfoldable pub root_of : CloudStorage → Storage → Text
root_of cs system = cs.system_root_prefix
root_of cs audit_root = cs.audit_root_prefix
root_of cs approved = cs.audit_approved_root_prefix
root_of cs (external n) = clean (trim_space (cs.external_mnt_prefix ++ b'/' ∷ decimal n))

unfoldable pub root_path : CloudStorage → ℤ → Text
unfolding storage_of root_of
root_path cs id = root_of cs (storage_of id)

-- sanitizePath: the directory that it checks against, the path it makes, and the two tests.
unfoldable pub bound : CloudStorage → Storage → Text
bound cs system = cs.system_root_prefix
bound cs audit_root = cs.audit_root_prefix
bound cs approved = cs.audit_approved_root_prefix
bound cs (external n) = cs.external_mnt_prefix

unfoldable pub below : Storage → Text → Text
below (external n) path = decimal n ++ b'/' ∷ path
below _ path = path

unfoldable pub place : CloudStorage → Storage → Text → Text
unfolding bound below
place cs st path = clean (trim_space (bound cs st ++ b'/' ∷ below st path))

unfoldable pub sanitize_path : CloudStorage → Text → ℤ → Text × Option Err
unfolding place storage_of split_file
sanitize_path cs path id =
    if not cs.ignore_name_check && cs.bad_filename_regex (split_file path).1
    then ([], some bad_name)
    else (
      place cs (storage_of id) path,
      if is_sub_dir (bound cs (storage_of id)) (place cs (storage_of id) path)
          then none
          else some left_root,
    )

unfoldable pub checked : Text → Option Err → Proc Text
checked p none = pure p
checked p (some e) = raise e

unfoldable pub sanitized : CloudStorage → Text → ℤ → Proc Text
unfolding sanitize_path checked
sanitized cs path id = let (p, e) = sanitize_path cs path id in checked p e

pub record NewDirReq : Type 0 where
  pub storage_id : ℤ
  pub parent_path : Text
  pub name : Text

unfoldable pub new_dir : CloudStorage → NewDirReq → Proc (Unit {0})
unfolding sanitized root_path
new_dir cs req = do
  parent ← sanitized cs req.parent_path req.storage_id
  ensure_own_dir_r (trim_space (parent ++ b'/' ∷ req.name)) (root_path cs req.storage_id) cs.uid
      cs.gid
  report file_created

pub record MoveDirReq : Type 0 where
  pub src_storage_id : ℤ
  pub src : Text
  pub dst_storage_id : ℤ
  pub dst : Text

-- An error of Lstat that is not "not exist" leaves no file information, and its IsDir panics.
unfoldable pub move_dir : CloudStorage → MoveDirReq → Proc (Unit {0})
unfolding sanitized
move_dir cs req = do
  src ← sanitized cs req.src req.src_storage_id
  dst ← sanitized cs req.dst req.dst_storage_id
  from ← lstat src
  elim from [
    | missing e ↦ if is_missing (missing e) then raise no_source else panic
    | found kind base ↦ if is_folder kind then pure tt else raise no_source
  ]
  into ← lstat dst
  elim into [
    | found kind base ↦ move_to_dir src dst true
    | missing e ↦ do run (rename src dst); report file_renamed
  ]

pub record RenameFileReq : Type 0 where
  pub storage_id : ℤ
  pub path : Text
  pub name : Text

unfoldable pub rename_file : CloudStorage → RenameFileReq → Proc (Unit {0})
unfolding sanitized split_file join_path
rename_file cs req = do
  path ← sanitized cs req.path req.storage_id
  there ← stat path
  if is_missing there then raise no_source else pure tt
  if eq_text path (join_path (split_file path).0 req.name) then pure tt else (do
    taken ← lstat (join_path (split_file path).0 req.name)
    elim taken [
      | found kind base ↦ raise name_taken
      | missing e ↦ do
        run (rename path (join_path (split_file path).0 req.name))
        report file_renamed
    ])

pub record DelFileReq : Type 0 where
  pub storage_id : ℤ
  pub path : Text
  pub file_only : Bool

-- The unfinished uploads below a directory; the errors of their removal are dropped.
unfoldable pub remove_each : List Text → Proc (Unit {0})
remove_each [] = pure tt
remove_each (p ∷ ps) = do dropped ← attempt (run (remove_all p)); remove_each ps

unfoldable pub clean_upload : CloudStorage → Text → Proc (Unit {0})
unfolding remove_each
clean_upload cs path os h = remove_each (cs.uploads h path) os h

unfoldable pub delete_file : CloudStorage → DelFileReq → Proc (Unit {0})
unfolding sanitized clean_upload
delete_file cs req = if eq_text (trim_space req.path) [] then pure tt else (do
  path ← sanitized cs req.path req.storage_id
  there ← lstat path
  elim there [
    | missing e ↦ raise e
    | found kind base ↦ do
      if is_folder kind then clean_upload cs path else pure tt
      if req.file_only then remove_file_r path else (do run (remove_all path); report file_deleted)
  ])
