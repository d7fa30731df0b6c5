-- ===== src/CloudStorage/Copying.antt =====
-- web/routers/file.go: cloudStorage.copyFile, which copies or moves a file or a directory.
use fa.Prelude.{ℕ, Bool, ◌||◌, if◌then◌else◌}
use fa.Prelude.Int.{ℤ, eq_ℤ}
use fa.Prelude.Text.{Text}
use fa.Paths.{is_sub_dir}
use fa.Proc.{
  no_source, no_target, own_child, found, missing, file_copied, file_moved, Proc, pure, raise,
  panic, ◌>>=◌, ◌>>◌, stat, report, attempt, settle_err, is_missing, is_folder,
}
use fa.Files.{
  ensure_own_dir_r, ensure_own_file_r, chown_r, remove_any, copy_content, copy_to_dir, move_to_dir,
  move_to_file,
}
use fa.CloudStorage.{CloudStorage, root_path, sanitized}

pub record CopyFileReq : Type 0 where
  pub src_storage_id : ℤ
  pub src : Text
  pub dst_storage_id : ℤ
  pub dst : Text
  pub move : Bool
  pub dst_file : Bool
  pub force : Bool
  pub exclude_dir : Bool

-- The guards. An error of Stat that is not "not exist" leaves no file information, and its IsDir panics.
unfoldable pub require_target : CopyFileReq → Text → Proc (Unit {0})
require_target req dst = if req.dst_file then pure tt else (do
  into ← stat dst
  elim into [
    | found kind base ↦ if req.force || is_folder kind then pure tt else raise no_target
    | missing e ↦
        if req.force then pure tt else if is_missing (missing e) then raise no_target else panic
  ])

unfoldable pub require_source : Text → Proc (Unit {0})
require_source src = do from ← stat src; if is_missing from then raise no_source else pure tt

unfoldable pub refuse_child : (src dst : Text) → Proc (Unit {0})
refuse_child src dst = if is_sub_dir src dst then raise own_child else pure tt

-- The missing target, made on demand.
unfoldable pub make_target : CloudStorage → CopyFileReq → Text → Proc (Unit {0})
unfolding root_path
make_target cs req dst =
    let root = root_path cs req.dst_storage_id in
    if req.force
    then if req.dst_file
      then ensure_own_file_r dst root cs.uid cs.gid
      else ensure_own_dir_r dst root cs.uid cs.gid
    else pure tt

unfoldable pub copy_in :
    (depth : ℕ) → CloudStorage → CopyFileReq → (src dst : Text) → Proc (Unit {0})
copy_in depth cs req src dst = do
  copy_to_dir depth src dst req.exclude_dir
  chown_r dst cs.uid cs.gid

-- A copied file is reported whether the copy succeeded or not.
unfoldable pub copy_only :
    (depth : ℕ) → CloudStorage → CopyFileReq → (src dst : Text) → Proc (Unit {0})
unfolding copy_in
copy_only depth cs req src dst =
    if req.dst_file
    then (do failed ← attempt (copy_content src dst); report file_copied; settle_err failed)
    else (do copy_in depth cs req src dst; report file_copied)

-- Between storages: a copy, then the removal of the source.
unfoldable pub transfer :
    (depth : ℕ) → CloudStorage → CopyFileReq → (src dst : Text) → Proc (Unit {0})
unfolding copy_in
transfer depth cs req src dst =
    if req.dst_file then copy_content src dst else copy_in depth cs req src dst

unfoldable pub move_only :
    (depth : ℕ) → CloudStorage → CopyFileReq → (src dst : Text) → Proc (Unit {0})
unfolding transfer
move_only depth cs req src dst = do
  if eq_ℤ req.src_storage_id req.dst_storage_id
      then if req.dst_file then move_to_file src dst else move_to_dir src dst req.exclude_dir
      else (do transfer depth cs req src dst; remove_any src)
  report file_moved

unfoldable pub copy_file : (depth : ℕ) → CloudStorage → CopyFileReq → Proc (Unit {0})
unfolding require_target require_source refuse_child make_target copy_only move_only
copy_file depth cs req = do
  src ← sanitized cs req.src req.src_storage_id
  dst ← sanitized cs req.dst req.dst_storage_id
  require_target req dst
  require_source src
  refuse_child src dst
  make_target cs req dst
  if req.move then move_only depth cs req src dst else copy_only depth cs req src dst
