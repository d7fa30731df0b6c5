-- ===== src/CloudStorage/Batches.antt =====
-- web/routers/file.go: the handlers batchDelFile and copyFile, as far as they go beyond one operation.
use mathlib.Core.Path.{subst}
use fa.Prelude.{ℕ, ◌≡◌, refl, sym, true, false, Option, none, some, List, [], ◌∷◌, All}
use fa.Prelude.Int.{ℤ}
use fa.Prelude.Text.{Text}
use fa.Paths.{starts_at_root}
use fa.Proc.{Os, Err, Call, Proc, ◌>>=◌, pure, attempt}
use fa.Proc.Keeps.{Keeps, Keeps-bind, Keeps-attempt}
use fa.Files.Places.{LiesIn}
use fa.Files.Transfers.{Documented, Confined}
use fa.CloudStorage.{
  CloudStorage, Storage, system, audit_root, approved, external, storage_of, bound, DelFileReq,
  delete_file,
}
use fa.CloudStorage.Confinement.{delete_file-Confined}
use fa.CloudStorage.Copying.{CopyFileReq, copy_file}
use fa.CopyLines.{CopyLine, done_copy_line}

-- The check of names is off for deletions.
unfoldable pub any_name : CloudStorage → CloudStorage
any_name cs = record cs { ignore_name_check = true }

unfoldable pub del_req : ℤ → Text → DelFileReq
del_req id path = record { storage_id = id; path = path; file_only = false }

-- batchDelFile: multierror.Append gives back the collected errors, and they are dropped.
unfoldable pub delete_each : CloudStorage → ℤ → List Text → Proc (Unit {0})
unfolding del_req
delete_each cs id [] = pure tt
delete_each cs id (path ∷ paths) = do
  dropped ← attempt (delete_file cs (del_req id path))
  delete_each cs id paths

unfoldable pub batch_del_file : CloudStorage → ℤ → List Text → Proc (Unit {0})
unfolding delete_each any_name
batch_del_file cs id paths = delete_each (any_name cs) id paths

-- doCopy of copyFile: with no group the error is lost, with a group it ends the copy's line. The
-- `text_of` is the error's text.
unfoldable pub do_copy :
    (depth : ℕ)
    → CloudStorage
    → (text_of : Err → Text) → CopyFileReq
    → (group : Option Text) → List CopyLine
    → Proc (List CopyLine)
do_copy depth cs text_of req none lines = do lost ← attempt (copy_file depth cs req); pure lines
do_copy depth cs text_of req (some group) lines = do
  failed ← attempt (copy_file depth cs req)
  elim failed [
    | none ↦
        pure
          (done_copy_line req.src req.src_storage_id req.dst req.dst_storage_id true group [] lines)
    | some e ↦ pure (
        done_copy_line req.src req.src_storage_id req.dst req.dst_storage_id false group (text_of e)
          lines)
  ]

any_name-bound : (cs : CloudStorage) (st : Storage) → bound (any_name cs) st ≡ bound cs st
unfolding any_name bound
any_name-bound cs system = refl
any_name-bound cs audit_root = refl
any_name-bound cs approved = refl
any_name-bound cs (external n) = refl

delete_any-Confined :
    (os : Os) (cs : CloudStorage) (req : DelFileReq)
    → Documented os
    → starts_at_root (bound cs (storage_of req.storage_id)) ≡ true
    → ((h : List Call) (p : Text)
        → All (LiesIn (bound cs (storage_of req.storage_id))) (cs.uploads h p))
    → Keeps os (Confined (bound cs (storage_of req.storage_id))) (delete_file (any_name cs) req)
unfolding any_name
delete_any-Confined os cs req doc root uploads =
    let st = storage_of req.storage_id in
    let same = any_name-bound cs st in
    subst (λ b. Keeps os (Confined b) (delete_file (any_name cs) req)) same
      (delete_file-Confined os (any_name cs) req doc
        (subst (λ b. starts_at_root b ≡ true) (sym same) root)
        (λ h p. subst (λ b. All (LiesIn b) (cs.uploads h p)) (sym same) (uploads h p)))

-- A batch of deletions, like one of them, gives the calls that change something only paths that lie,
-- by their text, in the directory that the storage
-- is checked against, whichever of them fail, if the storage's prefix begins at the root, the
-- unfinished uploads lie there too and the operating system answers as documented.
pub batch_del_file-Confined :
    (os : Os) (cs : CloudStorage) (id : ℤ) (paths : List Text)
    → Documented os
    → starts_at_root (bound cs (storage_of id)) ≡ true
    → ((h : List Call) (p : Text) → All (LiesIn (bound cs (storage_of id))) (cs.uploads h p))
    → (h : List Call) → All (Confined (bound cs (storage_of id))) h
    → All (Confined (bound cs (storage_of id))) (batch_del_file cs id paths os h).1
unfolding batch_del_file any_name delete_each del_req
batch_del_file-Confined os cs id [] doc root uploads = λ h k. k
batch_del_file-Confined os cs id (path ∷ paths) doc root uploads =
    let b = bound cs (storage_of id) in
    Keeps-bind os (Confined b) (attempt (delete_file (any_name cs) (del_req id path))) _
      (Keeps-attempt os (Confined b) (delete_file (any_name cs) (del_req id path))
        (delete_any-Confined os cs (del_req id path) doc root uploads))
      (λ dropped. batch_del_file-Confined os cs id paths doc root uploads)
