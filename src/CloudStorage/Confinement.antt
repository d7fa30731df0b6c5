-- ===== src/CloudStorage/Confinement.antt =====
-- web/routers/file.go: the paths that deleteFile and copyFile give to the system to change something.
-- They are judged by their text; symbolic links on them are not followed here.
use fa.Prelude.{◌≡◌, true, List, [], ◌∷◌, All}
use fa.Prelude.Text.{Text, eq_text, trim_space}
use fa.Paths.{starts_at_root}
use fa.Proc.{Os, Call, remove_all, file_deleted, run, report, attempt, is_folder}
use fa.Proc.Keeps.{Keeps, Keeps-bind, Keeps-then, Keeps-run, Keeps-attempt, Keeps-if, Keeps-lstat}
use fa.Files.Places.{LiesIn}
use fa.Files.Transfers.{Documented, Confined}
use fa.Files.Walks.{remove_file_r-Confined}
use fa.CloudStorage.{
  CloudStorage, storage_of, bound, DelFileReq, remove_each, clean_upload, delete_file,
}
use fa.CloudStorage.Sanitize.{Keeps-sanitized}

module _ (os : Os) (parent : Text) where
  report-Confined : (e : _) → Keeps os (Confined parent) (report e)
  unfolding Confined
  report-Confined e h kept = (tt, kept)

  remove_each-Confined :
      (ps : List Text) → All (LiesIn parent) ps → Keeps os (Confined parent) (remove_each ps)
  unfolding remove_each Confined
  remove_each-Confined [] lies = λ h k. k
  remove_each-Confined (p ∷ ps) lies =
      Keeps-bind os (Confined parent) (attempt (run (remove_all p))) _
        (Keeps-attempt os (Confined parent) (run (remove_all p))
          (Keeps-run os (Confined parent) (remove_all p) (lies.0)))
        (λ dropped. remove_each-Confined ps (lies.1))

-- Whatever the operating system answers, as documented, the calls of deleteFile that change something
-- are given only paths that lie, by their text, in the directory that the storage is checked against, if the storage's prefix begins at the root
-- and the unfinished uploads of a directory lie there too.
pub delete_file-Confined :
    (os : Os) (cs : CloudStorage) (req : DelFileReq)
    → Documented os
    → starts_at_root (bound cs (storage_of req.storage_id)) ≡ true
    → ((h : List Call) (p : Text)
        → All (LiesIn (bound cs (storage_of req.storage_id))) (cs.uploads h p))
    → (h : List Call) → All (Confined (bound cs (storage_of req.storage_id))) h
    → All (Confined (bound cs (storage_of req.storage_id))) (delete_file cs req os h).1
unfolding delete_file clean_upload Confined
delete_file-Confined os cs req doc root uploads =
    let b = bound cs (storage_of req.storage_id) in
    Keeps-if os (Confined b) (eq_text (trim_space req.path) []) _ _ (λ h k. k)
      (Keeps-sanitized os (Confined b) cs req.path req.storage_id _ root (λ p lies tame.
        Keeps-lstat os (Confined b) p _ tt (λ e h k. k)
          (λ kind base.
            Keeps-then os (Confined b) _ _
              (Keeps-if os (Confined b) (is_folder kind) _ _
                (λ h. remove_each-Confined os b (cs.uploads h p) (uploads h p) h) (λ h k. k))
              (Keeps-if os (Confined b) req.file_only _ _ (remove_file_r-Confined os b doc p lies) (
                Keeps-then os (Confined b) _ _ (Keeps-run os (Confined b) (remove_all p) lies)
                  (report-Confined os b file_deleted))))))
