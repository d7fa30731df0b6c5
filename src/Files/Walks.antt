-- ===== src/Files/Walks.antt =====
-- pkg/iotools/file.go: ChownR and RemoveFileR, which walk a directory, change nothing outside what holds it.
use fa.Prelude.{ℕ, inl, inr, List, [], ◌∷◌, All, if◌then◌else◌, Option-cases}
use fa.Prelude.Text.{Text}
use fa.Proc.{Os, lchown, remove, remove_all, Visit, pure, run, is_folder}
use fa.Proc.Keeps.{Keeps, Keeps-lstat, Keeps-walk}
use fa.Files.{lchown_visits, chown_r, remove_visits, remove_file_r}
use fa.Files.Places.{LiesIn}
use fa.Files.Transfers.{Documented, Confined, then_Confined, if_Confined, run-Confined}

module _ (os : Os) (parent : Text) (doc : Documented os) where
  lchown_visits-Confined :
      (vs : List Visit) (uid gid : ℕ)
      → All (λ v. LiesIn parent v.path) vs
      → Keeps os (Confined parent) (lchown_visits vs uid gid)
  unfolding lchown_visits Confined
  lchown_visits-Confined [] uid gid lies = λ h k. k
  lchown_visits-Confined (v ∷ vs) uid gid lies = elim (Option-cases v.trouble) [
    | inl fine ↦
        rw (lchown_visits, fine)
          (then_Confined os parent (run (lchown v.path uid gid)) (lchown_visits vs uid gid)
            (run-Confined os parent (lchown v.path uid gid) (lies.0))
            (lchown_visits-Confined vs uid gid (lies.1)))
    | inr (e, bad) ↦ rw (lchown_visits, bad) (λ h k. k)
  ]

  pub chown_r-Confined :
      (path : Text) (uid gid : ℕ)
      → LiesIn parent path
      → Keeps os (Confined parent) (chown_r path uid gid)
  unfolding chown_r Confined
  chown_r-Confined path uid gid lies =
      Keeps-walk os (Confined parent) path _ tt
        (λ h. lchown_visits-Confined (os.walk h path) uid gid (doc.walks h parent path lies))

  remove_visits-Confined :
      (vs : List Visit)
      → All (λ v. LiesIn parent v.path) vs
      → Keeps os (Confined parent) (remove_visits vs)
  unfolding remove_visits Confined
  remove_visits-Confined [] lies = λ h k. k
  remove_visits-Confined (v ∷ vs) lies = elim (Option-cases v.trouble) [
    | inl fine ↦
        rw (remove_visits, fine)
          (then_Confined os parent (if is_folder v.kind then pure tt else run (remove v.path))
            (remove_visits vs)
            (if_Confined os parent (is_folder v.kind) (pure tt) (run (remove v.path)) (λ h k. k)
              (run-Confined os parent (remove v.path) (lies.0)))
            (remove_visits-Confined vs (lies.1)))
    | inr (e, bad) ↦ rw (remove_visits, bad) (λ h k. k)
  ]

  pub remove_file_r-Confined :
      (name : Text) → LiesIn parent name → Keeps os (Confined parent) (remove_file_r name)
  unfolding remove_file_r Confined
  remove_file_r-Confined name lies =
      Keeps-lstat os (Confined parent) name _ tt (λ e h k. k)
        (λ kind base.
          if_Confined os parent (is_folder kind) _ _
            (Keeps-walk os (Confined parent) name _ tt
              (λ h. remove_visits-Confined (os.walk h name) (doc.walks h parent name lies)))
            (run-Confined os parent (remove_all name) lies))
