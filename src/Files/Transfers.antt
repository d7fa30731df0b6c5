-- ===== src/Files/Transfers.antt =====
-- pkg/iotools/file.go and pkg/iotools/ioctx.go: copies, moves and removals change nothing outside the
-- directory that holds the place they are given.
use fa.Prelude.{
  ℕ, zero, suc, ◌≡◌, inl, inr, Bool, false, ◌&&◌, Option, none, some, List, [], ◌∷◌, ◌++◌, All,
  if◌then◌else◌, Bool-cases,
}
use fa.Prelude.Text.{Text}
use fa.Paths.Parts.{IsTame}
use fa.Paths.Chain.{tame-Holds}
use fa.Proc.{
  Err, Os, Call, look, mkdir_all, create, fill, symlink, chown, lchown, chtimes, chmod, rename,
  remove, remove_all, audit, Kind, found, Entry, listed, Proc, ◌>>◌, pure, run, raise, attempt,
  is_present, is_folder, is_link, is_regular,
}
use fa.Proc.Keeps.{
  Keeps, Keeps-bind, Keeps-then, Keeps-run, Keeps-attempt, Keeps-if, Keeps-stat, Keeps-lstat,
  Keeps-readlink, Keeps-read_dir,
}
use fa.Files.{
  split_file, join_path, unless_present, ensure_dir, remove_any, copy_content, copy_symlink,
  replicate_dir, copy_entries, copy_dir, copy_into, copy_to_dir, move_to_dir, move_to_file,
}
use fa.Files.Places.{LiesIn, join_path-LiesIn}

-- What the operating system's documentation says of names: an entry's has no "/" and is not "..", nor
-- is that of what is no directory; a walk visits what is below its root.
pub record Documented (os : Os) : Type 0 where
  pub names :
      (h : List Call) (p : Text) (es : List Entry)
      → os.read_dir h p ≡ listed es
      → All (λ e. IsTame e.name) es
  pub bases :
      (h : List Call) (p base : Text) (kind : Kind)
      → os.stat h p ≡ found kind base
      → is_folder kind ≡ false
      → IsTame base
  pub walks :
      (h : List Call) (parent p : Text)
      → LiesIn parent p
      → All (λ v. LiesIn parent v.path) (os.walk h p)

-- The paths that a call is given to change something lie in the directory, by their text alone. The
-- system follows symbolic links on such a path (os.Create, os.Chown, os.MkdirAll), and a copy may make
-- links that lead elsewhere, so what changes may still be outside.
unfoldable pub Confined : Text → Call → Type 0
Confined parent (look p) = Unit
Confined parent (audit e) = Unit
Confined parent (mkdir_all p) = LiesIn parent p
Confined parent (create p) = LiesIn parent p
Confined parent (fill src dst) = LiesIn parent dst
Confined parent (symlink goal dst) = LiesIn parent dst
Confined parent (chown p uid gid) = LiesIn parent p
Confined parent (lchown p uid gid) = LiesIn parent p
Confined parent (chtimes p) = LiesIn parent p
Confined parent (chmod p) = LiesIn parent p
Confined parent (rename src dst) = LiesIn parent src × LiesIn parent dst
Confined parent (remove p) = LiesIn parent p
Confined parent (remove_all p) = LiesIn parent p

module _ (os : Os) (parent : Text) where
  pub run-Confined : (c : Call) → Confined parent c → Keeps os (Confined parent) (run c)
  run-Confined c p = Keeps-run os (Confined parent) c p

  pub then_Confined :
      (m k : Proc (Unit {0}))
      → Keeps os (Confined parent) m
      → Keeps os (Confined parent) k
      → Keeps os (Confined parent) (m >> k)
  then_Confined m k = Keeps-then os (Confined parent) m k

  pub if_Confined :
      (b : Bool) (m k : Proc (Unit {0}))
      → Keeps os (Confined parent) m
      → Keeps os (Confined parent) k
      → Keeps os (Confined parent) (if b then m else k)
  if_Confined b m k = Keeps-if os (Confined parent) b m k

  replicate_dir-Confined :
      (dir : Text) → LiesIn parent dir → Keeps os (Confined parent) (replicate_dir dir)
  unfolding replicate_dir Confined
  replicate_dir-Confined dir lies =
      then_Confined _ _ (run-Confined (mkdir_all dir) lies) (run-Confined (chtimes dir) lies)

  pub copy_content-Confined :
      (src dst : Text) → LiesIn parent dst → Keeps os (Confined parent) (copy_content src dst)
  unfolding copy_content Confined
  copy_content-Confined src dst lies =
      Keeps-stat os (Confined parent) src _ tt (λ e h k. k)
        (λ before kind base answered.
          if_Confined (is_regular kind) _ _
            (then_Confined _ _ (run-Confined (look src) tt) (
              then_Confined _ _ (run-Confined (create dst) lies) (
                then_Confined _ _ (run-Confined (fill src dst) lies) (
                  then_Confined _ _ (run-Confined (chtimes dst) lies)
                    (run-Confined (chmod dst) lies)))))
            (λ h k. k))

  copy_symlink-Confined :
      (src dst : Text) → LiesIn parent dst → Keeps os (Confined parent) (copy_symlink src dst)
  unfolding copy_symlink Confined
  copy_symlink-Confined src dst lies =
      Keeps-readlink os (Confined parent) src _ tt (λ h k. k)
        (λ goal.
          Keeps-lstat os (Confined parent) dst _ tt
            (λ e. then_Confined (pure tt) _ (λ h k. k) (run-Confined (symlink goal dst) lies))
            (λ kind base.
              then_Confined _ _ (run-Confined (remove_all dst) lies)
                (run-Confined (symlink goal dst) lies)))

  -- `nested` stays below whatever the directory holds.
  copy_entries-Confined :
      (nested : (src dst : Text) → Proc (Unit {0})) (src dst : Text) (es : List Entry)
      → ((from into : Text) → LiesIn parent into → Keeps os (Confined parent) (nested from into))
      → LiesIn parent dst
      → All (λ e. IsTame e.name) es
      → Keeps os (Confined parent) (copy_entries nested src dst es)
  unfolding copy_entries Confined
  copy_entries-Confined nested src dst [] deep lies tame = λ h k. k
  copy_entries-Confined nested src dst (e ∷ es) deep lies tame =
      let into = join_path-LiesIn parent dst e.name lies (tame.0) in
      let rest = copy_entries-Confined nested src dst es deep lies (tame.1) in
      Keeps-lstat os (Confined parent) (join_path src e.name) _ tt
        (λ x. then_Confined (raise x) _ (λ h k. k) rest)
        (λ kind base.
          then_Confined _ _
            (if_Confined (is_folder kind) _ _
              (then_Confined _ _ (replicate_dir-Confined (join_path dst e.name) into)
                (deep (join_path src e.name) (join_path dst e.name) into))
              (if_Confined (is_link kind) _ _
                (copy_symlink-Confined (join_path src e.name) (join_path dst e.name) into)
                (copy_content-Confined (join_path src e.name) (join_path dst e.name) into)))
            rest)

  ensure_dir-Confined :
      (name : Text) → LiesIn parent name → Keeps os (Confined parent) (ensure_dir name)
  unfolding ensure_dir unless_present Confined
  ensure_dir-Confined name lies =
      Keeps-bind os (Confined parent) (attempt (run (mkdir_all name))) _
        (Keeps-attempt os (Confined parent) (run (mkdir_all name))
          (run-Confined (mkdir_all name) lies))
        settled
    where
      settled : (failed : Option Err) → Keeps os (Confined parent) (unless_present failed)
      settled none = λ h k. k
      settled (some e) = if_Confined (is_present e) _ _ (λ h k. k) (λ h k. k)

  module _ (doc : Documented os) where
    copy_dir-Confined :
        (depth : ℕ) (src dst : Text)
        → LiesIn parent dst
        → Keeps os (Confined parent) (copy_dir depth src dst)
    unfolding copy_dir Confined
    copy_dir-Confined zero src dst lies = λ h k. k
    copy_dir-Confined (suc depth) src dst lies =
        Keeps-read_dir os (Confined parent) src _ tt (λ e h k. k)
          (λ h es known.
            copy_entries-Confined (copy_dir depth) src dst es (copy_dir-Confined depth) lies
              (doc.names h src es known))

    copy_into-Confined :
        (depth : ℕ) (src dst : Text) (kind : Kind) (base : Text) (exclude_dir : Bool)
        → LiesIn parent dst
        → IsTame (split_file src).1
        → (is_folder kind ≡ false → IsTame base)
        → Keeps os (Confined parent) (copy_into depth src dst kind base exclude_dir)
    unfolding copy_into Confined
    copy_into-Confined depth src dst kind base exclude_dir lies last plain =
        elim (Bool-cases (is_folder kind)) [
          | inl dir ↦
              rw (copy_into, dir)
                (if_Confined exclude_dir _ _ (copy_dir-Confined depth src dst lies) (
                  then_Confined _ _ (ensure_dir-Confined (join_path dst (split_file src).1) inside)
                    (copy_dir-Confined depth src (join_path dst (split_file src).1) inside)))
          | inr file ↦
              let named = tame-Holds parent dst base (lies.0) (plain file) (lies.1) in
              rw (copy_into, file) (copy_content-Confined src (dst ++ b'/' ∷ base) named)
        ]
      where
        inside : LiesIn parent (join_path dst (split_file src).1)
        inside = join_path-LiesIn parent dst (split_file src).1 lies last

    pub copy_to_dir-Confined :
        (depth : ℕ) (src dst : Text) (exclude_dir : Bool)
        → LiesIn parent dst
        → IsTame (split_file src).1
        → Keeps os (Confined parent) (copy_to_dir depth src dst exclude_dir)
    unfolding copy_to_dir Confined
    copy_to_dir-Confined depth src dst exclude_dir lies last =
        Keeps-stat os (Confined parent) src _ tt (λ e h k. k)
          (λ h kind base known.
            Keeps-stat os (Confined parent) dst _ tt (λ e g k. k)
              (λ g target name there.
                if_Confined (is_folder target) _ _
                  (copy_into-Confined depth src dst kind base exclude_dir lies last
                    (doc.bases h src base kind known))
                  (λ f k. k)))

  pub remove_any-Confined :
      (name : Text) → LiesIn parent name → Keeps os (Confined parent) (remove_any name)
  unfolding remove_any Confined
  remove_any-Confined name lies =
      Keeps-lstat os (Confined parent) name _ tt (λ e h k. k)
        (λ kind base. run-Confined (remove_all name) lies)

  pub move_to_dir-Confined :
      (src dst : Text) (exclude_dir : Bool)
      → LiesIn parent src
      → LiesIn parent dst
      → IsTame (split_file src).1
      → Keeps os (Confined parent) (move_to_dir src dst exclude_dir)
  unfolding move_to_dir Confined
  move_to_dir-Confined src dst exclude_dir from into last =
      let inside = join_path-LiesIn parent dst (split_file src).1 into last in
      Keeps-stat os (Confined parent) src _ tt (λ e h k. k)
        (λ h kind base known.
          Keeps-stat os (Confined parent) dst _ tt (λ e g k. k)
            (λ g target name there.
              if_Confined (is_folder target) _ _
                (if_Confined (exclude_dir && is_folder kind) _ _
                  (run-Confined (rename src dst) (from, into))
                  (run-Confined (rename src (join_path dst (split_file src).1)) (from, inside)))
                (λ f k. k)))

  pub move_to_file-Confined :
      (src dst : Text)
      → LiesIn parent src
      → LiesIn parent dst
      → Keeps os (Confined parent) (move_to_file src dst)
  unfolding move_to_file Confined
  move_to_file-Confined src dst from into =
      Keeps-lstat os (Confined parent) src _ tt (λ e h k. k)
        (λ kind base.
          if_Confined (is_folder kind) _ _ (λ h k. k) (run-Confined (rename src dst) (from, into)))
