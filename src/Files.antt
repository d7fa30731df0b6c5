-- ===== src/Files.antt =====
-- pkg/iotools/file.go and pkg/iotools/ioctx.go: the procedures that make, copy, move, own and remove files.
-- A tree deeper than `depth` is too deep for the copy; contents are one `fill`.
pub mod Places
pub mod Ownership
pub mod Transfers
pub mod Walks
use fa.Prelude.{
  ℕ, zero, suc, Bool, true, false, ◌&&◌, Option, none, some, List, [], ◌∷◌, ◌++◌, ◌==◌,
  if◌then◌else◌,
}
use fa.Prelude.Text.{Text, eq_text}
use fa.Paths.{parse, clean, rel, sub_elem, dot}
use fa.Proc.{
  Err, no_relation, wrong_parent, wrong_kind, absent, present, Kind, folder, link, regular, special,
  Stat, found, missing, Entry, listed, unreadable, Visit, Call, look, mkdir_all, create, fill,
  symlink, chown, lchown, chtimes, chmod, rename, remove, remove_all, Outcome, returned, raised,
  stuck, too_deep, Proc, pure, raise, panic, out_of_depth, ◌>>=◌, ◌>>◌, stat, lstat, read_dir,
  readlink, walk, run, attempt, is_present, is_missing, is_folder, is_link, is_regular,
}

-- path.Split and filepath.Join.
unfoldable pub split_file : Text → Text × Text
split_file [] = ([], [])
split_file (c ∷ s) =
    let (dir, file) = split_file s in
    elim dir [
      | [] ↦ if c == b'/' then (c ∷ [], file) else ([], c ∷ file)
      | d ∷ ds ↦ (c ∷ d ∷ ds, file)
    ]

unfoldable pub join_path : Text → Text → Text
unfolding clean
join_path [] [] = []
join_path [] (c ∷ b) = clean (c ∷ b)
join_path (c ∷ a) b = clean (c ∷ a ++ b'/' ∷ b)

-- ChownDirR: the steps of filepath.Rel, as strings.Split cuts them, from the parent down.
unfoldable pub segments : Option (List Text) → List Text
segments none = [] ∷ []
segments (some []) = dot ∷ []
segments (some (e ∷ es)) = e ∷ es

unfoldable pub chown_down : Text → List Text → (uid gid : ℕ) → Proc (Unit {0})
chown_down at [] uid gid = pure tt
chown_down at (e ∷ es) uid gid = do
  run (chown (at ++ b'/' ∷ e) uid gid)
  chown_down (at ++ b'/' ∷ e) es uid gid

unfoldable pub chown_dir_r : (parent dir : Text) → (uid gid : ℕ) → Proc (Unit {0})
unfolding segments chown_down
chown_dir_r parent dir uid gid =
    chown_down parent (segments (rel (parse parent) (parse dir))) uid gid

-- EnsureOwnDirR, on clean paths after the directory is made.
unfoldable pub own_parent : (dir parent : Text) → (uid gid : ℕ) → Proc (Unit {0})
own_parent dir parent uid gid = if eq_text dir parent then run (chown parent uid gid) else pure tt

unfoldable pub own_below : (dir parent : Text) → (uid gid : ℕ) → Proc (Unit {0})
unfolding chown_dir_r
own_below dir parent uid gid = elim (sub_elem parent dir) [
  | none ↦ raise no_relation
  | some valid ↦ if valid then chown_dir_r parent dir uid gid else raise wrong_parent
]

unfoldable pub ensure_own_dir_r : (dir parent : Text) → (uid gid : ℕ) → Proc (Unit {0})
unfolding own_parent own_below
ensure_own_dir_r dir parent uid gid = do
  run (mkdir_all (clean dir))
  own_parent (clean dir) (clean parent) uid gid
  own_below (clean dir) (clean parent) uid gid

unfoldable pub create_own : Text → (uid gid : ℕ) → Proc (Unit {0})
create_own name uid gid = do run (create name); run (chown name uid gid)

unfoldable pub ensure_own_file_r : (filename root : Text) → (uid gid : ℕ) → Proc (Unit {0})
unfolding split_file ensure_own_dir_r create_own
ensure_own_file_r filename root uid gid = do
  ensure_own_dir_r (split_file filename).0 root uid gid
  there ← stat filename
  if is_missing there then create_own filename uid gid else pure tt

-- EnsureDir: os.IsExist is no error.
unfoldable pub unless_present : Option Err → Proc (Unit {0})
unless_present none = pure tt
unless_present (some e) = if is_present e then pure tt else raise e

unfoldable pub ensure_dir : Text → Proc (Unit {0})
unfolding unless_present
ensure_dir name = do failed ← attempt (run (mkdir_all name)); unless_present failed

-- ChownR
unfoldable pub lchown_visits : List Visit → (uid gid : ℕ) → Proc (Unit {0})
lchown_visits [] uid gid = pure tt
lchown_visits (v ∷ vs) uid gid = elim v.trouble [
  | none ↦ do run (lchown v.path uid gid); lchown_visits vs uid gid
  | some e ↦ raise e
]

unfoldable pub chown_r : Text → (uid gid : ℕ) → Proc (Unit {0})
unfolding lchown_visits
chown_r path uid gid = do visits ← walk path; lchown_visits visits uid gid

-- RemoveFileR
unfoldable pub remove_visits : List Visit → Proc (Unit {0})
remove_visits [] = pure tt
remove_visits (v ∷ vs) = elim v.trouble [
  | none ↦ do if is_folder v.kind then pure tt else run (remove v.path); remove_visits vs
  | some e ↦ raise e
]

unfoldable pub remove_file_r : Text → Proc (Unit {0})
unfolding remove_visits
remove_file_r name = do
  there ← lstat name
  elim there [
    | missing e ↦ pure tt
    | found kind base ↦
        if is_folder kind
        then (do visits ← walk name; remove_visits visits)
        else run (remove_all name)
  ]

-- Remove
unfoldable pub remove_any : Text → Proc (Unit {0})
remove_any name = do
  there ← lstat name
  elim there [ missing e ↦ pure tt | found kind base ↦ run (remove_all name) ]

-- CopyFileWithContext
unfoldable pub copy_content : (src dst : Text) → Proc (Unit {0})
copy_content src dst = do
  there ← stat src
  elim there [
    | missing e ↦ raise e
    | found kind base ↦
        if is_regular kind
        then (do
          run (look src)
          run (create dst)
          run (fill src dst)
          run (chtimes dst)
          run (chmod dst))
        else raise wrong_kind
  ]

-- CopySymLinkWithContext and ReplicateDir.
unfoldable pub copy_symlink : (src dst : Text) → Proc (Unit {0})
copy_symlink src dst = do
  goal ← readlink src
  elim goal [
    | none ↦ pure tt
    | some way ↦ do
      there ← lstat dst
      elim there [ missing e ↦ pure tt | found kind base ↦ run (remove_all dst) ]
      run (symlink way dst)
  ]

unfoldable pub replicate_dir : Text → Proc (Unit {0})
replicate_dir dir = do run (mkdir_all dir); run (chtimes dir)

-- CopyDirWithContext, which calls itself as `nested` on a directory.
unfoldable pub copy_entries :
    (nested : (src dst : Text) → Proc (Unit {0})) → (src dst : Text) → List Entry → Proc (Unit {0})
unfolding join_path copy_symlink copy_content replicate_dir
copy_entries nested src dst [] = pure tt
copy_entries nested src dst (e ∷ es) = do
  there ← lstat (join_path src e.name)
  elim there [
    | missing x ↦ raise x
    | found kind base ↦
        if is_folder kind
        then (do
          replicate_dir (join_path dst e.name)
          nested (join_path src e.name) (join_path dst e.name))
        else if is_link kind
        then copy_symlink (join_path src e.name) (join_path dst e.name)
        else copy_content (join_path src e.name) (join_path dst e.name)
  ]
  copy_entries nested src dst es

unfoldable pub copy_dir : (depth : ℕ) → (src dst : Text) → Proc (Unit {0})
unfolding copy_entries
copy_dir zero src dst = out_of_depth
copy_dir (suc depth) src dst = do
  entries ← read_dir src
  elim entries [ unreadable e ↦ raise e | listed es ↦ copy_entries (copy_dir depth) src dst es ]

-- Copy2DirWithContext, on a target that is a directory.
unfoldable pub copy_into :
    (depth : ℕ) → (src dst : Text) → Kind → (base : Text) → (exclude_dir : Bool) → Proc (Unit {0})
unfolding split_file join_path ensure_dir copy_dir copy_content
copy_into depth src dst kind base exclude_dir =
    if is_folder kind
    then if exclude_dir then copy_dir depth src dst else (do
      ensure_dir (join_path dst (split_file src).1)
      copy_dir depth src (join_path dst (split_file src).1))
    else copy_content src (dst ++ b'/' ∷ base)

unfoldable pub copy_to_dir : (depth : ℕ) → (src dst : Text) → Bool → Proc (Unit {0})
unfolding copy_into
copy_to_dir depth src dst exclude_dir = do
  from ← stat src
  elim from [
    | missing e ↦ raise e
    | found kind base ↦ do
      into ← stat dst
      elim into [
        | missing e ↦ raise e
        | found target name ↦
            if is_folder target
            then copy_into depth src dst kind base exclude_dir
            else raise wrong_kind
      ]
  ]

unfoldable pub move_to_dir : (src dst : Text) → Bool → Proc (Unit {0})
unfolding split_file join_path
move_to_dir src dst exclude_dir = do
  from ← stat src
  elim from [
    | missing e ↦ raise e
    | found kind base ↦ do
      into ← stat dst
      elim into [
        | missing e ↦ raise e
        | found target name ↦
            if is_folder target
            then if exclude_dir && is_folder kind
              then run (rename src dst)
              else run (rename src (join_path dst (split_file src).1))
            else raise wrong_kind
      ]
  ]

unfoldable pub move_to_file : (src dst : Text) → Proc (Unit {0})
move_to_file src dst = do
  from ← lstat src
  elim from [
    | missing e ↦ raise e
    | found kind base ↦ if is_folder kind then raise wrong_kind else run (rename src dst)
  ]
