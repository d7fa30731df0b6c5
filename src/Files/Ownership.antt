-- ===== src/Files/Ownership.antt =====
-- pkg/iotools/file.go: what EnsureOwnDirR and EnsureOwnFileR give away.
use mathlib.Core.Path.{subst}
use fa.Prelude.{
  ℕ, ◌≡◌, refl, sym, inl, inr, true, false, some, List, [], ◌∷◌, ◌++◌, append-nil, All, Bool-cases,
  Option-cases,
}
use fa.Prelude.Text.{Text, eq_text}
use fa.Paths.{parse, clean, sub_elem, starts_at_root, dot}
use fa.Paths.Parts.{IsName, clean-parse, clean-rooted}
use fa.Paths.Subdirs.{Extends, sub_elem-rest}
use fa.Paths.Chain.{tame-Holds}
use fa.Proc.{Os, Call, chown, mkdir_all, ◌>>◌, pure, run}
use fa.Proc.Keeps.{Keeps, Keeps-then, Keeps-run}
use fa.Files.{segments, chown_down, chown_dir_r, own_parent, own_below, ensure_own_dir_r}
use fa.Files.Places.{LiesIn}

pub owner_of_itself : (parent : Text) → starts_at_root parent ≡ true → LiesIn parent parent
owner_of_itself parent root = (root, ([], sym (append-nil (parse parent).parts)))

pub LiesIn-clean :
    (parent p : Text) → starts_at_root parent ≡ true → LiesIn (clean parent) p → LiesIn parent p
LiesIn-clean parent p root lies =
    subst (λ q. (starts_at_root p ≡ true) × Extends q.parts (parse p).parts)
      (clean-parse parent root).0 lies

-- `P` holds of every call that gives away what the parent directory holds.
module _ (os : Os) (P : Call → Type 0) (uid gid : ℕ) where
  unfoldable pub OwnsIn : Text → Type 0
  OwnsIn parent = (p : Text) → LiesIn parent p → P (chown p uid gid)

  chown_down-Keeps :
      (parent at : Text) (es : List Text)
      → OwnsIn parent
      → LiesIn parent at
      → All IsName es
      → Keeps os P (chown_down at es uid gid)
  unfolding chown_down OwnsIn
  chown_down-Keeps parent at [] own held names = λ h k. k
  chown_down-Keeps parent at (e ∷ es) own held names =
      let next = tame-Holds parent at e (held.0) (names.0.2, names.0.3) (held.1) in
      Keeps-then os P (run (chown (at ++ b'/' ∷ e) uid gid))
        (chown_down (at ++ b'/' ∷ e) es uid gid)
        (Keeps-run os P (chown (at ++ b'/' ∷ e) uid gid) (own (at ++ b'/' ∷ e) next))
        (chown_down-Keeps parent (at ++ b'/' ∷ e) es own next (names.1))

  chown_dir_r-Keeps :
      (parent dir : Text)
      → OwnsIn parent
      → starts_at_root parent ≡ true
      → sub_elem parent dir ≡ some true
      → Keeps os P (chown_dir_r parent dir uid gid)
  unfolding chown_dir_r segments chown_down OwnsIn
  chown_dir_r-Keeps parent dir own root below =
      let (r, found, names) = sub_elem-rest parent dir root below in rw found (from r names)
    where
      from :
          (r : List Text)
          → All IsName r
          → Keeps os P (chown_down parent (segments (some r)) uid gid)
      from [] names =
          Keeps-then os P (run (chown (parent ++ b'/' ∷ dot) uid gid)) (pure tt)
            (Keeps-run os P (chown (parent ++ b'/' ∷ dot) uid gid) (
              own (parent ++ b'/' ∷ dot) (
                tame-Holds parent parent dot root (refl, (refl, tt))
                  (owner_of_itself parent root).1)))
            (λ h k. k)
      from (e ∷ es) names =
          chown_down-Keeps parent parent (e ∷ es) own (owner_of_itself parent root) names

  own_parent-Keeps :
      (dir parent : Text)
      → OwnsIn parent
      → starts_at_root parent ≡ true
      → Keeps os P (own_parent dir parent uid gid)
  unfolding own_parent OwnsIn
  own_parent-Keeps dir parent own root = elim (Bool-cases (eq_text dir parent)) [
    | inl same ↦
        rw (own_parent, same)
          (Keeps-run os P (chown parent uid gid) (own parent (owner_of_itself parent root)))
    | inr other ↦ rw (own_parent, other) (λ h k. k)
  ]

  own_below-Keeps :
      (dir parent : Text)
      → OwnsIn parent
      → starts_at_root parent ≡ true
      → Keeps os P (own_below dir parent uid gid)
  unfolding own_below
  own_below-Keeps dir parent own root = elim (Option-cases (sub_elem parent dir)) [
    | inl apart ↦ rw (own_below, apart) (λ h k. k)
    | inr (true, below) ↦ rw (own_below, below) (chown_dir_r-Keeps parent dir own root below)
    | inr (false, outside) ↦ rw (own_below, outside) (λ h k. k)
  ]

  pub ensure_own_dir_r-Keeps :
      (dir parent : Text)
      → P (mkdir_all (clean dir))
      → OwnsIn parent
      → starts_at_root parent ≡ true
      → Keeps os P (ensure_own_dir_r dir parent uid gid)
  unfolding ensure_own_dir_r OwnsIn
  ensure_own_dir_r-Keeps dir parent make own root =
      let p = clean parent in
      let d = clean dir in
      let begins = clean-rooted parent root in
      let owns : OwnsIn p = λ q lies. own q (LiesIn-clean parent q root lies) in
      Keeps-then os P (run (mkdir_all d)) (own_parent d p uid gid >> own_below d p uid gid)
        (Keeps-run os P (mkdir_all d) make)
        (Keeps-then os P (own_parent d p uid gid) (own_below d p uid gid)
          (own_parent-Keeps d p owns begins) (own_below-Keeps d p owns begins))

-- A call gives away nothing but what the directory holds.
unfoldable pub GivesWithin : Text → Call → Type 0
GivesWithin parent (chown p uid gid) = LiesIn parent p
GivesWithin parent _ = Unit

-- EnsureOwnDirR, given a parent directory from the root, gives away only that directory and what it
-- holds, on every answer of the operating system, whether it succeeds or not.
pub ensure_own_dir_r-GivesWithin :
    (os : Os) (dir parent : Text) (uid gid : ℕ)
    → starts_at_root parent ≡ true
    → (h : List Call) → All (GivesWithin parent) h
    → All (GivesWithin parent) (ensure_own_dir_r dir parent uid gid os h).1
unfolding GivesWithin OwnsIn
ensure_own_dir_r-GivesWithin os dir parent uid gid root =
    ensure_own_dir_r-Keeps os (GivesWithin parent) uid gid dir parent tt (λ p lies. lies) root
