-- ===== src/Files/Places.antt =====
-- filepath.Join and path.Split: an entry put below a directory stays in what holds the directory.
use fa.Prelude.{
  ℕ, ◌≡◌, refl, sym, inl, inr, ◌⊎◌, true, List, [], ◌∷◌, ◌++◌, ◌==◌, Bool-cases, arith,
}
use mathlib.Core.Path.{subst}
use fa.Prelude.Text.{Text}
use fa.Paths.{into_first, split, clean, starts_at_root}
use fa.Paths.Parts.{IsTame, last_part, clean-IsTame, clean-rooted}
use fa.Paths.Subdirs.{Holds}
use fa.Paths.Chain.{tame-Holds, clean-Holds}
use fa.Files.{split_file, join_path}

-- A place from the root that a directory holds.
abbrev pub LiesIn : Text → Text → Type 0
LiesIn parent p = (starts_at_root p ≡ true) × Holds parent p

pub clean-LiesIn : (parent p : Text) → LiesIn parent p → LiesIn parent (clean p)
clean-LiesIn parent p (root, held) = (clean-rooted p root, clean-Holds parent p root held)

pub join_path-LiesIn :
    (parent dir e : Text) → LiesIn parent dir → IsTame e → LiesIn parent (join_path dir e)
unfolding join_path
join_path-LiesIn parent [] e (root, held) tame = absurd (ground (arith, root))
join_path-LiesIn parent (c ∷ dir) e (root, held) tame =
    clean-LiesIn parent (c ∷ dir ++ b'/' ∷ e) (tame-Holds parent (c ∷ dir) e root tame held)

abbrev Whole : Text → Type 0
Whole s = (f : Text) × (split_file s ≡ ([], f)) × (split s ≡ f ∷ [])

abbrev Cut : Text → Type 0
Cut s =
    (d : ℕ) × (ds : Text) × (f : Text) × (e1 : Text) × (e2 : Text) × (es : List Text) × (split_file
        s
      ≡ (d ∷ ds, f))
    × (split s ≡ e1 ∷ e2 ∷ es)
    × (last_part (e2 ∷ es) ≡ f)

split_file-cases : (s : Text) → Whole s ⊎ Cut s
unfolding split_file split into_first
split_file-cases [] = inl ([], refl, refl)
split_file-cases (c ∷ s) = elim (Bool-cases (c == b'/')) [
  | inl slash ↦ elim (split_file-cases s) [
    | inl (f, file, parts) ↦
        inr (c, [], f, [], f, [], rw (file, file, slash), rw (slash, parts), refl)
    | inr (d, ds, f, e1, e2, es, file, parts, same) ↦
        inr (c, d ∷ ds, f, [], e1, e2 ∷ es, rw (file, file), rw (slash, parts), same)
  ]
  | inr other ↦ elim (split_file-cases s) [
    | inl (f, file, parts) ↦ inl (c ∷ f, rw (file, file, other), rw (other, parts))
    | inr (d, ds, f, e1, e2, es, file, parts, same) ↦
        inr (c, d ∷ ds, f, c ∷ e1, e2, es, rw (file, file), rw (other, parts), same)
  ]
]

-- The file of path.Split is the last part.
split_file-split : (s : Text) → (split_file s).1 ≡ last_part (split s)
split_file-split s = elim (split_file-cases s) [
  | inl (f, file, parts) ↦ rw (file, parts)
  | inr (d, ds, f, e1, e2, es, file, parts, same) ↦ rw (file, parts) (sym same)
]

pub split_file-IsTame : (s : Text) → starts_at_root s ≡ true → IsTame (split_file (clean s)).1
split_file-IsTame s root = subst IsTame (sym (split_file-split (clean s))) (clean-IsTame s root)
