-- ===== src/Paths.antt =====
-- pkg/iotools/file.go: which directory holds which (SubElem), the directories from a parent down
-- (ChownDirR, subPathList), and Go's path/filepath as far as these use it: Clean, Rel, Join and Split on Unix.
pub mod Parts
pub mod Subdirs
pub mod Chain
mod Examples
use mathlib.Core.List.{reverse}
use fa.Prelude.{
  ℕ, Bool, true, false, not, ◌&&◌, ◌||◌, Option, none, some, List, [], ◌∷◌, ◌++◌, map, ◌==◌,
  if◌then◌else◌,
}
use fa.Prelude.Text.{Text, eq_text}

-- strings.Split at "/" and strings.Join with "/".
unfoldable pub into_first : ℕ → List Text → List Text
into_first c [] = (c ∷ []) ∷ []
into_first c (e ∷ es) = (c ∷ e) ∷ es

unfoldable pub split : Text → List Text
unfolding into_first
split [] = [] ∷ []
split (c ∷ s) = let rest = split s in if c == b'/' then [] ∷ rest else into_first c rest

unfoldable pub join : List Text → Text
join [] = []
join (e ∷ []) = e
join (e ∷ f ∷ es) = e ++ b'/' ∷ join (f ∷ es)

abbrev pub dot : Text
dot = b'.' ∷ []

abbrev pub dot_dot : Text
dot_dot = b'.' ∷ b'.' ∷ []

-- A clean path: whether it begins with "/", and its parts.
pub record CleanPath : Type 0 where
  pub rooted : Bool
  pub parts : List Text

-- What ".." leaves of the parts so far, the last one first.
unfoldable pub up : Bool → List Text → List Text
up true [] = []
up false [] = dot_dot ∷ []
up rooted (e ∷ st) = if eq_text e dot_dot then dot_dot ∷ e ∷ st else st

unfoldable pub settle : Bool → List Text → List Text → List Text
unfolding up
settle rooted st [] = reverse st
settle rooted st (e ∷ es) =
    let stay = settle rooted st es in
    let climb = settle rooted (up rooted st) es in
    let enter = settle rooted (e ∷ st) es in
    if eq_text e [] || eq_text e dot then stay else if eq_text e dot_dot then climb else enter

unfoldable pub starts_at_root : Text → Bool
starts_at_root [] = false
starts_at_root (c ∷ s) = c == b'/'

unfoldable pub parse : Text → CleanPath
unfolding split settle starts_at_root
parse s = record { rooted = starts_at_root s; parts = settle (starts_at_root s) [] (split s) }

unfoldable pub show : CleanPath → Text
unfolding join
show p =
    if p.rooted then b'/' ∷ join p.parts else elim p.parts [ [] ↦ dot | e ∷ es ↦ join (e ∷ es) ]

-- filepath.Clean
unfoldable pub clean : Text → Text
unfolding parse show
clean s = show (parse s)

-- filepath.Rel on the parts of two clean paths: the way from the first to the second.
unfoldable pub ups : List Text → List Text
ups es = map (λ e. dot_dot) es

unfoldable pub way : List Text → List Text → Option (List Text)
unfolding ups
way [] ts = some ts
way (b ∷ bs) [] = if eq_text b dot_dot then none else some (ups (b ∷ bs))
way (b ∷ bs) (t ∷ ts) =
    let rest = way bs ts in
    if eq_text b t then rest else if eq_text b dot_dot then none else some (ups (b ∷ bs) ++ t ∷ ts)

unfoldable pub rel : CleanPath → CleanPath → Option (List Text)
unfolding way
rel base target =
    if (base.rooted && not target.rooted) || (not base.rooted && target.rooted)
    then none
    else way base.parts target.parts

-- SubElem: the way does not begin with "..".
unfoldable pub begins_up : List Text → Bool
begins_up [] = false
begins_up (e ∷ es) = eq_text e dot_dot

unfoldable pub stays_below : Option (List Text) → Option Bool
unfolding begins_up
stays_below none = none
stays_below (some r) = some (not (begins_up r))

unfoldable pub sub_elem : Text → Text → Option Bool
unfolding parse rel stays_below
sub_elem parent sub = stays_below (rel (parse parent) (parse sub))

-- Without its error, as most callers take it.
unfoldable pub is_sub_dir : Text → Text → Bool
unfolding sub_elem
is_sub_dir parent sub = elim (sub_elem parent sub) [ none ↦ false | some b ↦ b ]
