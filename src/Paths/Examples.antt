-- ===== src/Paths/Examples.antt =====
-- pkg/iotools/file.go: tests and witnesses for paths.
use fa.Prelude.{◌≡◌, ◌↔◌, refl, Bool, true, false, some, [], ◌∷◌, ◌++◌}
use fa.Prelude.Text.{Text}
use fa.Paths.{
  clean, parse, split, join, show, settle, up, into_first, starts_at_root, rel, way, ups, begins_up,
  stays_below, sub_elem,
}
use fa.Paths.Subdirs.{Holds, sub_elem-Holds}

-- /d/e, /d/e/f and /d/e/../g
abbrev home : Text
home = b'/' ∷ b'd' ∷ b'/' ∷ b'e' ∷ []

abbrev inside : Text
inside = home ++ b'/' ∷ b'f' ∷ []

abbrev beside : Text
beside = home ++ b'/' ∷ b'.' ∷ b'.' ∷ b'/' ∷ b'g' ∷ []

clean-beside : clean beside ≡ b'/' ∷ b'd' ∷ b'/' ∷ b'g' ∷ []
unfolding clean parse split into_first settle up starts_at_root show join
clean-beside = refl

sub_elem-inside : sub_elem home inside ≡ some true
unfolding sub_elem parse split into_first settle up starts_at_root rel way ups begins_up stays_below
sub_elem-inside = refl

sub_elem-beside : sub_elem home beside ≡ some false
unfolding sub_elem parse split into_first settle up starts_at_root rel way ups begins_up stays_below
sub_elem-beside = refl

home_rooted : starts_at_root home ≡ true
unfolding starts_at_root
home_rooted = refl

inside_rooted : starts_at_root inside ≡ true
unfolding starts_at_root
inside_rooted = refl

sub_elem-Holds_example :
    ((sub_elem home inside ≡ some true) ↔ Holds home inside)
    × ((b : Bool) × (sub_elem home inside ≡ some b))
sub_elem-Holds_example = sub_elem-Holds home inside home_rooted inside_rooted
