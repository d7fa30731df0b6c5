-- ===== src/Paths/Subdirs.antt =====
-- pkg/iotools/file.go: SubElem decides whether a directory holds a path.
use mathlib.Core.Path.{subst}
use fa.Prelude.{
  ◌≡◌, ◌↔◌, refl, sym, ap, ◌∙◌, inl, inr, Bool, true, false, not, Option, none, some, List, [], ◌∷◌,
  ◌++◌, All, Bool-cases, Option-cases, arith,
}
use fa.Prelude.Text.{Text, eq_text, eq_text_refl, eq_text_sound}
use fa.Paths.{
  CleanPath, dot_dot, parse, ups, way, rel, begins_up, stays_below, sub_elem, is_sub_dir,
  starts_at_root,
}
use fa.Paths.Parts.{IsName, parse-IsAbsolute}

-- `ps` and then more.
abbrev pub Extends : List Text → List Text → Type 0
Extends ps ss = (more : List Text) × (ss ≡ ps ++ more)

-- A path lies in a directory, both from the root: its parts begin with those of the directory.
abbrev pub Holds : Text → Text → Type 0
Holds parent sub = Extends (parse parent).parts (parse sub).parts

way-Extends :
    (ps ss r : List Text) → All IsName ps → way ps ss ≡ some r → begins_up r ≡ false → Extends ps ss
unfolding way ups begins_up
way-Extends [] ss r h e b = (ss, refl)
way-Extends (p ∷ ps) [] r h e b =
    let climbs : some (dot_dot ∷ ups ps) ≡ some r = ground (arith, h.0.2) in
    absurd (ground (arith, climbs))
way-Extends (p ∷ ps) (s ∷ ss) r h e b = elim (Bool-cases (eq_text p s)) [
  | inl same ↦
      let rest : way ps ss ≡ some r = ground arith in
      let (more, shape) = way-Extends ps ss r h.1 rest b in
      let head = eq_text_sound p s same in
      (more, ap (◌∷◌ s) shape ∙ ap (λ k. k ∷ ps ++ more) (sym head))
  | inr other ↦
      let climbs : some (dot_dot ∷ ups ps ++ s ∷ ss) ≡ some r = ground (arith, h.0.2) in
      absurd (ground (arith, climbs))
]

way-names : (ps more : List Text) → way ps (ps ++ more) ≡ some more
unfolding way
way-names [] more = refl
way-names (p ∷ ps) more = rw (eq_text_refl p) (way-names ps more)

names-begin : (es : List Text) → All IsName es → begins_up es ≡ false
unfolding begins_up
names-begin [] h = refl
names-begin (e ∷ es) h = h.0.2

All-rest : (xs ys : List Text) → All IsName (xs ++ ys) → All IsName ys
All-rest [] ys h = h
All-rest (x ∷ xs) ys h = All-rest xs ys h.1

way-total : (ps ss : List Text) → All IsName ps → (r : List Text) × (way ps ss ≡ some r)
unfolding way
way-total [] ss h = (ss, refl)
way-total (p ∷ ps) [] h = (ups (p ∷ ps), rw (h.0.2))
way-total (p ∷ ps) (s ∷ ss) h = elim (Bool-cases (eq_text p s)) [
  | inl same ↦ rw same (way-total ps ss h.1)
  | inr other ↦ (ups (p ∷ ps) ++ s ∷ ss, rw (other, h.0.2))
]

rel-way :
    (base target : CleanPath) (r : List Text)
    → base.rooted ≡ true
    → target.rooted ≡ true
    → way base.parts target.parts ≡ some r
    → rel base target ≡ some r
unfolding rel
rel-way base target r p s found = rw (rel, p, s, found)

sub_elem-way :
    (parent sub : Text) (r : List Text)
    → (parse parent).rooted ≡ true
    → (parse sub).rooted ≡ true
    → way (parse parent).parts (parse sub).parts ≡ some r
    → sub_elem parent sub ≡ some (not (begins_up r))
unfolding sub_elem stays_below
sub_elem-way parent sub r p s found =
    ap stays_below (rel-way (parse parent) (parse sub) r p s found)

-- SubElem of two paths from the root says that the first holds the second exactly when the parts of
-- the second begin with those of the first, and it has no error.
pub sub_elem-Holds :
    (parent sub : Text)
    → starts_at_root parent ≡ true
    → starts_at_root sub ≡ true
    → ((sub_elem parent sub ≡ some true) ↔ Holds parent sub)
      × ((b : Bool) × (sub_elem parent sub ≡ some b))
sub_elem-Holds parent sub p s =
    let (pr, pn) = parse-IsAbsolute parent p in
    let (sr, sn) = parse-IsAbsolute sub s in
    let (r, found) = way-total (parse parent).parts (parse sub).parts pn in
    let decides = sub_elem-way parent sub r pr sr found in
    (
      (
        λ yes.
            let stays : begins_up r ≡ false = ground (arith, decides, yes) in
            way-Extends (parse parent).parts (parse sub).parts r pn found stays,
        λ (more, shape).
            let within : way (parse parent).parts (parse sub).parts ≡ some more =
              rw shape (way-names (parse parent).parts more) in
            let named = All-rest (parse parent).parts more (subst (All IsName) shape sn) in
            sub_elem-way parent sub more pr sr within ∙ rw (names-begin more named),
      ),
      (not (begins_up r), decides),
    )

rel-rooted :
    (base target : CleanPath) (r : List Text)
    → base.rooted ≡ true
    → rel base target ≡ some r
    → target.rooted ≡ true
unfolding rel
rel-rooted base target r p h = ground arith

sub_elem-rooted :
    (parent sub : Text)
    → starts_at_root parent ≡ true
    → sub_elem parent sub ≡ some true
    → starts_at_root sub ≡ true
unfolding sub_elem stays_below parse
sub_elem-rooted parent sub p held = elim (Option-cases (rel (parse parent) (parse sub))) [
  | inl stuck ↦ let fails : sub_elem parent sub ≡ none = ap stays_below stuck in absurd cc
  | inr (r, found) ↦ rel-rooted (parse parent) (parse sub) r p found
]

-- What the callers that drop the error rely on.
pub is_sub_dir-Holds :
    (parent sub : Text)
    → starts_at_root parent ≡ true
    → is_sub_dir parent sub ≡ true
    → (starts_at_root sub ≡ true) × Holds parent sub
unfolding is_sub_dir
is_sub_dir-Holds parent sub p held =
    let says : sub_elem parent sub ≡ some true = answered (sub_elem parent sub) held in
    let s = sub_elem-rooted parent sub p says in (s, (sub_elem-Holds parent sub p s).0.0 says)
  where
    answered : (o : Option Bool) → elim o [ none ↦ false | some b ↦ b ] ≡ true → o ≡ some true
    answered none h = cc
    answered (some b) h = ap some h

-- What is left of the way when the second path is below the first: names only.
pub sub_elem-rest :
    (parent sub : Text)
    → starts_at_root parent ≡ true
    → sub_elem parent sub ≡ some true
    → (r : List Text) × (rel (parse parent) (parse sub) ≡ some r) × All IsName r
sub_elem-rest parent sub p held =
    let s = sub_elem-rooted parent sub p held in
    let (pr, pn) = parse-IsAbsolute parent p in
    let (sr, sn) = parse-IsAbsolute sub s in
    let (more, shape) = (sub_elem-Holds parent sub p s).0.0 held in
    let within : way (parse parent).parts (parse sub).parts ≡ some more =
      rw shape (way-names (parse parent).parts more) in
    (
      more,
      rel-way (parse parent) (parse sub) more pr sr within,
      All-rest (parse parent).parts more (subst (All IsName) shape sn),
    )

pub Holds-is_sub_dir :
    (parent sub : Text)
    → starts_at_root parent ≡ true
    → starts_at_root sub ≡ true
    → Holds parent sub
    → is_sub_dir parent sub ≡ true
unfolding is_sub_dir
Holds-is_sub_dir parent sub p s held = rw (is_sub_dir, (sub_elem-Holds parent sub p s).0.1 held)
