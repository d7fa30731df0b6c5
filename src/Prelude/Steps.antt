-- ===== src/Prelude/Steps.antt =====
-- What comes of the atomic actions of goroutines: the helpers that the models of interleavings share.
use mathlib.Core.Path.{◌≡◌, refl, subst}
use mathlib.Core.Bool.{Bool, true, false}
use fa.Prelude.Tests.{if◌then◌else◌}
use mathlib.Core.Option.{Option, none, some}
use mathlib.Core.List.{List, [], ◌∷◌}

-- The goroutine cannot go on yet, the process panics, or it goes on.
pub data Result (A : Type 0) : Type 0 where
  blocked crashed : Result A
  moved : A → Result A

unfoldable pub given : {A B : Type 0} → Option A → (A → Result B) → Result B
given none f = blocked
given (some a) f = f a

unfoldable pub and_then : {A B : Type 0} → Result A → (A → Result B) → Result B
and_then blocked f = blocked
and_then crashed f = crashed
and_then (moved a) f = f a

-- The events of a list, one after the other.
unfoldable pub run_all : {E S : Type 0} → (E → S → Result S) → List E → S → Result S
unfolding and_then
run_all step [] s = moved s
run_all step (e ∷ es) s = and_then (step e s) (run_all step es)

-- A property of what an event leads to.
abbrev pub After : {A : Type 0} → (A → Type 0) → Result A → Type 0
After P blocked = Unit
After P crashed = Unit
After P (moved a) = P a

pub given-After :
    {A B : Type 0} (P : B → Type 0) (o : Option A) (f : A → Result B)
    → ((a : A) → o ≡ some a → After P (f a))
    → After P (given o f)
unfolding given
given-After P none f h = tt
given-After P (some a) f h = h a refl

pub and_then-After :
    {A B : Type 0} (P : A → Type 0) (Q : B → Type 0) (r : Result A) (f : A → Result B)
    → After P r
    → ((a : A) → P a → After Q (f a))
    → After Q (and_then r f)
unfolding and_then
and_then-After P Q blocked f h k = tt
and_then-After P Q crashed f h k = tt
and_then-After P Q (moved a) f h k = k a h

pub After-moved :
    {A : Type 0} (P : A → Type 0) (r : Result A) (a : A) → r ≡ moved a → After P r → P a
After-moved P r a e h = subst (After P) e h

pub run_all-After :
    {E S : Type 0} (step : E → S → Result S) (P : S → Type 0)
    → ((e : E) (s : S) → P s → After P (step e s))
    → (es : List E) (s : S) → P s
    → After P (run_all step es s)
unfolding run_all
run_all-After step P keeps [] s h = h
run_all-After step P keeps (e ∷ es) s h =
    and_then-After P P (step e s) (run_all step es) (keeps e s h) (run_all-After step P keeps es)

-- What a panic shows.
abbrev pub IfCrashed : {A : Type 0} → Type 0 → Result A → Type 0
IfCrashed Q blocked = Unit
IfCrashed Q crashed = Q
IfCrashed Q (moved a) = Unit

pub given-IfCrashed :
    {A B : Type 0} (Q : Type 0) (o : Option A) (f : A → Result B)
    → ((a : A) → o ≡ some a → IfCrashed Q (f a))
    → IfCrashed Q (given o f)
unfolding given
given-IfCrashed Q none f h = tt
given-IfCrashed Q (some a) f h = h a refl

pub test-IfCrashed :
    {A : Type 0} (Q : Type 0) (b : Bool) (x y : Result A)
    → (b ≡ true → IfCrashed Q x)
    → (b ≡ false → IfCrashed Q y)
    → IfCrashed Q (if b then x else y)
test-IfCrashed Q true x y h k = h refl
test-IfCrashed Q false x y h k = k refl

pub IfCrashed-crashed : {A : Type 0} (Q : Type 0) (r : Result A) → r ≡ crashed → IfCrashed Q r → Q
IfCrashed-crashed Q r e h = subst (IfCrashed Q) e h
