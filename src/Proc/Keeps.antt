-- ===== src/Proc/Keeps.antt =====
-- What every call of a procedure satisfies, by the procedure's parts.
use fa.Prelude.{Option, none, some, ◌≡◌, refl, Bool, true, false, if◌then◌else◌, List, All}
use fa.Prelude.Text.{Text}
use mathlib.Core.Path.{subst}
use fa.Proc.{
  Visit, Entry, Listing, listed, unreadable, Err, Kind, Stat, found, missing, Os, Call, Outcome,
  returned, raised, stuck, too_deep, look, Proc, ◌>>=◌, ◌>>◌, proceed, stat, lstat, read_dir,
  readlink, walk, ask, run, caught, attempt,
}

abbrev pub Keeps {ℓ} : {A : Type ℓ} → Os → (Call → Type 0) → Proc A → Type 0
Keeps os P m = (h : List Call) → All P h → All P (m os h).1

pub returned_inj {ℓ} : {A : Type ℓ} {a b : A} → returned a ≡ returned b → a ≡ b
returned_inj e = cc

module _ {ℓ κ} {A : Type ℓ} {B : Type κ} (os : Os) (P : Call → Type 0) where
  -- The rest may rely on what the first part returned.
  pub Keeps-bind_known :
      (m : Proc A) (f : A → Proc B)
      → Keeps os P m
      → ((a : A) (h : List Call) → (m os h).0 ≡ returned a → Keeps os P (f a))
      → Keeps os P (m >>= f)
  unfolding ◌>>=◌
  Keeps-bind_known m f km kf h kept = onward (m os h) refl (km h kept)
    where
      onward : (r : Outcome A × List Call) → (m os h).0 ≡ r.0 → All P r.1 → All P (proceed f os r).1
      onward (returned a, h2) e k = kf a h e h2 k
      onward (raised x, h2) e k = k
      onward (stuck, h2) e k = k
      onward (too_deep, h2) e k = k

  pub Keeps-bind :
      (m : Proc A) (f : A → Proc B)
      → Keeps os P m
      → ((a : A) → Keeps os P (f a))
      → Keeps os P (m >>= f)
  Keeps-bind m f km kf = Keeps-bind_known m f km (λ a h e. kf a)

module _ {κ} {B : Type κ} (os : Os) (P : Call → Type 0) where
  pub Keeps-then :
      (m : Proc (Unit {0})) (k : Proc B) → Keeps os P m → Keeps os P k → Keeps os P (m >> k)
  unfolding ◌>>=◌ ◌>>◌
  Keeps-then m k km kk = Keeps-bind os P m (λ a. k) km (λ a. kk)

module _ (os : Os) (P : Call → Type 0) where
  pub Keeps-run : (c : Call) → P c → Keeps os P (run c)
  Keeps-run c p h kept = (p, kept)

  pub Keeps-ask {ℓ} :
      {A : Type ℓ} (p : Text) (question : Os → List Call → A)
      → P (look p)
      → Keeps os P (ask p question)
  Keeps-ask p question free h kept = (free, kept)

  pub Keeps-attempt : (m : Proc (Unit {0})) → Keeps os P m → Keeps os P (attempt m)
  Keeps-attempt m km h kept = same (m os h) (km h kept)
    where
      same : (r : Outcome (Unit {0}) × List Call) → All P r.1 → All P (caught r).1
      same (returned a, h2) k = k
      same (raised e, h2) k = k
      same (stuck, h2) k = k
      same (too_deep, h2) k = k

  pub Keeps-return {ℓ} : {A : Type ℓ} (r : Outcome A) → Keeps os P (λ os h. (r, h))
  Keeps-return r h kept = kept

  pub Keeps-if {ℓ} :
      {A : Type ℓ} (b : Bool) (m k : Proc A)
      → Keeps os P m
      → Keeps os P k
      → Keeps os P (if b then m else k)
  Keeps-if true m k km kk = km
  Keeps-if false m k km kk = kk

-- What follows an answer, by the answer.
module _ {ℓ} {B : Type ℓ} (os : Os) (P : Call → Type 0) where
  by_answer :
      (p : Text) (answer : List Call → Stat) (f : Stat → Proc B)
      → ((e : Err) → Keeps os P (f (missing e)))
      → ((h : List Call) (kind : Kind) (base : Text)
          → answer h ≡ found kind base
          → Keeps os P (f (found kind base)))
      → (s : Stat) (h : List Call) → answer h ≡ s
      → Keeps os P (f s)
  by_answer p answer f absence presence (missing e) h same = absence e
  by_answer p answer f absence presence (found kind base) h same = presence h kind base same

  pub Keeps-stat :
      (p : Text) (f : Stat → Proc B)
      → P (look p)
      → ((e : Err) → Keeps os P (f (missing e)))
      → ((h : List Call) (kind : Kind) (base : Text)
          → os.stat h p ≡ found kind base
          → Keeps os P (f (found kind base)))
      → Keeps os P (stat p >>= f)
  Keeps-stat p f free absence presence =
      Keeps-bind_known os P (stat p) f (Keeps-ask os P p (λ o h. o.stat h p) free)
        (λ s h same. by_answer p (λ h. os.stat h p) f absence presence s h (returned_inj same))

  pub Keeps-lstat :
      (p : Text) (f : Stat → Proc B)
      → P (look p)
      → ((e : Err) → Keeps os P (f (missing e)))
      → ((kind : Kind) (base : Text) → Keeps os P (f (found kind base)))
      → Keeps os P (lstat p >>= f)
  Keeps-lstat p f free absence presence =
      Keeps-bind_known os P (lstat p) f (Keeps-ask os P p (λ o h. o.lstat h p) free) (λ s h same.
        by_answer p (λ h. os.lstat h p) f absence (λ h kind base k. presence kind base) s h
          (returned_inj same))

  pub Keeps-readlink :
      (p : Text) (f : Option Text → Proc B)
      → P (look p)
      → Keeps os P (f none)
      → ((goal : Text) → Keeps os P (f (some goal)))
      → Keeps os P (readlink p >>= f)
  Keeps-readlink p f free absence presence =
      Keeps-bind os P (readlink p) f (Keeps-ask os P p (λ o h. o.readlink h p) free) after
    where
      after : (o : Option Text) → Keeps os P (f o)
      after none = absence
      after (some goal) = presence goal

  pub Keeps-read_dir :
      (p : Text) (f : Listing → Proc B)
      → P (look p)
      → ((e : Err) → Keeps os P (f (unreadable e)))
      → ((h : List Call) (es : List Entry)
          → os.read_dir h p ≡ listed es
          → Keeps os P (f (listed es)))
      → Keeps os P (read_dir p >>= f)
  Keeps-read_dir p f free absence presence =
      Keeps-bind_known os P (read_dir p) f (Keeps-ask os P p (λ o h. o.read_dir h p) free)
        (λ l h same. after l h (returned_inj same))
    where
      after : (l : Listing) (h : List Call) → os.read_dir h p ≡ l → Keeps os P (f l)
      after (unreadable e) h same = absence e
      after (listed es) h same = presence h es same

  pub Keeps-walk :
      (p : Text) (f : List Visit → Proc B)
      → P (look p)
      → ((h : List Call) → Keeps os P (f (os.walk h p)))
      → Keeps os P (walk p >>= f)
  Keeps-walk p f free known =
      Keeps-bind_known os P (walk p) f (Keeps-ask os P p (λ o h. o.walk h p) free)
        (λ v h same. subst (λ w. Keeps os P (f w)) (returned_inj same) (known h))
