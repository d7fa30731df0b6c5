-- ===== src/Proc.antt =====
-- The system calls of pkg/iotools and web/routers/file.go: what the code asks and changes, in order, and a
-- monad that records it. The operating system's answers are a parameter, which may depend on all that came before.
pub mod Keeps
use fa.Prelude.{ℕ, Bool, true, false, Option, none, some, List, [], ◌∷◌}
use fa.Prelude.Text.{Text}

-- `left_root` and the two after it are ErrInvalidFilePath, ErrInvalidFileName and the refusals that the code words itself.
pub data Err : Type 0 where
  left_root : Err
  bad_name : Err
  no_source : Err
  no_target : Err
  own_child : Err
  name_taken : Err
  wrong_parent : Err
  wrong_kind : Err
  no_relation : Err
  absent : Err
  present : Err
  failure : ℕ → Err

pub data Kind : Type 0 where
  folder : Kind
  link : Kind
  regular : Kind
  special : Kind

-- os.Stat and os.Lstat: the kind and the name, or the error, which may be that nothing is there.
pub data Stat : Type 0 where
  found : Kind → Text → Stat
  missing : Err → Stat

pub record Entry : Type 0 where
  pub name : Text
  pub kind : Kind

pub data Listing : Type 0 where
  listed : List Entry → Listing
  unreadable : Err → Listing

-- What filepath.Walk shows its function: a path, what is there, and the error that it met.
pub record Visit : Type 0 where
  pub path : Text
  pub kind : Kind
  pub trouble : Option Err

-- The audit events of the file operations.
pub data Event : Type 0 where
  file_created : Event
  file_copied : Event
  file_moved : Event
  file_renamed : Event
  file_deleted : Event

pub data Call : Type 0 where
  look : Text → Call
  mkdir_all : Text → Call
  create : Text → Call
  fill : (src dst : Text) → Call
  symlink : (goal dst : Text) → Call
  chown : Text → (uid gid : ℕ) → Call
  lchown : Text → (uid gid : ℕ) → Call
  chtimes : Text → Call
  chmod : Text → Call
  rename : (src dst : Text) → Call
  remove : Text → Call
  remove_all : Text → Call
  audit : Event → Call

pub record Os : Type 0 where
  pub stat : List Call → Text → Stat
  pub lstat : List Call → Text → Stat
  pub read_dir : List Call → Text → Listing
  pub walk : List Call → Text → List Visit
  pub readlink : List Call → Text → Option Text
  pub answer : List Call → Call → Option Err

-- `stuck` is a panic, and `too_deep` a tree deeper than the fuel.
pub data Outcome {ℓ} (A : Type ℓ) : Type ℓ where
  returned : A → Outcome A
  raised : Err → Outcome A
  stuck : Outcome A
  too_deep : Outcome A

-- The calls so far, the last one first.
abbrev pub Proc {ℓ} : Type ℓ → Type ℓ
Proc A = Os → List Call → Outcome A × List Call

module _ {ℓ} {A : Type ℓ} where
  abbrev pub pure : A → Proc A
  pure a os h = (returned a, h)

  abbrev pub raise : Err → Proc A
  raise e os h = (raised e, h)

  abbrev pub panic : Proc A
  panic os h = (stuck, h)

  abbrev pub out_of_depth : Proc A
  out_of_depth os h = (too_deep, h)

module _ {ℓ κ} {A : Type ℓ} {B : Type κ} where
  infixl 5 ◌>>=◌
  abbrev pub proceed : (A → Proc B) → Os → Outcome A × List Call → Outcome B × List Call
  proceed f os (returned a, h) = f a os h
  proceed f os (raised e, h) = (raised e, h)
  proceed f os (stuck, h) = (stuck, h)
  proceed f os (too_deep, h) = (too_deep, h)

  unfoldable pub ◌>>=◌ : Proc A → (A → Proc B) → Proc B
  m >>= f = λ os h. proceed f os (m os h)

module _ {κ} {B : Type κ} where
  infixl 5 ◌>>◌
  unfoldable pub ◌>>◌ : Proc (Unit {0}) → Proc B → Proc B
  m >> k = λ os h. proceed (λ a. k) os (m os h)

-- A call that only asks.
abbrev pub ask {ℓ} : {A : Type ℓ} → Text → (Os → List Call → A) → Proc A
ask p question os h = (returned (question os h), look p ∷ h)

abbrev pub stat : Text → Proc Stat
stat p = ask p (λ os h. os.stat h p)

abbrev pub lstat : Text → Proc Stat
lstat p = ask p (λ os h. os.lstat h p)

abbrev pub read_dir : Text → Proc Listing
read_dir p = ask p (λ os h. os.read_dir h p)

abbrev pub readlink : Text → Proc (Option Text)
readlink p = ask p (λ os h. os.readlink h p)

abbrev pub walk : Text → Proc (List Visit)
walk p = ask p (λ os h. os.walk h p)

-- A call that changes something; its error is the caller's.
abbrev pub run : Call → Proc (Unit {0})
run c os h = (elim (os.answer h c) [ none ↦ returned tt | some e ↦ raised e ], c ∷ h)

-- The audit client's Create, whose error is only logged.
abbrev pub report : Event → Proc (Unit {0})
report e os h = (returned tt, audit e ∷ h)

-- A procedure's error as a value, for code that goes on.
abbrev pub caught : Outcome (Unit {0}) × List Call → Outcome (Option Err) × List Call
caught (returned a, h) = (returned none, h)
caught (raised e, h) = (returned (some e), h)
caught (stuck, h) = (stuck, h)
caught (too_deep, h) = (too_deep, h)

abbrev pub attempt : Proc (Unit {0}) → Proc (Option Err)
attempt m os h = caught (m os h)

abbrev pub settle_err : Option Err → Proc (Unit {0})
settle_err none = pure tt
settle_err (some e) = raise e

-- os.IsNotExist
abbrev pub is_missing : Stat → Bool
is_missing (missing absent) = true
is_missing _ = false

abbrev pub is_folder : Kind → Bool
is_folder folder = true
is_folder _ = false

abbrev pub is_link : Kind → Bool
is_link link = true
is_link _ = false

abbrev pub is_regular : Kind → Bool
is_regular regular = true
is_regular _ = false

-- os.IsExist
abbrev pub is_present : Err → Bool
is_present present = true
is_present _ = false
