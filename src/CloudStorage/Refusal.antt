-- ===== src/CloudStorage/Refusal.antt =====
-- web/routers/file.go: copyFile refuses to copy a directory into itself.

use fa.Prelude.{ℕ, ◌≡◌, ◌≢◌, true, ◌||◌, none, List, All}
use fa.Prelude.Int.{ℤ}
use fa.Prelude.Text.{Text}
use fa.Paths.{is_sub_dir}
use fa.Proc.{
  Os, Err, own_child, Call, look, Outcome, returned, raised, stuck, too_deep, missing, Proc, ◌>>=◌,
  ◌>>◌, proceed, raise, is_missing, is_folder,
}
use fa.Proc.Keeps.{Keeps, Keeps-then, Keeps-if, Keeps-stat}
use fa.CloudStorage.{CloudStorage, sanitize_path, checked, sanitized}
use fa.CloudStorage.Copying.{CopyFileReq, require_target, require_source, refuse_child, copy_file}

-- A call that changes nothing.
abbrev pub IsLook : Call → Type 0
IsLook (look p) = Unit
IsLook _ = ⊥

-- It changes nothing and does not return.
abbrev pub Refuses {ℓ} : {A : Type ℓ} → Os → Proc A → Type ℓ
Refuses os m = Keeps os IsLook m × ((h : List Call) (a : _) → (m os h).0 ≢ returned a)

module _ (os : Os) where
  Refuses-then : (m k : Proc (Unit {0})) → Keeps os IsLook m → Refuses os k → Refuses os (m >> k)
  unfolding ◌>>◌
  Refuses-then m k looks (kept, fails) =
      (Keeps-then os IsLook m k looks kept, λ h a. onward (m os h) a)
    where
      onward :
          (r : Outcome (Unit {0}) × List Call) (a : Unit {0})
          → (proceed (λ b. k) os r).0 ≢ returned a
      onward (returned b, h) a = fails h a
      onward (raised e, h) a = λ same. cc
      onward (stuck, h) a = λ same. cc
      onward (too_deep, h) a = λ same. cc

  Refuses-raise : (e : Err) (k : Proc (Unit {0})) → Refuses os (raise {A = Unit {0}} e >> k)
  unfolding ◌>>◌
  Refuses-raise e k = (λ h kept. kept, λ h a same. cc)

  Refuses-sanitized :
      (cs : CloudStorage) (path : Text) (id : ℤ) (p : Text) (f : Text → Proc (Unit {0}))
      → sanitize_path cs path id ≡ (p, none)
      → Refuses os (f p)
      → Refuses os (sanitized cs path id >>= f)
  unfolding sanitized checked ◌>>=◌
  Refuses-sanitized cs path id p f let_through refuses = rw (sanitized, let_through) refuses

  require_target-IsLook :
      (req : CopyFileReq) (dst : Text) → Keeps os IsLook (require_target req dst)
  unfolding require_target
  require_target-IsLook req dst =
      Keeps-if os IsLook req.dst_file _ _ (λ h k. k)
        (Keeps-stat os IsLook dst _ tt
          (λ e.
            Keeps-if os IsLook req.force _ _ (λ h k. k)
              (Keeps-if os IsLook (is_missing (missing e)) _ _ (λ h k. k) (λ h k. k)))
          (λ h kind base known.
            Keeps-if os IsLook (req.force || is_folder kind) _ _ (λ h k. k) (λ h k. k)))

  require_source-IsLook : (src : Text) → Keeps os IsLook (require_source src)
  unfolding require_source
  require_source-IsLook src =
      Keeps-stat os IsLook src _ tt
        (λ e. Keeps-if os IsLook (is_missing (missing e)) _ _ (λ h k. k) (λ h k. k))
        (λ h kind base known h2 k. k)

-- A copy or a move of what sanitizePath lets through into itself, or below itself, never succeeds
-- and changes nothing, whatever the operating system answers.
pub copy_file-refuse_child :
    (os : Os) (depth : ℕ) (cs : CloudStorage) (req : CopyFileReq) (src dst : Text)
    → sanitize_path cs req.src req.src_storage_id ≡ (src, none)
    → sanitize_path cs req.dst req.dst_storage_id ≡ (dst, none)
    → is_sub_dir src dst ≡ true
    → (h : List Call) → All IsLook h
    → All IsLook (copy_file depth cs req os h).1 × ((copy_file depth cs req os h).0 ≢ returned tt)
unfolding copy_file refuse_child
copy_file-refuse_child os depth cs req src dst from into child h looks =
    let (kept, fails) = refuses in (kept h looks, fails h tt)
  where
    refuses : Refuses os (copy_file depth cs req)
    refuses = Refuses-sanitized os cs req.src req.src_storage_id src _ from (
        Refuses-sanitized os cs req.dst req.dst_storage_id dst _ into (
          Refuses-then os _ _ (require_target-IsLook os req dst) (
            Refuses-then os _ _ (require_source-IsLook os src)
              (rw (refuse_child, child) (Refuses-raise os own_child _)))))
