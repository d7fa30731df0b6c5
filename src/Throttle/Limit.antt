-- ===== src/Throttle/Limit.antt =====
-- internal/backup/default_provider.go: no more backups run than the limit allows.
use fa.Prelude.{ℕ, ◌≤◌, ◌≡◌, refl, Bool, arith}
use fa.Throttle.{
  Throttle, new, check, try_lock, resume, signal, broadcast, unlock, set_max, Step, Steps, arrives,
  resumes, unlocks, limits, here, more,
}

-- The counter says how many goroutines hold a slot, and these are within the limit.
abbrev pub IsValid : ℕ → Throttle → Type 0
IsValid bound t = (t.current ≡ t.holders) × (t.holders ≤ bound) × (t.max ≤ bound)

Step-IsValid :
    {bound : ℕ} {patient : Bool} {t u : Throttle}
    → Step bound patient t u
    → IsValid bound t
    → IsValid bound u
unfolding try_lock resume check unlock signal set_max broadcast
Step-IsValid (arrives busy stored cancelled) h = ground arith
Step-IsValid (resumes stored cancelled w p) h = ground arith
Step-IsValid (unlocks k) h = ground arith
Step-IsValid (limits m k) h = ground arith

Steps-IsValid :
    {bound : ℕ} {patient : Bool} {t u : Throttle}
    → Steps bound patient t u
    → IsValid bound t
    → IsValid bound u
Steps-IsValid here h = h
Steps-IsValid (more s r) h = Steps-IsValid r (Step-IsValid s h)

-- Whatever the goroutines do, with limits of at most `bound`, no more than `bound` of them hold a
-- slot, and the counter of the running backups is their number.
pub Steps-new-IsValid :
    (bound m : ℕ) (patient : Bool) (t : Throttle)
    → m ≤ bound
    → Steps bound patient (new m) t
    → (t.current ≡ t.holders) × (t.holders ≤ bound)
unfolding new
Steps-new-IsValid bound m patient t h s =
    let (c, l, _) = Steps-IsValid s (refl, omega arith, h) in (c, l)
