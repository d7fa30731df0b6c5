-- ===== src/Throttle/Wakeups.antt =====
-- internal/backup/default_provider.go: the wake-ups of the backups that wait for a slot.
use fa.Prelude.{ℕ, ◌+◌, ◌≤◌, ◌<◌, ◌≡◌, true, arith}
use fa.Throttle.{
  Throttle, new, check, try_lock, resume, signal, broadcast, unlock, set_max, Step, Steps, arrives,
  resumes, unlocks, limits, here, more,
}

-- While goroutines wait, the slots are held or about to be taken by released goroutines.
abbrev NoLoss : Throttle → Type 0
NoLoss t = 0 < t.waiting → t.max ≤ t.current + t.woken

Step-NoLoss : {bound : ℕ} {t u : Throttle} → Step bound true t u → NoLoss t → NoLoss u
unfolding try_lock resume check unlock signal set_max broadcast
Step-NoLoss (arrives busy stored cancelled) h = ground arith
Step-NoLoss (resumes stored cancelled w p) h = ground arith
Step-NoLoss (unlocks k) h = ground arith
Step-NoLoss (limits m k) h = ground arith

Steps-NoLoss : {bound : ℕ} {t u : Throttle} → Steps bound true t u → NoLoss t → NoLoss u
Steps-NoLoss here h = h
Steps-NoLoss (more s r) h = Steps-NoLoss r (Step-NoLoss s h)

-- No wake-up is lost while no context of a waiting goroutine is done: whenever one waits and none is
-- released, every slot is held.
pub Steps-new-NoLoss :
    (bound m : ℕ) (t : Throttle)
    → Steps bound true (new m) t
    → 0 < t.waiting
    → t.woken ≡ 0
    → t.max ≤ t.current
unfolding new
Steps-new-NoLoss bound m t s w none = ground (arith, Steps-NoLoss s (λ k. absurd (omega arith)) w)
