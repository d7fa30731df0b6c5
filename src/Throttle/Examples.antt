-- ===== src/Throttle/Examples.antt =====
-- internal/backup/default_provider.go: runs of two or three backups with one slot.
use fa.Prelude.{◌≤◌, ◌≡◌, refl, true, false, arith}
use fa.Throttle.{
  Throttle, new, check, try_lock, resume, signal, unlock, Steps, arrives, resumes, unlocks, here,
  more,
}
use fa.Throttle.Limit.{Steps-new-IsValid}
use fa.Throttle.Wakeups.{Steps-new-NoLoss}

-- One backup holds the slot and another waits.
abbrev queued : Throttle
queued = record { current = 1; max = 1; waiting = 1; woken = 0; holders = 1; pending = 1 }

queued-Steps : Steps 1 true (new 1) queued
unfolding try_lock check new
queued-Steps = more (arrives false true false) (more (arrives false true false) here)

-- One waits, and the slot is free.
abbrev stuck : Throttle
stuck = record { current = 0; max = 1; waiting = 1; woken = 0; holders = 0; pending = 2 }

-- Two backups wait. The slot is given back, the goroutine that is released finds its context done,
-- and nothing wakes the other.
lost_wakeup : Steps 1 false (new 1) stuck
unfolding try_lock check new resume unlock signal
lost_wakeup = more (arrives false true false) (
    more (arrives false true false) (
      more (arrives false true false)
        (more (unlocks (omega arith)) (more (resumes true true (omega arith) refl) here))))

Steps-new-IsValid_example : (queued.current ≡ queued.holders) × (queued.holders ≤ 1)
Steps-new-IsValid_example = Steps-new-IsValid 1 1 true queued (omega arith) queued-Steps

Steps-new-NoLoss_example : queued.max ≤ queued.current
Steps-new-NoLoss_example = Steps-new-NoLoss 1 1 queued queued-Steps (omega arith) refl
