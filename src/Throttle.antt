-- ===== src/Throttle.antt =====
-- internal/backup/default_provider.go: the limit on parallel backups (and, by the same code, on
-- parallel restores). tryLockBackup and unlockBackup hold the mutex from start to end but for the wait
-- on the condition, so a step is one critical section. A negative limit acts as 0, and is 0 here. The
-- answers of the database and of the context are arguments.
pub mod Limit
pub mod Wakeups
mod Examples
use fa.Prelude.{
  ℕ, zero, suc, ◌+◌, ◌-◌, ◌≤◌, ◌<◌, ◌≡◌, Bool, true, false, ◌&&◌, not, leb, if◌then◌else◌,
}

pub record Throttle : Type 0 where
  -- currentParallelBackups and maxParallelBackups
  pub current : ℕ
  pub max : ℕ
  -- The goroutines in Wait, and those that a Signal or a Broadcast has released and that have not run.
  pub waiting : ℕ
  pub woken : ℕ
  -- The goroutines that tryLockBackup has answered with success, and that have not unlocked.
  pub holders : ℕ
  -- What IncPendingBackups has added up.
  pub pending : ℕ

pub data Outcome : Type 0 where
  locked waits refused : Outcome

-- NewDefault
pub new : ℕ → Throttle
new m = record { current = 0; max = m; waiting = 0; woken = 0; holders = 0; pending = 0 }

-- tryLockBackup from the head of its loop: up to the wait or to the end. `stored` is that NewBackup
-- has stored the pending backup, `cancelled` that the context is done.
pub check : Bool → Bool → Throttle → Throttle × Outcome
check stored cancelled t =
    if leb t.max t.current && not cancelled
    then if stored
      then (record t { pending = suc t.pending; waiting = suc t.waiting }, waits)
      else (t, refused)
    else if cancelled
    then (t, refused)
    else (record t { current = suc t.current; holders = suc t.holders }, locked)

-- tryLockBackup: `busy` is that a backup of the path is pending or running.
pub try_lock : Bool → Bool → Bool → Throttle → Throttle × Outcome
unfolding check
try_lock busy stored cancelled t = if busy then (t, refused) else check stored cancelled t

-- A released goroutine runs.
pub resume : Bool → Bool → Throttle → Throttle × Outcome
unfolding check
resume stored cancelled t = check stored cancelled (record t { woken = t.woken - 1 })

-- Signal and Broadcast
pub signal : Throttle → Throttle
signal t = elim t.waiting [ zero ↦ t | suc n ↦ record t { waiting = n; woken = suc t.woken } ]

pub broadcast : Throttle → Throttle
broadcast t = record t { waiting = 0; woken = t.woken + t.waiting }

-- unlockBackup
pub unlock : Throttle → Throttle
unfolding signal
unlock t = signal (record t { current = t.current - 1; holders = t.holders - 1 })

-- setMaxParallelBackupsLocked
pub set_max : ℕ → Throttle → Throttle
unfolding broadcast
set_max m t = broadcast (record t { max = m })

-- The steps of any number of goroutines, with limits up to `bound`. When they are `patient` no
-- context is done in a goroutine that has waited.
pub data Step (bound : ℕ) (patient : Bool) : Throttle → Throttle → Type 0 where
  arrives :
      {t : Throttle} (busy stored cancelled : Bool)
      → Step bound patient t (try_lock busy stored cancelled t).0
  resumes :
      {t : Throttle} (stored cancelled : Bool)
      → 0 < t.woken
      → (patient && cancelled) ≡ false
      → Step bound patient t (resume stored cancelled t).0
  unlocks : {t : Throttle} → 0 < t.holders → Step bound patient t (unlock t)
  limits : {t : Throttle} (m : ℕ) → m ≤ bound → Step bound patient t (set_max m t)

pub data Steps (bound : ℕ) (patient : Bool) : Throttle → Throttle → Type 0 where
  here : {t : Throttle} → Steps bound patient t t
  more :
      {t u v : Throttle}
      → Step bound patient t u
      → Steps bound patient u v
      → Steps bound patient t v
