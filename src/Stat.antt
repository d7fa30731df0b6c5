-- ===== src/Stat.antt =====
-- internal/backup/stat.go: the counters of backups and restores. Each is an int32, as a number modulo
-- 2 ^ 32, and each operation adds to it atomically, so that a run is a list of operations. The
-- metrics of prometheus beside the counters are left out.
pub mod Counts
mod Examples
use fa.Prelude.{ℕ, zero, ◌+◌, ◌-◌, ◌%◌, ◌^◌, Bool, true, false, ◌&&◌, List, [], ◌∷◌, ◌==◌}

pub record RepoStat : Type 0 where
  pub pending_backups : ℕ
  pub pending_restores : ℕ
  pub running_backups : ℕ
  pub running_restores : ℕ
  pub success_backups : ℕ
  pub success_restores : ℕ
  pub failed_backups : ℕ
  pub failed_restores : ℕ

pub zeros : RepoStat
zeros = record {
  pending_backups = 0;
  pending_restores = 0;
  running_backups = 0;
  running_restores = 0;
  success_backups = 0;
  success_restores = 0;
  failed_backups = 0;
  failed_restores = 0;
}

-- atomic.AddInt32 of 1 and of -1
pub inc : ℕ → ℕ
inc n = (n + 1) % 2 ^ 32

pub decr : ℕ → ℕ
decr n = (n + (2 ^ 32 - 1)) % 2 ^ 32

pub is_safe_maintain : RepoStat → Bool
is_safe_maintain s = (s.running_backups == 0) && (s.running_restores == 0)

pub inc_pending_backups : RepoStat → RepoStat
unfolding inc
inc_pending_backups s = record s { pending_backups = inc s.pending_backups }

-- This and `decr_pending_restores` count in the backups' field, as the source has it.
pub inc_pending_restores : RepoStat → RepoStat
unfolding inc
inc_pending_restores s = record s { pending_backups = inc s.pending_backups }

pub inc_running_backups : RepoStat → RepoStat
unfolding inc
inc_running_backups s = record s { running_backups = inc s.running_backups }

pub inc_running_restores : RepoStat → RepoStat
unfolding inc
inc_running_restores s = record s { running_restores = inc s.running_restores }

pub inc_success_backups : RepoStat → RepoStat
unfolding inc
inc_success_backups s = record s { success_backups = inc s.success_backups }

pub inc_success_restores : RepoStat → RepoStat
unfolding inc
inc_success_restores s = record s { success_restores = inc s.success_restores }

pub inc_failed_backups : RepoStat → RepoStat
unfolding inc
inc_failed_backups s = record s { failed_backups = inc s.failed_backups }

pub inc_failed_restores : RepoStat → RepoStat
unfolding inc
inc_failed_restores s = record s { failed_restores = inc s.failed_restores }

pub decr_pending_backups : RepoStat → RepoStat
unfolding decr
decr_pending_backups s = record s { pending_backups = decr s.pending_backups }

pub decr_pending_restores : RepoStat → RepoStat
unfolding decr
decr_pending_restores s = record s { pending_backups = decr s.pending_backups }

pub decr_running_backups : RepoStat → RepoStat
unfolding decr
decr_running_backups s = record s { running_backups = decr s.running_backups }

pub decr_running_restores : RepoStat → RepoStat
unfolding decr
decr_running_restores s = record s { running_restores = decr s.running_restores }

pub p2r_backups : RepoStat → RepoStat
unfolding decr_pending_backups inc_running_backups
p2r_backups s = inc_running_backups (decr_pending_backups s)

pub p2r_restores : RepoStat → RepoStat
unfolding decr_pending_restores inc_running_restores
p2r_restores s = inc_running_restores (decr_pending_restores s)

pub r2s_backups : RepoStat → RepoStat
unfolding decr_running_backups inc_success_backups
r2s_backups s = inc_success_backups (decr_running_backups s)

pub r2s_restores : RepoStat → RepoStat
unfolding decr_running_restores inc_success_restores
r2s_restores s = inc_success_restores (decr_running_restores s)

pub r2f_backups : RepoStat → RepoStat
unfolding decr_running_backups inc_failed_backups
r2f_backups s = inc_failed_backups (decr_running_backups s)

pub r2f_restores : RepoStat → RepoStat
unfolding decr_running_restores inc_failed_restores
r2f_restores s = inc_failed_restores (decr_running_restores s)

-- What the providers call, as a backup or a restore waits, starts (after a wait, or at once), and ends.
pub data Event : Type 0 where
  backup_waits backup_waited backup_starts backup_succeeds backup_fails : Event
  restore_waits restore_waited restore_starts restore_succeeds restore_fails : Event

pub step : Event → RepoStat → RepoStat
unfolding inc_pending_backups p2r_backups inc_running_backups r2s_backups r2f_backups
    inc_pending_restores p2r_restores inc_running_restores r2s_restores r2f_restores
step backup_waits s = inc_pending_backups s
step backup_waited s = p2r_backups s
step backup_starts s = inc_running_backups s
step backup_succeeds s = r2s_backups s
step backup_fails s = r2f_backups s
step restore_waits s = inc_pending_restores s
step restore_waited s = p2r_restores s
step restore_starts s = inc_running_restores s
step restore_succeeds s = r2s_restores s
step restore_fails s = r2f_restores s

pub run : List Event → RepoStat → RepoStat
unfolding step
run [] s = s
run (e ∷ es) s = run es (step e s)
