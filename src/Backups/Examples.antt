-- ===== src/Backups/Examples.antt =====
-- internal/backup/default_provider.go: one backup and a restore from it.
use fa.Prelude.{◌≡◌, refl, ◌↔◌, ◌&&◌, true, false, none, some, List, [], ◌∷◌, All}
use fa.Prelude.Int.{pos, ◌-ℤ◌}
use fa.Prelude.Text.{decimal}
use fa.Backups.Store.{
  state_pending, state_running, state_failed, state_cancel, eq_state, BackupItem, RestoreItem,
  new_restore, load_backup, load_backups, load_restores, load_pending_or_running_backup,
  load_pending_or_running_restore, scavenge_backups,
}
use fa.Jobs
use fa.Jobs.{
  pending, calling, Job, JobCtx, new_job_ctx, run, checks, inserts, starts, cancels, closes_success,
  closes_error,
}
use fa.Backups.{World, backup_key, restore_key, is_member, no_detail, delete_backup, close}
use fa.Backups.Hooks.{JobWrite, backup_ends, restore_ends, scavenges, write_all}
use fa.Backups.Ending.{close_during, close-settled, delete_backup-jobs}
use fa.Backups.Attempts.{Ending, success, Attempt, is_refused, is_ready, backup_file}
use fa.Backups.Attempts.Silent.{LostResult, backup_file-silent}

abbrev row : BackupItem
row = record {
  backup_id = pos 7;
  path = b'/' ∷ b'd' ∷ [];
  manifest_id = [];
  manifest_size = 0;
  snapshot_size = 0;
  state = state_running;
  extra = [];
  username = b'u' ∷ [];
  updated_at = pos 0;
}

abbrev restore_row : RestoreItem
restore_row = record {
  restore_id = pos 3;
  backup_id = pos 7;
  dst = b'/' ∷ b'e' ∷ [];
  manifest_id = [];
  restore_size = 0;
  state = state_pending;
  extra = [];
  updated_at = pos 0;
}

abbrev busy : World
busy = record {
  backups = row ∷ [];
  restores = restore_row ∷ [];
  jobs =
      (b'b' ∷ b'a' ∷ b'c' ∷ b'k' ∷ b'u' ∷ b'p' ∷ b':' ∷ b'7' ∷ [])
      ∷ (b'r' ∷ b'e' ∷ b's' ∷ b't' ∷ b'o' ∷ b'r' ∷ b'e' ∷ b':' ∷ b'3' ∷ [])
      ∷ [];
  terminated = false;
  jobs_stopped = false;
}

registered :
    is_member (backup_key (pos 7)) busy.jobs && is_member (restore_key (pos 3)) busy.jobs ≡ true
unfolding is_member backup_key restore_key decimal
registered = refl

-- A restore that is asked for again with another target keeps the first target.
same_target :
    new_restore
      (pos 9)
      (pos 3)
      (pos 7)
      (b'/' ∷ b'x' ∷ [])
      state_running
      (row ∷ [])
      (restore_row ∷ [])
    ≡ record restore_row { state = state_running; updated_at = pos 9 } ∷ []
unfolding new_restore
same_target = refl

found_pending : load_pending_or_running_backup (b'/' ∷ b'd' ∷ []) busy.backups ≡ some row
unfolding load_pending_or_running_backup
found_pending = refl

overdue : (load_backups state_running (scavenge_backups (pos 43201) busy.backups)) ≡ []
unfolding load_backups scavenge_backups ◌-ℤ◌
overdue = refl

-- The job of the backup ends while the backups are cancelled, and its name is deleted while Close drains
-- the jobs; the name of the restore, which was not started, stays in the map.
abbrev cancelled_end : List JobWrite
cancelled_end = backup_ends (pos 6) (pos 7) no_detail state_cancel [] ∷ []

abbrev last_writes : List JobWrite
last_writes =
    restore_ends (pos 8) (pos 3) (pos 0) state_failed [] ∷ scavenges (backup_key (pos 7)) ∷ []

close-settled_example :
    ((close_during cancelled_end [] last_writes (pos 5) busy).1 ≡ none)
    × (load_backups state_running (close_during cancelled_end [] last_writes (pos 5) busy).0.backups
        ≡ [])
    × (load_restores state_running
          (close_during cancelled_end [] last_writes (pos 5) busy).0.restores
        ≡ [])
    × (close_during [] [] [] (pos 5) (close_during cancelled_end [] last_writes (pos 5) busy).0
        ≡ ((close_during cancelled_end [] last_writes (pos 5) busy).0, none))
unfolding eq_state
close-settled_example =
    close-settled cancelled_end [] last_writes [] (pos 5) busy (refl, tt) tt (refl, (tt, tt)) refl

name_stays :
    (close_during cancelled_end [] last_writes (pos 5) busy).0.jobs ≡ restore_key (pos 3) ∷ []
unfolding close write_all restore_key backup_key decimal
name_stays = refl

delete_backup-jobs_example :
    ((delete_backup none (pos 7) busy).1 ≡ none)
    × (is_member (backup_key (pos 7)) (delete_backup none (pos 7) busy).0.jobs ≡ false)
    × All
        (λ r. is_member (restore_key r.restore_id) (delete_backup none (pos 7) busy).0.jobs ≡ false)
        (load_pending_or_running_restore (pos 7) busy.restores)
unfolding load_backup
delete_backup-jobs_example = delete_backup-jobs (pos 7) row busy refl

-- A backup whose callback has left its snapshot when the job is closed.
abbrev shut_run : List Jobs.Event
shut_run =
    checks (b'b' ∷ []) ∷ inserts 0 ∷ starts 0 ∷ cancels 0 ∷ closes_success 0 ∷ closes_error 0 ∷ []

abbrev shut_job : Job
shut_job = record {
  job_id = b'b' ∷ [];
  state = pending;
  phase = calling;
  cancelled = true;
  sc_closed = true;
  ec_closed = true;
  closed = false;
  taken = none;
}

abbrev shut_jobs : JobCtx
shut_jobs = record {
  jobs = shut_job ∷ [];
  registry = (b'b' ∷ [], 0) ∷ [];
  checked = [];
  deleting = none;
  wg = 1;
  closed = false;
  channels_closed = false;
}

abbrev saved : Attempt
saved = record {
  throttled = true;
  waits = 2;
  locked = true;
  started = true;
  snapshot = some (b's' ∷ []);
  ending = success;
}

backup_file-silent_example :
    (((e : Ending) × (is_ready false shut_job e ≡ true)
        × LostResult (backup_file false (record saved { ending = e })))
      ↔ (shut_job.ec_closed ≡ true))
    × (shut_job.ec_closed ≡ true → (shut_job.cancelled ≡ true) × (shut_job.sc_closed ≡ true))
unfolding is_refused run new_job_ctx
backup_file-silent_example =
    backup_file-silent shut_run shut_jobs 0 shut_job false saved (b's' ∷ []) refl refl refl refl
