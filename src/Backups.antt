-- ===== src/Backups.antt =====
-- internal/backup/default_provider.go: the provider of backups and restores over the store, the jobs
-- and the provider that it wraps. The answers of the wrapped provider, of the throttle and of the
-- select on a job's channels are arguments, and so is what the jobs do to the store meanwhile.
pub mod Store
pub mod Cancelling
pub mod Hooks
pub mod Ending
pub mod Attempts
mod Examples
use fa.Prelude.{
  filter, first, ℕ, zero, suc, Bool, true, false, not, ◌&&◌, ◌||◌, Option, none, some, List, [],
  ◌∷◌, ◌++◌, if◌then◌else◌,
}
use fa.Prelude.Int.{ℤ, pos}
use fa.Prelude.Text.{Text, eq_text, decimal}
use fa.Stat.{
  Event, backup_waits, backup_waited, backup_starts, backup_succeeds, backup_fails, restore_waits,
  restore_waited, restore_starts, restore_succeeds, restore_fails,
}
use fa.Backups.Store.{
  BackupState, state_running, state_cancel, BackupItem, RestoreItem, BackupDetail, load_backup,
  load_backups, done_backup, load_restore, load_restores, done_restore,
  load_pending_or_running_restore,
}

pub data ProviderError : Type 0 where
  no_such_record job_processing lock_refused : ProviderError
  job_failed context_done delegate_failed : Text → ProviderError

-- The database, the names in the map of JobCtx, the flag `termState`, and that the wrapped provider
-- and JobCtx have been stopped.
pub record World : Type 0 where
  pub backups : List BackupItem
  pub restores : List RestoreItem
  pub jobs : List Text
  pub terminated : Bool
  pub jobs_stopped : Bool

unfoldable pub backup_key : ℤ → Text
backup_key id = b'b' ∷ b'a' ∷ b'c' ∷ b'k' ∷ b'u' ∷ b'p' ∷ b':' ∷ decimal id

unfoldable pub restore_key : ℤ → Text
restore_key id = b'r' ∷ b'e' ∷ b's' ∷ b't' ∷ b'o' ∷ b'r' ∷ b'e' ∷ b':' ∷ decimal id

unfoldable pub is_member : Text → List Text → Bool
is_member key [] = false
is_member key (name ∷ names) = eq_text name key || is_member key names

-- JobCtx.DeRegister
unfoldable pub deregister : Text → World → World
unfolding filter
deregister key w = record w { jobs = filter (λ name. not (eq_text name key)) w.jobs }

unfoldable pub cancel_found : {A : Type 0} → Option A → Text → World → World × Option ProviderError
unfolding deregister
cancel_found none key w = (w, some no_such_record)
cancel_found (some item) key w = (deregister key w, none)

unfoldable pub cancel_backup : ℤ → World → World × Option ProviderError
unfolding cancel_found load_backup backup_key
cancel_backup id w = cancel_found (load_backup id w.backups) (backup_key id) w

unfoldable pub cancel_restore : ℤ → World → World × Option ProviderError
unfolding cancel_found load_restore restore_key
cancel_restore id w = cancel_found (load_restore id w.restores) (restore_key id) w

-- On an error the rest is left undone.
unfoldable pub unless_failed :
    World × Option ProviderError
    → (World → World × Option ProviderError)
    → World × Option ProviderError
unless_failed (w, none) f = f w
unless_failed (w, some e) f = (w, some e)

unfoldable pub cancel_backup_loop : List BackupItem → World → World × Option ProviderError
unfolding cancel_backup unless_failed
cancel_backup_loop [] w = (w, none)
cancel_backup_loop (item ∷ items) w =
    unless_failed (cancel_backup item.backup_id w) (cancel_backup_loop items)

unfoldable pub cancel_restore_loop : List RestoreItem → World → World × Option ProviderError
unfolding cancel_restore unless_failed
cancel_restore_loop [] w = (w, none)
cancel_restore_loop (item ∷ items) w =
    unless_failed (cancel_restore item.restore_id w) (cancel_restore_loop items)

abbrev pub canceled_passive : Text
canceled_passive =
    b'c' ∷ b'a' ∷ b'n' ∷ b'c' ∷ b'e' ∷ b'l' ∷ b'e' ∷ b'd' ∷ b' ' ∷ b'p' ∷ b'a' ∷ b's' ∷ b's' ∷ b'i'
    ∷ b'v' ∷ b'e' ∷ []

abbrev pub no_detail : BackupDetail
no_detail = record { id = []; snapshot_size = pos 0; manifest_size = pos 0 }

unfoldable pub mark_each : {A : Type 0} → (ℤ → List A → List A) → (A → ℤ) → List A → List A → List A
mark_each done key [] rows = rows
mark_each done key (item ∷ items) rows = mark_each done key items (done (key item) rows)

unfoldable pub mark_backups : ℤ → List BackupItem → List BackupItem → List BackupItem
unfolding mark_each done_backup
mark_backups now =
    mark_each (λ id. done_backup now id no_detail state_cancel canceled_passive)
      (λ row. row.backup_id)

unfoldable pub mark_restores : ℤ → List RestoreItem → List RestoreItem → List RestoreItem
unfolding mark_each done_restore
mark_restores now =
    mark_each (λ id. done_restore now id (pos 0) state_cancel canceled_passive)
      (λ row. row.restore_id)

-- The second loop, on what is still running.
unfoldable pub mark_running_backups : ℤ → World → World
unfolding mark_backups load_backups
mark_running_backups now w = record w {
  backups = mark_backups now (load_backups state_running w.backups) w.backups;
}

unfoldable pub mark_running_restores : ℤ → World → World
unfolding mark_restores load_restores
mark_running_restores now w = record w {
  restores = mark_restores now (load_restores state_running w.restores) w.restores;
}

-- `meanwhile` is what the cancelled jobs do before the second load.
unfoldable pub cancel_backups : (World → World) → ℤ → World → World × Option ProviderError
unfolding cancel_backup_loop unless_failed mark_running_backups load_backups
cancel_backups meanwhile now w =
    unless_failed (cancel_backup_loop (load_backups state_running w.backups) w)
      (λ cancelled. (mark_running_backups now (meanwhile cancelled), none))

unfoldable pub cancel_restores : (World → World) → ℤ → World → World × Option ProviderError
unfolding cancel_restore_loop unless_failed mark_running_restores load_restores
cancel_restores meanwhile now w =
    unless_failed (cancel_restore_loop (load_restores state_running w.restores) w)
      (λ cancelled. (mark_running_restores now (meanwhile cancelled), none))

unfoldable pub deregister_restores : List RestoreItem → World → World
unfolding deregister restore_key
deregister_restores [] w = w
deregister_restores (item ∷ items) w =
    deregister_restores items (deregister (restore_key item.restore_id) w)

-- DeleteBackup: an error of the cancellation is only logged. `delegate` is the answer of the wrapped
-- provider.
unfoldable pub delete_from : Option ProviderError → ℤ → World → World × Option ProviderError
unfolding deregister_restores load_pending_or_running_restore
delete_from (some e) id w = (w, some e)
delete_from none id w =
    (deregister_restores (load_pending_or_running_restore id w.restores) w, none)

unfoldable pub delete_backup : Option ProviderError → ℤ → World → World × Option ProviderError
unfolding cancel_backup delete_from
delete_backup delegate id w = delete_from delegate id (cancel_backup id w).0

-- DestroyBackendRepo and Close: the errors of the cancellations are only logged.
unfoldable pub destroy_backend_repo :
    (World → World) → Option ProviderError → ℤ → World → World × Option ProviderError
unfolding cancel_backups cancel_restores
destroy_backend_repo meanwhile delegate now w =
    let v = (cancel_restores meanwhile now (cancel_backups meanwhile now w).0).0 in
    (record v { backups = []; restores = [] }, delegate)

-- The wrapped provider has answered. Drain and Stop wait for the goroutines of jobs, and Stop closes the
-- jobs of the map but leaves their names in it; `drained` is what the jobs and the scavenger do
-- meanwhile.
unfoldable pub close_from :
    (World → World) → Option ProviderError → World → World × Option ProviderError
close_from drained (some e) w = (w, some e)
close_from drained none w = (record (drained w) { jobs_stopped = true; terminated = true }, none)

-- The cancelled jobs go on in both cancellations too: `meanwhile` and `later` are what they do there.
unfoldable pub close :
    (World → World)
    → (World → World)
    → (World → World)
    → Option ProviderError
    → ℤ
    → World
    → World × Option ProviderError
unfolding cancel_backups cancel_restores close_from
close meanwhile later drained delegate now w =
    if w.terminated
    then (w, none)
    else close_from drained delegate
        (cancel_restores later now (cancel_backups meanwhile now w).0).0
