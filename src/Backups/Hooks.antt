-- ===== src/Backups/Hooks.antt =====
-- internal/backup/kopia_provider.go: what a job writes, through the hooks of DefaultBackupHook, and that
-- the scavenger of JobCtx deletes the name of a job that has ended. These go on while a caller waits.
use fa.Prelude.{
  filter, ◌≡◌, refl, Bool, true, false, Option, none, some, List, [], ◌∷◌, All, if◌then◌else◌,
}
use fa.Prelude.Int.{ℤ, pos}
use fa.Prelude.Text.{Text}
use fa.Backups.Store.{
  BackupState, state_running, state_failed, eq_state, BackupItem, RestoreItem, BackupDetail,
  new_backup, where_id, update_where, done_row, done_backup, load_backup, load_backups, new_restore,
  done_restore_row, done_restore, load_restores,
}
use fa.Backups.{World, deregister}
use fa.Backups.Cancelling.{running}

-- The first number is the time. The error of OnRestoreStart is the text that a restore of no backup
-- is given.
pub data JobWrite : Type 0 where
  backup_starts : (now id : ℤ) (path username : Text) → JobWrite
  backup_ends : (now id : ℤ) → BackupDetail → BackupState → (extra : Text) → JobWrite
  restore_starts : (now restore_id backup_id : ℤ) (dst error : Text) → JobWrite
  restore_ends : (now restore_id size : ℤ) → BackupState → (extra : Text) → JobWrite
  scavenges : Text → JobWrite

unfoldable pub is_backup_running : Option BackupItem → Bool
unfolding eq_state
is_backup_running none = false
is_backup_running (some item) = eq_state item.state state_running

unfoldable pub on_backup_start : ℤ → ℤ → Text → Text → List BackupItem → List BackupItem
unfolding is_backup_running load_backup new_backup
on_backup_start now id path username rows =
    if is_backup_running (load_backup id rows)
    then rows
    else new_backup now id path username state_running rows

-- The record is made whether there is a backup or not, and fails if there is none.
unfoldable pub fail_orphan : Option BackupItem → ℤ → ℤ → Text → List RestoreItem → List RestoreItem
unfolding done_restore
fail_orphan none now restore_id error rows =
    done_restore now restore_id (pos 0) state_failed error rows
fail_orphan (some item) now restore_id error rows = rows

unfoldable pub on_restore_start :
    ℤ → ℤ → ℤ → Text → Text → List BackupItem → List RestoreItem → List RestoreItem
unfolding load_backup new_restore fail_orphan
on_restore_start now restore_id backup_id dst error backups rows =
    fail_orphan (load_backup backup_id backups) now restore_id error
      (new_restore now restore_id backup_id dst state_running backups rows)

unfoldable pub write : JobWrite → World → World
unfolding on_backup_start done_backup on_restore_start done_restore deregister
write (backup_starts now id path username) w = record w {
  backups = on_backup_start now id path username w.backups;
}
write (backup_ends now id detail state extra) w = record w {
  backups = done_backup now id detail state extra w.backups;
}
write (restore_starts now restore_id backup_id dst error) w = record w {
  restores = on_restore_start now restore_id backup_id dst error w.backups w.restores;
}
write (restore_ends now restore_id size state extra) w = record w {
  restores = done_restore now restore_id size state extra w.restores;
}
write (scavenges key) w = deregister key w

unfoldable pub write_all : List JobWrite → World → World
unfolding write
write_all [] w = w
write_all (x ∷ xs) w = write_all xs (write x w)

-- A write that starts nothing: the end of a backup or of a restore, with a state that is not running.
abbrev pub IsEnd : JobWrite → Type 0
IsEnd (backup_starts now id path username) = ⊥
IsEnd (backup_ends now id detail state extra) = eq_state state state_running ≡ false
IsEnd (restore_starts now restore_id backup_id dst error) = ⊥
IsEnd (restore_ends now restore_id size state extra) = eq_state state state_running ≡ false
IsEnd (scavenges key) = Unit

module _ {A : Type 0} (key : A → ℤ) (state : A → BackupState) (f : A → A)
    (ends : (row : A) → eq_state (state (f row)) state_running ≡ false) where
  tested_none :
      (b : Bool) (row : A) (rest : List A)
      → (if b then row ∷ rest else rest) ≡ []
      → (b ≡ false) × (rest ≡ [])
  tested_none true row rest h = cc
  tested_none false row rest h = (refl, h)

  ended_or_same :
      (here : Bool) (row : A)
      → eq_state (state row) state_running ≡ false
      → eq_state (state (if here then f row else row)) state_running ≡ false
  ended_or_same true row h = ends row
  ended_or_same false row h = h

  running-update_where :
      (id : ℤ) (rows : List A)
      → running key state f ends rows ≡ []
      → running key state f ends (update_where key id f rows) ≡ []
  unfolding update_where running filter
  running-update_where id [] h = refl
  running-update_where id (row ∷ rows) h =
      let (still, rest) =
        tested_none (eq_state (state row) state_running) row
          (filter (λ x. eq_state (state x) state_running) rows) h in
      rw (ended_or_same (where_id id (key row)) row still) (running-update_where id rows rest)

-- Ends leave nothing running that was not running before.
write-load_backups :
    (x : JobWrite) (w : World)
    → IsEnd x
    → load_backups state_running w.backups ≡ []
    → load_backups state_running (write x w).backups ≡ []
unfolding write done_backup load_backups running done_row deregister
write-load_backups (backup_starts now id path username) w e h = absurd e
write-load_backups (backup_ends now id detail state extra) w e h =
    running-update_where (λ row. row.backup_id) (λ row. row.state) (done_row now detail state extra)
      (λ row. e) id w.backups h
write-load_backups (restore_starts now restore_id backup_id dst error) w e h = h
write-load_backups (restore_ends now restore_id size state extra) w e h = h
write-load_backups (scavenges key) w e h = h

write-load_restores :
    (x : JobWrite) (w : World)
    → IsEnd x
    → load_restores state_running w.restores ≡ []
    → load_restores state_running (write x w).restores ≡ []
unfolding write done_restore load_restores running done_restore_row deregister
write-load_restores (backup_starts now id path username) w e h = h
write-load_restores (backup_ends now id detail state extra) w e h = h
write-load_restores (restore_starts now restore_id backup_id dst error) w e h = absurd e
write-load_restores (restore_ends now restore_id size state extra) w e h =
    running-update_where (λ row. row.restore_id) (λ row. row.state)
      (done_restore_row now size state extra) (λ row. e) restore_id w.restores h
write-load_restores (scavenges key) w e h = h

pub write_all-load_backups :
    (xs : List JobWrite) (w : World)
    → All IsEnd xs
    → load_backups state_running w.backups ≡ []
    → load_backups state_running (write_all xs w).backups ≡ []
unfolding write_all
write_all-load_backups [] w e h = h
write_all-load_backups (x ∷ xs) w e h =
    write_all-load_backups xs (write x w) e.1 (write-load_backups x w e.0 h)

pub write_all-load_restores :
    (xs : List JobWrite) (w : World)
    → All IsEnd xs
    → load_restores state_running w.restores ≡ []
    → load_restores state_running (write_all xs w).restores ≡ []
unfolding write_all
write_all-load_restores [] w e h = h
write_all-load_restores (x ∷ xs) w e h =
    write_all-load_restores xs (write x w) e.1 (write-load_restores x w e.0 h)
