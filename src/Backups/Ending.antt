-- ===== src/Backups/Ending.antt =====
-- internal/backup/default_provider.go: CancelBackups, CancelRestores, Close and DeleteBackup, whole.
use fa.Prelude.{
  filter, ◌≡◌, refl, ap, Bool, true, false, not, Option, none, some, List, [], ◌∷◌, All,
  if◌then◌else◌, arith,
}
use fa.Prelude.Int.{ℤ, pos}
use fa.Prelude.Text.{Text, eq_text}
use fa.Backups.Store.{
  state_running, state_cancel, eq_state, BackupItem, RestoreItem, done_row, done_restore_row,
  done_backup, done_restore, load_backup, load_backups, load_restore, load_restores,
  load_pending_or_running_restore,
}
use fa.Backups.{
  ProviderError, World, backup_key, restore_key, is_member, deregister, cancel_found, cancel_backup,
  cancel_backup_loop, cancel_restore_loop, canceled_passive, no_detail, mark_backups, mark_restores,
  mark_running_backups, mark_running_restores, cancel_backups, cancel_restores, deregister_restores,
  delete_from, delete_backup, close_from, close,
}
use fa.Backups.Hooks.{JobWrite, IsEnd, write_all, write_all-load_backups, write_all-load_restores}
use fa.Backups.Cancelling.{
  running, Settled-mark_each, Settled-running, running-Settled, Found-running, unless_failed-none,
  cancel_backup_loop-Unchanged, cancel_restore_loop-Unchanged,
}

ended_backup :
    (now : ℤ) (row : BackupItem)
    → eq_state (done_row now no_detail state_cancel canceled_passive row).state state_running
      ≡ false
unfolding done_row eq_state
ended_backup now row = refl

ended_restore :
    (now : ℤ) (row : RestoreItem)
    → eq_state (done_restore_row now (pos 0) state_cancel canceled_passive row).state state_running
      ≡ false
unfolding done_restore_row eq_state
ended_restore now row = refl

mark_backups-none :
    (now : ℤ) (rows : List BackupItem)
    → load_backups state_running (mark_backups now (load_backups state_running rows) rows) ≡ []
unfolding load_backups mark_backups done_backup running
mark_backups-none now rows =
    let f = done_row now no_detail state_cancel canceled_passive in
    running-Settled (λ row. row.backup_id) (λ row. row.state) f (ended_backup now) _
      (Settled-mark_each (λ row. row.backup_id) (λ row. row.state) f (ended_backup now) _ rows
        (Settled-running (λ row. row.backup_id) (λ row. row.state) f (ended_backup now) rows))

mark_restores-none :
    (now : ℤ) (rows : List RestoreItem)
    → load_restores state_running (mark_restores now (load_restores state_running rows) rows) ≡ []
unfolding load_restores mark_restores done_restore running
mark_restores-none now rows =
    let f = done_restore_row now (pos 0) state_cancel canceled_passive in
    running-Settled (λ row. row.restore_id) (λ row. row.state) f (ended_restore now) _
      (Settled-mark_each (λ row. row.restore_id) (λ row. row.state) f (ended_restore now) _ rows
        (Settled-running (λ row. row.restore_id) (λ row. row.state) f (ended_restore now) rows))

cancel_backup_loop-none :
    (w : World) → (cancel_backup_loop (load_backups state_running w.backups) w).1 ≡ none
unfolding load_backups load_backup running
cancel_backup_loop-none w =
    (cancel_backup_loop-Unchanged (load_backups state_running w.backups) w (
      Found-running (λ row. row.backup_id) (λ row. row.state)
        (done_row (pos 0) no_detail state_cancel canceled_passive) (ended_backup (pos 0))
        w.backups)).0

cancel_restore_loop-none :
    (w : World) → (cancel_restore_loop (load_restores state_running w.restores) w).1 ≡ none
unfolding load_restores load_restore running
cancel_restore_loop-none w =
    (cancel_restore_loop-Unchanged (load_restores state_running w.restores) w (
      Found-running (λ row. row.restore_id) (λ row. row.state)
        (done_restore_row (pos 0) (pos 0) state_cancel canceled_passive) (ended_restore (pos 0))
        w.restores)).0

-- CancelBackups does not fail while the database answers, and leaves no running backup, whatever the
-- cancelled jobs write meanwhile.
pub cancel_backups-none :
    (meanwhile : World → World) (now : ℤ) (w : World)
    → ((cancel_backups meanwhile now w).1 ≡ none)
      × (load_backups state_running (cancel_backups meanwhile now w).0.backups ≡ [])
unfolding cancel_backups mark_running_backups
cancel_backups-none meanwhile now w =
    let loop = cancel_backup_loop (load_backups state_running w.backups) w in
    rw
      (unless_failed-none loop (λ v. (mark_running_backups now (meanwhile v), none))
        (cancel_backup_loop-none w))
      (refl, mark_backups-none now (meanwhile loop.0).backups)

-- What CancelRestores comes to.
cancel_restores-marks :
    (meanwhile : World → World) (now : ℤ) (w : World)
    → cancel_restores meanwhile now w ≡ (
      mark_running_restores now
          (meanwhile (cancel_restore_loop (load_restores state_running w.restores) w).0),
      none,
    )
unfolding cancel_restores
cancel_restores-marks meanwhile now w =
    unless_failed-none (cancel_restore_loop (load_restores state_running w.restores) w)
      (λ v. (mark_running_restores now (meanwhile v), none)) (cancel_restore_loop-none w)

pub cancel_restores-none :
    (meanwhile : World → World) (now : ℤ) (w : World)
    → ((cancel_restores meanwhile now w).1 ≡ none)
      × (load_restores state_running (cancel_restores meanwhile now w).0.restores ≡ [])
unfolding mark_running_restores
cancel_restores-none meanwhile now w =
    let loop = cancel_restore_loop (load_restores state_running w.restores) w in
    rw (cancel_restores-marks meanwhile now w)
      (refl, mark_restores-none now (meanwhile loop.0).restores)

cancel_restores-backups :
    (meanwhile : World → World) (now : ℤ) (w : World)
    → ((v : World)
        → load_backups state_running v.backups ≡ []
        → load_backups state_running (meanwhile v).backups ≡ [])
    → load_backups state_running w.backups ≡ []
    → load_backups state_running (cancel_restores meanwhile now w).0.backups ≡ []
unfolding mark_running_restores load_restores load_restore running
cancel_restores-backups meanwhile now w keeps h =
    let loop = cancel_restore_loop (load_restores state_running w.restores) w in
    let same =
      (cancel_restore_loop-Unchanged (load_restores state_running w.restores) w (
        Found-running (λ row. row.restore_id) (λ row. row.state)
          (done_restore_row (pos 0) (pos 0) state_cancel canceled_passive) (ended_restore (pos 0))
          w.restores)).1 in
    rw (cancel_restores-marks meanwhile now w) (keeps loop.0 (rw same h))

module _ (meanwhile later drained : World → World) (delegate : Option ProviderError) (now : ℤ)
    (w : World) where
  closing : World × Option ProviderError
  closing =
      close_from drained delegate (cancel_restores later now (cancel_backups meanwhile now w).0).0

  close-open : w.terminated ≡ false → close meanwhile later drained delegate now w ≡ closing
  unfolding close closing
  close-open h = ap (λ b. if b then (w, none) else closing) h

  close-again : w.terminated ≡ true → close meanwhile later drained delegate now w ≡ (w, none)
  unfolding close closing
  close-again h = ap (λ b. if b then (w, none) else closing) h

-- Close, when these are the writes of the jobs while it cancels the backups, while it cancels the
-- restores, and while it drains and stops the jobs.
abbrev pub close_during :
    List JobWrite → List JobWrite → List JobWrite → ℤ → World → World × Option ProviderError
close_during meanwhile later drained =
    close (write_all meanwhile) (write_all later) (write_all drained) none

-- Close of a provider that is not closed yet, when the wrapped provider closes. While it cancels the
-- backups, cancels the restores, and drains and stops the jobs, these may end any backups and restores,
-- with states that are not running, and the scavenger may delete any names, but no backup or restore
-- starts. Then it succeeds, no backup and no restore is running, and another Close does nothing.
pub close-settled :
    (meanwhile later drained : List JobWrite) (again : List JobWrite) (now : ℤ) (w : World)
    → All IsEnd meanwhile
    → All IsEnd later
    → All IsEnd drained
    → w.terminated ≡ false
    → ((close_during meanwhile later drained now w).1 ≡ none)
      × (load_backups state_running (close_during meanwhile later drained now w).0.backups ≡ [])
      × (load_restores state_running (close_during meanwhile later drained now w).0.restores ≡ [])
      × (close_during again again again now (close_during meanwhile later drained now w).0
          ≡ ((close_during meanwhile later drained now w).0, none))
unfolding close_from closing
close-settled meanwhile later drained again now w em el ed h =
    let first_ = (cancel_backups (write_all meanwhile) now w).0 in
    let v = (cancel_restores (write_all later) now first_).0 in
    let no_backups =
      cancel_restores-backups (write_all later) now first_ (λ u. write_all-load_backups later u el)
        (cancel_backups-none (write_all meanwhile) now w).1 in
    rw (close-open (write_all meanwhile) (write_all later) (write_all drained) none now w h) (
      refl,
      write_all-load_backups drained v ed no_backups,
      write_all-load_restores drained v ed (cancel_restores-none (write_all later) now first_).1,
      close-again (write_all again) (write_all again) (write_all again) none now
          (close_from (write_all drained) none v).0 refl,
    )

is_member-removed :
    (key : Text) (names : List Text)
    → is_member key (filter (λ name. not (eq_text name key)) names) ≡ false
unfolding is_member filter
is_member-removed key [] = refl
is_member-removed key (name ∷ names) = ground (arith, is_member-removed key names)

is_member-filter :
    (key : Text) (p : Text → Bool) (names : List Text)
    → is_member key names ≡ false
    → is_member key (filter p names) ≡ false
unfolding is_member filter
is_member-filter key p [] h = refl
is_member-filter key p (name ∷ names) h = ground (arith, h, is_member-filter key p names)

deregister_restores-stays :
    (key : Text) (items : List RestoreItem) (w : World)
    → is_member key w.jobs ≡ false
    → is_member key (deregister_restores items w).jobs ≡ false
unfolding deregister_restores deregister
deregister_restores-stays key [] w h = h
deregister_restores-stays key (item ∷ items) w h =
    deregister_restores-stays key items (deregister (restore_key item.restore_id) w)
      (is_member-filter key _ w.jobs h)

deregister_restores-gone :
    (items : List RestoreItem) (w : World)
    → All
        (λ row. is_member (restore_key row.restore_id) (deregister_restores items w).jobs ≡ false)
        items
unfolding deregister_restores deregister
deregister_restores-gone [] w = tt
deregister_restores-gone (item ∷ items) w =
    let key = restore_key item.restore_id in
    (
      deregister_restores-stays key items (deregister key w) (is_member-removed key w.jobs),
      deregister_restores-gone items (deregister key w),
    )

cancel_backup-found :
    (id : ℤ) (item : BackupItem) (w : World)
    → load_backup id w.backups ≡ some item
    → cancel_backup id w ≡ (deregister (backup_key id) w, none)
unfolding cancel_backup cancel_found
cancel_backup-found id item w h = ap (λ o. cancel_found o (backup_key id) w) h

-- DeleteBackup of a recorded backup, when the wrapped provider deletes it: afterwards neither the
-- backup nor any restore from it that was pending or running has a job.
pub delete_backup-jobs :
    (id : ℤ) (item : BackupItem) (w : World)
    → load_backup id w.backups ≡ some item
    → ((delete_backup none id w).1 ≡ none)
      × (is_member (backup_key id) (delete_backup none id w).0.jobs ≡ false)
      × All
          (λ row. is_member (restore_key row.restore_id) (delete_backup none id w).0.jobs ≡ false)
          (load_pending_or_running_restore id w.restores)
unfolding delete_backup delete_from deregister
delete_backup-jobs id item w h =
    let v = deregister (backup_key id) w in
    let items = load_pending_or_running_restore id w.restores in
    rw (cancel_backup-found id item w h) (
      refl,
      deregister_restores-stays (backup_key id) items v (is_member-removed (backup_key id) w.jobs),
      deregister_restores-gone items v,
    )
