-- ===== src/Backups/Store.antt =====
-- internal/storage/backup.go: the records of backups and of restores, as lists of rows, with what gorm
-- does at each call: a condition on a field with a zero value is dropped, Updates leaves such a field
-- alone, and an insertion on a conflict sets the named columns. Failures of the database are left out.
use fa.Prelude.{
  filter, first, ℕ, Bool, true, false, not, ◌&&◌, ◌||◌, Option, none, some, List, [], ◌∷◌, map,
  ◌==◌, if◌then◌else◌,
}
use fa.Prelude.Int.{ℤ, pos, ◌-ℤ◌, eq_ℤ, ltb_ℤ, uint64}
use fa.Prelude.Text.{Text, eq_text}

-- BackupState, and RestoreState with the same five values.
pub data BackupState : Type 0 where
  state_pending state_running state_success state_failed state_cancel : BackupState

unfoldable pub eq_state : BackupState → BackupState → Bool
eq_state state_pending state_pending = true
eq_state state_running state_running = true
eq_state state_success state_success = true
eq_state state_failed state_failed = true
eq_state state_cancel state_cancel = true
eq_state _ _ = false

pub record BackupItem : Type 0 where
  pub backup_id : ℤ
  pub path : Text
  pub manifest_id : Text
  pub manifest_size : ℕ
  pub snapshot_size : ℕ
  pub state : BackupState
  pub extra : Text
  pub username : Text
  pub updated_at : ℤ

pub record RestoreItem : Type 0 where
  pub restore_id : ℤ
  pub backup_id : ℤ
  pub dst : Text
  pub manifest_id : Text
  pub restore_size : ℕ
  pub state : BackupState
  pub extra : Text
  pub updated_at : ℤ

pub record BackupDetail : Type 0 where
  pub id : Text
  pub snapshot_size : ℤ
  pub manifest_size : ℤ

-- A condition of Where on an identifier and on a text.
unfoldable pub where_id : ℤ → ℤ → Bool
where_id id key = eq_ℤ id (pos 0) || eq_ℤ key id

unfoldable pub where_text : Text → Text → Bool
where_text s key = eq_text s [] || eq_text key s

-- A field in Updates.
unfoldable pub set_text : Text → Text → Text
set_text new old = if eq_text new [] then old else new

unfoldable pub set_size : ℕ → ℕ → ℕ
set_size new old = if new == 0 then old else new

-- `state` is BackupRunning where the caller gives none.
unfoldable pub new_backup : ℤ → ℤ → Text → Text → BackupState → List BackupItem → List BackupItem
new_backup now id path username state [] =
    record {
      backup_id = id;
      path = path;
      manifest_id = [];
      manifest_size = 0;
      snapshot_size = 0;
      state = state;
      extra = [];
      username = username;
      updated_at = now;
    }
    ∷ []
new_backup now id path username state (row ∷ rows) =
    let later = row ∷ new_backup now id path username state rows in
    if eq_ℤ row.backup_id id
    then record row { path = path; state = state; extra = []; updated_at = now } ∷ rows
    else later

-- Where on the identifier, and Updates of the rows found.
unfoldable pub update_where : {A : Type 0} → (A → ℤ) → ℤ → (A → A) → List A → List A
unfolding where_id
update_where key id f [] = []
update_where key id f (row ∷ rows) =
    (if where_id id (key row) then f row else row) ∷ update_where key id f rows

unfoldable pub done_row : ℤ → BackupDetail → BackupState → Text → BackupItem → BackupItem
unfolding set_text set_size
done_row now detail state extra row = record row {
  state = state;
  manifest_id = set_text detail.id row.manifest_id;
  manifest_size = set_size (uint64 detail.manifest_size) row.manifest_size;
  snapshot_size = set_size (uint64 detail.snapshot_size) row.snapshot_size;
  extra = set_text extra row.extra;
  updated_at = now;
}

unfoldable pub done_backup :
    ℤ → ℤ → BackupDetail → BackupState → Text → List BackupItem → List BackupItem
unfolding update_where done_row
done_backup now id detail state extra rows =
    update_where (λ row. row.backup_id) id (done_row now detail state extra) rows

unfoldable pub load_backup : ℤ → List BackupItem → Option BackupItem
unfolding first where_id
load_backup id rows = first (λ row. where_id id row.backup_id) rows

unfoldable pub load_pending_or_running_backup : Text → List BackupItem → Option BackupItem
unfolding first where_text eq_state
load_pending_or_running_backup path rows =
    first
      (λ row.
        where_text path row.path
        && (eq_state row.state state_pending || eq_state row.state state_running))
      rows

unfoldable pub load_backups : BackupState → List BackupItem → List BackupItem
unfolding filter eq_state
load_backups state rows = filter (λ row. eq_state row.state state) rows

-- A deletion without a condition is refused.
unfoldable pub delete_backup_row : ℤ → List BackupItem → Option (List BackupItem)
unfolding filter
delete_backup_row id rows =
    if eq_ℤ id (pos 0) then none else some (filter (λ row. not (eq_ℤ row.backup_id id)) rows)

-- NewRestore takes the manifest of the backup, if it finds one. The target of a restore that is
-- there already is not among the columns that it sets.
unfoldable pub manifest_of : Option BackupItem → Text
manifest_of none = []
manifest_of (some item) = item.manifest_id

unfoldable pub insert_restore :
    ℤ → ℤ → ℤ → Text → Text → BackupState → List RestoreItem → List RestoreItem
insert_restore now restore_id backup_id dst manifest state [] =
    record {
      restore_id = restore_id;
      backup_id = backup_id;
      dst = dst;
      manifest_id = manifest;
      restore_size = 0;
      state = state;
      extra = [];
      updated_at = now;
    }
    ∷ []
insert_restore now restore_id backup_id dst manifest state (row ∷ rows) =
    let later = row ∷ insert_restore now restore_id backup_id dst manifest state rows in
    if eq_ℤ row.restore_id restore_id
    then record row {
      backup_id = backup_id;
      manifest_id = manifest;
      state = state;
      updated_at = now;
    }
      ∷ rows
    else later

unfoldable pub new_restore :
    ℤ → ℤ → ℤ → Text → BackupState → List BackupItem → List RestoreItem → List RestoreItem
unfolding load_backup manifest_of insert_restore
new_restore now restore_id backup_id dst state backups rows =
    insert_restore now restore_id backup_id dst (manifest_of (load_backup backup_id backups)) state
      rows

unfoldable pub done_restore_row : ℤ → ℤ → BackupState → Text → RestoreItem → RestoreItem
unfolding set_text set_size
done_restore_row now size state extra row = record row {
  state = state;
  restore_size = set_size (uint64 size) row.restore_size;
  extra = set_text extra row.extra;
  updated_at = now;
}

unfoldable pub done_restore : ℤ → ℤ → ℤ → BackupState → Text → List RestoreItem → List RestoreItem
unfolding update_where done_restore_row
done_restore now restore_id size state extra rows =
    update_where (λ row. row.restore_id) restore_id (done_restore_row now size state extra) rows

unfoldable pub load_restores : BackupState → List RestoreItem → List RestoreItem
unfolding filter eq_state
load_restores state rows = filter (λ row. eq_state row.state state) rows

unfoldable pub load_restore : ℤ → List RestoreItem → Option RestoreItem
unfolding first where_id
load_restore id rows = first (λ row. where_id id row.restore_id) rows

-- The error for no record is an empty list, which the callers treat alike.
unfoldable pub load_pending_or_running_restore : ℤ → List RestoreItem → List RestoreItem
unfolding filter where_id eq_state
load_pending_or_running_restore id rows =
    filter
      (λ row.
        where_id id row.backup_id
        && (eq_state row.state state_pending || eq_state row.state state_running))
      rows

-- ScavengeBackup: twelve hours, in seconds.
abbrev pub half_day : ℤ
half_day = pos 43200

abbrev pub scavenge_canceled : Text
scavenge_canceled =
    b's' ∷ b'c' ∷ b'a' ∷ b'v' ∷ b'e' ∷ b'n' ∷ b'g' ∷ b'e' ∷ b' ' ∷ b'c' ∷ b'a' ∷ b'n' ∷ b'c' ∷ b'e'
    ∷ b'l' ∷ b'e' ∷ b'd' ∷ []

unfoldable pub is_overdue : ℤ → BackupState → ℤ → Bool
unfolding eq_state
is_overdue now state updated_at = eq_state state state_running && ltb_ℤ updated_at (now -ℤ half_day)

unfoldable pub scavenge_backups : ℤ → List BackupItem → List BackupItem
unfolding is_overdue
scavenge_backups now rows =
    map
      (λ row.
        if is_overdue now row.state row.updated_at
        then record row { state = state_failed; extra = scavenge_canceled; updated_at = now }
        else row)
      rows

unfoldable pub scavenge_restores : ℤ → List RestoreItem → List RestoreItem
unfolding is_overdue
scavenge_restores now rows =
    map
      (λ row.
        if is_overdue now row.state row.updated_at
        then record row { state = state_failed; extra = scavenge_canceled; updated_at = now }
        else row)
      rows
