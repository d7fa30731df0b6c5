-- ===== src/Backups/Attempts.antt =====
-- internal/backup/default_provider.go: BackupFile and RestoreFile, from the answers of the throttle and
-- of the select on the job's channels to the result and the counters of internal/backup/stat.go.
pub mod Counted
pub mod Silent
use fa.Prelude.{
  ℕ, zero, suc, Bool, true, false, not, ◌&&◌, ◌||◌, Option, none, some, List, [], ◌∷◌, ◌++◌,
  replicate, if◌then◌else◌,
}
use fa.Prelude.Text.{Text, eq_text}
use fa.Stat.{
  Event, backup_waits, backup_waited, backup_starts, backup_succeeds, backup_fails, restore_waits,
  restore_waited, restore_starts, restore_succeeds, restore_fails,
}
use fa.Jobs.{Phase, sending, sends_success, Job}
use fa.Backups.{ProviderError, job_processing, lock_refused, job_failed, context_done}

-- The case that the select takes: a value or the closing of the success channel, an error, the closing
-- of the error channel, the end of the job's context or of the caller's.
pub data Ending : Type 0 where
  success channel_closed : Ending
  job_error job_done outer_done : Text → Ending

-- How an attempt goes: whether the throttle is on, how often tryLock waited and whether it gave the
-- slot; whether the callback has run and what it has left in `si`; and the case of the select.
pub record Attempt : Type 0 where
  pub throttled : Bool
  pub waits : ℕ
  pub locked : Bool
  pub started : Bool
  pub snapshot : Option Text
  pub ending : Ending

pub record Report : Type 0 where
  pub snapshot : Option Text
  pub error : Option ProviderError
  pub events : List Event

unfoldable pub have_wait : Attempt → Bool
have_wait a = elim a.waits [ zero ↦ false | suc n ↦ a.throttled ]

unfoldable pub error_of : Ending → Option ProviderError
error_of success = none
error_of channel_closed = none
error_of (job_error e) = some (job_failed e)
error_of (job_done e) = some (context_done e)
error_of (outer_done e) = some (context_done e)

-- `return si, nil`, `return nil, err`, and the bare returns.
unfoldable pub snapshot_of : Ending → Option Text → Option Text
snapshot_of success si = si
snapshot_of channel_closed si = none
snapshot_of (job_error e) si = none
snapshot_of (job_done e) si = si
snapshot_of (outer_done e) si = si

unfoldable pub if_nil : {A : Type 0} → Option ProviderError → A → A → A
if_nil none x y = x
if_nil (some e) x y = y

-- IncPendingBackups in the rounds of tryLockBackup.
unfoldable pub wait_events : Event → Attempt → List Event
wait_events e a = if a.throttled then replicate a.waits e else []

-- The callback's count, by the events for a job that has waited and for one that has not.
unfoldable pub start_events : Event → Event → Attempt → List Event
unfolding have_wait
start_events waited starts a =
    if a.started then (if have_wait a then waited else starts) ∷ [] else []

unfoldable pub is_refused : Attempt → Bool
is_refused a = a.throttled && not a.locked

-- `registered` is that JobCtx has a job of the key.
unfoldable pub backup_file : Bool → Attempt → Report
unfolding error_of snapshot_of if_nil wait_events start_events is_refused
backup_file registered a =
    if registered
    then record { snapshot = none; error = some job_processing; events = [] }
    else if is_refused a
    then record { snapshot = none; error = some lock_refused; events = wait_events backup_waits a }
    else record {
      snapshot = snapshot_of a.ending a.snapshot;
      error = error_of a.ending;
      events =
          wait_events backup_waits a
          ++ (start_events backup_waited backup_starts a
              ++ (if_nil (error_of a.ending) backup_succeeds backup_fails ∷ []));
    }

-- A restore that is under way is no error here. A restore has no snapshot to answer.
unfoldable pub restore_file : Bool → Attempt → Report
unfolding error_of if_nil wait_events start_events is_refused
restore_file registered a =
    if registered
    then record { snapshot = none; error = none; events = [] }
    else if is_refused a
    then record { snapshot = none; error = some lock_refused; events = wait_events restore_waits a }
    else record {
      snapshot = none;
      error = error_of a.ending;
      events =
          wait_events restore_waits a
          ++ (start_events restore_waited restore_starts a
              ++ (if_nil (error_of a.ending) restore_succeeds restore_fails ∷ []));
    }

unfoldable pub sends_text : Text → Phase → Bool
sends_text e (sending (some x)) = eq_text x e
sends_text e _ = false

-- The cases of the select that can be taken: `outer` is that the caller's context is done.
unfoldable pub is_ready : Bool → Job → Ending → Bool
unfolding sends_text sends_success
is_ready outer j success = j.sc_closed || sends_success j.phase
is_ready outer j channel_closed = j.ec_closed
is_ready outer j (job_error e) = sends_text e j.phase
is_ready outer j (job_done e) = j.cancelled
is_ready outer j (outer_done e) = outer
