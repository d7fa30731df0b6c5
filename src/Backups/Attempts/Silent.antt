-- ===== src/Backups/Attempts/Silent.antt =====
-- internal/backup/default_provider.go: a backup that reports success without a snapshot.
use mathlib.Core.Path.{subst}
use fa.Prelude.{
  ℕ, ◌≡◌, refl, sym, append_assoc, ◌⊎◌, inl, inr, ◌↔◌, Bool, true, false, Option, none, some, List,
  [], ◌∷◌, ◌++◌, All-get, get_elem?, arith,
}
use fa.Prelude.Text.{Text}
use fa.Jobs
use fa.Jobs.{Job, JobCtx, moved, new_job_ctx, run}
use fa.Stat.{Event, backup_waits, backup_waited, backup_starts, backup_succeeds, backup_fails}
use fa.Jobs.Sound.{IsSound, IsOrdered}
use fa.Jobs.Counting.{run-IsSound}
use fa.Backups.Attempts.{
  Ending, success, channel_closed, job_error, job_done, outer_done, Attempt, Report, error_of,
  snapshot_of, if_nil, wait_events, start_events, have_wait, is_refused, backup_file, is_ready,
}

closed-ready :
    (outer : Bool) (j : Job) (e : Text)
    → IsOrdered j
    → j.closed ≡ true
    → (is_ready outer j channel_closed ≡ true)
      × (is_ready outer j success ≡ true)
      × (is_ready outer j (job_done e) ≡ true)
unfolding is_ready
closed-ready outer j e o h = (ground arith, ground arith, ground arith)

-- Once a job is closed, whatever the goroutines did before, the select of BackupFile can take the end
-- of the job's context, but as well either of the closed channels.
pub run-is_ready :
    (es : List Jobs.Event) (jc : JobCtx) (i : ℕ) (j : Job) (outer : Bool) (e : Text)
    → run es new_job_ctx ≡ moved jc
    → get_elem? jc.jobs i ≡ some j
    → j.closed ≡ true
    → (is_ready outer j channel_closed ≡ true)
      × (is_ready outer j success ≡ true)
      × (is_ready outer j (job_done e) ≡ true)
run-is_ready es jc i j outer e h there shut =
    closed-ready outer j e (All-get IsSound jc.jobs i j (run-IsSound es jc h).0 there).0 shut

silent_end :
    (ending : Ending) (si : Option Text)
    → ((error_of ending ≡ none) × (snapshot_of ending si ≡ none))
      ↔ ((ending ≡ channel_closed) ⊎ ((ending ≡ success) × (si ≡ none)))
unfolding error_of snapshot_of
silent_end success si = ((λ h. inr (refl, h.1)), λ h. elim h [ inl e ↦ cc | inr k ↦ (refl, k.1) ])
silent_end channel_closed si = ((λ h. inl refl), λ h. (refl, refl))
silent_end (job_error e) si = ((λ h. cc), λ h. elim h [ inl k ↦ cc | inr k ↦ cc ])
silent_end (job_done e) si = ((λ h. cc), λ h. elim h [ inl k ↦ cc | inr k ↦ cc ])
silent_end (outer_done e) si = ((λ h. cc), λ h. elim h [ inl k ↦ cc | inr k ↦ cc ])

-- The caller learns of neither a snapshot nor an error, and the last event counted is a success.
abbrev pub LostResult : Report → Type 0
LostResult r =
    (r.snapshot ≡ none)
    × (r.error ≡ none)
    × ((before : List Event) × (r.events ≡ before ++ (backup_succeeds ∷ [])))

module _ (a : Attempt) (given : is_refused a ≡ false) where
  -- What is reported of each case of the select.
  report : Ending → Report
  report e = record {
    snapshot = snapshot_of e a.snapshot;
    error = error_of e;
    events =
        wait_events backup_waits a
        ++ (start_events backup_waited backup_starts a
            ++ (if_nil (error_of e) backup_succeeds backup_fails ∷ []));
  }

  backup_file-report : (e : Ending) → backup_file false (record a { ending = e }) ≡ report e
  unfolding backup_file report is_refused wait_events start_events have_wait
  backup_file-report e = rw given refl

  closed-LostResult : LostResult (backup_file false (record a { ending = channel_closed }))
  unfolding report error_of snapshot_of if_nil
  closed-LostResult = rw (backup_file-report channel_closed) (
    refl,
    refl,
    (
      _,
      sym (
          append_assoc (wait_events backup_waits a) (start_events backup_waited backup_starts a)
            (backup_succeeds ∷ [])),
    ),
  )

  LostResult-closed :
      (si : Text) (e : Ending)
      → a.snapshot ≡ some si
      → LostResult (backup_file false (record a { ending = e }))
      → e ≡ channel_closed
  unfolding report
  LostResult-closed si e left silent =
      let s = subst LostResult (backup_file-report e) silent in
      elim ((silent_end e a.snapshot).0 (s.1, s.0)) [
        | inl closed ↦ closed
        | inr nothing ↦ let gone = nothing.1 in absurd cc
      ]

-- BackupFile of a job that is not registered yet, with a slot if the throttle is on, whose callback has
-- left a snapshot. In every run of the jobs, the select has a case to take that reports neither that
-- snapshot nor an error, and counts a success, exactly when the error channel of the job is closed;
-- and then the context of the job was cancelled before, and its success channel is closed too.
pub backup_file-silent :
    (es : List Jobs.Event) (jc : JobCtx) (i : ℕ) (j : Job) (outer : Bool) (a : Attempt) (si : Text)
    → run es new_job_ctx ≡ moved jc
    → get_elem? jc.jobs i ≡ some j
    → is_refused a ≡ false
    → a.snapshot ≡ some si
    → (((e : Ending) × (is_ready outer j e ≡ true)
          × LostResult (backup_file false (record a { ending = e })))
        ↔ (j.ec_closed ≡ true))
      × (j.ec_closed ≡ true → (j.cancelled ≡ true) × (j.sc_closed ≡ true))
unfolding is_ready
backup_file-silent es jc i j outer a si h there given left =
    let ordered = (All-get IsSound jc.jobs i j (run-IsSound es jc h).0 there).0 in
    (
      (
        (λ taken.
            subst (λ e. is_ready outer j e ≡ true)
              (LostResult-closed a given si taken.0 left taken.2) taken.1),
        (λ shut. (channel_closed, shut, closed-LostResult a given)),
      ),
      (λ shut. ground (arith, ordered)),
    )
