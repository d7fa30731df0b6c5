-- ===== src/Transfers/Late.antt =====
-- internal/app/transfer_ctx.go: when the process panics, and what Stop has not waited for.

use fa.Prelude.{ℕ, suc, ◌≡◌, refl, ◌∙◌, true, some, [], ◌∷◌, get_elem?, get_elem?-set_there, set}
use fa.Prelude.Text.{Text}
use fa.Prelude.Steps.{Result, crashed, moved, given, and_then, run_all}
use fa.Jobs.{success}
use fa.Transfers.{
  Phase, entering, waiting, sending, TransferJob, TransferJobCtx, block_at, wake_at, send_at,
  close_job, close_at, on_job, Event, blocks, wakes, sends, closes, step,
}

-- The event is the send of a name after Stop has closed tjDoneC.
abbrev pub SendsLate : Event → TransferJobCtx → Type 0
SendsLate e tc =
    (i : ℕ) × (j : TransferJob) × (e ≡ sends i)
    × (get_elem? tc.jobs i ≡ some j)
    × (j.phase ≡ sending)
    × (tc.channels_closed ≡ true)

module _ (tc : TransferJobCtx) (i : ℕ) (j : TransferJob)
    (there : get_elem? tc.jobs i ≡ some j) where
  on_job-there :
      (act : Phase → ℕ → TransferJob → TransferJobCtx → Result TransferJobCtx)
      → on_job act i tc ≡ act j.phase i j tc
  unfolding on_job given
  on_job-there act = rw there refl

  -- A goroutine at the send of its name when the channels are closed.
  send-late : j.phase ≡ sending → tc.channels_closed ≡ true → on_job send_at i tc ≡ crashed
  unfolding send_at
  send-late p c = on_job-there send_at ∙ rw p (rw c refl)

  wake_at-moved :
      j.phase ≡ waiting
      → j.cancelled ≡ true
      → on_job wake_at i tc
        ≡ moved (record tc { jobs = set tc.jobs i (record j { phase = sending; state = success }) })
  unfolding wake_at
  wake_at-moved p d = on_job-there wake_at ∙ rw p (rw d refl)

  close_at-moved :
      on_job close_at i tc
      ≡ moved (record tc { jobs = set tc.jobs i (record j { cancelled = true }) })
  unfolding close_at close_job
  close_at-moved = on_job-there close_at

  block_at-moved :
      j.phase ≡ entering
      → on_job block_at i tc
        ≡ moved (record tc {
          jobs = set tc.jobs i (record j { phase = waiting; calling = true });
          wg = suc tc.wg;
        })
  unfolding block_at
  block_at-moved p = on_job-there block_at ∙ rw p refl

-- A goroutine that enters its wait when the channels are closed: its context is done and it sends.
wake-late :
    (tc : TransferJobCtx) (i : ℕ) (j : TransferJob)
    → get_elem? tc.jobs i ≡ some j
    → j.phase ≡ waiting
    → tc.channels_closed ≡ true
    → run_all step (closes i ∷ wakes i ∷ sends i ∷ []) tc ≡ crashed
unfolding run_all step and_then
wake-late tc i j there p c =
    let j1 : TransferJob = record j { cancelled = true } in
    let j2 : TransferJob = record j1 { phase = sending; state = success } in
    let tc1 : TransferJobCtx = record tc { jobs = set tc.jobs i j1 } in
    let tc2 : TransferJobCtx = record tc1 { jobs = set tc1.jobs i j2 } in
    let there1 : get_elem? tc1.jobs i ≡ some j1 = get_elem?-set_there tc.jobs i j j1 there in
    let there2 : get_elem? tc2.jobs i ≡ some j2 = get_elem?-set_there tc1.jobs i j1 j2 there1 in
    rw (close_at-moved tc i j there)
      (rw (wake_at-moved tc1 i j1 there1 p refl) (rw (send-late tc2 i j2 there2 refl c) refl))

-- Stop does not wait for a job whose goroutine has not reached wg.Add: when the channels are closed,
-- the goroutine still enters its wait, and when its context is done its send brings the process down.
pub run-late :
    (tc : TransferJobCtx) (i : ℕ) (j : TransferJob)
    → get_elem? tc.jobs i ≡ some j
    → j.phase ≡ entering
    → tc.channels_closed ≡ true
    → run_all step (blocks i ∷ closes i ∷ wakes i ∷ sends i ∷ []) tc ≡ crashed
unfolding run_all step and_then
run-late tc i j there p c =
    let j1 : TransferJob = record j { phase = waiting; calling = true } in
    let tc1 : TransferJobCtx = record tc { jobs = set tc.jobs i j1; wg = suc tc.wg } in
    let there1 : get_elem? tc1.jobs i ≡ some j1 = get_elem?-set_there tc.jobs i j j1 there in
    rw (block_at-moved tc i j there p) (wake-late tc1 i j1 there1 refl c)
