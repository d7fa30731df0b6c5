-- ===== src/Transfers/Examples.antt =====
-- internal/app/transfer_ctx.go: runs with one job.
use fa.Prelude.{◌≡◌, refl, true, false, none, List, [], ◌∷◌, All}
use fa.Prelude.Text.{Text}
use fa.Prelude.Steps.{moved, crashed, run_all}
use fa.Prelude.Totals.{total}
use fa.Jobs.{pending, success}
use fa.Transfers.{
  entering, sending, ended, TransferJobCtx, new_transfer_job_ctx, new_transfer_job, Event, checks,
  registers, blocks, wakes, sends, finishes, closes, scavenges, stops, closes_channels, marks, step,
}
use fa.Transfers.Counting.{PhaseFits, live, run-JobFits}
use fa.Transfers.Late.{run-late}

abbrev name : Text
name = b'a' ∷ []

-- The time of a job runs out while its callback goes on: the job ends as successful.
abbrev timed_out : List Event
timed_out =
    checks name
    ∷ registers 0
    ∷ blocks 0
    ∷ closes 0
    ∷ wakes 0
    ∷ sends 0
    ∷ scavenges
    ∷ finishes 0
    ∷ []

abbrev succeeded : TransferJobCtx
succeeded = record {
  jobs =
      record { app_name = name; state = success; phase = ended; calling = true; cancelled = true }
      ∷ [];
  registry = [];
  checked = [];
  deleting = none;
  wg = 0;
  stopping = false;
  channels_closed = false;
  closed = false;
}

timed_out-succeeded : run_all step timed_out new_transfer_job_ctx ≡ moved succeeded
unfolding run_all step new_transfer_job_ctx
timed_out-succeeded = refl

run-JobFits_example :
    All (λ j. PhaseFits j.phase j.state j.cancelled) succeeded.jobs
    × (succeeded.wg ≡ total live succeeded.jobs)
run-JobFits_example = run-JobFits timed_out succeeded timed_out-succeeded

-- Stop ends before the goroutine of a registered job has reached wg.Add.
abbrev stopped_early : List Event
stopped_early = checks name ∷ registers 0 ∷ stops ∷ closes_channels ∷ marks ∷ []

abbrev left_over : TransferJobCtx
left_over = record {
  jobs =
      record {
        app_name = name;
        state = pending;
        phase = entering;
        calling = false;
        cancelled = true;
      }
      ∷ [];
  registry = (name, 0) ∷ [];
  checked = [];
  deleting = none;
  wg = 0;
  stopping = true;
  channels_closed = true;
  closed = true;
}

stopped_early-left_over : run_all step stopped_early new_transfer_job_ctx ≡ moved left_over
unfolding run_all step new_transfer_job_ctx
stopped_early-left_over = refl

run-late_example : run_all step (blocks 0 ∷ closes 0 ∷ wakes 0 ∷ sends 0 ∷ []) left_over ≡ crashed
unfolding new_transfer_job
run-late_example =
    run-late left_over 0 (record (new_transfer_job name) { cancelled = true }) refl refl refl

abbrev about_to_send : TransferJobCtx
about_to_send = record left_over {
  jobs =
      record { app_name = name; state = success; phase = sending; calling = true; cancelled = true }
      ∷ [];
  wg = 1;
}
