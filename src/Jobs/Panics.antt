-- ===== src/Jobs/Panics.antt =====
-- internal/app/job_ctx.go: which actions on a job may panic, and when.

use fa.Prelude.{ℕ, ◌≡◌, refl, Bool, true, Option, none, some, arith}
use fa.Prelude.Text.{Text}
pub use fa.Prelude.Steps.{IfCrashed, given-IfCrashed, test-IfCrashed}
use fa.Jobs.{
  Phase, calling, returned, sending, closing, Job, Result, blocked, crashed, moved, sends_success,
  sends_error, close_success, close_error, mark_closed, block_at, look_at, send_at, close_at,
  JobCtx, put_job,
}

pub put_job-IfCrashed :
    (Q : Type 0) (i : ℕ) (jc : JobCtx) (r : Result Job)
    → IfCrashed Q r
    → IfCrashed Q (put_job i jc r)
unfolding put_job
put_job-IfCrashed Q i jc blocked h = tt
put_job-IfCrashed Q i jc crashed h = h
put_job-IfCrashed Q i jc (moved j) h = tt

pub sends_success-sending : (p : Phase) → sends_success p ≡ true → p ≡ sending none
unfolding sends_success
sends_success-sending (sending none) h = refl
sends_success-sending (sending (some e)) h = cc
sends_success-sending _ h = cc

pub sends_error-sending : (p : Phase) → sends_error p ≡ true → (e : Text) × (p ≡ sending (some e))
unfolding sends_error
sends_error-sending (sending none) h = cc
sends_error-sending (sending (some e)) h = (e, refl)
sends_error-sending _ h = cc

-- Closing a channel panics under the goroutine that waits to send on it.
module _ (Q : Type 0) (j : Job) where
  pub close_success-IfCrashed : (j.phase ≡ sending none → Q) → IfCrashed Q (close_success j)
  unfolding close_success
  close_success-IfCrashed k =
      let under : sends_success j.phase ≡ true → Q = λ h. k (sends_success-sending j.phase h) in
      ground (arith, under)

  pub close_error-IfCrashed :
      ((e : Text) → j.phase ≡ sending (some e) → Q) → IfCrashed Q (close_error j)
  unfolding close_error
  close_error-IfCrashed k =
      let under : sends_error j.phase ≡ true → Q =
        λ h. let at = sends_error-sending j.phase h in k at.0 at.1 in
      ground (arith, under)

  -- A send panics on its closed channel.
  pub send_at-IfCrashed :
      (received : Bool) (p : Phase)
      → (p ≡ sending none → j.sc_closed ≡ true → Q)
      → ((e : Text) → p ≡ sending (some e) → j.ec_closed ≡ true → Q)
      → IfCrashed Q (send_at received p j)
  unfolding send_at
  send_at-IfCrashed received (sending none) k l =
      let shut : j.sc_closed ≡ true → Q = k refl in ground (arith, shut)
  send_at-IfCrashed received (sending (some e)) k l =
      let shut : j.ec_closed ≡ true → Q = l e refl in ground (arith, shut)
  send_at-IfCrashed received _ k l = tt

  -- The other actions on a job do not panic.
  pub mark_closed-IfCrashed : IfCrashed Q (mark_closed j)
  unfolding mark_closed
  mark_closed-IfCrashed = ground arith

  pub block_at-IfCrashed : (r : Option Text) (p : Phase) → IfCrashed Q (block_at r p j)
  unfolding block_at
  block_at-IfCrashed r calling = tt
  block_at-IfCrashed r _ = tt

  pub look_at-IfCrashed : (p : Phase) → IfCrashed Q (look_at p j)
  unfolding look_at
  look_at-IfCrashed (returned r) = tt
  look_at-IfCrashed _ = tt

  pub close_at-IfCrashed : (p : Phase) → IfCrashed Q (close_at p j)
  unfolding close_at
  close_at-IfCrashed closing = ground arith
  close_at-IfCrashed _ = tt
