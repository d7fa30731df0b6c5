-- ===== src/Jobs/Crashes.antt =====
-- internal/app/job_ctx.go: when the process panics.

use fa.Prelude.{
  ℕ, ◌≡◌, refl, ◌⊎◌, Bool, ap, ◌∙◌, true, false, not, ◌&&◌, Option, none, some, [], ◌∷◌, get_elem?,
  get_elem?-set_there, set, if◌then◌else◌,
}
use fa.Prelude.Text.{Text}
use fa.Jobs.{
  sending, leaving, Job, Result, crashed, moved, sends_success, sends_error, cancel, close_success,
  close_error, JobCtx, given, put_job, on_job, Event, cancels, closes_success, closes_error,
  retires, sends, step, and_then, run,
}

-- The event is an action on the job in the place `i`, or of its goroutine, that panics: a close of the
-- channel that the goroutine waits to send on, its send on a closed channel, or its send on tjDoneC
-- after Stop has closed that.
abbrev pub CrashesAt : JobCtx → Event → ℕ → Job → Type 0
CrashesAt jc e i j =
    ((e ≡ closes_success i) × (j.phase ≡ sending none))
    ⊎ ((x : Text) × (e ≡ closes_error i) × (j.phase ≡ sending (some x)))
    ⊎ ((received : Bool) × (e ≡ sends received i)
        × (((j.phase ≡ sending none) × (j.sc_closed ≡ true))
            ⊎ ((x : Text) × (j.phase ≡ sending (some x)) × (j.ec_closed ≡ true))))
    ⊎ ((e ≡ retires i) × (j.phase ≡ leaving) × (jc.channels_closed ≡ true))

abbrev pub Panics : JobCtx → Event → Type 0
Panics jc e = (i : ℕ) × (j : Job) × (get_elem? jc.jobs i ≡ some j) × CrashesAt jc e i j

module _ (f : Job → Result Job) (i : ℕ) (jc : JobCtx) (j : Job)
    (there : get_elem? jc.jobs i ≡ some j) where
  on_job-put : on_job f i jc ≡ put_job i jc (f j)
  unfolding on_job given
  on_job-put = ap (λ o. given o (λ k. put_job i jc (f k))) there

  on_job-moved :
      (k : Job) → f j ≡ moved k → on_job f i jc ≡ moved (record jc { jobs = set jc.jobs i k })
  unfolding put_job
  on_job-moved k e = on_job-put ∙ ap (put_job i jc) e

  on_job-crashed : f j ≡ crashed → on_job f i jc ≡ crashed
  unfolding put_job
  on_job-crashed e = on_job-put ∙ ap (put_job i jc) e

-- The job is closed while it sends.
module _ (j : Job) (sc : j.sc_closed ≡ false) (ec : j.ec_closed ≡ false) where
  close_success-crashed :
      j.phase ≡ sending none → close_success (record j { cancelled = true }) ≡ crashed
  unfolding close_success sends_success
  close_success-crashed phase = rw (phase, sc) refl

  close_success-moved :
      (e : Text)
      → j.phase ≡ sending (some e)
      → close_success (record j { cancelled = true })
        ≡ moved (record j { cancelled = true; sc_closed = true })
  unfolding close_success sends_success
  close_success-moved e phase =
      ap
        (λ p.
          if sends_success p && not j.sc_closed
          then crashed
          else moved (record j { cancelled = true; sc_closed = true }))
        phase

  close_error-crashed :
      (e : Text)
      → j.phase ≡ sending (some e)
      → close_error (record j { cancelled = true; sc_closed = true }) ≡ crashed
  unfolding close_error sends_error
  close_error-crashed e phase = rw (phase, ec) refl

-- A job that waits to send its result on a channel that is open is brought down, with the process, by
-- being closed: the first three steps of `close`, as DeRegister, Stop and the registrant call it, lead
-- to a panic.
pub run-close-crashes :
    (jc : JobCtx) (i : ℕ) (j : Job) (r : Option Text)
    → get_elem? jc.jobs i ≡ some j
    → j.phase ≡ sending r
    → j.sc_closed ≡ false
    → j.ec_closed ≡ false
    → run (cancels i ∷ closes_success i ∷ closes_error i ∷ []) jc ≡ crashed
unfolding run step cancel
run-close-crashes jc i j none there phase sc ec =
    let k = record j { cancelled = true } in
    let jc1 = record jc { jobs = set jc.jobs i k } in
    let there1 = get_elem?-set_there jc.jobs i j k there in
    ap (λ x. and_then x (run (closes_success i ∷ closes_error i ∷ [])))
      (on_job-moved cancel i jc j there k refl)
    ∙ ap (λ x. and_then x (run (closes_error i ∷ [])))
        (on_job-crashed close_success i jc1 k there1 (close_success-crashed j sc ec phase))
run-close-crashes jc i j (some e) there phase sc ec =
    let k = record j { cancelled = true } in
    let l = record j { cancelled = true; sc_closed = true } in
    let jc1 = record jc { jobs = set jc.jobs i k } in
    let there1 = get_elem?-set_there jc.jobs i j k there in
    let jc2 = record jc1 { jobs = set jc1.jobs i l } in
    let there2 = get_elem?-set_there jc1.jobs i k l there1 in
    ap (λ x. and_then x (run (closes_success i ∷ closes_error i ∷ [])))
      (on_job-moved cancel i jc j there k refl)
    ∙ ap (λ x. and_then x (run (closes_error i ∷ [])))
        (on_job-moved close_success i jc1 k there1 l (close_success-moved j sc ec e phase))
    ∙ ap (λ x. and_then x (run []))
        (on_job-crashed close_error i jc2 l there2 (close_error-crashed j sc ec e phase))
