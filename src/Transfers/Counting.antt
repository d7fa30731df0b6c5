-- ===== src/Transfers/Counting.antt =====
-- internal/app/transfer_ctx.go: the states of the jobs, and what the wait group counts.
use mathlib.Core.Path.{subst}
use fa.Prelude.{
  ℕ, suc, ◌+◌, ◌-◌, ◌≡◌, refl, sym, Bool, true, false, Option, none, some, List, [], ◌∷◌, All,
  All-set, All-get, All-snoc, get_elem?, set, arith,
}
use fa.Prelude.Text.{Text}
use fa.Prelude.Steps.{Result, moved, run_all, After, given-After, run_all-After, After-moved}
use fa.Prelude.Totals.{total, total-set, total-snoc, total-get}
use fa.Jobs.{JobState, pending, success, find}
use fa.Transfers.{
  Phase, entering, waiting, sending, finishing, ended, TransferJob, TransferJobCtx,
  new_transfer_job_ctx, check_name, get_job_ctx, new_transfer_job, register_named, register_job,
  block_at, wake_at, give_name, send_at, done_at, return_at, close_job, close_at, on_job, scavenge,
  deregister, close_found, close_jobs, stop, close_channels, mark_closed, Event, checks, registers,
  blocks, wakes, sends, finishes, returns, closes, scavenges, deregisters, stops, closes_channels,
  marks, step,
}

-- By the phase, the state of the job and its context.
abbrev pub PhaseFits : Phase → JobState → Bool → Type 0
PhaseFits entering s c = s ≡ pending
PhaseFits waiting s c = s ≡ pending
PhaseFits _ s c = (s ≡ success) × (c ≡ true)

abbrev pub JobFits : TransferJob → Type 0
JobFits j = PhaseFits j.phase j.state j.cancelled

-- The wait group counts a job from wg.Add to wg.Done.
unfoldable pub live_at : Phase → ℕ
live_at entering = 0
live_at ended = 0
live_at _ = 1

unfoldable pub live : TransferJob → ℕ
unfolding live_at
live j = live_at j.phase

abbrev pub IsValid : TransferJobCtx → Type 0
IsValid tc = All JobFits tc.jobs × (tc.wg ≡ total live tc.jobs)

close-PhaseFits : (p : Phase) (s : JobState) (c : Bool) → PhaseFits p s c → PhaseFits p s true
close-PhaseFits entering s c h = h
close-PhaseFits waiting s c h = h
close-PhaseFits sending s c h = (h.0, refl)
close-PhaseFits finishing s c h = (h.0, refl)
close-PhaseFits ended s c h = (h.0, refl)

module _ (tc : TransferJobCtx) (h : IsValid tc) (i : ℕ) (j : TransferJob)
    (there : get_elem? tc.jobs i ≡ some j) where
  fits : JobFits j
  fits = All-get JobFits tc.jobs i j h.0 there

  fits_at : (p : Phase) → p ≡ j.phase → PhaseFits p j.state j.cancelled
  fits_at p e = subst (λ q. PhaseFits q j.state j.cancelled) (sym e) fits

  set-IsValid :
      (k : TransferJob) (n : ℕ)
      → JobFits k
      → n + live j ≡ tc.wg + live k
      → All JobFits (set tc.jobs i k) × (n ≡ total live (set tc.jobs i k))
  set-IsValid k n f count =
      (All-set JobFits tc.jobs i k h.0 f, omega (arith, total-set live tc.jobs i j k there, h.1))

  block_at-IsValid : (p : Phase) → p ≡ j.phase → After IsValid (block_at p i j tc)
  unfolding block_at live live_at
  block_at-IsValid entering e =
      set-IsValid (record j { phase = waiting; calling = true }) (suc tc.wg) (fits_at entering e)
        (rw (← e) (omega arith))
  block_at-IsValid _ e = tt

  wake_at-IsValid : (p : Phase) → p ≡ j.phase → After IsValid (wake_at p i j tc)
  unfolding wake_at live live_at
  wake_at-IsValid waiting e =
      let next = λ (c : j.cancelled ≡ true).
        set-IsValid (record j { phase = sending; state = success }) tc.wg (refl, c)
          (rw (← e) (omega arith)) in
      ground (arith, next)
  wake_at-IsValid _ e = tt

  give_name-IsValid : (o : Option Text) → sending ≡ j.phase → After IsValid (give_name o i j tc)
  unfolding give_name live live_at
  give_name-IsValid none e =
      set-IsValid (record j { phase = finishing }) tc.wg (fits_at sending e)
        (rw (← e) (omega arith))
  give_name-IsValid (some name) e = tt

  send_at-IsValid : (p : Phase) → p ≡ j.phase → After IsValid (send_at p i j tc)
  unfolding send_at
  send_at-IsValid sending e = ground (arith, give_name-IsValid tc.deleting e)
  send_at-IsValid _ e = tt

  done_at-IsValid : (p : Phase) → p ≡ j.phase → After IsValid (done_at p i j tc)
  unfolding done_at live live_at
  done_at-IsValid finishing e =
      let one : live j ≡ 1 = rw (← e) refl in
      let some_live = total-get live tc.jobs i j there in
      let next =
        set-IsValid (record j { phase = ended }) (tc.wg - 1) (fits_at finishing e)
          (omega (arith, h.1, some_live)) in
      ground (arith, next)
  done_at-IsValid _ e = tt

  return_at-IsValid : (p : Phase) → p ≡ j.phase → After IsValid (return_at p i j tc)
  unfolding return_at live
  return_at-IsValid p e =
      let next =
        set-IsValid (record j { calling = false; cancelled = true }) tc.wg
          (close-PhaseFits j.phase j.state j.cancelled fits) (omega arith) in
      ground (arith, next)

  close_at-IsValid : (p : Phase) → p ≡ j.phase → After IsValid (close_at p i j tc)
  unfolding close_at close_job live
  close_at-IsValid p e =
      set-IsValid (close_job j) tc.wg (close-PhaseFits j.phase j.state j.cancelled fits)
        (omega arith)

on_job-IsValid :
    (act : Phase → ℕ → TransferJob → TransferJobCtx → Result TransferJobCtx) (tc : TransferJobCtx)
    → ((i : ℕ) (j : TransferJob)
        → get_elem? tc.jobs i ≡ some j
        → (p : Phase) → p ≡ j.phase
        → After IsValid (act p i j tc))
    → (i : ℕ) → After IsValid (on_job act i tc)
unfolding on_job
on_job-IsValid act tc keeps i =
    given-After IsValid (get_elem? tc.jobs i) (λ j. act j.phase i j tc)
      (λ j there. keeps i j there j.phase refl)

check_name-IsValid :
    (o : Option ℕ) (name : Text) (tc : TransferJobCtx)
    → IsValid tc
    → After IsValid (check_name o name tc)
unfolding check_name
check_name-IsValid none name tc h = h
check_name-IsValid (some i) name tc h = tt

-- What Stop does to the jobs of the map.
close_found-kept :
    (o : Option TransferJob) (i : ℕ) (jobs : List TransferJob)
    → get_elem? jobs i ≡ o
    → All JobFits jobs
    → All JobFits (close_found o i jobs) × (total live (close_found o i jobs) ≡ total live jobs)
unfolding close_found close_job live
close_found-kept none i jobs e h = (h, refl)
close_found-kept (some j) i jobs e h =
    let old = All-get JobFits jobs i j h e in
    (
      All-set JobFits jobs i (close_job j) h (close-PhaseFits j.phase j.state j.cancelled old),
      omega (arith, total-set live jobs i j (close_job j) e),
    )

close_jobs-kept :
    (found : List (Text × ℕ)) (jobs : List TransferJob)
    → All JobFits jobs
    → All JobFits (close_jobs found jobs) × (total live (close_jobs found jobs) ≡ total live jobs)
unfolding close_jobs
close_jobs-kept [] jobs h = (h, refl)
close_jobs-kept ((name, i) ∷ rest) jobs h =
    let first = close_found-kept (get_elem? jobs i) i jobs refl h in
    let later = close_jobs-kept rest (close_found (get_elem? jobs i) i jobs) first.0 in
    (later.0, omega (arith, first.1, later.1))

step-IsValid : (e : Event) (tc : TransferJobCtx) → IsValid tc → After IsValid (step e tc)
unfolding step get_job_ctx register_job register_named scavenge deregister stop close_channels
    mark_closed new_transfer_job live live_at
step-IsValid (checks name) tc h = check_name-IsValid (find name tc.registry) name tc h
step-IsValid (registers n) tc h =
    given-After IsValid (get_elem? tc.checked n) (register_named n tc) (λ name _. (
      All-snoc JobFits tc.jobs (new_transfer_job name) h.0 refl,
      omega (arith, total-snoc live tc.jobs (new_transfer_job name), h.1),
    ))
step-IsValid (blocks i) tc h = on_job-IsValid block_at tc (block_at-IsValid tc h) i
step-IsValid (wakes i) tc h = on_job-IsValid wake_at tc (wake_at-IsValid tc h) i
step-IsValid (sends i) tc h = on_job-IsValid send_at tc (send_at-IsValid tc h) i
step-IsValid (finishes i) tc h = on_job-IsValid done_at tc (done_at-IsValid tc h) i
step-IsValid (returns i) tc h = on_job-IsValid return_at tc (return_at-IsValid tc h) i
step-IsValid (closes i) tc h = on_job-IsValid close_at tc (close_at-IsValid tc h) i
step-IsValid scavenges tc h = given-After IsValid tc.deleting _ (λ name _. h)
step-IsValid (deregisters name) tc h = h
step-IsValid stops tc h =
    let kept = close_jobs-kept tc.registry tc.jobs h.0 in
    let count : tc.wg ≡ total live (close_jobs tc.registry tc.jobs) = omega (arith, kept.1, h.1) in
    ground (arith, kept, count)
step-IsValid closes_channels tc h = ground (arith, h)
step-IsValid marks tc h = ground (arith, h)

-- From the empty map, whatever the goroutines do: a job is pending until its context is done, and
-- successful from the end of its wait on, whether its callback returned, it was closed, or its time
-- ran out; and the wait group counts the goroutines between wg.Add and wg.Done.
pub run-JobFits :
    (es : List Event) (tc : TransferJobCtx)
    → run_all step es new_transfer_job_ctx ≡ moved tc
    → All (λ j. PhaseFits j.phase j.state j.cancelled) tc.jobs × (tc.wg ≡ total live tc.jobs)
unfolding new_transfer_job_ctx total
run-JobFits es tc e =
    After-moved IsValid (run_all step es new_transfer_job_ctx) tc e
      (run_all-After step IsValid step-IsValid es new_transfer_job_ctx (tt, refl))
