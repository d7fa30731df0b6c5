-- ===== src/Transfers.antt =====
-- internal/app/transfer_ctx.go: TransferJobCtx, its jobs with their goroutines, the scavenger and Stop. An
-- event is one atomic action of some goroutine, as for the jobs of job_ctx.go. The contexts, the
-- callbacks and the times are outside: an event says that a callback returns or a context is done.
pub mod Counting
pub mod Late
mod Examples
use fa.Prelude.{
  ℕ, zero, suc, ◌+◌, ◌-◌, Bool, true, false, not, ◌&&◌, ◌||◌, Option, none, some, List, [], ◌∷◌,
  ◌++◌, ◌==◌, length, get_elem?, set, take, drop, if◌then◌else◌,
}
use fa.Prelude.Text.{Text}
use fa.Prelude.Steps.{Result, blocked, crashed, moved, given}
use fa.Jobs.{JobState, pending, success, find, remove}

-- Where the goroutine of a job stands: before `block`; at the receive from Done; at the send of its
-- name; at wg.Done; at its end.
pub data Phase : Type 0 where
  entering waiting sending finishing ended : Phase

pub record TransferJob : Type 0 where
  pub app_name : Text
  pub state : JobState
  pub phase : Phase
  -- The callback is running, and the context is done.
  pub calling : Bool
  pub cancelled : Bool

pub record TransferJobCtx : Type 0 where
  pub jobs : List TransferJob
  -- innerMapCtx: a name and the place of its job in the list.
  pub registry : List (Text × ℕ)
  -- The registrations that have found their name free, and the name that the scavenger is to delete.
  pub checked : List Text
  pub deleting : Option Text
  pub wg : ℕ
  -- Stop is in its stopOnce, it has closed tjDoneC and doneC, and it has set the flag.
  pub stopping : Bool
  pub channels_closed : Bool
  pub closed : Bool

unfoldable pub new_transfer_job_ctx : TransferJobCtx
new_transfer_job_ctx = record {
  jobs = [];
  registry = [];
  checked = [];
  deleting = none;
  wg = 0;
  stopping = false;
  channels_closed = false;
  closed = false;
}

-- RegisterJobWithTimeout: GetJobCtx finds nothing; the job is inserted, and its goroutine started.
unfoldable pub check_name : Option ℕ → Text → TransferJobCtx → Result TransferJobCtx
check_name none name tc = moved (record tc { checked = tc.checked ++ (name ∷ []) })
check_name (some i) name tc = blocked

unfoldable pub get_job_ctx : Text → TransferJobCtx → Result TransferJobCtx
unfolding check_name find
get_job_ctx name tc = check_name (find name tc.registry) name tc

unfoldable pub new_transfer_job : Text → TransferJob
new_transfer_job name = record {
  app_name = name;
  state = pending;
  phase = entering;
  calling = false;
  cancelled = false;
}

unfoldable pub register_named : ℕ → TransferJobCtx → Text → Result TransferJobCtx
unfolding new_transfer_job remove
register_named n tc name = moved (record tc {
  jobs = tc.jobs ++ (new_transfer_job name ∷ []);
  registry = (name, length tc.jobs) ∷ remove name tc.registry;
  checked = take n tc.checked ++ drop (suc n) tc.checked;
})

unfoldable pub register_job : ℕ → TransferJobCtx → Result TransferJobCtx
unfolding given register_named
register_job n tc = given (get_elem? tc.checked n) (register_named n tc)

-- The steps of `block`: wg.Add and the start of the callback; the end of the wait, whatever ended it;
-- the send of the name, which the scavenger receives; wg.Done, which must not pass below 0.
unfoldable pub block_at : Phase → ℕ → TransferJob → TransferJobCtx → Result TransferJobCtx
block_at entering i j tc = moved (record tc {
  jobs = set tc.jobs i (record j { phase = waiting; calling = true });
  wg = suc tc.wg;
})
block_at _ i j tc = blocked

unfoldable pub wake_at : Phase → ℕ → TransferJob → TransferJobCtx → Result TransferJobCtx
wake_at waiting i j tc =
    if j.cancelled
    then moved (record tc { jobs = set tc.jobs i (record j { phase = sending; state = success }) })
    else blocked
wake_at _ i j tc = blocked

unfoldable pub give_name : Option Text → ℕ → TransferJob → TransferJobCtx → Result TransferJobCtx
give_name none i j tc = moved (record tc {
  jobs = set tc.jobs i (record j { phase = finishing });
  deleting = some j.app_name;
})
give_name (some name) i j tc = blocked

unfoldable pub send_at : Phase → ℕ → TransferJob → TransferJobCtx → Result TransferJobCtx
unfolding give_name
send_at sending i j tc = if tc.channels_closed then crashed else give_name tc.deleting i j tc
send_at _ i j tc = blocked

unfoldable pub done_at : Phase → ℕ → TransferJob → TransferJobCtx → Result TransferJobCtx
done_at finishing i j tc =
    if tc.wg == 0
    then crashed
    else moved (record tc { jobs = set tc.jobs i (record j { phase = ended }); wg = tc.wg - 1 })
done_at _ i j tc = blocked

-- The callback returns, and its goroutine cancels the context.
unfoldable pub return_at : Phase → ℕ → TransferJob → TransferJobCtx → Result TransferJobCtx
return_at _ i j tc =
    if j.calling
    then moved (record tc { jobs = set tc.jobs i (record j { calling = false; cancelled = true }) })
    else blocked

-- transferJob.Close, by DeRegister or by whoever has the cancelFunc; the timeout does the same.
unfoldable pub close_job : TransferJob → TransferJob
close_job j = record j { cancelled = true }

unfoldable pub close_at : Phase → ℕ → TransferJob → TransferJobCtx → Result TransferJobCtx
unfolding close_job
close_at _ i j tc = moved (record tc { jobs = set tc.jobs i (close_job j) })

unfoldable pub on_job :
    (Phase → ℕ → TransferJob → TransferJobCtx → Result TransferJobCtx)
    → ℕ
    → TransferJobCtx
    → Result TransferJobCtx
unfolding given
on_job act i tc = given (get_elem? tc.jobs i) (λ j. act j.phase i j tc)

unfoldable pub scavenge : TransferJobCtx → Result TransferJobCtx
unfolding given remove
scavenge tc =
    given tc.deleting
      (λ name. moved (record tc { registry = remove name tc.registry; deleting = none }))

-- The end of DeRegister, which has closed the job that it found.
unfoldable pub deregister : Text → TransferJobCtx → Result TransferJobCtx
unfolding remove
deregister name tc = moved (record tc { registry = remove name tc.registry })

-- Stop: it closes the jobs of the map; once wg.Wait returns, the channels; then it sets the flag.
unfoldable pub close_found : Option TransferJob → ℕ → List TransferJob → List TransferJob
unfolding close_job
close_found none i jobs = jobs
close_found (some j) i jobs = set jobs i (close_job j)

unfoldable pub close_jobs : List (Text × ℕ) → List TransferJob → List TransferJob
unfolding close_found
close_jobs [] jobs = jobs
close_jobs ((name, i) ∷ rest) jobs = close_jobs rest (close_found (get_elem? jobs i) i jobs)

unfoldable pub stop : TransferJobCtx → Result TransferJobCtx
unfolding close_jobs
stop tc =
    if tc.closed || tc.stopping
    then blocked
    else moved (record tc { stopping = true; jobs = close_jobs tc.registry tc.jobs })

unfoldable pub close_channels : TransferJobCtx → Result TransferJobCtx
close_channels tc =
    if tc.stopping && not tc.channels_closed && (tc.wg == 0)
    then moved (record tc { channels_closed = true })
    else blocked

unfoldable pub mark_closed : TransferJobCtx → Result TransferJobCtx
mark_closed tc = if tc.channels_closed then moved (record tc { closed = true }) else blocked

-- The actions of jobs are given the place of the job.
pub data Event : Type 0 where
  checks : Text → Event
  registers blocks wakes sends finishes returns closes : ℕ → Event
  scavenges : Event
  deregisters : Text → Event
  stops closes_channels marks : Event

unfoldable pub step : Event → TransferJobCtx → Result TransferJobCtx
unfolding get_job_ctx register_job on_job block_at wake_at send_at done_at return_at close_at
    scavenge deregister stop close_channels mark_closed
step (checks name) tc = get_job_ctx name tc
step (registers n) tc = register_job n tc
step (blocks i) tc = on_job block_at i tc
step (wakes i) tc = on_job wake_at i tc
step (sends i) tc = on_job send_at i tc
step (finishes i) tc = on_job done_at i tc
step (returns i) tc = on_job return_at i tc
step (closes i) tc = on_job close_at i tc
step scavenges tc = scavenge tc
step (deregisters name) tc = deregister name tc
step stops tc = stop tc
step closes_channels tc = close_channels tc
step marks tc = mark_closed tc
