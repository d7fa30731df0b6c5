-- ===== src/Jobs/Actions.antt =====
-- internal/app/job_ctx.go: one job, and the actions on it that do not touch the map: those of its
-- goroutine and those of its close.
use fa.Prelude.{Bool, true, false, not, ◌&&◌, Option, none, some, if◌then◌else◌}
use fa.Prelude.Text.{Text}
use fa.Prelude.Steps.{Result, blocked, crashed, moved}

pub data JobState : Type 0 where
  pending running success failed : JobState

-- Where the goroutine of a job stands: its job is in the map but it is not started; in the callback;
-- past `block`; at the send of its result; at the send on tjDoneC; in its own close; at wg.Done; at
-- its end. A result is the error of the callback, if any.
pub data Phase : Type 0 where
  unstarted calling : Phase
  returned sending : Option Text → Phase
  leaving closing finishing ended : Phase

pub record Job : Type 0 where
  pub job_id : Text
  pub state : JobState
  pub phase : Phase
  -- The context is done.
  pub cancelled : Bool
  -- The channels sc and ec are closed, and the flag `closed` is set.
  pub sc_closed : Bool
  pub ec_closed : Bool
  pub closed : Bool
  -- What the goroutine has handed over on one of the channels.
  pub taken : Option (Option Text)

unfoldable pub new_job : Text → Job
new_job id = record {
  job_id = id;
  state = pending;
  phase = unstarted;
  cancelled = false;
  sc_closed = false;
  ec_closed = false;
  closed = false;
  taken = none;
}

unfoldable pub sends_success : Phase → Bool
sends_success (sending none) = true
sends_success _ = false

unfoldable pub sends_error : Phase → Bool
sends_error (sending (some e)) = true
sends_error _ = false

-- The actions of Job.close, in its order, by whoever calls it: DeRegister, Stop, the registrant or the
-- goroutine itself. The context may also be done for its own reasons. A goroutine that waits at a
-- send panics when the channel is closed.
unfoldable pub cancel : Job → Result Job
cancel j = moved (record j { cancelled = true })

unfoldable pub close_success : Job → Result Job
unfolding sends_success
close_success j =
    if not j.cancelled
    then blocked
    else if sends_success j.phase && not j.sc_closed
    then crashed
    else moved (record j { sc_closed = true })

unfoldable pub close_error : Job → Result Job
unfolding sends_error
close_error j =
    if not j.sc_closed
    then blocked
    else if sends_error j.phase && not j.ec_closed
    then crashed
    else moved (record j { ec_closed = true })

unfoldable pub mark_closed : Job → Result Job
mark_closed j = if j.ec_closed then moved (record j { closed = true }) else blocked

-- The end of `block`.
unfoldable pub state_of : Option Text → JobState
state_of none = success
state_of (some e) = failed

unfoldable pub block_at : Option Text → Phase → Job → Result Job
unfolding state_of
block_at r calling j = moved (record j { state = state_of r; phase = returned r })
block_at r _ j = blocked

unfoldable pub block : Option Text → Job → Result Job
unfolding block_at
block r j = block_at r j.phase j

-- The load of `closed`.
unfoldable pub look_at : Phase → Job → Result Job
look_at (returned r) j = moved (record j { phase = if j.closed then leaving else sending r })
look_at _ j = blocked

unfoldable pub look : Job → Result Job
unfolding look_at
look j = look_at j.phase j

-- The send of the result, with a receiver if `received`: a send on a closed channel panics.
unfoldable pub send_at : Bool → Phase → Job → Result Job
send_at received (sending none) j =
    if j.sc_closed
    then crashed
    else if received
    then moved (record j { phase = leaving; taken = some none })
    else blocked
send_at received (sending (some e)) j =
    if j.ec_closed
    then crashed
    else if received
    then moved (record j { phase = leaving; taken = some (some e) })
    else blocked
send_at received _ j = blocked

unfoldable pub send : Bool → Job → Result Job
unfolding send_at
send received j = send_at received j.phase j

-- The goroutine's own close ends once `closed` is set.
unfoldable pub close_at : Phase → Job → Result Job
close_at closing j = if j.closed then moved (record j { phase = finishing }) else blocked
close_at _ j = blocked

unfoldable pub end_close : Job → Result Job
unfolding close_at
end_close j = close_at j.phase j
