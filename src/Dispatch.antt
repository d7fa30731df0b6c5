-- ===== src/Dispatch.antt =====
-- pkg/queue/queue.go: the dispatcher of jobs, its workers, the pool of their channels, and Close. An
-- event is one action of a goroutine: of a caller of SubmitJob, of the dispatcher's loop, of a goroutine
-- that takes one job to a worker, of a worker, or of Close. What a job does is outside the model. The
-- limiter only delays SubmitJob, which sends the job whatever the limiter answers.
pub mod Effects
pub mod Delivery
pub mod Accounts
pub mod Closing
mod Examples
use fa.Prelude.{
  ℕ, zero, suc, ◌+◌, ◌-◌, Bool, true, false, not, ◌&&◌, Option, none, some, List, [], ◌∷◌, ◌++◌,
  map, ◌==◌, ltb, length, get_elem?, set, replicate, if◌then◌else◌,
}
use fa.Prelude.Int.{ℤ, pos, negsuc}
use fa.Prelude.Steps.{Result, blocked, crashed, moved, given}

-- Where the loop of a worker stands: at its send to the pool; at the outer select; at the inner one,
-- with its job, whose context is cancelled when the job has returned; at its end.
pub data Phase (J : Type 0) : Type 0 where
  offering listening left : Phase J
  serving : J → Bool → Phase J

-- A worker is asked to leave when a goroutine of `stop` waits at its quit channel.
pub record Worker (J : Type 0) : Type 0 where
  pub phase : Phase J
  pub asked : Bool

-- The goroutine that `dispatch` starts for a job: at the receive from the pool; at the send to the
-- worker whose channel it has taken; at its end.
pub data Courier (J : Type 0) : Type 0 where
  fetching : J → Courier J
  handing : J → ℕ → Courier J
  delivered : Courier J

pub record Dispatcher (J : Type 0) : Type 0 where
  pub workers : List (Worker J)
  -- The channels in the pool, by the places of their workers, and how many it holds at most.
  pub pool : List ℕ
  pub max_workers : ℕ
  pub couriers : List (Courier J)
  -- The jobs that workers have started, in order.
  pub started : List J
  pub wg : ℕ
  -- doneC and jobQueue are closed; the loop of `dispatch` is running; wg.Wait of Close has returned.
  pub done_closed : Bool
  pub queue_closed : Bool
  pub dispatching : Bool
  pub returned : Bool

unfoldable pub worker_count : ℤ → ℕ
worker_count (pos n) = n
worker_count (negsuc n) = 10

unfoldable pub create_dispatcher : {J : Type 0} → ℤ → Dispatcher J
unfolding worker_count
create_dispatcher max = record {
  workers = [];
  pool = [];
  max_workers = worker_count max;
  couriers = [];
  started = [];
  wg = 0;
  done_closed = false;
  queue_closed = false;
  dispatching = false;
  returned = false;
}

unfoldable pub new_worker : {J : Type 0} → Worker J
new_worker = record { phase = offering; asked = false }

unfoldable pub start : {J : Type 0} → Dispatcher J → Dispatcher J
unfolding new_worker
start d = record d {
  workers = replicate d.max_workers new_worker;
  wg = d.wg + d.max_workers;
  dispatching = true;
}

module _ {J : Type 0} where
  -- The send of SubmitJob meets the receive of `dispatch`, which starts the goroutine of the job.
  unfoldable pub submit_job : J → Dispatcher J → Result (Dispatcher J)
  submit_job job d =
      if d.queue_closed
      then crashed
      else if d.dispatching
      then moved (record d { couriers = d.couriers ++ (fetching job ∷ []) })
      else blocked

  unfoldable pub take_channel : List ℕ → J → ℕ → Dispatcher J → Result (Dispatcher J)
  take_channel [] job k d = blocked
  take_channel (i ∷ rest) job k d =
      moved (record d { pool = rest; couriers = set d.couriers k (handing job i) })

  unfoldable pub fetch_at : Courier J → ℕ → Dispatcher J → Result (Dispatcher J)
  unfolding take_channel
  fetch_at (fetching job) k d = take_channel d.pool job k d
  fetch_at (handing job i) k d = blocked
  fetch_at delivered k d = blocked

  unfoldable pub fetch : ℕ → Dispatcher J → Result (Dispatcher J)
  unfolding given fetch_at
  fetch k d = given (get_elem? d.couriers k) (λ c. fetch_at c k d)

  -- The send of a job meets the worker at its outer select.
  unfoldable pub receive : Phase J → J → ℕ → Worker J → ℕ → Dispatcher J → Result (Dispatcher J)
  receive listening job i w k d = moved (record d {
    workers = set d.workers i (record w { phase = serving job false });
    couriers = set d.couriers k delivered;
    started = d.started ++ (job ∷ []);
  })
  receive _ job i w k d = blocked

  unfoldable pub hand_at : Courier J → ℕ → Dispatcher J → Result (Dispatcher J)
  unfolding given receive
  hand_at (fetching job) k d = blocked
  hand_at (handing job i) k d = given (get_elem? d.workers i) (λ w. receive w.phase job i w k d)
  hand_at delivered k d = blocked

  unfoldable pub hand : ℕ → Dispatcher J → Result (Dispatcher J)
  unfolding given hand_at
  hand k d = given (get_elem? d.couriers k) (λ c. hand_at c k d)

  -- The steps of a worker: its send to the pool, the return of its job, which cancels the context, the
  -- end of its round, and its end.
  unfoldable pub offer_at : Phase J → ℕ → Worker J → Dispatcher J → Result (Dispatcher J)
  offer_at offering i w d =
      if ltb (length d.pool) d.max_workers
      then moved (record d {
        workers = set d.workers i (record w { phase = listening });
        pool = d.pool ++ (i ∷ []);
      })
      else blocked
  offer_at _ i w d = blocked

  unfoldable pub return_at : Phase J → ℕ → Worker J → Dispatcher J → Result (Dispatcher J)
  return_at (serving job false) i w d =
      moved (record d { workers = set d.workers i (record w { phase = serving job true }) })
  return_at _ i w d = blocked

  unfoldable pub round_at : Phase J → ℕ → Worker J → Dispatcher J → Result (Dispatcher J)
  round_at (serving job true) i w d =
      moved (record d { workers = set d.workers i (record w { phase = offering }) })
  round_at _ i w d = blocked

  -- wg.Done must not pass below 0.
  unfoldable pub leave : ℕ → Worker J → Dispatcher J → Result (Dispatcher J)
  leave i w d =
      if d.wg == 0
      then crashed
      else moved (record d {
        workers = set d.workers i (record w { phase = left; asked = false });
        wg = d.wg - 1;
      })

  unfoldable pub quit_at : Phase J → ℕ → Worker J → Dispatcher J → Result (Dispatcher J)
  unfolding leave
  quit_at listening i w d = if w.asked then leave i w d else blocked
  quit_at (serving job ready) i w d = if w.asked then leave i w d else blocked
  quit_at _ i w d = blocked

  unfoldable pub on_worker :
      (Phase J → ℕ → Worker J → Dispatcher J → Result (Dispatcher J))
      → ℕ
      → Dispatcher J
      → Result (Dispatcher J)
  unfolding given
  on_worker act i d = given (get_elem? d.workers i) (λ w. act w.phase i w d)

  unfoldable pub stop : Worker J → Worker J
  stop w = record w { asked = true }

  -- Close: it closes doneC and asks every worker to leave, closes jobQueue, and waits for the workers.
  unfoldable pub close : Dispatcher J → Result (Dispatcher J)
  unfolding stop
  close d =
      if d.done_closed
      then crashed
      else moved (record d { done_closed = true; workers = map stop d.workers })

  unfoldable pub close_queue : Dispatcher J → Result (Dispatcher J)
  close_queue d =
      if d.done_closed && not d.queue_closed
      then moved (record d { queue_closed = true })
      else blocked

  unfoldable pub end_close : Dispatcher J → Result (Dispatcher J)
  end_close d =
      if d.queue_closed && (d.wg == 0) then moved (record d { returned = true }) else blocked

  -- The loop of `dispatch` takes doneC.
  unfoldable pub exit_dispatch : Dispatcher J → Result (Dispatcher J)
  exit_dispatch d =
      if d.dispatching && d.done_closed then moved (record d { dispatching = false }) else blocked

pub data Event (J : Type 0) : Type 0 where
  submits : J → Event J
  fetches hands offers returns rounds quits : ℕ → Event J
  closes closes_queue ends_close exits : Event J

unfoldable pub step : {J : Type 0} → Event J → Dispatcher J → Result (Dispatcher J)
unfolding submit_job fetch hand on_worker offer_at return_at round_at quit_at close close_queue
    end_close exit_dispatch
step (submits job) d = submit_job job d
step (fetches k) d = fetch k d
step (hands k) d = hand k d
step (offers i) d = on_worker offer_at i d
step (returns i) d = on_worker return_at i d
step (rounds i) d = on_worker round_at i d
step (quits i) d = on_worker quit_at i d
step closes d = close d
step closes_queue d = close_queue d
step ends_close d = end_close d
step exits d = exit_dispatch d
