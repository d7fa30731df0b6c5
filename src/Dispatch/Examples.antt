-- ===== src/Dispatch/Examples.antt =====
-- pkg/queue/queue.go: runs of a dispatcher with one worker.
use fa.Prelude.{
  ℕ, ◌+◌, ◌≡◌, refl, ◌⊎◌, true, false, some, List, [], ◌∷◌, ◌++◌, ◌==◌, get_elem?, set,
  if◌then◌else◌,
}
use fa.Prelude.Int.{pos}
use fa.Prelude.Steps.{moved, crashed, run_all}
use fa.Prelude.Totals.{total}
use fa.Dispatch.{
  listening, left, serving, Worker, fetching, handing, delivered, Dispatcher, create_dispatcher,
  start, Event, submits, fetches, hands, offers, quits, closes, closes_queue, ends_close, step,
}
use fa.Dispatch.Delivery.{run-hand}
use fa.Dispatch.Accounts.{submitted, load, run-submitted}
use fa.Dispatch.Closing.{run-returned}

-- A job takes the channel of the worker.
abbrev on_the_way : List (Event ℕ)
on_the_way = submits 7 ∷ offers 0 ∷ fetches 0 ∷ []

abbrev ready : Worker ℕ
ready = record { phase = listening; asked = false }

abbrev offered : Dispatcher ℕ
offered = record {
  workers = ready ∷ [];
  pool = [];
  max_workers = 1;
  couriers = handing 7 0 ∷ [];
  started = [];
  wg = 1;
  done_closed = false;
  queue_closed = false;
  dispatching = true;
  returned = false;
}

on_the_way-offered : run_all step on_the_way (start (create_dispatcher (pos 1))) ≡ moved offered
unfolding run_all step start create_dispatcher
on_the_way-offered = refl

run-hand_example :
    (w : Worker ℕ) × (get_elem? offered.workers 0 ≡ some w)
    × (((w.phase ≡ listening)
          × (step (hands 0) offered
              ≡ moved (record offered {
                workers = set offered.workers 0 (record w { phase = serving 7 false });
                couriers = set offered.couriers 0 delivered;
                started = offered.started ++ (7 ∷ []);
              })))
        ⊎ (w.phase ≡ left))
run-hand_example = run-hand (pos 1) on_the_way offered 0 0 7 on_the_way-offered refl

abbrev is_seven : ℕ → ℕ
is_seven job = if job == 7 then 1 else 0

run-submitted_example :
    total is_seven (submitted on_the_way)
    ≡ total (load is_seven) offered.couriers + total is_seven offered.started
run-submitted_example = run-submitted is_seven (pos 1) on_the_way offered on_the_way-offered

-- Close returns while a job is on its way.
abbrev closed_early : List (Event ℕ)
closed_early = submits 7 ∷ offers 0 ∷ closes ∷ closes_queue ∷ quits 0 ∷ ends_close ∷ []

abbrev deserted : Dispatcher ℕ
deserted = record {
  workers = record { phase = left; asked = false } ∷ [];
  pool = 0 ∷ [];
  max_workers = 1;
  couriers = fetching 7 ∷ [];
  started = [];
  wg = 0;
  done_closed = true;
  queue_closed = true;
  dispatching = true;
  returned = true;
}

closed_early-deserted :
    run_all step closed_early (start (create_dispatcher (pos 1))) ≡ moved deserted
unfolding run_all step start create_dispatcher
closed_early-deserted = refl

-- The job takes the channel of the worker that has left.
abbrev lost : Dispatcher ℕ
lost = record deserted { pool = []; couriers = handing 7 0 ∷ [] }

deserted-lost : run_all step (fetches 0 ∷ []) deserted ≡ moved lost
unfolding run_all step
deserted-lost = refl

run-returned_example : lost.started ≡ deserted.started
run-returned_example =
    run-returned (pos 1) closed_early (fetches 0 ∷ []) deserted lost closed_early-deserted refl
      deserted-lost

-- A job that is submitted after Close brings the process down.
submitted_late : step (submits 8) deserted ≡ crashed
unfolding step
submitted_late = refl
