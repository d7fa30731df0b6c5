-- ===== src/Dispatch/Closing.antt =====
-- pkg/queue/queue.go: what the wait group of a dispatcher counts, and what Close leaves undone.

use fa.Prelude.{
  ℕ, zero, suc, ◌≡◌, ◌≢◌, refl, sym, ◌∙◌, true, false, some, List, [], ◌∷◌, map, get_elem?, set,
  replicate, arith,
}
use fa.Prelude.Int.{ℤ}
use fa.Prelude.Steps.{moved, run_all, After, run_all-After, After-moved}
use fa.Prelude.Totals.{total, total-set, total-get}
use fa.Dispatch.Effects.{
  fetch-After, hand-After, offer-After, return-After, round-After, quit-After,
}
use fa.Dispatch.{
  Phase, offering, listening, left, serving, Worker, Dispatcher, create_dispatcher, new_worker,
  start, stop, submit_job, close, close_queue, end_close, exit_dispatch, worker_count, Event,
  submits, fetches, hands, offers, returns, rounds, quits, closes, closes_queue, ends_close, exits,
  step,
}

module _ {J : Type 0} where
  -- The wait group counts a worker until it leaves.
  unfoldable alive_at : Phase J → ℕ
  alive_at left = 0
  alive_at _ = 1

  unfoldable alive : Worker J → ℕ
  unfolding alive_at
  alive w = alive_at w.phase

  abbrev IsCounted : Dispatcher J → Type 0
  IsCounted d =
      (d.wg ≡ total alive d.workers)
      × (d.returned ≡ true → d.wg ≡ 0)
      × (d.queue_closed ≡ true → d.done_closed ≡ true)

  alive-stop : (ws : List (Worker J)) → total alive (map stop ws) ≡ total alive ws
  unfolding total alive stop
  alive-stop [] = refl
  alive-stop (w ∷ ws) = omega (arith, alive-stop ws)

  module _ (d : Dispatcher J) (h : IsCounted d) (i : ℕ) (w : Worker J)
      (there : get_elem? d.workers i ≡ some w) where
    -- A step after which the worker is alive as before.
    still : (v : Worker J) → alive v ≡ alive w → d.wg ≡ total alive (set d.workers i v)
    still v e = omega (arith, h.0, total-set alive d.workers i w v there)

  alive-not_left : (p : Phase J) → p ≢ left → alive_at p ≡ 1
  unfolding alive_at
  alive-not_left offering h = refl
  alive-not_left listening h = refl
  alive-not_left (serving job ready) h = refl
  alive-not_left left h = absurd (h refl)

  step-IsCounted : (e : Event J) (d : Dispatcher J) → IsCounted d → After IsCounted (step e d)
  unfolding step submit_job close close_queue end_close exit_dispatch alive alive_at
  step-IsCounted (submits job) d h = ground (arith, h)
  step-IsCounted (fetches k) d h = fetch-After IsCounted d k (λ job i rest _ _. h)
  step-IsCounted (hands k) d h = hand-After IsCounted d k (λ job i w _ there e.
      (still d h i w there (record w { phase = serving job false }) (rw e refl), h.1, h.2))
  step-IsCounted (offers i) d h =
      offer-After IsCounted d i
        (λ w there e. (still d h i w there (record w { phase = listening }) (rw e refl), h.1, h.2))
  step-IsCounted (returns i) d h = return-After IsCounted d i (λ w job there e.
      (still d h i w there (record w { phase = serving job true }) (rw e refl), h.1, h.2))
  step-IsCounted (rounds i) d h =
      round-After IsCounted d i (λ w job there e.
        (still d h i w there (record w { phase = offering }) (rw e refl), h.1, h.2))
  step-IsCounted (quits i) d h = quit-After IsCounted d i (λ w there ne. (
    omega (
      arith,
      h.0,
      alive-not_left w.phase ne,
      total-set alive d.workers i w (record w { phase = left; asked = false }) there,
    ),
    (λ r. omega (arith, h.1 r)),
    h.2,
  ))
  step-IsCounted closes d h =
      let count : d.wg ≡ total alive (map stop d.workers) = h.0 ∙ sym (alive-stop d.workers) in
      ground (arith, count, h)
  step-IsCounted closes_queue d h = ground (arith, h)
  step-IsCounted ends_close d h = ground (arith, h)
  step-IsCounted exits d h = ground (arith, h)

new-alive : (J : Type 0) (n : ℕ) → n ≡ total alive (replicate n (new_worker {J = J}))
unfolding total alive alive_at new_worker
new-alive J zero = refl
new-alive J (suc n) = omega (arith, new-alive J n)

start-IsCounted : (J : Type 0) (max : ℤ) → IsCounted (start (create_dispatcher {J = J} max))
unfolding start create_dispatcher
start-IsCounted J max = (omega (arith, new-alive J (worker_count max)), (λ r. cc), (λ q. cc))

-- Every worker has left, and these are the jobs that were started.
abbrev IsOver : {J : Type 0} → List J → Dispatcher J → Type 0
IsOver jobs d = (total alive d.workers ≡ 0) × (d.started ≡ jobs)

module _ {J : Type 0} where
  not_alive : (p : Phase J) → alive_at p ≡ 0 → p ≡ left
  unfolding alive_at
  not_alive left e = refl
  not_alive offering e = absurd (omega arith)
  not_alive listening e = absurd (omega arith)
  not_alive (serving job ready) e = absurd (omega arith)

module _ {J : Type 0} (jobs : List J) (d : Dispatcher J) (h : IsOver jobs d) where
  has_left : (i : ℕ) (w : Worker J) → get_elem? d.workers i ≡ some w → w.phase ≡ left
  unfolding alive
  has_left i w there = not_alive w.phase (omega (arith, h.0, total-get alive d.workers i w there))

  step-IsOver : (e : Event J) → After (IsOver jobs) (step e d)
  unfolding step submit_job close close_queue end_close exit_dispatch
  step-IsOver (submits job) = ground (arith, h)
  step-IsOver (fetches k) = fetch-After (IsOver jobs) d k (λ job i rest _ _. h)
  step-IsOver (hands k) =
      hand-After (IsOver jobs) d k (λ job i w _ there e. let gone = has_left i w there in absurd cc)
  step-IsOver (offers i) =
      offer-After (IsOver jobs) d i (λ w there e. let gone = has_left i w there in absurd cc)
  step-IsOver (returns i) =
      return-After (IsOver jobs) d i (λ w job there e. let gone = has_left i w there in absurd cc)
  step-IsOver (rounds i) =
      round-After (IsOver jobs) d i (λ w job there e. let gone = has_left i w there in absurd cc)
  step-IsOver (quits i) =
      quit-After (IsOver jobs) d i (λ w there ne. absurd (ne (has_left i w there)))
  step-IsOver closes =
      let count : total alive (map stop d.workers) ≡ 0 = alive-stop d.workers ∙ h.0 in
      ground (arith, count, h)
  step-IsOver closes_queue = ground (arith, h)
  step-IsOver ends_close = ground (arith, h)
  step-IsOver exits = ground (arith, h)

-- Once Close of a started dispatcher has returned, no further job is started, whatever the goroutines
-- do: a job that has not reached a worker by then is lost.
pub run-returned :
    {J : Type 0} (max : ℤ) (es later : List (Event J)) (d n : Dispatcher J)
    → run_all step es (start (create_dispatcher max)) ≡ moved d
    → d.returned ≡ true
    → run_all step later d ≡ moved n
    → n.started ≡ d.started
run-returned {J = J} max es later d n e r l =
    let first = start (create_dispatcher {J = J} max) in
    let counted =
      After-moved IsCounted (run_all step es first) d e
        (run_all-After step IsCounted step-IsCounted es first (start-IsCounted J max)) in
    let over : IsOver d.started d = (sym counted.0 ∙ counted.1 r, refl) in
    (After-moved (IsOver d.started) (run_all step later d) n l
      (run_all-After step (IsOver d.started) (λ e m h. step-IsOver d.started m h e) later d over)).1
