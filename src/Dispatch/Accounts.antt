-- ===== src/Dispatch/Accounts.antt =====
-- pkg/queue/queue.go: what becomes of the submitted jobs.
use fa.Prelude.{ℕ, ◌+◌, ◌≡◌, refl, List, [], ◌∷◌, ◌++◌, arith}
use fa.Prelude.Int.{ℤ}
use fa.Prelude.Steps.{Result, blocked, crashed, moved, run_all, After, and_then-After, After-moved}
use fa.Prelude.Totals.{total, total-set, total-append, total-snoc}
use fa.Dispatch.Effects.{
  fetch-After, hand-After, offer-After, return-After, round-After, quit-After,
}
use fa.Dispatch.{
  Courier, fetching, handing, delivered, Dispatcher, create_dispatcher, start, offer_at, return_at,
  round_at, quit_at, on_worker, submit_job, close, close_queue, end_close, exit_dispatch, fetch,
  hand, Event, submits, fetches, hands, offers, returns, rounds, quits, closes, closes_queue,
  ends_close, exits, step,
}

module _ {J : Type 0} where
  -- The jobs that the events of a run submit.
  unfoldable pub submission : Event J → List J
  submission (submits job) = job ∷ []
  submission _ = []

  unfoldable pub submitted : List (Event J) → List J
  unfolding submission
  submitted [] = []
  submitted (e ∷ es) = submission e ++ submitted es

module _ {J : Type 0} (f : J → ℕ) where
  -- The weight of the job that a courier carries.
  unfoldable pub load : Courier J → ℕ
  load (fetching job) = f job
  load (handing job i) = f job
  load delivered = 0

  unfoldable accepted : Dispatcher J → ℕ
  accepted d = total load d.couriers + total f d.started

  module _ (d : Dispatcher J) where
    abbrev Same : Dispatcher J → Type 0
    Same e = accepted e ≡ accepted d

    fetch-Same : (k : ℕ) → After Same (fetch k d)
    unfolding accepted load
    fetch-Same k = fetch-After Same d k (λ job i rest _ c.
        omega (arith, total-set load d.couriers k (fetching job) (handing job i) c))

    hand-Same : (k : ℕ) → After Same (hand k d)
    unfolding accepted load
    hand-Same k = hand-After Same d k (λ job i w c _ _. omega (
      arith,
      total-set load d.couriers k (handing job i) delivered c,
      total-snoc f d.started job,
    ))

    close-Same : After Same (close d)
    unfolding close accepted
    close-Same = ground arith

    close_queue-Same : After Same (close_queue d)
    unfolding close_queue accepted
    close_queue-Same = ground arith

    end_close-Same : After Same (end_close d)
    unfolding end_close accepted
    end_close-Same = ground arith

    exit_dispatch-Same : After Same (exit_dispatch d)
    unfolding exit_dispatch accepted
    exit_dispatch-Same = ground arith

    submit_job-accepted :
        (job : J) → After (λ e. accepted e ≡ accepted d + f job) (submit_job job d)
    unfolding submit_job accepted load
    submit_job-accepted job = ground (arith, total-snoc load d.couriers (fetching job))

  -- An event that submits nothing.
  nothing_new :
      (d : Dispatcher J) (r : Result (Dispatcher J))
      → After (Same d) r
      → After (λ n. accepted n ≡ accepted d + 0) r
  nothing_new d blocked h = tt
  nothing_new d crashed h = tt
  nothing_new d (moved n) h = omega arith

  step-accepted :
      (e : Event J) (d : Dispatcher J)
      → After (λ n. accepted n ≡ accepted d + total f (submission e)) (step e d)
  unfolding step submission total accepted
  step-accepted (submits job) d =
      let plain : accepted d + (f job + 0) ≡ accepted d + f job = omega arith in
      rw plain (submit_job-accepted d job)
  step-accepted (fetches k) d = nothing_new d (fetch k d) (fetch-Same d k)
  step-accepted (hands k) d = nothing_new d (hand k d) (hand-Same d k)
  step-accepted (offers i) d =
      nothing_new d (on_worker offer_at i d) (offer-After (Same d) d i (λ w _ _. refl))
  step-accepted (returns i) d =
      nothing_new d (on_worker return_at i d) (return-After (Same d) d i (λ w job _ _. refl))
  step-accepted (rounds i) d =
      nothing_new d (on_worker round_at i d) (round-After (Same d) d i (λ w job _ _. refl))
  step-accepted (quits i) d =
      nothing_new d (on_worker quit_at i d) (quit-After (Same d) d i (λ w _ _. refl))
  step-accepted closes d = nothing_new d (close d) (close-Same d)
  step-accepted closes_queue d = nothing_new d (close_queue d) (close_queue-Same d)
  step-accepted ends_close d = nothing_new d (end_close d) (end_close-Same d)
  step-accepted exits d = nothing_new d (exit_dispatch d) (exit_dispatch-Same d)

  run_all-accepted :
      (es : List (Event J)) (d : Dispatcher J)
      → After (λ n. accepted n ≡ accepted d + total f (submitted es)) (run_all step es d)
  unfolding run_all submitted total
  run_all-accepted [] d = omega arith
  run_all-accepted (e ∷ es) d =
      and_then-After (λ n. accepted n ≡ accepted d + total f (submission e))
        (λ n. accepted n ≡ accepted d + total f (submission e ++ submitted es)) (step e d)
        (run_all step es) (step-accepted e d)
        (λ m first. later m first (run_all step es m) (run_all-accepted es m))
    where
      later :
          (m : Dispatcher J)
          → accepted m ≡ accepted d + total f (submission e)
          → (r : Result (Dispatcher J))
          → After (λ n. accepted n ≡ accepted m + total f (submitted es)) r
          → After (λ n. accepted n ≡ accepted d + total f (submission e ++ submitted es)) r
      later m first blocked h = tt
      later m first crashed h = tt
      later m first (moved n) h = omega (arith, total-append f (submission e) (submitted es))

  -- From a started dispatcher, whatever the goroutines do, and however jobs are weighed (by 1 for one
  -- job and 0 for the others, say): the submitted jobs are those that a goroutine still carries to a
  -- worker and those that have been started, each as often as it was submitted.
  pub run-submitted :
      (max : ℤ) (es : List (Event J)) (d : Dispatcher J)
      → run_all step es (start (create_dispatcher max)) ≡ moved d
      → total f (submitted es) ≡ total load d.couriers + total f d.started
  unfolding accepted start create_dispatcher total
  run-submitted max es d e =
      let first = start (create_dispatcher max) in
      let all =
        After-moved (λ n. accepted n ≡ accepted first + total f (submitted es))
          (run_all step es first) d e (run_all-accepted es first) in
      let none_yet : accepted first ≡ 0 = omega arith in omega (arith, all, none_yet)
