-- ===== src/Dispatch/Delivery.antt =====
-- pkg/queue/queue.go: where the channel of a worker can be, and to whom a job is handed.
use mathlib.Core.Path.{subst}
use fa.Prelude.{
  ℕ, zero, suc, ◌+◌, ◌≤◌, ◌≡◌, ◌≢◌, refl, sym, ◌⊎◌, inl, inr, true, false, Option, none, some,
  Option-cases, List, [], ◌∷◌, ◌++◌, map, ◌==◌, get_elem?, set, replicate, if◌then◌else◌, arith,
}
use fa.Prelude.Int.{ℤ}
use fa.Prelude.Steps.{moved, given, run_all, After, run_all-After, After-moved}
use fa.Prelude.Totals.{total, total-set, total-snoc, total-get}
use fa.Dispatch.Effects.{
  fetch-After, hand-After, offer-After, return-After, round-After, quit-After,
}
use fa.Dispatch.{
  Phase, offering, listening, left, serving, Worker, Courier, fetching, handing, delivered,
  Dispatcher, create_dispatcher, new_worker, start, receive, hand_at, offer_at, on_worker, stop,
  submit_job, close, close_queue, end_close, exit_dispatch, worker_count, fetch, hand, Event,
  submits, fetches, hands, offers, returns, rounds, quits, closes, closes_queue, ends_close, exits,
  step,
}

unfoldable pub at : ℕ → ℕ → ℕ
at i j = if i == j then 1 else 0

at_self : (i : ℕ) → at i i ≡ 1
unfolding at
at_self i = ground arith

at_ne : (i j : ℕ) → i ≢ j → at i j ≡ 0
unfolding at
at_ne i j h = ground (arith, h)

module _ {J : Type 0} where
  unfoldable pub heads_for : ℕ → Courier J → ℕ
  heads_for i (fetching job) = 0
  heads_for i (handing job j) = at i j
  heads_for i delivered = 0

  -- How often the channel of a worker is in the pool or with a courier.
  unfoldable pub places : ℕ → List ℕ → List (Courier J) → ℕ
  places i pool couriers = total (at i) pool + total (heads_for i) couriers

  abbrev pub PhaseFits : Phase J → ℕ → Type 0
  PhaseFits offering n = n ≡ 0
  PhaseFits listening n = n ≡ 1
  PhaseFits left n = n ≤ 1
  PhaseFits (serving job ready) n = n ≡ 0

  abbrev pub WorkerFits : Option (Worker J) → ℕ → Type 0
  WorkerFits none n = n ≡ 0
  WorkerFits (some w) n = PhaseFits w.phase n

  abbrev pub IsExclusive : Dispatcher J → Type 0
  IsExclusive d = (i : ℕ) → WorkerFits (get_elem? d.workers i) (places i d.pool d.couriers)

  set-WorkerFits :
      (ws : List (Worker J)) (j : ℕ) (v w : Worker J) (m n : ℕ → ℕ)
      → get_elem? ws j ≡ some v
      → ((i : ℕ) → WorkerFits (get_elem? ws i) (m i))
      → ((i : ℕ) → i ≢ j → n i ≡ m i)
      → PhaseFits w.phase (n j)
      → (i : ℕ) → WorkerFits (get_elem? (set ws j w) i) (n i)
  set-WorkerFits [] j v w m n e h same fits i = cc
  set-WorkerFits (x ∷ xs) zero v w m n e h same fits zero = fits
  set-WorkerFits (x ∷ xs) zero v w m n e h same fits (suc i) =
      rw (same (suc i) (λ k. omega arith)) (h (suc i))
  set-WorkerFits (x ∷ xs) (suc j) v w m n e h same fits zero =
      rw (same zero (λ k. omega arith)) (h zero)
  set-WorkerFits (x ∷ xs) (suc j) v w m n e h same fits (suc i) =
      set-WorkerFits xs j v w (λ k. m (suc k)) (λ k. n (suc k)) e (λ k. h (suc k))
        (λ k ne. same (suc k) (λ q. ne (omega arith))) fits i

  -- What the exclusive use of a channel says of its worker, at the place of the worker.
  module _ (d : Dispatcher J) (h : IsExclusive d) (i : ℕ) (w : Worker J)
      (there : get_elem? d.workers i ≡ some w) where
    here : PhaseFits w.phase (places i d.pool d.couriers)
    here = subst (λ o. WorkerFits o (places i d.pool d.couriers)) there (h i)

    -- A step of the worker that leaves the channels where they are.
    keep-IsExclusive :
        (v : Worker J)
        → (PhaseFits w.phase (places i d.pool d.couriers)
            → PhaseFits v.phase (places i d.pool d.couriers))
        → (k : ℕ) → WorkerFits (get_elem? (set d.workers i v) k) (places k d.pool d.couriers)
    keep-IsExclusive v f =
        set-WorkerFits d.workers i w v (λ k. places k d.pool d.couriers)
          (λ k. places k d.pool d.couriers) there h (λ k ne. refl) (f here)

    here_at : (p : Phase J) → w.phase ≡ p → PhaseFits p (places i d.pool d.couriers)
    here_at p e = subst (λ q. PhaseFits q (places i d.pool d.couriers)) e here

  PhaseFits-one : (p : Phase J) (n : ℕ) → PhaseFits p n → n ≤ 1
  PhaseFits-one offering n h = omega arith
  PhaseFits-one listening n h = omega arith
  PhaseFits-one left n h = h
  PhaseFits-one (serving job ready) n h = omega arith

  module _ (d : Dispatcher J) (h : IsExclusive d) where
    offer-IsExclusive : (i : ℕ) → After IsExclusive (on_worker offer_at i d)
    unfolding places
    offer-IsExclusive i = offer-After IsExclusive d i (λ w there e.
        set-WorkerFits d.workers i w (record w { phase = listening })
          (λ k. places k d.pool d.couriers) (λ k. places k (d.pool ++ (i ∷ [])) d.couriers) there h
          (λ k ne. omega (arith, total-snoc (at k) d.pool i, at_ne k i ne))
          (omega (arith, total-snoc (at i) d.pool i, at_self i, here_at d h i w there offering e)))

    fetch-IsExclusive : (k : ℕ) → After IsExclusive (fetch k d)
    unfolding places total heads_for
    fetch-IsExclusive k = fetch-After IsExclusive d k (λ job i rest e c n.
        let pooled : total (at n) d.pool ≡ at n i + total (at n) rest = rw e refl in
        let same : total (at n) d.pool + total (heads_for n) d.couriers
            ≡ total (at n) rest + total (heads_for n) (set d.couriers k (handing job i)) =
          omega (
            arith,
            pooled,
            total-set (heads_for n) d.couriers k (fetching job) (handing job i) c,
          ) in
        subst (WorkerFits (get_elem? d.workers n)) same (h n))

    hand-IsExclusive : (k : ℕ) → After IsExclusive (hand k d)
    unfolding places heads_for
    hand-IsExclusive k = hand-After IsExclusive d k (λ job i w c there e.
        set-WorkerFits d.workers i w (record w { phase = serving job false })
          (λ n. places n d.pool d.couriers) (λ n. places n d.pool (set d.couriers k delivered))
          there h
          (λ n ne.
            omega (
              arith,
              total-set (heads_for n) d.couriers k (handing job i) delivered c,
              at_ne n i ne,
            ))
          (omega (
            arith,
            total-set (heads_for i) d.couriers k (handing job i) delivered c,
            at_self i,
            here_at d h i w there listening e,
          )))

    submit_job-IsExclusive : (job : J) → After IsExclusive (submit_job job d)
    unfolding submit_job places heads_for
    submit_job-IsExclusive job =
        let next = (λ (n : ℕ).
          let same : total (at n) d.pool + total (heads_for n) (d.couriers ++ (fetching job ∷ []))
              ≡ total (at n) d.pool + total (heads_for n) d.couriers =
            omega (arith, total-snoc (heads_for n) d.couriers (fetching job)) in
          subst (WorkerFits (get_elem? d.workers n)) (sym same) (h n)) in
        ground (arith, next)

  stop-WorkerFits :
      (ws : List (Worker J)) (i n : ℕ)
      → WorkerFits (get_elem? ws i) n
      → WorkerFits (get_elem? (map stop ws) i) n
  unfolding stop
  stop-WorkerFits [] i n h = h
  stop-WorkerFits (w ∷ ws) zero n h = h
  stop-WorkerFits (w ∷ ws) (suc i) n h = stop-WorkerFits ws i n h

  step-IsExclusive : (e : Event J) (d : Dispatcher J) → IsExclusive d → After IsExclusive (step e d)
  unfolding step close close_queue end_close exit_dispatch
  step-IsExclusive (submits job) d h = submit_job-IsExclusive d h job
  step-IsExclusive (fetches k) d h = fetch-IsExclusive d h k
  step-IsExclusive (hands k) d h = hand-IsExclusive d h k
  step-IsExclusive (offers i) d h = offer-IsExclusive d h i
  step-IsExclusive (returns i) d h = return-After IsExclusive d i (λ w job there e.
      keep-IsExclusive d h i w there (record w { phase = serving job true })
        (λ _. here_at d h i w there (serving job false) e))
  step-IsExclusive (rounds i) d h = round-After IsExclusive d i (λ w job there e.
      keep-IsExclusive d h i w there (record w { phase = offering })
        (λ _. here_at d h i w there (serving job true) e))
  step-IsExclusive (quits i) d h = quit-After IsExclusive d i (λ w there _.
      keep-IsExclusive d h i w there (record w { phase = left; asked = false })
        (PhaseFits-one w.phase (places i d.pool d.couriers)))
  step-IsExclusive closes d h =
      let next = λ (i : ℕ). stop-WorkerFits d.workers i (places i d.pool d.couriers) (h i) in
      ground (arith, next)
  step-IsExclusive closes_queue d h = ground arith
  step-IsExclusive ends_close d h = ground arith
  step-IsExclusive exits d h = ground arith

new-WorkerFits :
    (J : Type 0) (n i : ℕ) → WorkerFits (get_elem? (replicate n (new_worker {J = J})) i) 0
unfolding new_worker
new-WorkerFits J zero i = refl
new-WorkerFits J (suc n) zero = refl
new-WorkerFits J (suc n) (suc i) = new-WorkerFits J n i

start-IsExclusive : (J : Type 0) (max : ℤ) → IsExclusive (start (create_dispatcher {J = J} max))
unfolding start create_dispatcher places total
start-IsExclusive J max i = new-WorkerFits J (worker_count max) i

module _ {J : Type 0} where
  held : (p : Phase J) (n : ℕ) → PhaseFits p n → 1 ≤ n → (p ≡ listening) ⊎ (p ≡ left)
  held offering n h k = absurd (omega arith)
  held listening n h k = inl refl
  held left n h k = inr refl
  held (serving job ready) n h k = absurd (omega arith)

  hand-listening :
      (d : Dispatcher J) (k i : ℕ) (job : J) (w : Worker J)
      → get_elem? d.couriers k ≡ some (handing job i)
      → get_elem? d.workers i ≡ some w
      → w.phase ≡ listening
      → hand k d
        ≡ moved (record d {
          workers = set d.workers i (record w { phase = serving job false });
          couriers = set d.couriers k delivered;
          started = d.started ++ (job ∷ []);
        })
  unfolding hand hand_at given receive
  hand-listening d k i job w there here p = rw there (rw here (rw p refl))

  -- From a started dispatcher, whatever the goroutines do, a job that has taken the channel of a worker
  -- is received by that worker at once, unless the worker has left: the worker is not serving another
  -- job, and it is not outside its select.
  pub run-hand :
      (max : ℤ) (es : List (Event J)) (d : Dispatcher J) (k i : ℕ) (job : J)
      → run_all step es (start (create_dispatcher max)) ≡ moved d
      → get_elem? d.couriers k ≡ some (handing job i)
      → (w : Worker J) × (get_elem? d.workers i ≡ some w)
        × (((w.phase ≡ listening)
              × (step (hands k) d
                  ≡ moved (record d {
                    workers = set d.workers i (record w { phase = serving job false });
                    couriers = set d.couriers k delivered;
                    started = d.started ++ (job ∷ []);
                  })))
            ⊎ (w.phase ≡ left))
  unfolding step places heads_for
  run-hand max es d k i job e there =
      let exclusive =
        After-moved IsExclusive (run_all step es (start (create_dispatcher max))) d e (
          run_all-After step IsExclusive step-IsExclusive es (start (create_dispatcher max))
            (start-IsExclusive J max)) in
      let out : 1 ≤ places i d.pool d.couriers =
        omega (arith, total-get (heads_for i) d.couriers k (handing job i) there, at_self i) in
      elim (Option-cases (get_elem? d.workers i)) [
        | inl missing ↦
            let zero_out : places i d.pool d.couriers ≡ 0 =
              subst (λ o. WorkerFits o (places i d.pool d.couriers)) missing (exclusive i) in
            absurd (omega arith)
        | inr found ↦
            let fits =
              subst (λ o. WorkerFits o (places i d.pool d.couriers)) found.1 (exclusive i) in
            (
              found.0,
              found.1,
              elim (held found.0.phase (places i d.pool d.couriers) fits out) [
                | inl p ↦ inl (p, hand-listening d k i job found.0 there found.1 p)
                | inr p ↦ inr p
              ],
            )
      ]
