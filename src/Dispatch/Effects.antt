-- ===== src/Dispatch/Effects.antt =====
-- pkg/queue/queue.go: what each event changes, for a property of what it leads to.
use fa.Prelude.{
  ℕ, ◌-◌, ◌≡◌, ◌≢◌, refl, Bool, true, false, some, List, [], ◌∷◌, ◌++◌, ◌==◌, ltb, length,
  get_elem?, set, if◌then◌else◌,
}
use fa.Prelude.Steps.{Result, blocked, crashed, moved, After, given-After}
use fa.Dispatch.{
  Phase, offering, listening, left, serving, Worker, Courier, fetching, handing, delivered,
  Dispatcher, take_channel, fetch_at, fetch, receive, hand_at, hand, offer_at, return_at, round_at,
  leave, quit_at, on_worker,
}

module _ {J : Type 0} (P : Dispatcher J → Type 0) (d : Dispatcher J) where
  test-After :
      (b : Bool) (r s : Result (Dispatcher J))
      → (b ≡ true → After P r)
      → (b ≡ false → After P s)
      → After P (if b then r else s)
  test-After true r s h k = h refl
  test-After false r s h k = k refl

  -- A courier takes the first channel of the pool.
  module _ (k : ℕ)
      (next : (job : J) (i : ℕ) (rest : List ℕ)
        → d.pool ≡ i ∷ rest
        → get_elem? d.couriers k ≡ some (fetching job)
        → P (record d { pool = rest; couriers = set d.couriers k (handing job i) })) where
    take_channel-After :
        (pool : List ℕ) (job : J)
        → d.pool ≡ pool
        → get_elem? d.couriers k ≡ some (fetching job)
        → After P (take_channel pool job k d)
    unfolding take_channel
    take_channel-After [] job e there = tt
    take_channel-After (i ∷ rest) job e there = next job i rest e there

    fetch_at-After : (c : Courier J) → get_elem? d.couriers k ≡ some c → After P (fetch_at c k d)
    unfolding fetch_at
    fetch_at-After (fetching job) there = take_channel-After d.pool job refl there
    fetch_at-After (handing job i) there = tt
    fetch_at-After delivered there = tt

    pub fetch-After : After P (fetch k d)
    unfolding fetch
    fetch-After = given-After P (get_elem? d.couriers k) (λ c. fetch_at c k d) fetch_at-After

  -- A worker at its select receives a job.
  module _ (k : ℕ)
      (next : (job : J) (i : ℕ) (w : Worker J)
        → get_elem? d.couriers k ≡ some (handing job i)
        → get_elem? d.workers i ≡ some w
        → w.phase ≡ listening
        → P (record d {
          workers = set d.workers i (record w { phase = serving job false });
          couriers = set d.couriers k delivered;
          started = d.started ++ (job ∷ []);
        })) where
    receive-After :
        (p : Phase J) (job : J) (i : ℕ) (w : Worker J)
        → get_elem? d.couriers k ≡ some (handing job i)
        → get_elem? d.workers i ≡ some w
        → w.phase ≡ p
        → After P (receive p job i w k d)
    unfolding receive
    receive-After listening job i w there here e = next job i w there here e
    receive-After _ job i w there here e = tt

    hand_at-After : (c : Courier J) → get_elem? d.couriers k ≡ some c → After P (hand_at c k d)
    unfolding hand_at
    hand_at-After (fetching job) there = tt
    hand_at-After (handing job i) there =
        given-After P (get_elem? d.workers i) (λ w. receive w.phase job i w k d)
          (λ w here. receive-After w.phase job i w there here refl)
    hand_at-After delivered there = tt

    pub hand-After : After P (hand k d)
    unfolding hand
    hand-After = given-After P (get_elem? d.couriers k) (λ c. hand_at c k d) hand_at-After

  on_worker-After :
      (act : Phase J → ℕ → Worker J → Dispatcher J → Result (Dispatcher J)) (i : ℕ)
      → ((w : Worker J)
          → get_elem? d.workers i ≡ some w
          → (p : Phase J) → w.phase ≡ p
          → After P (act p i w d))
      → After P (on_worker act i d)
  unfolding on_worker
  on_worker-After act i h =
      given-After P (get_elem? d.workers i) (λ w. act w.phase i w d)
        (λ w there. h w there w.phase refl)

  -- A worker offers its channel, its job returns, it ends its round, and it leaves.
  module _ (i : ℕ) where
    pub offer-After :
        ((w : Worker J)
          → get_elem? d.workers i ≡ some w
          → w.phase ≡ offering
          → P (record d {
            workers = set d.workers i (record w { phase = listening });
            pool = d.pool ++ (i ∷ []);
          }))
        → After P (on_worker offer_at i d)
    unfolding offer_at
    offer-After next = on_worker-After offer_at i at_phase
      where
        at_phase :
            (w : Worker J)
            → get_elem? d.workers i ≡ some w
            → (p : Phase J) → w.phase ≡ p
            → After P (offer_at p i w d)
        at_phase w there offering e =
            test-After (ltb (length d.pool) d.max_workers)
              (moved (record d {
                workers = set d.workers i (record w { phase = listening });
                pool = d.pool ++ (i ∷ []);
              }))
              blocked (λ _. next w there e) (λ _. tt)
        at_phase w there _ e = tt

    pub return-After :
        ((w : Worker J) (job : J)
          → get_elem? d.workers i ≡ some w
          → w.phase ≡ serving job false
          → P (record d { workers = set d.workers i (record w { phase = serving job true }) }))
        → After P (on_worker return_at i d)
    unfolding return_at
    return-After next = on_worker-After return_at i at_phase
      where
        at_phase :
            (w : Worker J)
            → get_elem? d.workers i ≡ some w
            → (p : Phase J) → w.phase ≡ p
            → After P (return_at p i w d)
        at_phase w there (serving job false) e = next w job there e
        at_phase w there _ e = tt

    pub round-After :
        ((w : Worker J) (job : J)
          → get_elem? d.workers i ≡ some w
          → w.phase ≡ serving job true
          → P (record d { workers = set d.workers i (record w { phase = offering }) }))
        → After P (on_worker round_at i d)
    unfolding round_at
    round-After next = on_worker-After round_at i at_phase
      where
        at_phase :
            (w : Worker J)
            → get_elem? d.workers i ≡ some w
            → (p : Phase J) → w.phase ≡ p
            → After P (round_at p i w d)
        at_phase w there (serving job true) e = next w job there e
        at_phase w there _ e = tt

    module _
        (next : (w : Worker J)
          → get_elem? d.workers i ≡ some w
          → w.phase ≢ left
          → P (record d {
            workers = set d.workers i (record w { phase = left; asked = false });
            wg = d.wg - 1;
          })) where
      leave-After :
          (w : Worker J) → get_elem? d.workers i ≡ some w → w.phase ≢ left → After P (leave i w d)
      unfolding leave
      leave-After w there ne =
          test-After (d.wg == 0) crashed
            (moved (record d {
              workers = set d.workers i (record w { phase = left; asked = false });
              wg = d.wg - 1;
            }))
            (λ _. tt) (λ _. next w there ne)

      pub quit-After : After P (on_worker quit_at i d)
      unfolding quit_at
      quit-After = on_worker-After quit_at i at_phase
        where
          at_phase :
              (w : Worker J)
              → get_elem? d.workers i ≡ some w
              → (p : Phase J) → w.phase ≡ p
              → After P (quit_at p i w d)
          at_phase w there listening e =
              test-After w.asked (leave i w d) blocked (λ _. leave-After w there (λ l. cc))
                (λ _. tt)
          at_phase w there (serving job ready) e =
              test-After w.asked (leave i w d) blocked (λ _. leave-After w there (λ l. cc))
                (λ _. tt)
          at_phase w there _ e = tt
