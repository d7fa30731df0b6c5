-- ===== src/Pool/Aging.antt =====
-- pkg/pool/pool.go: buffers that nobody needed since the last flush go back to the system.
use Prim.Native.Nat.{min}
use fa.Prelude.{
  ℕ, ◌≤◌, ◌≡◌, refl, inl, inr, sym, ap, ◌∙◌, true, false, none, some, List, [], ◌∷◌, length, drop,
  arith, Bool-cases, All,
}
use fa.Prelude.Monad.{◌>>=◌}
use fa.Pool.{
  Pool, reschedule, flush_aged, get_round, put, Event, gets, puts, flushes, fires, fire, step, run,
}
use fa.Pool.Invariant.{
  drop_all, IsValid, IsProper, flush-IsFlushed, fire-IsValid, step-IsValid, run-IsValid,
}

-- Gets and puts.
abbrev pub IsUse : Event → Type 0
IsUse (gets a) = Unit {0}
IsUse (puts b) = Unit {0}
IsUse flushes = ⊥
IsUse fires = ⊥

-- The smallest fill of the cache after each event of a run, and `low` before it.
abbrev pub lowest : ℕ → List Event → Pool → ℕ
lowest low [] p = low
lowest low (e ∷ es) p = elim (step e p) [
  | none ↦ low
  | some q ↦ lowest (min low (length q.cache)) es q
]

use_min_fill :
    (e : Event) (p q : Pool)
    → IsUse e
    → p.min_fill ≤ length p.cache
    → step e p ≡ some q
    → q.min_fill ≡ min p.min_fill (length q.cache)
unfolding step get_round put
use_min_fill (gets a) p q h l s = ground arith
use_min_fill (puts b) p q h l s = ground arith
use_min_fill flushes p q h l s = absurd h
use_min_fill fires p q h l s = absurd h

min_fill-lowest :
    (n : ℕ) (es : List Event) (p q : Pool)
    → All IsUse es
    → All (IsProper n) es
    → IsValid n p
    → run es p ≡ some q
    → q.min_fill ≡ lowest p.min_fill es p
unfolding run
min_fill-lowest n [] p q h g v s = ground arith
min_fill-lowest n (e ∷ es) p q h g v s =
    let (r, steps, w) = step-IsValid n e p g.0 v in
    let runs : run es r ≡ some q = sym (ap (λ o. o >>= run es) steps) ∙ s in
    rw (steps, lowest)
      (rw (← use_min_fill e p r h.0 v.least steps) (min_fill-lowest n es r q h.1 g.1 w runs))

-- What a timer that runs does when it fires, for a valid pool.
fire_running :
    (n : ℕ) (p : Pool)
    → IsValid n p
    → p.armed ≡ true
    → (r : Pool) × (fire p ≡ some r)
      × (r.cache ≡ drop p.min_fill p.cache)
      × (r.min_fill ≡ length r.cache)
      × (r.in_use ≡ p.in_use)
      × (r.armed ≡ r.flush_pending)
unfolding fire flush_aged reschedule
fire_running n p v running =
    let (q, runs, s) =
      flush-IsFlushed p.min_fill n (record p { flush_pending = false; armed = false }) v.least
        v.width v.within v.sized v.balanced in
    let (c, f, u, a) = reschedule_keeps q (s.pending ∙ sym s.armed) in
    (reschedule q, rw (running, runs), c ∙ s.cut, f ∙ s.filled ∙ ap length (sym c), u ∙ s.used, a)
  where
    reschedule_keeps :
        (q : Pool)
        → q.flush_pending ≡ q.armed
        → ((reschedule q).cache ≡ q.cache)
          × ((reschedule q).min_fill ≡ q.min_fill)
          × ((reschedule q).in_use ≡ q.in_use)
          × ((reschedule q).armed ≡ (reschedule q).flush_pending)
    reschedule_keeps q e = ground arith

-- After any gets and puts on a valid pool, the firing timer frees as many buffers, from the end of
-- the cache, as the smallest fill that the cache had since the last flush, and starts counting from
-- the new fill.
pub fire-lowest :
    (n : ℕ) (es : List Event) (p q : Pool)
    → All IsUse es
    → All (IsProper n) es
    → IsValid n p
    → run es p ≡ some q
    → q.armed ≡ true
    → (r : Pool) × (fire q ≡ some r)
      × (r.cache ≡ drop (lowest p.min_fill es p) q.cache)
      × (r.min_fill ≡ length r.cache)
fire-lowest n es p q h g v s running =
    let (q', runs, w) = run-IsValid n es p g v in
    let same : q' ≡ q = cc in
    let (r, fired, cut, filled, _, _) = fire_running n q (rw same at w) running in
    (r, fired, cut ∙ ap (λ k. drop k q.cache) (min_fill-lowest n es p q h g v s), filled)

-- The second firing, if the first left the timer running.
fire_rest :
    (n : ℕ) (q : Pool)
    → IsValid n q
    → q.min_fill ≡ length q.cache
    → q.armed ≡ q.flush_pending
    → (r : Pool) × (fire q ≡ some r) × (r.cache ≡ []) × (r.in_use ≡ q.in_use)
unfolding fire
fire_rest n q w filled starts = elim (Bool-cases q.armed) [
  | inl runs ↦
      let (r, fired, cut, _, used, _) = fire_running n q w runs in
      (r, fired, cut ∙ ap (λ k. drop k q.cache) filled ∙ drop_all q.cache, used)
  | inr rests ↦ (q, rw rests, ground arith, refl)
]

-- Two firings of a running timer with nothing between them free the whole cache of a valid pool.
pub fire_twice-empty :
    (n : ℕ) (p : Pool)
    → IsValid n p
    → p.armed ≡ true
    → (q r : Pool) × (fire p ≡ some q) × (fire q ≡ some r) × (r.cache ≡ []) × (r.in_use ≡ p.in_use)
fire_twice-empty n p v running =
    let (q, fired, _, filled, used, starts) = fire_running n p v running in
    let (q', fired', w') = fire-IsValid n p v in
    let same : q' ≡ q = cc in
    let (r, again, empty, used') = fire_rest n q (rw same at w') filled starts in
    (q, r, fired, again, empty, used' ∙ used)
