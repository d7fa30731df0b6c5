-- ===== src/Pool/Invariant.antt =====
-- pkg/pool/pool.go: what every interleaving of Get, Put, Flush and the timer keeps.
use fa.Prelude.{
  ℕ, zero, suc, ◌+◌, ◌-◌, ◌≤◌, ◌≡◌, refl, sym, ap, ◌∙◌, ◌⊎◌, inl, inr, true, false, some, List, [],
  ◌∷◌, length, drop, length-drop, arith, Bool-cases, All,
}
use fa.Prelude.Int.{ℤ, pos, ◌+ℤ◌, ◌-ℤ◌, int_laws, +ℤ_parts, eq_of_parts, pos_part, neg_part}
use fa.Pool.{
  Buffer, Pool, new, get_last, free_buffer, flush_loop, flush, flush_all, reschedule, flush_aged,
  Allocation, granted, refused, get_round, store, returned, put, Event, gets, puts, flushes, fires,
  fire, step, run,
}

-- The capacity is that of an allocation.
abbrev pub IsSized : ℕ → Buffer → Type 0
IsSized n b = (b.len ≡ n) × (b.cap ≡ n)

-- A valid pool of buffers of size `n`.
pub record IsValid (n : ℕ) (p : Pool) : Type 0 where
  pub width : p.buffer_size ≡ n
  pub within : length p.cache ≤ p.pool_size
  pub least : p.min_fill ≤ length p.cache
  pub sized : All (IsSized n) p.cache
  -- Every buffer that is allocated is in use or in the cache.
  pub balanced : p.alloced ≡ p.in_use +ℤ pos (length p.cache)
  -- A cache that is not empty will be flushed.
  pub scheduled : (p.cache ≡ []) ⊎ (p.flush_pending ≡ true)
  pub ticking : p.flush_pending ≡ true → p.armed ≡ true

-- An allocation has the size that was asked for, and a buffer that comes back the size of the pool.
abbrev pub IsProper : ℕ → Event → Type 0
IsProper n (gets (granted b)) = IsSized n b
IsProper n (gets refused) = Unit {0}
IsProper n (puts b) = b.cap ≡ n
IsProper n flushes = Unit {0}
IsProper n fires = Unit {0}

pub new-IsValid : (n m : ℕ) → IsValid n (new n m)
unfolding new ◌+ℤ◌
new-IsValid n m = ground arith

-- The books stay balanced: a hit, an allocation, a buffer that is stored and one that is freed.
hit_balance : (i : ℤ) (n : ℕ) → i +ℤ pos (suc n) ≡ i +ℤ pos 1 +ℤ pos n
hit_balance i n = omega int_laws

grant_balance : (i : ℤ) (n : ℕ) → i +ℤ pos n +ℤ pos 1 ≡ i +ℤ pos 1 +ℤ pos n
grant_balance i n = omega int_laws

store_balance : (i : ℤ) (n : ℕ) → i +ℤ pos n ≡ i -ℤ pos 1 +ℤ pos (suc n)
store_balance i n = omega int_laws

free_balance : (i : ℤ) (n : ℕ) → i +ℤ pos n -ℤ pos 1 ≡ i -ℤ pos 1 +ℤ pos n
free_balance i n = omega int_laws

flush_balance : (i : ℤ) (n : ℕ) → i +ℤ pos (suc n) -ℤ pos 1 ≡ i +ℤ pos n
flush_balance i n = omega int_laws

gets-IsValid :
    (n : ℕ) (p : Pool) (a : Allocation)
    → IsProper n (gets a)
    → IsValid n p
    → IsValid n (get_round a p).1
unfolding get_round
gets-IsValid n p a h v =
    ground (arith, grant_balance p.in_use 0, hit_balance p.in_use (length p.cache - 1))

puts-IsValid :
    (n : ℕ) (p : Pool) (b : Buffer)
    → b.cap ≡ n
    → IsValid n p
    → (q : Pool) × (put b p ≡ some q) × IsValid n q
unfolding put
puts-IsValid n p b h v = (
  returned (store (record b { len = b.cap }) p),
  ground arith,
  ground (arith, store_balance p.in_use (length p.cache), free_balance p.in_use (length p.cache)),
)

-- `q` is `p` after `n` buffers went from the end of the cache to the system.
pub record Flushed (n : ℕ) (p q : Pool) : Type 0 where
  pub cut : q.cache ≡ drop n p.cache
  pub freed : q.alloced +ℤ pos n ≡ p.alloced
  pub used : q.in_use ≡ p.in_use
  pub room : q.pool_size ≡ p.pool_size
  pub width : q.buffer_size ≡ p.buffer_size
  pub filled : q.min_fill ≡ p.min_fill
  pub pending : q.flush_pending ≡ p.flush_pending
  pub armed : q.armed ≡ p.armed

add_suc : (b : ℤ) (n : ℕ) → b +ℤ pos (suc n) ≡ b +ℤ pos n +ℤ pos 1
add_suc b n = omega int_laws

sub_add : (a : ℤ) → a -ℤ pos 1 +ℤ pos 1 ≡ a
sub_add a = omega int_laws

freed_step : (a b : ℤ) (n : ℕ) → b +ℤ pos n ≡ a -ℤ pos 1 → b +ℤ pos (suc n) ≡ a
freed_step a b n h = add_suc b n ∙ ap (λ c. c +ℤ pos 1) h ∙ sub_add a

freed_none : (a : ℤ) → a +ℤ pos 0 ≡ a
freed_none a = omega int_laws

flush_loop_cons :
    (n : ℕ) (b : Buffer) (rest : List Buffer) (p q : Pool)
    → p.cache ≡ b ∷ rest
    → Flushed n (free_buffer (record p { cache = rest })) q
    → Flushed (suc n) p q
unfolding free_buffer
flush_loop_cons n b rest p q e s = ground (arith, freed_step p.alloced q.alloced n)

-- The loop does not index an empty cache.
pub flush_loop-Flushed :
    (n : ℕ) (p : Pool) (bs : List Buffer)
    → p.cache ≡ bs
    → n ≤ length bs
    → (q : Pool) × (flush_loop n p ≡ some q) × Flushed n p q
unfolding flush_loop get_last free_buffer
flush_loop-Flushed zero p bs e h = (p, refl, ground (arith, freed_none p.alloced))
flush_loop-Flushed (suc n) p [] e h = absurd (omega arith)
flush_loop-Flushed (suc n) p (b ∷ rest) e h =
    let (q, runs, s) =
      flush_loop-Flushed n (free_buffer (record p { cache = rest })) rest refl (omega arith) in
    (q, rw (e, get_last) runs, flush_loop_cons n b rest p q e s)

-- What a flush of `k` buffers keeps of the invariant, but for its schedule.
pub record IsFlushed (k n : ℕ) (p q : Pool) : Type 0 where
  pub width : q.buffer_size ≡ n
  pub cut : q.cache ≡ drop k p.cache
  pub filled : q.min_fill ≡ length q.cache
  pub within : length q.cache ≤ q.pool_size
  pub sized : All (IsSized n) q.cache
  pub balanced : q.alloced ≡ q.in_use +ℤ pos (length q.cache)
  pub used : q.in_use ≡ p.in_use
  pub pending : q.flush_pending ≡ p.flush_pending
  pub armed : q.armed ≡ p.armed

All-drop {ℓ κ} : {A : Type ℓ} (P : A → Type κ) (n : ℕ) (xs : List A) → All P xs → All P (drop n xs)
All-drop P zero xs h = h
All-drop P (suc n) [] h = h
All-drop P (suc n) (x ∷ xs) h = All-drop P n xs h.1

pub drop_all {ℓ} : {A : Type ℓ} (xs : List A) → drop (length xs) xs ≡ []
drop_all [] = refl
drop_all (x ∷ xs) = drop_all xs

cancel_freed : (i c : ℤ) (k n m : ℕ) → m + n ≡ k → c +ℤ pos n ≡ i +ℤ pos k → c ≡ i +ℤ pos m
cancel_freed i c k n m h e = eq_of_parts c (i +ℤ pos m) (
    omega (
      arith,
      +ℤ_parts c (pos n),
      +ℤ_parts i (pos k),
      +ℤ_parts i (pos m),
      ap pos_part e,
      ap neg_part e,
    ))

pub flush-IsFlushed :
    (k n : ℕ) (p : Pool)
    → k ≤ length p.cache
    → p.buffer_size ≡ n
    → length p.cache ≤ p.pool_size
    → All (IsSized n) p.cache
    → p.alloced ≡ p.in_use +ℤ pos (length p.cache)
    → (q : Pool) × (flush k p ≡ some q) × IsFlushed k n p q
unfolding flush
flush-IsFlushed k n p h d w z b =
    let (q, runs, s) = flush_loop-Flushed k p p.cache refl h in
    let shorter = length-drop k p.cache in
    let left : length q.cache + k ≡ length p.cache = ground (arith, s.cut, shorter) in
    (
      record q { min_fill = length q.cache },
      rw runs,
      record {
        width = s.width ∙ d;
        cut = s.cut;
        filled = refl;
        within = ground (arith, s.cut, s.room, shorter);
        sized = rw s.cut (All-drop (IsSized n) k p.cache z);
        balanced = rw s.used (
            cancel_freed p.in_use q.alloced (length p.cache) k (length q.cache) left (s.freed ∙ b));
        used = s.used;
        pending = s.pending;
        armed = s.armed;
      },
    )

flush_all-IsValid :
    (n : ℕ) (p : Pool) → IsValid n p → (q : Pool) × (flush_all p ≡ some q) × IsValid n q
unfolding flush_all
flush_all-IsValid n p v =
    let (q, runs, s) =
      flush-IsFlushed (length p.cache) n p (omega arith) v.width v.within v.sized v.balanced in
    (
      q,
      runs,
      record {
        width = s.width;
        within = s.within;
        least = omega (arith, s.filled);
        sized = s.sized;
        balanced = s.balanced;
        scheduled = inl (s.cut ∙ drop_all p.cache);
        ticking = λ e. s.armed ∙ v.ticking (sym s.pending ∙ e);
      },
    )

reschedule-IsValid :
    (n : ℕ) (p : Pool)
    → p.buffer_size ≡ n
    → length p.cache ≤ p.pool_size
    → p.min_fill ≡ length p.cache
    → All (IsSized n) p.cache
    → p.alloced ≡ p.in_use +ℤ pos (length p.cache)
    → p.flush_pending ≡ false
    → IsValid n (reschedule p)
unfolding reschedule
reschedule-IsValid n p d w m z b f = ground arith

pub fire-IsValid : (n : ℕ) (p : Pool) → IsValid n p → (q : Pool) × (fire p ≡ some q) × IsValid n q
unfolding fire flush_aged
fire-IsValid n p v = elim (Bool-cases p.armed) [
  | inl running ↦
      let (q, runs, s) =
        flush-IsFlushed p.min_fill n (record p { flush_pending = false; armed = false }) v.least
          v.width v.within v.sized v.balanced in
      (
        reschedule q,
        rw (running, runs),
        reschedule-IsValid n q s.width s.within s.filled s.sized s.balanced s.pending,
      )
  | inr stopped ↦ (p, rw stopped, v)
]

-- From a valid pool of buffers of size `n` an event whose allocated or returned buffer has that
-- size does not panic and leaves a valid pool.
pub step-IsValid :
    (n : ℕ) (e : Event) (p : Pool)
    → IsProper n e
    → IsValid n p
    → (q : Pool) × (step e p ≡ some q) × IsValid n q
unfolding step
step-IsValid n (gets a) p h v = ((get_round a p).1, refl, gets-IsValid n p a h v)
step-IsValid n (puts b) p h v = puts-IsValid n p b h v
step-IsValid n flushes p h v = flush_all-IsValid n p v
step-IsValid n fires p h v = fire-IsValid n p v

pub run-IsValid :
    (n : ℕ) (es : List Event) (p : Pool)
    → All (IsProper n) es
    → IsValid n p
    → (q : Pool) × (run es p ≡ some q) × IsValid n q
unfolding run
run-IsValid n [] p h v = (p, refl, v)
run-IsValid n (e ∷ es) p h v =
    let (q, steps, w) = step-IsValid n e p h.0 v in
    let (r, runs, u) = run-IsValid n es q h.1 w in (r, rw steps runs, u)

-- Every interleaving of Get, Put, Flush and the timer on a new pool, whose allocated and returned
-- buffers have the size of the pool, ends without a panic in a pool whose cache is within its limit,
-- whose books balance (allocated = in use + cached), and which will be flushed if it caches anything.
pub run-new-IsValid :
    (n m : ℕ) (es : List Event)
    → All (IsProper n) es
    → (q : Pool) × (run es (new n m) ≡ some q) × IsValid n q
run-new-IsValid n m es h = run-IsValid n es (new n m) h (new-IsValid n m)
