-- ===== src/Backups/Attempts/Counted.antt =====
-- internal/backup/default_provider.go: the counters over one call of BackupFile.
use fa.Prelude.{
  ℕ, zero, suc, ◌+◌, ◌≡◌, refl, Bool, true, false, ◌&&◌, Option, none, some, List, [], ◌∷◌, ◌++◌,
  replicate, if◌then◌else◌, arith,
}
use fa.Stat.{Event, backup_waits, backup_waited, backup_starts, backup_succeeds, backup_fails}
use fa.Stat.Counts.{count, backup_start, backup_end, wait_start, wait_end}
use fa.Backups.{ProviderError}
use fa.Backups.Attempts.{
  Attempt, have_wait, error_of, if_nil, wait_events, start_events, is_refused, backup_file,
}

count-append : (f : Event → ℕ) (xs ys : List Event) → count f (xs ++ ys) ≡ count f xs + count f ys
unfolding count
count-append f [] ys = omega arith
count-append f (x ∷ xs) ys = omega (arith, count-append f xs ys)

count-replicate-0 : (f : Event → ℕ) (e : Event) (n : ℕ) → f e ≡ 0 → count f (replicate n e) ≡ 0
unfolding count
count-replicate-0 f e zero h = refl
count-replicate-0 f e (suc n) h = omega (arith, count-replicate-0 f e n h)

count-replicate-1 : (f : Event → ℕ) (e : Event) (n : ℕ) → f e ≡ 1 → count f (replicate n e) ≡ n
unfolding count
count-replicate-1 f e zero h = refl
count-replicate-1 f e (suc n) h = omega (arith, count-replicate-1 f e n h)

backup_file-accepted :
    (a : Attempt)
    → a.throttled ≡ true
    → a.locked ≡ true
    → (backup_file false a).events
      ≡ replicate a.waits backup_waits
        ++ (start_events backup_waited backup_starts a
            ++ (if_nil (error_of a.ending) backup_succeeds backup_fails ∷ []))
unfolding backup_file is_refused wait_events
backup_file-accepted a on given = rw (on, given) refl

end-of :
    {A : Type 0} (P : A → Type 0) (e : Option ProviderError) (x y : A)
    → P x
    → P y
    → P (if_nil e x y)
unfolding if_nil
end-of P none x y h k = h
end-of P (some e) x y h k = k

count-start :
    (f : Event → ℕ) (a : Attempt)
    → count f (start_events backup_waited backup_starts a)
      ≡ (if a.started then (if have_wait a then f backup_waited else f backup_starts) else 0)
unfolding count start_events
count-start f a = by_tests a.started (have_wait a)
  where
    by_tests :
        (s h : Bool)
        → count f (if s then (if h then backup_waited else backup_starts) ∷ [] else [])
          ≡ (if s then (if h then f backup_waited else f backup_starts) else 0)
    by_tests true true = omega arith
    by_tests true false = omega arith
    by_tests false h = refl

-- The counted kind adds up over the waits, the start and the end.
count-parts :
    (f : Event → ℕ) (a : Attempt) (n m : ℕ)
    → a.throttled ≡ true
    → a.locked ≡ true
    → count f (replicate a.waits backup_waits) ≡ n
    → f (if_nil (error_of a.ending) backup_succeeds backup_fails) ≡ m
    → count f (backup_file false a).events
      ≡ n
        + ((if a.started then (if have_wait a then f backup_waited else f backup_starts) else 0)
            + m)
unfolding count
count-parts f a n m on given waits ends =
    let last = if_nil (error_of a.ending) backup_succeeds backup_fails in
    let starts = start_events backup_waited backup_starts a in
    rw (backup_file-accepted a on given) (
      omega (
        arith,
        count-append f (replicate a.waits backup_waits) (starts ++ (last ∷ [])),
        count-append f starts (last ∷ []),
        count-start f a,
        waits,
        ends,
      ))

-- BackupFile of a job that is not registered yet, with the slot given by the throttle: it counts a
-- wait for each round of the throttle, but the end of one wait at most; the start of a backup only if
-- the callback has run; and in each case the end of a backup.
pub backup_file-counted :
    (a : Attempt)
    → a.throttled ≡ true
    → a.locked ≡ true
    → (count wait_start (backup_file false a).events ≡ a.waits)
      × (count wait_end (backup_file false a).events ≡ (if a.started && have_wait a then 1 else 0))
      × (count backup_start (backup_file false a).events ≡ (if a.started then 1 else 0))
      × (count backup_end (backup_file false a).events ≡ 1)
backup_file-counted a on given =
    let ending = error_of a.ending in
    let waits =
      count-parts wait_start a a.waits 0 on given
        (count-replicate-1 wait_start backup_waits a.waits refl)
        (end-of (λ e. wait_start e ≡ 0) ending backup_succeeds backup_fails refl refl) in
    let waited =
      count-parts wait_end a 0 0 on given (count-replicate-0 wait_end backup_waits a.waits refl)
        (end-of (λ e. wait_end e ≡ 0) ending backup_succeeds backup_fails refl refl) in
    let started =
      count-parts backup_start a 0 0 on given
        (count-replicate-0 backup_start backup_waits a.waits refl)
        (end-of (λ e. backup_start e ≡ 0) ending backup_succeeds backup_fails refl refl) in
    let ended =
      count-parts backup_end a 0 1 on given (count-replicate-0 backup_end backup_waits a.waits refl)
        (end-of (λ e. backup_end e ≡ 1) ending backup_succeeds backup_fails refl refl) in
    (ground (arith, waits), ground (arith, waited), ground (arith, started), ground (arith, ended))
