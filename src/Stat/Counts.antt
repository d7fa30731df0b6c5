-- ===== src/Stat/Counts.antt =====
-- internal/backup/stat.go: what the counters say after a run.
use fa.Prelude.{ℕ, ◌+◌, ◌%◌, ◌^◌, ◌≤◌, ◌<◌, ◌≡◌, ◌↔◌, refl, true, List, [], ◌∷◌, arith}
use fa.Stat.{
  RepoStat, zeros, inc, decr, is_safe_maintain, Event, backup_waits, backup_waited, backup_starts,
  backup_succeeds, backup_fails, restore_waits, restore_waited, restore_starts, restore_succeeds,
  restore_fails, step, run,
}

-- How many events of a kind a run has: 1 for each that counts.
unfoldable pub count : (Event → ℕ) → List Event → ℕ
count f [] = 0
count f (e ∷ es) = f e + count f es

abbrev pub backup_start : Event → ℕ
backup_start backup_starts = 1
backup_start backup_waited = 1
backup_start _ = 0

abbrev pub backup_end : Event → ℕ
backup_end backup_succeeds = 1
backup_end backup_fails = 1
backup_end _ = 0

abbrev pub restore_start : Event → ℕ
restore_start restore_starts = 1
restore_start restore_waited = 1
restore_start _ = 0

abbrev pub restore_end : Event → ℕ
restore_end restore_succeeds = 1
restore_end restore_fails = 1
restore_end _ = 0

abbrev pub wait_start : Event → ℕ
wait_start backup_waits = 1
wait_start restore_waits = 1
wait_start _ = 0

abbrev pub wait_end : Event → ℕ
wait_end backup_waited = 1
wait_end restore_waited = 1
wait_end _ = 0

-- The counters are below 2 ^ 32, and balance with starts and ends modulo it.
abbrev Balances : ℕ → ℕ → ℕ → ℕ → Type 0
Balances before after up down = (after + down) % 2 ^ 32 ≡ (before + up) % 2 ^ 32

step-running_backups :
    (e : Event) (s : RepoStat) (a u d : ℕ)
    → Balances (step e s).running_backups a u d
    → Balances s.running_backups a (backup_start e + u) (backup_end e + d)
unfolding step inc decr
step-running_backups e s a u d h = ground arith

step-running_restores :
    (e : Event) (s : RepoStat) (a u d : ℕ)
    → Balances (step e s).running_restores a u d
    → Balances s.running_restores a (restore_start e + u) (restore_end e + d)
unfolding step inc decr
step-running_restores e s a u d h = ground arith

step-pending_backups :
    (e : Event) (s : RepoStat) (a u d : ℕ)
    → Balances (step e s).pending_backups a u d
    → Balances s.pending_backups a (wait_start e + u) (wait_end e + d)
unfolding step inc decr
step-pending_backups e s a u d h = ground arith

-- The counters of running work and that of waiting restores.
abbrev Fits : RepoStat → Type 0
Fits s = (s.running_backups < 2 ^ 32) × (s.running_restores < 2 ^ 32) × (s.pending_restores ≡ 0)

step-Fits : (e : Event) (s : RepoStat) → Fits s → Fits (step e s)
unfolding step inc decr
step-Fits e s h = ground arith

run-Fits : (es : List Event) (s : RepoStat) → Fits s → Fits (run es s)
unfolding run
run-Fits [] s h = h
run-Fits (e ∷ es) s h = run-Fits es (step e s) (step-Fits e s h)

run-running_backups :
    (es : List Event) (s : RepoStat)
    → Balances s.running_backups
        (run es s).running_backups
        (count backup_start es)
        (count backup_end es)
unfolding run count
run-running_backups [] s = refl
run-running_backups (e ∷ es) s = step-running_backups e s _ _ _ (run-running_backups es (step e s))

run-running_restores :
    (es : List Event) (s : RepoStat)
    → Balances s.running_restores
        (run es s).running_restores
        (count restore_start es)
        (count restore_end es)
unfolding run count
run-running_restores [] s = refl
run-running_restores (e ∷ es) s =
    step-running_restores e s _ _ _ (run-running_restores es (step e s))

run-pending_backups :
    (es : List Event) (s : RepoStat)
    → Balances s.pending_backups
        (run es s).pending_backups
        (count wait_start es)
        (count wait_end es)
unfolding run count
run-pending_backups [] s = refl
run-pending_backups (e ∷ es) s = step-pending_backups e s _ _ _ (run-pending_backups es (step e s))

-- Maintenance is safe exactly when as many backups have ended as have started, and as many restores,
-- when no more have ended than started and fewer than 2 ^ 32 of each have started.
pub run-is_safe_maintain :
    (es : List Event)
    → count backup_end es ≤ count backup_start es
    → count backup_start es < 2 ^ 32
    → count restore_end es ≤ count restore_start es
    → count restore_start es < 2 ^ 32
    → (is_safe_maintain (run es zeros) ≡ true) ↔ (
        (count backup_end es ≡ count backup_start es)
        × (count restore_end es ≡ count restore_start es))
unfolding is_safe_maintain zeros
run-is_safe_maintain es b bl r rl =
    let (fb, fr, _) = run-Fits es zeros (omega arith, omega arith, refl) in
    let nb = run-running_backups es zeros in
    let nr = run-running_restores es zeros in
    let backups : (run es zeros).running_backups + count backup_end es ≡ count backup_start es =
      omega arith in
    let restores : (run es zeros).running_restores + count restore_end es ≡ count restore_start es =
      omega arith in
    ground arith

-- Restores that wait are counted as backups: the counter of pending restores stays 0 in every run, and
-- that of pending backups is, modulo 2 ^ 32, the number of waits of both kinds less the number of
-- their ends.
pub run-pending :
    (es : List Event)
    → ((run es zeros).pending_restores ≡ 0)
      × (((run es zeros).pending_backups + count wait_end es) % 2 ^ 32
          ≡ count wait_start es % 2 ^ 32)
unfolding zeros
run-pending es = (
  (run-Fits es zeros (omega arith, omega arith, refl)).2,
  omega (arith, run-pending_backups es zeros),
)
