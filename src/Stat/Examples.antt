-- ===== src/Stat/Examples.antt =====
-- internal/backup/stat.go: a backup that waits, two that run, and a restore that waits.
use fa.Prelude.{◌≡◌, ◌↔◌, refl, true, List, [], ◌∷◌, arith}
use fa.Stat.{
  zeros, is_safe_maintain, Event, backup_waits, backup_waited, backup_starts, backup_succeeds,
  backup_fails, restore_waits, run,
}
use fa.Stat.Counts.{
  count, backup_start, backup_end, restore_start, restore_end, run-is_safe_maintain,
}

abbrev day : List Event
day =
    backup_starts ∷ backup_waits ∷ backup_succeeds ∷ backup_waited ∷ restore_waits ∷ backup_fails
    ∷ []

day_counters :
    run day zeros ≡ record zeros { pending_backups = 1; success_backups = 1; failed_backups = 1 }
unfolding run zeros
day_counters = refl

run-is_safe_maintain_example : (is_safe_maintain (run day zeros) ≡ true) ↔ (
    (count backup_end day ≡ count backup_start day)
    × (count restore_end day ≡ count restore_start day))
unfolding count
run-is_safe_maintain_example =
    run-is_safe_maintain day (omega arith) (omega arith) (omega arith) (omega arith)
