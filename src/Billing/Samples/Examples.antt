-- ===== src/Billing/Samples/Examples.antt =====
-- web/routers/server.go: an evening of samples.
use fa.Prelude.{◌≡◌, refl, List, [], ◌∷◌, map}
use fa.Prelude.Int.{ℤ, pos, int64, uint64}
use fa.Prelude.Text.{Text}
use fa.Billing.{EfsUsage}
use fa.Billing.Samples.{Sample, efs_rounds, s3_rounds}
use fa.Billing.Samples.Peaks.{highest, periods, s3_rounds-periods}

-- At 10:30, 10:59, 11:00, 11:01 and 11:20.
abbrev evening : List (Text × Sample ℤ)
evening =
    (b'a' ∷ [], record { value = pos 30; now = pos 1030; minute = 30 })
    ∷ (b'b' ∷ [], record { value = pos 50; now = pos 1059; minute = 59 })
    ∷ (b'c' ∷ [], record { value = pos 40; now = pos 1100; minute = 0 })
    ∷ (b'd' ∷ [], record { value = pos 20; now = pos 1101; minute = 1 })
    ∷ (b'e' ∷ [], record { value = pos 60; now = pos 1120; minute = 20 })
    ∷ []

s3_rounds-periods_example :
    map
      (λ u. u.used)
      (s3_rounds (pos 4) evening (record { peek_size = pos 0; start_time = pos 1000 }))
    ≡ map (λ p. uint64 (highest p)) (periods [] evening)
s3_rounds-periods_example = s3_rounds-periods (pos 4) evening (pos 1000)

-- The highest of the first hour is reported at 11:00, and what a second sample a minute later finds
-- on its own.
evening_used :
    map
      (λ u. u.used)
      (s3_rounds (pos 4) evening (record { peek_size = pos 0; start_time = pos 1000 }))
    ≡ 50 ∷ 20 ∷ []
unfolding s3_rounds uint64
evening_used = refl

abbrev disk : EfsUsage
disk = record {
  usage_id = b'u' ∷ [];
  used = 70;
  tenant_id = pos 4;
  file_system_id = [];
  cloud_account = [];
  start_time = pos 1100;
  end_time = pos 0;
}

efs_hour :
    efs_rounds
      (record { value = record disk { used = 90 }; now = pos 1030; minute = 30 }
        ∷ record { value = disk; now = pos 1100; minute = 0 }
        ∷ [])
      (record { peek_size = pos 0; start_time = pos 1000 })
    ≡ record disk { used = 90; start_time = pos 1000; end_time = pos 1100 } ∷ []
unfolding efs_rounds int64 uint64
efs_hour = refl
