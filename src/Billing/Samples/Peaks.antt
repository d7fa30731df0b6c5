-- ===== src/Billing/Samples/Peaks.antt =====
-- web/routers/server.go: what the usages of a run report, described by periods.
use fa.Prelude.{◌≡◌, refl, ap, ◌||◌, List, [], ◌∷◌, map, ◌==◌, Bool-cases, inl, inr, if◌then◌else◌}
use fa.Prelude.Int.{ℤ, pos, ltb_ℤ, uint64}
use fa.Prelude.Text.{Text}
use fa.Billing.Samples.{Sample, peak, s3_round, s3_rounds}

-- The highest of the values, and of 0.
unfoldable pub highest : List ℤ → ℤ
highest [] = pos 0
highest (x ∷ xs) = let rest = highest xs in if ltb_ℤ rest x then x else rest

-- The values of the periods that are closed, each up to and with its closing sample, beginning with
-- the values `open_` of the period that is under way, the latest first.
unfoldable pub periods : List ℤ → List (Text × Sample ℤ) → List (List ℤ)
periods open_ [] = []
periods open_ ((id, s) ∷ ss) =
    let closed = (s.value ∷ open_) ∷ periods [] ss in
    let going = periods (s.value ∷ open_) ss in
    if (s.minute == 0) || (s.minute == 1) then closed else going

s3_rounds-from :
    (tenant_id : ℤ) (ss : List (Text × Sample ℤ)) (open_ : List ℤ) (start : ℤ)
    → map
        (λ u. u.used)
        (s3_rounds tenant_id ss (record { peek_size = highest open_; start_time = start }))
      ≡ map (λ p. uint64 (highest p)) (periods open_ ss)
unfolding s3_rounds s3_round periods highest peak
s3_rounds-from tenant_id [] open_ start = refl
s3_rounds-from tenant_id ((id, s) ∷ ss) open_ start =
    elim (Bool-cases ((s.minute == 0) || (s.minute == 1))) [
      | inl closes ↦ rw closes (
          ap (λ rest. uint64 (highest (s.value ∷ open_)) ∷ rest)
            (s3_rounds-from tenant_id ss [] s.now))
      | inr goes ↦ rw goes (s3_rounds-from tenant_id ss (s.value ∷ open_) start)
    ]

-- The usages that the sampling of backups submits report, one by one, the highest sample of each
-- period, or 0. A period ends with a sample in the first two minutes of an hour, which belongs to it,
-- and the next period begins after that, so that no sample is left out but those after the last report.
pub s3_rounds-periods :
    (tenant_id : ℤ) (ss : List (Text × Sample ℤ)) (start : ℤ)
    → map (λ u. u.used) (s3_rounds tenant_id ss (record { peek_size = pos 0; start_time = start }))
      ≡ map (λ p. uint64 (highest p)) (periods [] ss)
unfolding highest
s3_rounds-periods tenant_id ss start = s3_rounds-from tenant_id ss [] start
