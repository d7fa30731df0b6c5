-- ===== src/Billing/Samples.antt =====
-- web/routers/server.go: sampleEfsUsage and sampleS3Usage, which report the highest use of a period.
-- Times are numbers, and the clock's minute at a sample is an argument. What is submitted goes to the
-- workers of pkg/queue, and is collected here.
pub mod Peaks
mod Examples
use fa.Prelude.{ℕ, Bool, true, false, ◌||◌, List, [], ◌∷◌, ◌++◌, ◌==◌, if◌then◌else◌}
use fa.Prelude.Int.{ℤ, pos, ltb_ℤ, int64, uint64}
use fa.Prelude.Text.{Text}
use fa.Billing.{EfsUsage, BackupUsage}

-- The variables of the loops: peekSize and startTime.
pub record Sampling : Type 0 where
  pub peek_size : ℤ
  pub start_time : ℤ

-- A value of the channel with the time and the minute of the clock at which it is handled.
pub record Sample (A : Type 0) : Type 0 where
  pub value : A
  pub now : ℤ
  pub minute : ℕ

unfoldable pub peak : ℤ → ℤ → ℤ
peak used peek_size = if ltb_ℤ peek_size used then used else peek_size

-- A round of sampleEfsUsage: the variables after it, and what it submits.
unfoldable pub efs_round : Sample EfsUsage → Sampling → Sampling × List EfsUsage
unfolding peak
efs_round s v =
    let top = peak (int64 (pos s.value.used)) v.peek_size in
    if s.minute == 0
    then (
      record { peek_size = pos 0; start_time = s.now },
      record s.value { end_time = s.value.start_time; start_time = v.start_time; used = uint64 top }
          ∷ [],
    )
    else (record v { peek_size = top }, [])

unfoldable pub efs_rounds : List (Sample EfsUsage) → Sampling → List EfsUsage
unfolding efs_round
efs_rounds [] v = []
efs_rounds (s ∷ ss) v = let r = efs_round s v in r.1 ++ efs_rounds ss r.0

-- A round of sampleS3Usage, with the identifier that uuid.New gives.
unfoldable pub s3_round : ℤ → Text → Sample ℤ → Sampling → Sampling × List BackupUsage
unfolding peak
s3_round tenant_id id s v =
    let top = peak s.value v.peek_size in
    if (s.minute == 0) || (s.minute == 1)
    then (
      record { peek_size = pos 0; start_time = s.now },
      record {
        usage_id = id;
        used = uint64 top;
        tenant_id = tenant_id;
        start_time = v.start_time;
        end_time = s.now;
      }
          ∷ [],
    )
    else (record v { peek_size = top }, [])

unfoldable pub s3_rounds : ℤ → List (Text × Sample ℤ) → Sampling → List BackupUsage
unfolding s3_round
s3_rounds tenant_id [] v = []
s3_rounds tenant_id ((id, s) ∷ ss) v =
    let r = s3_round tenant_id id s v in r.1 ++ s3_rounds tenant_id ss r.0
