-- ===== src/Jobs/Sound.antt =====
-- internal/app/job_ctx.go: what holds of every job, whatever the goroutines do.

use fa.Prelude.{
  ℕ, ◌≡◌, refl, Bool, true, false, not, ◌||◌, Option, none, some, if◌then◌else◌, arith,
}
use fa.Prelude.Text.{Text}
pub use fa.Prelude.Steps.{After, given-After, and_then-After, After-moved}
use fa.Jobs.{
  JobState, Phase, unstarted, calling, returned, sending, leaving, closing, finishing, ended, Job,
  new_job, cancel, close_success, close_error, mark_closed, state_of, block_at, look_at, send_at,
  close_at,
}

abbrev pub implies : Bool → Bool → Bool
implies a b = not a || b

-- The steps of `close` are taken in their order.
abbrev pub IsOrdered : Job → Type 0
IsOrdered j =
    (implies j.closed j.ec_closed ≡ true)
    × (implies j.ec_closed j.sc_closed ≡ true)
    × (implies j.sc_closed j.cancelled ≡ true)

-- What was handed over is the result that the state records.
abbrev pub IsTaken : Option (Option Text) → JobState → Type 0
IsTaken none s = Unit
IsTaken (some r) s = s ≡ state_of r

-- By the phase, the flag `closed`, the state and what was handed over.
abbrev pub PhaseFits : Phase → Bool → JobState → Option (Option Text) → Type 0
PhaseFits unstarted c s t = t ≡ none
PhaseFits calling c s t = t ≡ none
PhaseFits (returned r) c s t = (t ≡ none) × (s ≡ state_of r)
PhaseFits (sending r) c s t = (t ≡ none) × (s ≡ state_of r)
PhaseFits leaving c s t = IsTaken t s
PhaseFits closing c s t = IsTaken t s
PhaseFits finishing c s t = (c ≡ true) × IsTaken t s
PhaseFits ended c s t = (c ≡ true) × IsTaken t s

abbrev pub IsSound : Job → Type 0
IsSound j = IsOrdered j × PhaseFits j.phase j.closed j.state j.taken

-- The goroutine of a job is counted by the wait group from its start to its end.
unfoldable pub live : Phase → ℕ
live unstarted = 0
live ended = 0
live _ = 1

abbrev pub Follows : Phase → Job → Type 0
Follows p k = IsSound k × (live k.phase ≡ live p)

untaken : (t : Option (Option Text)) (s : JobState) → t ≡ none → IsTaken t s
untaken t s h = rw h tt

chosen :
    (b : Bool) (r : Option Text) (c : Bool) (s : JobState) (t : Option (Option Text))
    → PhaseFits (returned r) c s t
    → PhaseFits (if b then leaving else sending r) c s t
chosen true r c s t h = untaken t s h.0
chosen false r c s t h = h

chosen-live :
    (b : Bool) (r : Option Text) → live (if b then leaving else sending r) ≡ live (returned r)
unfolding live
chosen-live true r = refl
chosen-live false r = refl

PhaseFits-true :
    (p : Phase) (c : Bool) (s : JobState) (t : Option (Option Text))
    → PhaseFits p c s t
    → PhaseFits p true s t
PhaseFits-true unstarted c s t h = h
PhaseFits-true calling c s t h = h
PhaseFits-true (returned r) c s t h = h
PhaseFits-true (sending r) c s t h = h
PhaseFits-true leaving c s t h = h
PhaseFits-true closing c s t h = h
PhaseFits-true finishing c s t h = (refl, h.1)
PhaseFits-true ended c s t h = (refl, h.1)

pub new_job-IsSound : (id : Text) → IsSound (new_job id)
unfolding new_job
new_job-IsSound id = ((refl, refl, refl), refl)

pub cancel-Follows : (j : Job) → IsSound j → After (Follows j.phase) (cancel j)
unfolding cancel
cancel-Follows j h = ground arith

pub close_success-Follows : (j : Job) → IsSound j → After (Follows j.phase) (close_success j)
unfolding close_success
close_success-Follows j h = ground arith

pub close_error-Follows : (j : Job) → IsSound j → After (Follows j.phase) (close_error j)
unfolding close_error
close_error-Follows j h = ground arith

pub mark_closed-Follows : (j : Job) → IsSound j → After (Follows j.phase) (mark_closed j)
unfolding mark_closed
mark_closed-Follows j h = ground (arith, PhaseFits-true j.phase j.closed j.state j.taken h.1)

-- Each action of the goroutine, by its phase.
module _ (j : Job) (o : IsOrdered j) where
  pub block_at-Follows :
      (r : Option Text) (p : Phase)
      → PhaseFits p j.closed j.state j.taken
      → After (Follows p) (block_at r p j)
  unfolding block_at live
  block_at-Follows r calling h = ((o, (h, refl)), refl)
  block_at-Follows r _ h = tt

  pub look_at-Follows :
      (p : Phase) → PhaseFits p j.closed j.state j.taken → After (Follows p) (look_at p j)
  unfolding look_at live
  look_at-Follows (returned r) h =
      ((o, chosen j.closed r j.closed j.state j.taken h), chosen-live j.closed r)
  look_at-Follows _ h = tt

  pub send_at-Follows :
      (received : Bool) (p : Phase)
      → PhaseFits p j.closed j.state j.taken
      → After (Follows p) (send_at received p j)
  unfolding send_at live
  send_at-Follows received (sending none) h = ground (arith, o, h)
  send_at-Follows received (sending (some e)) h = ground arith
  send_at-Follows received _ h = tt

  pub close_at-Follows :
      (p : Phase) → PhaseFits p j.closed j.state j.taken → After (Follows p) (close_at p j)
  unfolding close_at live
  close_at-Follows closing h = ground (arith, o, h)
  close_at-Follows _ h = tt
