-- ===== src/Jobs/Counting.antt =====
-- internal/app/job_ctx.go: what the wait group counts, and when Stop returns.
use fa.Prelude.{
  ℕ, suc, ◌+◌, ◌-◌, ◌≤◌, ◌≡◌, refl, ◌⊎◌, All-both, true, Option, none, some, inl, inr, List, [],
  ◌∷◌, ◌++◌, All, All-set, All-get, All-snoc, get_elem?, set, arith,
}
use fa.Prelude.Text.{Text}
use fa.Prelude.Totals.{total, total-set, total-get, total-snoc}
use fa.Jobs.{
  Phase, unstarted, calling, leaving, closing, finishing, ended, Job, Result, blocked, crashed,
  moved, new_job, cancel, close_success, close_error, mark_closed, block, look, send, end_close,
  JobCtx, new_job_ctx, given, put_job, on_job, check_free, insert_named, hand_name, find, remove,
  start_at, retire_at, finish_at, end_stop, Event, checks, inserts, starts, cancels, closes_success,
  closes_error, marks, looks, retires, ends_close, finishes, returns, sends, scavenges, deregisters,
  stops, ends_stop, step, run,
}
use fa.Jobs.Sound.{
  After, IsSound, PhaseFits, IsOrdered, live, Follows, new_job-IsSound, cancel-Follows,
  close_success-Follows, close_error-Follows, mark_closed-Follows, block_at-Follows,
  look_at-Follows, send_at-Follows, close_at-Follows, given-After, and_then-After, After-moved,
}

live_job : Job → ℕ
live_job j = live j.phase

unfoldable pub live_count : List Job → ℕ
unfolding live_job
live_count js = total live_job js

module _ (js : List Job) where
  live_count-set :
      (i : ℕ) (j k : Job)
      → get_elem? js i ≡ some j
      → live_count (set js i k) + live j.phase ≡ live_count js + live k.phase
  unfolding live_count live_job
  live_count-set = total-set live_job js

  pub live_count-get : (i : ℕ) (j : Job) → get_elem? js i ≡ some j → live j.phase ≤ live_count js
  unfolding live_count live_job
  live_count-get = total-get live_job js

  live_count-snoc : (j : Job) → live_count (js ++ (j ∷ [])) ≡ live_count js + live j.phase
  unfolding live_count live_job
  live_count-snoc = total-snoc live_job js

-- Every job is sound, and the wait group counts the goroutines that have started and not ended.
abbrev pub IsValid : JobCtx → Type 0
IsValid jc = All IsSound jc.jobs × (jc.wg ≡ live_count jc.jobs)

module _ (jc : JobCtx) (valid : IsValid jc) (i : ℕ) (j : Job)
    (there : get_elem? jc.jobs i ≡ some j) where
  set-IsValid :
      (k : Job) (n : ℕ)
      → IsSound k
      → n + live j.phase ≡ jc.wg + live k.phase
      → All IsSound (set jc.jobs i k) × (n ≡ live_count (set jc.jobs i k))
  set-IsValid k n sound count =
      (All-set IsSound jc.jobs i k valid.0 sound, omega (arith, live_count-set jc.jobs i j k there))

  put_job-IsValid : (r : Result Job) → After (Follows j.phase) r → After IsValid (put_job i jc r)
  unfolding put_job
  put_job-IsValid blocked h = tt
  put_job-IsValid crashed h = tt
  put_job-IsValid (moved k) h = set-IsValid k jc.wg h.0 (omega arith)

-- An action on a job keeps the job sound, and does not start or end it.
abbrev Keeps : (Job → Result Job) → Type 0
Keeps f = (j : Job) → IsSound j → After (Follows j.phase) (f j)

on_job-IsValid :
    (f : Job → Result Job)
    → Keeps f
    → (i : ℕ) (jc : JobCtx) → IsValid jc
    → After IsValid (on_job f i jc)
unfolding on_job
on_job-IsValid f keeps i jc valid =
    given-After IsValid (get_elem? jc.jobs i) (λ j. put_job i jc (f j))
      (λ j there.
        put_job-IsValid jc valid i j there (f j)
          (keeps j (All-get IsSound jc.jobs i j valid.0 there)))

-- The actions that start and end a goroutine, and the one that hands its name to the scavenger.
module _ (jc : JobCtx) (valid : IsValid jc) (i : ℕ) (j : Job) (there : get_elem? jc.jobs i ≡ some j)
    (o : IsOrdered j) where
  start_at-IsValid :
      (p : Phase)
      → p ≡ j.phase
      → PhaseFits p j.closed j.state j.taken
      → After IsValid (start_at p i j jc)
  unfolding start_at live
  start_at-IsValid unstarted e h =
      set-IsValid jc valid i j there (record j { phase = calling }) (suc jc.wg) (o, h)
        (rw (← e) (omega arith))
  start_at-IsValid _ e h = tt

  hand_name-IsValid :
      (d : Option Text)
      → leaving ≡ j.phase
      → PhaseFits leaving j.closed j.state j.taken
      → After IsValid (hand_name d i j jc)
  unfolding hand_name live
  hand_name-IsValid none e h =
      set-IsValid jc valid i j there (record j { phase = closing }) jc.wg (o, h)
        (rw (← e) (omega arith))
  hand_name-IsValid (some id) e h = tt

  retire_at-IsValid :
      (p : Phase)
      → p ≡ j.phase
      → PhaseFits p j.closed j.state j.taken
      → After IsValid (retire_at p i j jc)
  unfolding retire_at
  retire_at-IsValid leaving e h = ground (arith, hand_name-IsValid jc.deleting e h)
  retire_at-IsValid _ e h = tt

  finish_at-IsValid :
      (p : Phase)
      → p ≡ j.phase
      → PhaseFits p j.closed j.state j.taken
      → After IsValid (finish_at p i j jc)
  unfolding finish_at live
  finish_at-IsValid finishing e h =
      let phase : live j.phase ≡ 1 = rw (← e) refl in
      let counted = live_count-set jc.jobs i j (record j { phase = ended }) there in
      let next =
        set-IsValid jc valid i j there (record j { phase = ended }) (jc.wg - 1) (o, h)
          (omega arith) in
      ground (arith, next)
  finish_at-IsValid _ e h = tt

check_free-IsValid :
    (o : Option ℕ) (id : Text) (jc : JobCtx) → IsValid jc → After IsValid (check_free o id jc)
unfolding check_free
check_free-IsValid none id jc h = h
check_free-IsValid (some i) id jc h = tt

insert_named-IsValid :
    (n : ℕ) (id : Text) (jc : JobCtx) → IsValid jc → After IsValid (insert_named n jc id)
unfolding insert_named live new_job
insert_named-IsValid n id jc h = (
  All-snoc IsSound jc.jobs (new_job id) h.0 (new_job-IsSound id),
  omega (arith, live_count-snoc jc.jobs (new_job id)),
)

-- An action on the job in a given place, which goes by its phase.
at_job-IsValid :
    (f : Phase → ℕ → Job → JobCtx → Result JobCtx)
    → ((jc : JobCtx)
        → IsValid jc
        → (i : ℕ) (j : Job) → get_elem? jc.jobs i ≡ some j
        → IsOrdered j
        → (p : Phase) → p ≡ j.phase
        → PhaseFits p j.closed j.state j.taken
        → After IsValid (f p i j jc))
    → (i : ℕ) (jc : JobCtx) → IsValid jc
    → After IsValid (given (get_elem? jc.jobs i) (λ j. f j.phase i j jc))
at_job-IsValid f keeps i jc h =
    given-After IsValid (get_elem? jc.jobs i) (λ j. f j.phase i j jc)
      (λ j there.
        let sound = All-get IsSound jc.jobs i j h.0 there in
        keeps jc h i j there sound.0 j.phase refl sound.1)

-- Each event keeps the invariant.
step-IsValid : (e : Event) (jc : JobCtx) → IsValid jc → After IsValid (step e jc)
unfolding step
step-IsValid (checks id) jc h = check_free-IsValid (find id jc.registry) id jc h
step-IsValid (inserts n) jc h =
    given-After IsValid (get_elem? jc.checked n) (insert_named n jc)
      (λ id _. insert_named-IsValid n id jc h)
step-IsValid (starts i) jc h = at_job-IsValid start_at start_at-IsValid i jc h
step-IsValid (cancels i) jc h = on_job-IsValid cancel cancel-Follows i jc h
step-IsValid (closes_success i) jc h = on_job-IsValid close_success close_success-Follows i jc h
step-IsValid (closes_error i) jc h = on_job-IsValid close_error close_error-Follows i jc h
step-IsValid (marks i) jc h = on_job-IsValid mark_closed mark_closed-Follows i jc h
step-IsValid (looks i) jc h =
    on_job-IsValid look (λ j sound. look_at-Follows j sound.0 j.phase sound.1) i jc h
step-IsValid (retires i) jc h = at_job-IsValid retire_at retire_at-IsValid i jc h
step-IsValid (ends_close i) jc h =
    on_job-IsValid end_close (λ j sound. close_at-Follows j sound.0 j.phase sound.1) i jc h
step-IsValid (finishes i) jc h = at_job-IsValid finish_at finish_at-IsValid i jc h
step-IsValid (returns r i) jc h =
    on_job-IsValid (block r) (λ j sound. block_at-Follows j sound.0 r j.phase sound.1) i jc h
step-IsValid (sends received i) jc h =
    on_job-IsValid (send received) (λ j sound. send_at-Follows j sound.0 received j.phase sound.1) i
      jc h
step-IsValid scavenges jc h =
    given-After IsValid jc.deleting
      (λ id. moved (record jc { registry = remove id jc.registry; deleting = none })) (λ id _. h)
step-IsValid (deregisters id) jc h = h
step-IsValid stops jc h = ground (arith, h)
step-IsValid ends_stop jc h = ground (arith, h)

pub run-IsValid : (es : List Event) (jc : JobCtx) → IsValid jc → After IsValid (run es jc)
unfolding run
run-IsValid [] jc h = h
run-IsValid (e ∷ es) jc h =
    and_then-After IsValid IsValid (step e jc) (run es) (step-IsValid e jc h) (run-IsValid es)

-- From the empty map, whatever the goroutines do while the process does not panic, the counter of the
-- wait group is the number of the goroutines of jobs that have started and not ended, every job is
-- closed in the order context, sc, ec, flag, and what it has handed over is the result in its state.
pub run-IsSound :
    (es : List Event) (jc : JobCtx)
    → run es new_job_ctx ≡ moved jc
    → All IsSound jc.jobs × (jc.wg ≡ live_count jc.jobs)
unfolding new_job_ctx live_count total
run-IsSound es jc e =
    After-moved IsValid (run es new_job_ctx) jc e (run-IsValid es new_job_ctx (tt, refl))

live_count-zero : (js : List Job) → live_count js ≡ 0 → All (λ j. live j.phase ≡ 0) js
unfolding live_count live_job total
live_count-zero [] h = tt
live_count-zero (j ∷ js) h = (omega arith, live_count-zero js (omega arith))

settled :
    (j : Job)
    → IsOrdered j
    → (p : Phase) → PhaseFits p j.closed j.state j.taken
    → live p ≡ 0
    → (p ≡ unstarted)
      ⊎ ((p ≡ ended) × (j.cancelled ≡ true) × (j.sc_closed ≡ true) × (j.ec_closed ≡ true))
unfolding live
settled j o unstarted h dead = inl refl
settled j o ended h dead = inr (refl, ground arith, ground arith, ground arith)
settled j o _ h dead = absurd (omega arith)

abbrev AllEnded : JobCtx → JobCtx → Type 0
AllEnded jc stopped = (jc.wg ≡ 0) × (stopped.jobs ≡ jc.jobs)

end_stop-AllEnded : (jc : JobCtx) → After (AllEnded jc) (end_stop jc)
unfolding end_stop
end_stop-AllEnded jc = ground arith

-- When Stop closes the channels of the context, every job whose goroutine has started has ended: its
-- context is cancelled and both its channels are closed.
pub end_stop-ended :
    (es : List Event) (jc stopped : JobCtx)
    → run es new_job_ctx ≡ moved jc
    → step ends_stop jc ≡ moved stopped
    → All
        (λ j.
          (j.phase ≡ unstarted)
          ⊎ ((j.phase ≡ ended)
              × (j.cancelled ≡ true)
              × (j.sc_closed ≡ true)
              × (j.ec_closed ≡ true)))
        stopped.jobs
unfolding step
end_stop-ended es jc stopped e h =
    let (sound, count) = run-IsSound es jc e in
    let (none_left, same) =
      After-moved (AllEnded jc) (end_stop jc) stopped h (end_stop-AllEnded jc) in
    rw same (
      All-both IsSound (λ j. live j.phase ≡ 0) _
        (λ j fits dead. settled j fits.0 j.phase fits.1 dead) jc.jobs sound
        (live_count-zero jc.jobs (omega arith)))
