-- ===== src/Jobs.antt =====
-- internal/app/job_ctx.go: the jobs, the map of their names, and the goroutines of jobs, of the
-- scavenger and of Stop. An event is one atomic action of some goroutine: a critical section, an
-- action on a channel, or a load or a store of a flag. A run is any list of events; the answers of
-- the callbacks are arguments.
mod Actions
pub mod Sound
pub mod Counting
pub mod Panics
pub mod Crashes
mod Examples
use fa.Prelude.{
  ℕ, zero, suc, ◌-◌, Bool, true, false, not, ◌&&◌, ◌||◌, Option, none, some, List, [], ◌∷◌, ◌++◌,
  ◌==◌, length, get_elem?, set, take, drop, if◌then◌else◌,
}
use fa.Prelude.Text.{Text, eq_text}
unfoldable pub use Actions.*
pub use fa.Prelude.Steps.{Result, blocked, crashed, moved}
unfoldable pub use fa.Prelude.Steps.{given, and_then}

-- JobCtx, with what its goroutines hold: the registrations that have found their name free in the map
-- and have not inserted their job yet, and the name that the scavenger is about to delete.
pub record JobCtx : Type 0 where
  pub jobs : List Job
  -- innerMapCtx: a name and the place of its job in the list.
  pub registry : List (Text × ℕ)
  pub checked : List Text
  pub deleting : Option Text
  pub wg : ℕ
  -- The flag `closed`, and that Stop has closed tjDoneC and doneC.
  pub closed : Bool
  pub channels_closed : Bool

unfoldable pub new_job_ctx : JobCtx
new_job_ctx = record {
  jobs = [];
  registry = [];
  checked = [];
  deleting = none;
  wg = 0;
  closed = false;
  channels_closed = false;
}

unfoldable pub find : Text → List (Text × ℕ) → Option ℕ
find id [] = none
find id ((key, i) ∷ rest) = let later = find id rest in if eq_text key id then some i else later

unfoldable pub remove : Text → List (Text × ℕ) → List (Text × ℕ)
remove id [] = []
remove id ((key, i) ∷ rest) =
    let kept = remove id rest in if eq_text key id then kept else (key, i) ∷ kept

unfoldable pub put_job : ℕ → JobCtx → Result Job → Result JobCtx
put_job i jc blocked = blocked
put_job i jc crashed = crashed
put_job i jc (moved j) = moved (record jc { jobs = set jc.jobs i j })

unfoldable pub on_job : (Job → Result Job) → ℕ → JobCtx → Result JobCtx
unfolding given put_job
on_job f i jc = given (get_elem? jc.jobs i) (λ j. put_job i jc (f j))

-- RegisterJobWithTimeout: GetJobCtx finds nothing; the job is made and inserted; wg.Add and `go`.
unfoldable pub check_free : Option ℕ → Text → JobCtx → Result JobCtx
check_free none id jc = moved (record jc { checked = jc.checked ++ (id ∷ []) })
check_free (some i) id jc = blocked

unfoldable pub check : Text → JobCtx → Result JobCtx
unfolding check_free find
check id jc = check_free (find id jc.registry) id jc

unfoldable pub insert_named : ℕ → JobCtx → Text → Result JobCtx
unfolding new_job remove
insert_named n jc id = moved (record jc {
  jobs = jc.jobs ++ (new_job id ∷ []);
  registry = (id, length jc.jobs) ∷ remove id jc.registry;
  checked = take n jc.checked ++ drop (suc n) jc.checked;
})

unfoldable pub insert : ℕ → JobCtx → Result JobCtx
unfolding given insert_named
insert n jc = given (get_elem? jc.checked n) (insert_named n jc)

unfoldable pub start_at : Phase → ℕ → Job → JobCtx → Result JobCtx
start_at unstarted i j jc =
    moved (record jc { jobs = set jc.jobs i (record j { phase = calling }); wg = suc jc.wg })
start_at _ i j jc = blocked

unfoldable pub start : ℕ → JobCtx → Result JobCtx
unfolding given start_at
start i jc = given (get_elem? jc.jobs i) (λ j. start_at j.phase i j jc)

-- The deferred function: the send on tjDoneC, which the scavenger receives; the goroutine's own close,
-- which ends once `closed` is set; wg.Done, whose counter must not pass below 0.
unfoldable pub hand_name : Option Text → ℕ → Job → JobCtx → Result JobCtx
hand_name none i j jc =
    moved
      (record jc { jobs = set jc.jobs i (record j { phase = closing }); deleting = some j.job_id })
hand_name (some id) i j jc = blocked

unfoldable pub retire_at : Phase → ℕ → Job → JobCtx → Result JobCtx
unfolding hand_name
retire_at leaving i j jc = if jc.channels_closed then crashed else hand_name jc.deleting i j jc
retire_at _ i j jc = blocked

unfoldable pub retire : ℕ → JobCtx → Result JobCtx
unfolding given retire_at
retire i jc = given (get_elem? jc.jobs i) (λ j. retire_at j.phase i j jc)

unfoldable pub finish_at : Phase → ℕ → Job → JobCtx → Result JobCtx
finish_at finishing i j jc =
    if jc.wg == 0
    then crashed
    else moved (record jc { jobs = set jc.jobs i (record j { phase = ended }); wg = jc.wg - 1 })
finish_at _ i j jc = blocked

unfoldable pub finish : ℕ → JobCtx → Result JobCtx
unfolding given finish_at
finish i jc = given (get_elem? jc.jobs i) (λ j. finish_at j.phase i j jc)

-- scavenge
unfoldable pub scavenge : JobCtx → Result JobCtx
unfolding given remove
scavenge jc =
    given jc.deleting
      (λ id. moved (record jc { registry = remove id jc.registry; deleting = none }))

-- The end of DeRegister, which has closed the job that it found.
unfoldable pub deregister : Text → JobCtx → Result JobCtx
unfolding remove
deregister id jc = moved (record jc { registry = remove id jc.registry })

-- Stop: it sets the flag and closes the jobs of the map, and once wg.Wait returns it closes the channels.
unfoldable pub stop : JobCtx → Result JobCtx
stop jc = if jc.closed then blocked else moved (record jc { closed = true })

unfoldable pub end_stop : JobCtx → Result JobCtx
end_stop jc =
    if jc.closed && not jc.channels_closed && (jc.wg == 0)
    then moved (record jc { channels_closed = true })
    else blocked

-- The actions of jobs are given the place of the job.
pub data Event : Type 0 where
  checks : Text → Event
  inserts starts cancels closes_success closes_error marks looks retires ends_close finishes :
      ℕ → Event
  returns : Option Text → ℕ → Event
  sends : Bool → ℕ → Event
  scavenges : Event
  deregisters : Text → Event
  stops ends_stop : Event

unfoldable pub step : Event → JobCtx → Result JobCtx
unfolding check insert start on_job cancel close_success close_error mark_closed block look send
    retire end_close finish scavenge deregister stop end_stop
step (checks id) jc = check id jc
step (inserts n) jc = insert n jc
step (starts i) jc = start i jc
step (cancels i) jc = on_job cancel i jc
step (closes_success i) jc = on_job close_success i jc
step (closes_error i) jc = on_job close_error i jc
step (marks i) jc = on_job mark_closed i jc
step (looks i) jc = on_job look i jc
step (retires i) jc = retire i jc
step (ends_close i) jc = on_job end_close i jc
step (finishes i) jc = finish i jc
step (returns r i) jc = on_job (block r) i jc
step (sends received i) jc = on_job (send received) i jc
step scavenges jc = scavenge jc
step (deregisters id) jc = deregister id jc
step stops jc = stop jc
step ends_stop jc = end_stop jc

unfoldable pub run : List Event → JobCtx → Result JobCtx
unfolding step and_then
run [] jc = moved jc
run (e ∷ es) jc = and_then (step e jc) (run es)
