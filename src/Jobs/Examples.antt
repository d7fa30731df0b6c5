-- ===== src/Jobs/Examples.antt =====
-- internal/app/job_ctx.go: runs of one and of two jobs.
use fa.Prelude.{◌≡◌, refl, true, false, none, some, List, [], ◌∷◌, All}
use fa.Prelude.Text.{Text}
use fa.Jobs.{
  success, failed, calling, sending, closing, ended, Phase, Job, moved, crashed, new_job, JobCtx,
  new_job_ctx, Event, checks, inserts, starts, cancels, closes_success, closes_error, marks, looks,
  retires, ends_close, finishes, returns, sends, scavenges, deregisters, stops, ends_stop, run,
}
use fa.Jobs.Sound.{IsSound}
use fa.Jobs.Counting.{live_count, run-IsSound}

abbrev name : Text
name = b'b' ∷ []

abbrev job : Phase → Job
job p = record (new_job name) { phase = p }

-- A backup succeeds, its result is taken, and the job is closed and removed.
abbrev finished : List Event
finished =
    checks name
    ∷ inserts 0
    ∷ starts 0
    ∷ returns none 0
    ∷ looks 0
    ∷ sends true 0
    ∷ retires 0
    ∷ scavenges
    ∷ cancels 0
    ∷ closes_success 0
    ∷ closes_error 0
    ∷ marks 0
    ∷ ends_close 0
    ∷ finishes 0
    ∷ stops
    ∷ []

abbrev done : Job
done = record {
  job_id = name;
  state = success;
  phase = ended;
  cancelled = true;
  sc_closed = true;
  ec_closed = true;
  closed = true;
  taken = some none;
}

abbrev at_rest : JobCtx
at_rest = record {
  jobs = done ∷ [];
  registry = [];
  checked = [];
  deleting = none;
  wg = 0;
  closed = true;
  channels_closed = false;
}

finished-run : run finished new_job_ctx ≡ moved at_rest
unfolding run new_job_ctx
finished-run = refl

run-IsSound_example : All IsSound at_rest.jobs × (at_rest.wg ≡ live_count at_rest.jobs)
run-IsSound_example = run-IsSound finished at_rest finished-run

-- The callback is cancelled, and the goroutine has seen no close yet when it sends the error.
abbrev cancelled_run : List Event
cancelled_run =
    checks name
    ∷ inserts 0
    ∷ starts 0
    ∷ cancels 0
    ∷ returns (some []) 0
    ∷ looks 0
    ∷ closes_success 0
    ∷ []

abbrev sender : Job
sender = record {
  job_id = name;
  state = failed;
  phase = sending (some []);
  cancelled = true;
  sc_closed = true;
  ec_closed = false;
  closed = false;
  taken = none;
}

abbrev halfway : JobCtx
halfway = record {
  jobs = sender ∷ [];
  registry = (name, 0) ∷ [];
  checked = [];
  deleting = none;
  wg = 1;
  closed = false;
  channels_closed = false;
}

abbrev waiting : JobCtx
waiting = record halfway { jobs = job (sending none) ∷ [] }

-- A job is deregistered and its name registered again while the goroutine of the first still ends:
-- the name it gives the scavenger removes the second, which runs on unregistered.
abbrev renamed : List Event
renamed =
    checks name
    ∷ inserts 0
    ∷ starts 0
    ∷ returns none 0
    ∷ looks 0
    ∷ sends true 0
    ∷ deregisters name
    ∷ checks name
    ∷ inserts 0
    ∷ starts 1
    ∷ retires 0
    ∷ scavenges
    ∷ []

abbrev orphaned : JobCtx
orphaned = record {
  jobs = record (job closing) { state = success; taken = some none } ∷ job calling ∷ [];
  registry = [];
  checked = [];
  deleting = none;
  wg = 2;
  closed = false;
  channels_closed = false;
}

orphan : run renamed new_job_ctx ≡ moved orphaned
unfolding run new_job_ctx new_job
orphan = refl

-- Two registrations of one name that both find it free run two jobs.
twice :
    run (checks name ∷ checks name ∷ inserts 0 ∷ inserts 0 ∷ starts 0 ∷ starts 1 ∷ []) new_job_ctx
    ≡ moved (record orphaned { jobs = job calling ∷ job calling ∷ []; registry = (name, 1) ∷ [] })
unfolding run new_job_ctx new_job
twice = refl

-- A job registered after Stop panics when it ends.
late :
    run
      (stops
        ∷ ends_stop
        ∷ checks name
        ∷ inserts 0
        ∷ starts 0
        ∷ returns none 0
        ∷ looks 0
        ∷ sends true 0
        ∷ retires 0
        ∷ [])
      new_job_ctx
    ≡ crashed
unfolding run new_job_ctx
late = refl
