-- ===== src/Supervisor/Shutdown.antt =====
-- StopSupervisor.
use jobs.Prelude.{
  Text, Assoc, true, false, [], ◌∷◌, Option, none, some, ◌≡◌, inl, inr, refl, arith, Bool-cases,
  All, ==_iff,
}
use jobs.Job.{Job, Sys, Handler, active, zombie, Signal, sigterm, returns, blocks, panics, Outcome}
use jobs.Job
use jobs.Job.Api
use jobs.Job.Stopping.{timer_armed}
use jobs.Job.Threads.{is_zombie}
use jobs.Supervisor.{JobSupervisor, stop_all, all_done, cleanup_all, stop_supervisor}

abbrev pub IsDone : Text × Job → Type 0
IsDone (id, j) = j.done ≡ true

-- Nobody reads its output, and it is not removed already.
abbrev pub IsFree : Text × Job → Type 0
IsFree (id, j) = j.out_lock ≡ 0

abbrev pub IsRemoved : Text × Job → Type 0
IsRemoved (id, j) = j.handler ≡ zombie

-- A job that is active still has the timer of its stop request, which will kill it.
abbrev pub WillStop : Text × Job → Type 0
WillStop (id, j) = j.handler ≡ active → timer_armed j ≡ true

asked :
    (sys : Sys) (j : Job)
    → (Api.init_stop sys j 10_000_000_000).0.handler ≡ active
    → timer_armed (Api.init_stop sys j 10_000_000_000).0 ≡ true
unfolding Api.init_stop
asked sys j h = ground (arith, ==_iff j.next_timer j.next_timer)

-- After the first loop of StopSupervisor, every job that is still active, because its signal could
-- not be sent, has its timer armed.
pub stop_all-WillStop : (sys : Sys) (m : Assoc Job) → All WillStop (stop_all sys m)
unfolding stop_all
stop_all-WillStop sys [] = tt
stop_all-WillStop sys ((id, j) ∷ m) = (asked sys j, stop_all-WillStop sys m)

IsDone-all_done : (m : Assoc Job) → All IsDone m → all_done m ≡ true
unfolding all_done
IsDone-all_done [] h = refl
IsDone-all_done ((id, j) ∷ m) h = ground (arith, IsDone-all_done m h.1)

cleanup_free :
    (sys : Sys) (j : Job)
    → j.out_lock ≡ 0
    → sys.remove_all j.job_dir ≡ none
    → (k : Job) × (e : Option Job.Error) × (Api.cleanup sys j ≡ returns (k, e))
      × (k.handler ≡ zombie)
unfolding Api.cleanup
cleanup_free sys j o r = elim (Bool-cases (is_zombie j.handler)) [
  | inl z ↦ (j, some Job.removed, ground arith, ground arith)
  | inr n ↦ (record j { dir_removed = true; handler = zombie }, none, ground arith, refl)
]

cleanup_all-IsRemoved :
    (sys : Sys) (m : Assoc Job)
    → All IsFree m
    → ((dir : Text) → sys.remove_all dir ≡ none)
    → (t : Assoc Job) × (cleanup_all sys m ≡ returns t) × All IsRemoved t
unfolding cleanup_all
cleanup_all-IsRemoved sys [] f r = ([], refl, tt)
cleanup_all-IsRemoved sys ((id, j) ∷ m) f r =
    let (k, e, c, z) = cleanup_free sys j f.0 (r j.job_dir) in
    let (t, d, all) = cleanup_all-IsRemoved sys m f.1 r in ((id, k) ∷ t, rw (c, d) refl, (z, all))

-- While a job that StopSupervisor waits for is not done, it blocks, and removes nothing.
pub stop_supervisor_blocks :
    (sys later : Sys) (meanwhile : Assoc Job → Assoc Job) (s : JobSupervisor)
    → all_done (meanwhile (stop_all sys s.jobs)) ≡ false
    → stop_supervisor sys meanwhile later s ≡ blocks
unfolding stop_supervisor
stop_supervisor_blocks sys later meanwhile s h = rw h refl

-- Once the threads of the jobs have closed the channel of each, no job has an open log reader and
-- the directories can be removed, StopSupervisor returns and every job is removed.
pub stop_supervisor_removes :
    (sys later : Sys) (meanwhile : Assoc Job → Assoc Job) (s : JobSupervisor)
    → All IsDone (meanwhile (stop_all sys s.jobs))
    → All IsFree (meanwhile (stop_all sys s.jobs))
    → ((dir : Text) → later.remove_all dir ≡ none)
    → (t : JobSupervisor) × (stop_supervisor sys meanwhile later s ≡ returns t)
      × All IsRemoved t.jobs
unfolding stop_supervisor
stop_supervisor_removes sys later meanwhile s d f r =
    let (t, e, all) = cleanup_all-IsRemoved later (meanwhile (stop_all sys s.jobs)) f r in
    (record s { jobs = t }, rw (IsDone-all_done (meanwhile (stop_all sys s.jobs)) d, e) refl, all)
