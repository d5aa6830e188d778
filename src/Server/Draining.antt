-- ===== src/Server/Draining.antt =====
-- StopServer on a server whose jobs run: its wait comes to an end.
mod Examples
use jobs.Prelude.{
  Text, Assoc, All, List, [], ◌∷◌, Option, none, ◌≡◌, ◌≢◌, refl, sym, ap, ◌∙◌, arith, false,
}
use jobs.Job.{Job, Sys, returns, blocks, zombie}
use jobs.Job.Api
use jobs.Job.Threads.{World, call_init_stop, step, IsFresh, Reach, next}
use jobs.Job.Draining.{Drains, job-Drains}
use jobs.Supervisor.{stop_all, all_done}
use jobs.Supervisor.Shutdown.{IsDone, IsFree, IsRemoved}
use jobs.Server.{JobServer, stop_server}
use jobs.Server.Stopping.{stop_server_removes, stop_server_blocks}

-- A job somewhere in a run from New, which is not removed and whose lock is free.
abbrev pub IsLive : Text × Job → Type 0
IsLive (id, j) =
    (o : World) × (v : World) × IsFresh o
    × Reach o v
    × (v.job ≡ j)
    × (v.job.handler ≢ zombie)
    × (v.cleaning ≡ false)

-- The second table is the first, after each job has ended by its own steps.
pub data Emptied (sys : Sys) : Assoc Job → Assoc Job → Type 0 where
  all_ended : Emptied sys [] []
  and_ended :
      {id : Text} {j : Job} {v u : World} {m n : Assoc Job}
      → v.job ≡ j
      → Drains sys v u
      → Emptied sys m n
      → Emptied sys ((id, j) ∷ m) ((id, u.job) ∷ n)

init_stop-alive :
    (sys : Sys) (j : Job)
    → j.handler ≢ zombie
    → (Api.init_stop sys j 10_000_000_000).0.handler ≢ zombie
unfolding Api.init_stop
init_stop-alive sys j n z = n (ground arith)

asked-step :
    (sys : Sys) (v : World)
    → v.cleaning ≡ false
    → step sys v (call_init_stop 10_000_000_000)
      ≡ returns (record v { job = (Api.init_stop sys v.job 10_000_000_000).0 })
unfolding step
asked-step sys v c = rw c refl

stop_all-Emptied :
    (sys : Sys) (m : Assoc Job)
    → All IsLive m
    → (n : Assoc Job) × Emptied sys (stop_all sys m) n × All IsDone n × All IsFree n
unfolding stop_all
stop_all-Emptied sys [] a = ([], all_ended, tt, tt)
stop_all-Emptied sys ((id, j) ∷ m) ((o, v, f, r, e, z, c), a) =
    let (n, b, d, u) = stop_all-Emptied sys m a in
    let (w, run, q, _) =
      job-Drains f (next r sys (call_init_stop 10_000_000_000) (asked-step sys v c))
        (init_stop-alive sys v.job z) c sys in
    (
      (id, w.job) ∷ n,
      and_ended (ap (λ k. (Api.init_stop sys k 10_000_000_000).0) e) run b,
      (q.done, d),
      (q.unread, u),
    )

-- On a server whose jobs are in the middle of their runs, none of them removed or in a Cleanup,
-- StopServer can always come to its end: after the stop requests of its first loop, the processes,
-- their goroutines and the open readers may end by their own steps, without any call, so that its
-- wait is over, no Cleanup waits, and, if the directories can be removed, every job of its table is
-- removed, and the owners stay. While a job is not done StopServer blocks.
pub stop_server_can_end :
    (sys later : Sys) (s : JobServer)
    → All IsLive s.jobs.jobs
    → ((dir : Text) → later.remove_all dir ≡ none)
    → (n : Assoc Job) × Emptied sys (stop_all sys s.jobs.jobs) n
      × ((t : JobServer) × (stop_server sys (λ m. n) later s ≡ returns t)
          × All IsRemoved t.jobs.jobs
          × (t.auth ≡ s.auth))
      × ((meanwhile : Assoc Job → Assoc Job)
          → all_done (meanwhile (stop_all sys s.jobs.jobs)) ≡ false
          → stop_server sys meanwhile later s ≡ blocks)
stop_server_can_end sys later s a r =
    let (n, e, d, f) = stop_all-Emptied sys s.jobs.jobs a in
    (
      n,
      e,
      stop_server_removes sys later (λ m. n) s d f r,
      λ meanwhile b. stop_server_blocks sys later meanwhile s b,
    )
