-- ===== src/Server/Stopping.antt =====
-- StopServer of pkg/server/server.go.
use jobs.Prelude.{Text, Assoc, All, ◌≡◌, none, refl, false}
use jobs.Job.{Job, Sys, returns, blocks}
use jobs.Supervisor.{stop_all, all_done}
use jobs.Supervisor.Shutdown.{
  IsDone, IsFree, IsRemoved, stop_supervisor_removes, stop_supervisor_blocks,
}
use jobs.Server.{JobServer, stop_server}

-- Once the threads of the jobs have closed the channel of each, no job has an open log reader and
-- the directories can be removed, StopServer returns, every job of its table is removed, and the
-- owners stay.
pub stop_server_removes :
    (sys later : Sys) (meanwhile : Assoc Job → Assoc Job) (s : JobServer)
    → All IsDone (meanwhile (stop_all sys s.jobs.jobs))
    → All IsFree (meanwhile (stop_all sys s.jobs.jobs))
    → ((dir : Text) → later.remove_all dir ≡ none)
    → (t : JobServer) × (stop_server sys meanwhile later s ≡ returns t)
      × All IsRemoved t.jobs.jobs
      × (t.auth ≡ s.auth)
unfolding stop_server
stop_server_removes sys later meanwhile s d f r =
    let (t, e, all) = stop_supervisor_removes sys later meanwhile s.jobs d f r in
    (record s { jobs = t }, rw e refl, all, refl)

pub stop_server_blocks :
    (sys later : Sys) (meanwhile : Assoc Job → Assoc Job) (s : JobServer)
    → all_done (meanwhile (stop_all sys s.jobs.jobs)) ≡ false
    → stop_server sys meanwhile later s ≡ blocks
unfolding stop_server
stop_server_blocks sys later meanwhile s h =
    rw (stop_supervisor_blocks sys later meanwhile s.jobs h) refl
