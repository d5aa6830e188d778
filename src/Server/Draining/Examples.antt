-- ===== src/Server/Draining/Examples.antt =====
-- An instance: a server with one job that runs.
use jobs.Prelude.{text, Assoc, All, [], ◌∷◌, ◌≡◌, refl, false}
use jobs.Job.{Job, returns, blocks}
use jobs.Job.Threads.{IsFresh, here}
use jobs.Supervisor.{stop_all, all_done}
use jobs.Supervisor.Shutdown.{IsRemoved}
use jobs.Server.{JobServer, stop_server}
use jobs.Server.Draining.{Emptied, stop_server_can_end}
use jobs.Fixtures.{all_ok, server, supervisor, job, world}

abbrev busy : JobServer
busy = record server { jobs = record supervisor { jobs = (text "j1", job) ∷ [] } }

world-IsFresh : IsFresh world
world-IsFresh = record {
  is_active = refl;
  not_done = refl;
  no_readers = (refl, refl);
  none_open = (refl, refl);
  not_exited = refl;
  not_cleaning = refl;
}

stop_server_can_end_example :
    (n : Assoc Job) × Emptied all_ok (stop_all all_ok busy.jobs.jobs) n
    × ((t : JobServer) × (stop_server all_ok (λ m. n) all_ok busy ≡ returns t)
        × All IsRemoved t.jobs.jobs
        × (t.auth ≡ busy.auth))
    × ((meanwhile : Assoc Job → Assoc Job)
        → all_done (meanwhile (stop_all all_ok busy.jobs.jobs)) ≡ false
        → stop_server all_ok meanwhile all_ok busy ≡ blocks)
stop_server_can_end_example =
    stop_server_can_end all_ok all_ok busy
      ((world, world, world-IsFresh, here, refl, (λ e. cc), refl), tt) (λ d. refl)
