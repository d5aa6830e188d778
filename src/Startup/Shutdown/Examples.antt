-- ===== src/Startup/Shutdown/Examples.antt =====
-- Tests and instances: the shutdown of a server without jobs.
use jobs.Prelude.{
  text, text_eq, text_eq_iff, join, trim_space, is_space, pos, ℕ, true, false, some, [], ◌∷◌, ◌≡◌,
  ◌≢◌, ◌⊎◌, refl, arith,
}
use jobs.Acl
use jobs.Acl.{full_access}
use jobs.Job.{returns}
use jobs.Job.New.{
  cpu, mem, io, uid, gid, new, configured, apply, default_job, init_job_dirs, build, launch,
}
use jobs.Cgroup.{
  cgroup_name, setup_cgroup, make_outer, setup_inner, echo, limit_io, limit_ram, limit_cpu,
  find_cgroup_mount, scan_mounts, fields, fields_from,
}
use jobs.Supervisor
use jobs.Server.{JobServer, ok, pb_active, start, inspect, stop_server}
use jobs.Startup.Shutdown.{
  Process, running, ended, waiting, exited, signal_comes, signal_read, graceful_ends,
  stop_server_ends, serve_returns, wait_ends, step, Reach, here, next, begun,
}
use jobs.Startup.Shutdown.Waiting.{over, exit_waits, late_start_survives}
use jobs.Fixtures.{all_ok, host, limits}

abbrev idle : JobServer
unfolding Acl.new Acl.add_super_users Supervisor.new_supervisor
idle = record {
  jobs = Supervisor.new_supervisor (pos 1000) (pos 1000);
  auth = (Acl.add_super_users Acl.new (text "george" ∷ []) full_access).0;
}

stops : stop_server all_ok (λ m. m) all_ok idle ≡ returns idle
unfolding stop_server idle Supervisor.cleanup_all
stops = refl

abbrev signalled : Process
signalled = record (begun idle) { signalled = true }

abbrev stopping : Process
stopping = record (begun idle) { awaits = false; count = 2; graceful = running; stopper = running }

abbrev stopped : Process
stopped = record stopping { count = 1; stopper = ended }

-- StopServer returns before GracefulStop, and Serve in between.
abbrev waits_on : Process
waits_on = record stopping { count = 0; graceful = ended; stopper = ended; main = waiting }

reached : Reach (begun idle) waits_on
unfolding step
reached = next {q = record stopped { main = waiting }} left graceful_ends refl
  where
    read : Reach (begun idle) stopping
    read = next {q = signalled} (next here signal_comes refl) signal_read refl

    done : Reach (begun idle) stopped
    done = next read (stop_server_ends all_ok (λ m. m) all_ok) (rw stops refl)

    left : Reach (begun idle) (record stopped { main = waiting })
    left = next done serve_returns refl

exit_waits_example :
    ((n : ℕ) → waits_on.main ≡ exited n → (n ≡ 0) ⊎ (n ≡ 1))
    × (waits_on.main ≡ exited 0 → (waits_on.graceful ≡ ended) × (waits_on.stopper ≡ ended))
    × (waits_on.main ≡ waiting
        → waits_on.graceful ≡ ended
        → waits_on.stopper ≡ ended
        → step waits_on wait_ends ≡ returns (record waits_on { main = exited 0 }))
exit_waits_example = exit_waits reached

starts_late : (start host idle (some (text "john")) (text "ls") [] (some limits)).1 ≡ ok (text "j2")
unfolding start Supervisor.start Supervisor.create_job new configured apply cpu mem io uid gid
    default_job init_job_dirs build launch setup_cgroup make_outer setup_inner echo limit_io
    limit_ram limit_cpu find_cgroup_mount scan_mounts fields fields_from is_space text_eq
    cgroup_name Supervisor.new_supervisor
starts_late = refl

clean_name : (text "john" ≢ []) × (trim_space (text "john") ≡ text "john")
unfolding trim_space is_space text_eq
clean_name = (λ e. ground (arith, text_eq_iff (text "john") []), refl)

clean_id : (text "j2" ≢ []) × (trim_space (text "j2") ≡ text "j2")
unfolding trim_space is_space text_eq
clean_id = (λ e. ground (arith, text_eq_iff (text "j2") []), refl)

-- A Start of "john" that comes after StopServer.
late_start_survives_example :
    (u : JobServer) × Reach (begun idle) (over u)
    × (inspect u (some (text "john")) (text "j2")
        ≡ ok (record {
          command = join (text "ls" ∷ []) (text " ");
          status = pb_active;
          exit_code = pos 0;
        }))
late_start_survives_example =
    late_start_survives all_ok all_ok (λ m. m) idle idle host (text "john") (text "ls") [] limits
      (text "j2") stops starts_late clean_name.0 clean_name.1 clean_id.0 clean_id.1
