-- ===== src/Cgroup/Process.antt =====
-- SetupProc of pkg/job/cgroup.go, with pkg/job/namespace.go: what the shim does to its own process
-- before it runs the command.
pub mod Outcomes
use jobs.Prelude.{
  Text, text, List, [], ◌∷◌, none, some, ◌≡◌, ◌≢◌, ◌⊎◌, inl, inr, refl, arith, Option-cases,
}
use jobs.Job.{ExecIdentity}
use jobs.Effects.{
  Effect, open_append, open_create, write_line, close_file, unmount_proc, mount_proc, set_gid,
  set_groups, set_uid, System, Result, ok, err, Failure, M, ◌>>=◌, ◌>>◌, perform, wrap, format_int,
}
use jobs.Cgroup.{◌//◌, echo}

unfoldable pub remount_proc : M (Unit {0})
remount_proc = perform unmount_proc >> perform mount_proc

unfoldable pub add_pid_to_cgroup : Text → M (Unit {0})
add_pid_to_cgroup cg s =
    wrap (text "failed to add the pid to the new group: ")
      (echo (format_int s.pid) (cg // text "cgroup.procs")) s

unfoldable pub setup_ids : ExecIdentity → M (Unit {0})
setup_ids ids = perform (set_gid ids.gid) >> (perform set_groups >> perform (set_uid ids.uid))

unfoldable pub setup_proc : Text → ExecIdentity → M (Unit {0})
setup_proc cg ids = remount_proc >> (add_pid_to_cgroup cg >> setup_ids ids)
