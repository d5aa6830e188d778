-- ===== src/Cgroup/Examples.antt =====
-- Tests and instances, where a file cannot be written.
use jobs.Prelude.{Text, text, text_eq, is_space, pos, Option, none, some, [], ◌∷◌, List, ◌≡◌, refl}
use jobs.Effects.{
  Effect, write_line, close_file, unmount_proc, mount_proc, ok, format_int, System, Failure, plain,
  wrapped, at_file, err,
}
use jobs.Job.{ExecIdentity}
use jobs.Cgroup.{
  ◌//◌, cgroup_name, setup_cgroup, make_outer, setup_inner, echo, find_cgroup_mount, scan_mounts,
  fields, fields_from,
}
use jobs.Cgroup.Process.{setup_proc, remount_proc, add_pid_to_cgroup, setup_ids}
use jobs.Cgroup.Process.Outcomes.{Opens, Drops, setup_proc_ok}
use jobs.Fixtures.{host, job}

abbrev busy : Effect → Option Text
busy (write_line p l) = some (text "busy")
busy _ = none

abbrev busy_host : System
busy_host = record host { answer = λ before. busy }

abbrev failure : Failure
failure = wrapped (text "failed to setup cgroup: ") (
    at_file (text "failed to update cgroup file")
      (text "/sys/fs/cgroup/job-j1/cgroup.subtree_control") (plain (text "busy")))

abbrev trace : List Effect
trace = (setup_cgroup job busy_host []).1

mounted : find_cgroup_mount host.mounts ≡ some (text "/sys/fs/cgroup")
unfolding find_cgroup_mount scan_mounts fields fields_from is_space text_eq
mounted = refl

fails : setup_cgroup job busy_host [] ≡ (err failure, trace)
unfolding setup_cgroup make_outer setup_inner echo find_cgroup_mount scan_mounts fields fields_from
    is_space text_eq cgroup_name
fails = refl

abbrev ids : ExecIdentity
ids = record { uid = pos 1000; gid = pos 1000 }

abbrev inner : Text
inner = text "/sys/fs/cgroup/job-j1/inner"

abbrev procs : Text
procs = inner // text "cgroup.procs"

abbrev done_trace : List Effect
done_trace = (setup_proc inner ids host []).1

sets_up : setup_proc inner ids host [] ≡ (ok tt, done_trace)
unfolding setup_proc remount_proc add_pid_to_cgroup setup_ids echo
sets_up = refl

setup_proc_ok_example :
    (host.answer [] unmount_proc ≡ none)
    × (host.answer (unmount_proc ∷ []) mount_proc ≡ none)
    × ((v : List Effect) × Opens host procs (mount_proc ∷ unmount_proc ∷ []) v
        × (host.answer v (write_line procs (format_int host.pid)) ≡ none)
        × Drops ids host (close_file procs ∷ write_line procs (format_int host.pid) ∷ v) done_trace)
setup_proc_ok_example = setup_proc_ok inner ids host [] done_trace sets_up

abbrev stopped_trace : List Effect
stopped_trace = (setup_proc inner ids busy_host []).1

abbrev stopped_failure : Failure
stopped_failure =
    wrapped (text "failed to add the pid to the new group: ")
      (at_file (text "failed to update cgroup file") procs (plain (text "busy")))

stops : setup_proc inner ids busy_host [] ≡ (err stopped_failure, stopped_trace)
unfolding setup_proc remount_proc add_pid_to_cgroup setup_ids echo
stops = refl
