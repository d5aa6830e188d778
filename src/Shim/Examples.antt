-- ===== src/Shim/Examples.antt =====
-- Tests and instances, on a shim that is set up, and on one that cannot write to its cgroup.
use jobs.Prelude.{Text, text, text_eq, true, false, [], Option, none, some, ◌≡◌, ◌↔◌, refl, arith}
use jobs.Job.New.{cmd_args, launch}
use jobs.Effects.{Effect, write_line, ok}
use jobs.Effects
use jobs.Cgroup.{echo}
use jobs.Cgroup.Process.{setup_proc, remount_proc, add_pid_to_cgroup, setup_ids}
use jobs.Shim.{Host, begin, main_start}
use jobs.Shim.Protocol.{written, main_start-cmd_args, launch-setup_proc}
use jobs.Fixtures.{host, job}

abbrev able : Host
able = record {
  system = host;
  render = λ e. text "busy";
  prctl_works = true;
  command_starts = true;
}

abbrev busy : Effect → Option Text
busy (write_line p l) = some (text "busy")
busy _ = none

abbrev unable : Host
unable = record able { system = record host { answer = λ before. busy } }

tells :
    (begin unable (text "/proc/self/exe") (text "ls") [] (text "cg") job.ids).message
    ≡ text "failed to setup the process: busy"
unfolding begin setup_proc remount_proc add_pid_to_cgroup setup_ids echo text_eq
tells = refl

-- The message of a failed prctl does not come through.
prctl_unheard :
    (begin
      (record able { prctl_works = false })
      (text "/proc/self/exe")
      (text "ls")
      []
      (text "cg")
      job.ids).message
    ≡ []
unfolding begin setup_proc remount_proc add_pid_to_cgroup setup_ids echo text_eq
prctl_unheard = refl

told : host.child_message ≡ written (main_start able (text "/proc/self/exe") (cmd_args job))
unfolding begin setup_proc remount_proc add_pid_to_cgroup setup_ids echo text_eq
told =
    rw (main_start-cmd_args able job (text "/proc/self/exe") refl (omega arith) (omega arith)) refl

launch-setup_proc_example :
    ((launch job host []).0 ≡ Effects.ok job)
    ↔ ((setup_proc job.cgroup_inner job.ids host []).0 ≡ Effects.ok tt)
launch-setup_proc_example =
    launch-setup_proc job host [] able refl (omega arith) (omega arith) refl told refl refl refl
