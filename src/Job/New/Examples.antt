-- ===== src/Job/New/Examples.antt =====
-- Tests and instances: a start that succeeds, and one whose process does not start.
use jobs.Prelude.{Text, text, text_eq, is_space, Option, none, some, [], ◌∷◌, List, ◌≡◌, refl}
use jobs.Job.{Job, active}
use jobs.Effects.{
  Effect, remove_all, create_file, close_file, make_pipe, close_read, start_process, System, plain,
  ok, err,
}
use jobs.Cgroup.{
  cgroup_name, setup_cgroup, make_outer, setup_inner, echo, limit_io, limit_ram, limit_cpu,
  find_cgroup_mount, scan_mounts, fields, fields_from,
}
use jobs.Job.New.{new, configured, apply, default_job, init_job_dirs, build, launch, cmd_args}
use jobs.Job.New.Failures.{build_start_fails, placed}
use jobs.Fixtures.{host, job}

abbrev no_binary : Effect → Option Text
no_binary (start_process p a w) = some (text "no such file")
no_binary _ = none

abbrev bare_host : System
bare_host = record host { answer = λ before. no_binary }

abbrev given : Job
given = configured host (text "ls") [] []

abbrev made : Job
made = record (placed given) {
  handler = active;
  cgroup_outer = text "/sys/fs/cgroup/job-j2";
  cgroup_inner = text "/sys/fs/cgroup/job-j2/inner";
}

abbrev trace : List Effect
trace = (new (text "ls") [] [] host []).1

makes : new (text "ls") [] [] host [] ≡ (ok made, trace)
unfolding new configured apply default_job init_job_dirs build launch setup_cgroup make_outer
    setup_inner echo limit_io limit_ram limit_cpu find_cgroup_mount scan_mounts fields fields_from
    is_space text_eq cgroup_name
makes = refl

abbrev failed_trace : List Effect
failed_trace = (new (text "ls") [] [] bare_host []).1

abbrev caged : Job
caged = record job {
  cgroup_outer = text "/sys/fs/cgroup/job-j1";
  cgroup_inner = text "/sys/fs/cgroup/job-j1/inner";
}

abbrev cage_trace : List Effect
cage_trace = (setup_cgroup job bare_host (create_file job.out_file_path ∷ [])).1

cages : setup_cgroup job bare_host (create_file job.out_file_path ∷ []) ≡ (ok caged, cage_trace)
unfolding setup_cgroup make_outer setup_inner echo limit_io limit_ram limit_cpu find_cgroup_mount
    scan_mounts fields fields_from is_space text_eq cgroup_name
cages = refl

build_start_fails_example : build job bare_host [] ≡ (
  err (plain (text "no such file")),
  remove_all job.job_dir
      ∷ close_file job.out_file_path
      ∷ close_read
      ∷ start_process caged.shim_path (cmd_args caged) caged.work_dir
      ∷ make_pipe
      ∷ cage_trace,
)
build_start_fails_example =
    build_start_fails job caged bare_host [] cage_trace (text "no such file") refl cages refl refl
