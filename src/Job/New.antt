-- ===== src/Job/New.antt =====
-- New of pkg/job/job.go, with the options of pkg/job/option.go: the directories of the job, its
-- cgroup, and the start of its process. An option is a function of the job; the options that replace
-- the system calls for tests, and the logger, are left out.
pub mod Failures
mod Examples
use jobs.Prelude.{
  Text, text, ℕ, ℤ, pos, Bool, true, false, List, [], ◌∷◌, ◌++◌, Option, none, some, if◌then◌else◌,
}
use jobs.Job.{Job, ExecIdentity, ExecLimits, active}
use jobs.Effects.{
  Effect, mkdir_all, remove_all, chown, create_file, close_file, make_pipe, close_read, close_write,
  read_pipe, start_process, Failure, plain, wrapped, quoted, System, Result, ok, err, M, ◌>>=◌,
  ◌>>◌, pure, fail, perform, attempt, wrap, on_error, finally, format_int,
}
use jobs.Cgroup.{◌//◌, setup_cgroup}

abbrev pub JobOption : Type 0
JobOption = Job → Job

unfoldable pub shim : Text → JobOption
shim path j = record j { shim_path = path }

unfoldable pub cpu : ℕ → JobOption
cpu c j = record j { limits = record (j.limits) { cpu = c } }

unfoldable pub mem : ℤ → JobOption
mem bytes j = record j { limits = record (j.limits) { max_ram_bytes = bytes } }

unfoldable pub io : ℤ → JobOption
io bytes j = record j { limits = record (j.limits) { max_disk_io_bytes = bytes } }

unfoldable pub uid : ℤ → JobOption
uid id j = record j { ids = record (j.ids) { uid = id } }

unfoldable pub gid : ℤ → JobOption
gid id j = record j { ids = record (j.ids) { gid = id } }

unfoldable pub cgroup : Text → JobOption
cgroup path j = record j { cgroup_outer = path }

unfoldable pub dir : Text → JobOption
dir path j = record j { base_job_dir = path }

-- The struct that New begins with.
unfoldable pub default_job : System → Job
default_job s = record {
  id = s.new_id;
  base_job_dir = text "/tmp/jobs";
  job_dir = [];
  work_dir = [];
  shim_path = text "/proc/self/exe";
  out_lock = 0;
  log_readers = 0;
  out_file_path = [];
  cgroup_outer = [];
  cgroup_inner = [];
  command = [];
  args = [];
  process_state = none;
  exit_code = pos 0;
  done = false;
  limits = record { cpu = 0; max_ram_bytes = pos 0; max_disk_io_bytes = pos 0 };
  ids = record { uid = s.uid; gid = s.gid };
  stop_timer = none;
  handler = active;
  next_timer = 0;
  armed = [];
  sent = [];
  dir_removed = false;
  cgroup_removed = false;
}

unfoldable pub apply : List JobOption → Job → Job
apply [] j = j
apply (o ∷ os) j = apply os (o j)

unfoldable pub cmd_args : Job → List Text
cmd_args j =
    (text "--mode=shim")
    ∷ (text "--cmd=" ++ j.command)
    ∷ (text "--cgroup=" ++ j.cgroup_inner)
    ∷ (text "--uid=" ++ format_int j.ids.uid)
    ∷ (text "--gid=" ++ format_int j.ids.gid)
    ∷ elim j.args [ [] ↦ [] | a ∷ as' ↦ text "--" ∷ (a ∷ as') ]

-- initJobDirs: the error of the first RemoveAll, and of those that undo, is dropped.
unfoldable pub init_job_dirs : Job → M Job
init_job_dirs j = do
  let root = j.base_job_dir // j.id
  let out = root // text "out"
  let wd = root // text "workDir"
  attempt (remove_all root)
  perform (mkdir_all out 0o700)
  on_error (remove_all root) (perform (mkdir_all wd 0o700))
  on_error (remove_all root) (perform (chown wd j.ids.uid j.ids.gid))
  pure (record j { job_dir = root; work_dir = wd; out_file_path = out // text "output" })

-- The process, from the pipe on; the read end of the pipe is closed by a deferred call.
unfoldable pub launch : Job → M Job
launch j = perform make_pipe >> finally close_read run
  where
    message : M Job
    message s t = elim s.child_message [
      | [] ↦ (ok j, t)
      | c ∷ m ↦ (err (quoted (text "failed to start the process: ") (c ∷ m)), t)
    ]

    run : M Job
    run =
        perform (start_process j.shim_path (cmd_args j) j.work_dir)
        >> attempt close_write
        >> perform read_pipe
        >> message

-- New after the directories are there. The deferred call closes the output file, if it is open, and
-- removes the directories, where an error is returned.
unfoldable pub build : Job → M Job
build j = on_error (remove_all j.job_dir) (
    perform (create_file j.out_file_path)
    >> on_error (close_file j.out_file_path) (setup_cgroup j >>= launch))

unfoldable pub configured : System → Text → List Text → List JobOption → Job
unfolding apply default_job
configured s cmd args opts = record (apply opts (default_job s)) { command = cmd; args = args }

unfoldable pub new : Text → List Text → List JobOption → M Job
new cmd args opts s t =
    (wrap (text "failed to create job: ") (init_job_dirs (configured s cmd args opts)) >>= λ j.
    build (record j { handler = active }))
      s t
