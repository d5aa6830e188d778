-- ===== src/Fixtures.antt =====
-- Concrete systems, jobs and tables for the tests and the instances of the theorems.
use jobs.Prelude.{text, pos, false, [], ◌∷◌, none, some}
use jobs.Job.{Job, Sys, active, stopped, sigkill}
use jobs.Job.Threads.{World}
use jobs.Effects.{System}
use jobs.Supervisor.{JobSupervisor}
use jobs.Acl.{AccessControl}
use jobs.Server.{JobServer, Limits}

-- Every call succeeds.
abbrev pub all_ok : Sys
all_ok = record { signal = λ j s. none; open_file = λ p. none; remove_all = λ p. none }

-- No process takes a signal.
abbrev pub no_signal : Sys
no_signal = record {
  signal = λ j s. some (text "done");
  open_file = λ p. none;
  remove_all = λ p. none;
}

abbrev pub host : System
host = record {
  answer = λ before e. none;
  new_id = text "j2";
  uid = pos 0;
  gid = pos 0;
  pid = pos 42;
  mounts = some (text "proc /proc proc rw" ∷ text "cgroup2 /sys/fs/cgroup cgroup2 rw" ∷ []);
  lsblk = [];
  lsblk_scan = none;
  child_message = [];
  cpu_line = λ b. text "max";
}

abbrev pub job : Job
job = record {
  id = text "j1";
  base_job_dir = text "/tmp/jobs";
  job_dir = text "/tmp/jobs/j1";
  work_dir = text "/tmp/jobs/j1/workDir";
  shim_path = text "/proc/self/exe";
  out_lock = 0;
  log_readers = 0;
  out_file_path = text "/tmp/jobs/j1/out/output";
  cgroup_outer = [];
  cgroup_inner = [];
  command = text "ls";
  args = text "/tmp" ∷ [];
  process_state = none;
  exit_code = pos 0;
  done = false;
  limits = record { cpu = 0; max_ram_bytes = pos 0; max_disk_io_bytes = pos 0 };
  ids = record { uid = pos 1000; gid = pos 1000 };
  stop_timer = none;
  handler = active;
  next_timer = 0;
  armed = [];
  sent = [];
  dir_removed = false;
  cgroup_removed = false;
}

-- Stopped by force, before its process was waited for.
abbrev pub killed_job : Job
killed_job = record job { sent = sigkill ∷ []; handler = stopped }

abbrev pub world : World
world = record {
  job = job;
  cleaning = false;
  exit_ran = false;
  pending_stops = 0;
  readers = 0;
  followers = 0;
}

abbrev pub killed_world : World
killed_world = record world { job = killed_job }

abbrev pub supervisor : JobSupervisor
supervisor = record {
  jobs = (text "j1", killed_job) ∷ [];
  ids = record { uid = pos 1000; gid = pos 1000 };
}

abbrev pub access : AccessControl
access = record {
  super_users = (text "george", tt) ∷ [];
  super_read_users = (text "ringo", tt) ∷ [];
  owners = (text "j1", text "john") ∷ [];
}

abbrev pub server : JobServer
server = record { jobs = supervisor; auth = access }

abbrev pub limits : Limits
limits = record { memory = pos 0; cpus = 0; io = pos 0 }
