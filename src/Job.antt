-- ===== src/Job.antt =====
-- pkg/job: one job, its data and the values that its methods exchange with the system.
-- `Job` is the struct of pkg/job/job.go, less the logger; `sent`, `dir_removed` and
-- `cgroup_removed` record what the methods did to the process, the signals that were delivered, and
-- to the file system, and `armed` holds the timers of time.AfterFunc that have not run or been stopped.
pub mod Handlers
pub mod Api
pub mod Threads
pub mod Diagram
pub mod Safety
pub mod Stopping
pub mod Draining
pub mod Deadlock
pub mod New
mod Examples
use jobs.Prelude.{Text, text, ℕ, ℤ, Bool, List, Option}

-- pkg/job/job.go: ExecIdentity.
pub record ExecIdentity : Type 0 where
  pub uid : ℤ
  pub gid : ℤ

-- pkg/job/job.go: ExecLimits. The float32 is passed on only, and kept as its bit pattern.
pub record ExecLimits : Type 0 where
  pub cpu : ℕ
  pub max_ram_bytes : ℤ
  pub max_disk_io_bytes : ℤ

-- The values of the interface `stateHandler`.
pub data Handler : Type 0 where
  active ended stopping stopped zombie : Handler

-- pkg/job/status.go.
pub data Status : Type 0 where
  status_active status_ended status_stopping status_stopped status_removed : Status

-- Status.String; the default branch has no value of the enum left.
unfoldable pub string : Status → Text
string status_active = text "ACTIVE"
string status_ended = text "ENDED"
string status_removed = text "ZOMBIE"
string status_stopping = text "STOPPING"
string status_stopped = text "STOPPED"

pub data Signal : Type 0 where
  sigterm sigkill : Signal

pub data Error : Type 0 where
  already_ended already_stopping already_stopped removed : Error
  system : Text → Error
  no_output : Text → Error

pub data Result {ℓ} (A : Type ℓ) : Type ℓ where
  ok : A → Result A
  err : Error → Result A

-- What a call does: it returns, it waits for another thread, or it panics.
pub data Outcome {ℓ} (A : Type ℓ) : Type ℓ where
  returns : A → Outcome A
  blocks panics : Outcome A

infixl 5 ◌>>=◌
abbrev pub ◌>>=◌ {ℓ κ} : {A : Type ℓ} {B : Type κ} → Outcome A → (A → Outcome B) → Outcome B
returns a >>= f = f a
blocks >>= f = blocks
panics >>= f = panics

pub record Job : Type 0 where
  pub id : Text
  pub base_job_dir : Text
  pub job_dir : Text
  pub work_dir : Text
  pub shim_path : Text
  pub out_lock : ℕ  -- the counter of the WaitGroup
  pub log_readers : ℕ  -- int32, its bit pattern
  pub out_file_path : Text
  pub cgroup_outer : Text
  pub cgroup_inner : Text
  pub command : Text
  pub args : List Text
  pub process_state : Option ℤ  -- cmd.ProcessState, its exit code
  pub exit_code : ℤ
  pub done : Bool  -- whether the channel is closed
  pub limits : ExecLimits
  pub ids : ExecIdentity
  pub stop_timer : Option ℕ
  pub handler : Handler
  pub next_timer : ℕ
  pub armed : List (ℕ × ℕ)
  pub sent : List Signal
  pub dir_removed : Bool
  pub cgroup_removed : Bool

-- The system calls, as they answer at the moment of a call: `none` is a nil error.
pub record Sys : Type 0 where
  pub signal : Job → Signal → Option Text
  pub open_file : Text → Option Text
  pub remove_all : Text → Option Text

-- pkg/job/logreader.go: outputReader, less the pointers into its job: the next byte of the file.
pub record OutputReader : Type 0 where
  pub path : Text
  pub offset : ℕ
