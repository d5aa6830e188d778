-- ===== src/Supervisor.antt =====
-- pkg/supervisor/supervisor.go: the table of the jobs. The program keeps pointers; a job has one
-- entry, under its id, so a call that changes a job is an update of that entry. The lock makes each
-- method one step, but for Remove, whose Cleanup runs after the lock is given back: the entry is gone
-- while it waits.
pub mod Removal
pub mod Shapes
pub mod Table
pub mod Starting
pub mod Shutdown
mod Examples
use jobs.Prelude.{
  Text, text, join, ℕ, ℤ, pos, to_int32, Bool, true, false, ◌&&◌, Assoc, lookup, insert, delete,
  List, [], ◌∷◌, Option, none, some, if◌then◌else◌,
}
use jobs.Job.{
  Job, ExecIdentity, ExecLimits, Status, status_active, Sys, Outcome, returns, blocks, panics,
  ◌>>=◌, OutputReader,
}
use jobs.Job
use jobs.Job.Api
use jobs.Job.New.{JobOption, new, cpu, mem, io, uid, gid}
use jobs.Effects.{System, Failure, Effect, M}
use jobs.Effects

pub record JobSupervisor : Type 0 where
  pub jobs : Assoc Job
  pub ids : ExecIdentity

pub data Error : Type 0 where
  not_found still_running : Error
  job_error : Job.Error → Error
  create_error : Failure → Error

pub data Result {ℓ} (A : Type ℓ) : Type ℓ where
  ok : A → Result A
  err : Error → Result A

-- New
unfoldable pub new_supervisor : ℤ → ℤ → JobSupervisor
new_supervisor u g = record { jobs = []; ids = record { uid = u; gid = g } }

-- createJob, without the logger.
abbrev pub job_options : ExecLimits → ExecIdentity → List JobOption
job_options limits ids =
    cpu limits.cpu
    ∷ mem limits.max_ram_bytes
    ∷ io limits.max_disk_io_bytes
    ∷ uid ids.uid
    ∷ gid ids.gid
    ∷ []

unfoldable pub create_job : Text → List Text → ExecLimits → ExecIdentity → M Job
create_job cmd args limits ids = new cmd args (job_options limits ids)

-- The entry of a job, written.
unfoldable pub add : JobSupervisor → Job → JobSupervisor
add s j = record s { jobs = insert j.id j s.jobs }

unfoldable pub start :
    System → JobSupervisor → Text → List Text → ExecLimits → JobSupervisor × Result Text
unfolding add
start sys s cmd args limits = elim (create_job cmd args limits s.ids sys []).0 [
  | Effects.err e ↦ (s, err (create_error e))
  | Effects.ok j ↦ (add s j, ok j.id)
]

abbrev pub as_error : Option Job.Error → Option Error
as_error none = none
as_error (some e) = some (job_error e)

-- The pointer's job after a call.
abbrev pub update : JobSupervisor → Text → Job → JobSupervisor
update s id j = record s { jobs = insert id j s.jobs }

unfoldable pub stop : Sys → JobSupervisor → Text → Bool → JobSupervisor × Option Error
stop sys s id graceful = elim (lookup id s.jobs) [
  | none ↦ (s, some not_found)
  | some j ↦
      let (k, e) = if graceful then Api.init_stop sys j 30_000_000_000 else Api.stop sys j in
      (update s id k, as_error e)
]

unfoldable pub inspect : JobSupervisor → Text → Result (Status × ℤ × Text)
inspect s id = elim (lookup id s.jobs) [
  | none ↦ err not_found
  | some j ↦
      let (st, code) = Api.job_status j in
      ok (st, to_int32 code, join (j.command ∷ j.args) (text " "))
]

abbrev pub as_result : Job.Result OutputReader → Result OutputReader
as_result (Job.ok r) = ok r
as_result (Job.err e) = err (job_error e)

unfoldable pub logs : Sys → JobSupervisor → Text → JobSupervisor × Result OutputReader
logs sys s id = elim (lookup id s.jobs) [
  | none ↦ (s, err not_found)
  | some j ↦ let (k, r) = Api.logs sys j in (update s id k, as_result r)
]

-- The part of Remove under the lock: the entry goes, and the job is in hand.
unfoldable pub unlink : JobSupervisor → Text → JobSupervisor × Result Job
unlink s id = elim (lookup id s.jobs) [
  | none ↦ (s, err not_found)
  | some j ↦
      if Api.completed j
      then (record s { jobs = delete id s.jobs }, ok j)
      else (s, err still_running)
]

-- The rest of Remove: a job that is not cleaned up is put back.
unfoldable pub put_back : JobSupervisor → Job × Option Job.Error → JobSupervisor × Option Error
unfolding add
put_back s (j, none) = (s, none)
put_back s (j, some e) = (add s j, some (job_error e))

unfoldable pub clean : Sys → JobSupervisor → Result Job → Outcome (JobSupervisor × Option Error)
unfolding put_back
clean sys s (err e) = returns (s, some e)
clean sys s (ok j) = Api.cleanup sys j >>= λ r. returns (put_back s r)

unfoldable pub remove : Sys → JobSupervisor → Text → Outcome (JobSupervisor × Option Error)
unfolding unlink clean
remove sys s id = let (t, r) = unlink s id in clean sys t r

-- `remove`, the unexported method: it finds the job, and leaves the entry.
unfoldable pub find : JobSupervisor → Text → Result Job
find s id = elim (lookup id s.jobs) [ none ↦ err not_found | some j ↦ ok j ]

-- Cleanup: the job that the entry points to is changed.
unfoldable pub cleanup : Sys → JobSupervisor → Text → Outcome (JobSupervisor × Option Error)
cleanup sys s id = elim (find s id) [
  | err e ↦ returns (s, some e)
  | ok j ↦ Api.cleanup sys j >>= λ r. returns (put_back (update s id r.0) r)
]

-- The loops of StopSupervisor; the errors are dropped.
unfoldable pub stop_all : Sys → Assoc Job → Assoc Job
stop_all sys [] = []
stop_all sys ((id, j) ∷ m) = (id, (Api.init_stop sys j 10_000_000_000).0) ∷ stop_all sys m

unfoldable pub all_done : Assoc Job → Bool
all_done [] = true
all_done ((id, j) ∷ m) = j.done && all_done m

unfoldable pub cleanup_all : Sys → Assoc Job → Outcome (Assoc Job)
cleanup_all sys [] = returns []
cleanup_all sys ((id, j) ∷ m) =
    Api.cleanup sys j >>= λ r. cleanup_all sys m >>= λ rest. returns ((id, r.0) ∷ rest)

-- StopSupervisor: between the loops it waits until every job is done, while the threads of the jobs
-- turn the table into `meanwhile` of it.
unfoldable pub stop_supervisor :
    Sys → (Assoc Job → Assoc Job) → Sys → JobSupervisor → Outcome JobSupervisor
unfolding stop_all all_done
stop_supervisor sys meanwhile later s =
    let waited = meanwhile (stop_all sys s.jobs) in
    if all_done waited
    then (cleanup_all later waited >>= λ m. returns (record s { jobs = m }))
    else blocks
