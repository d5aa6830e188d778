-- ===== src/Job/Api.antt =====
-- The methods of pkg/job/job.go that run under the state lock, each as one function of the job,
-- and the Read and Close of pkg/job/logreader.go on the counters of the job.
use jobs.Prelude.{
  ℕ, ℤ, pos, negsuc, ◌+◌, ◌-◌, ◌==◌, ◌%◌, ◌^◌, Bool, true, false, Option, none, some, if◌then◌else◌,
}
use jobs.Job.{
  Job, Sys, Handler, stopping, stopped, zombie, Status, status_active, status_stopping, Error,
  Result, ok, err, Outcome, returns, blocks, panics, ◌>>=◌, OutputReader,
}
use jobs.Job.Handlers

-- Job.ExitCode
unfoldable pub exit_code : Job → ℤ × Bool
exit_code j = elim j.process_state [ none ↦ (pos 0, false) | some c ↦ (c, true) ]

-- os.ProcessState.ExitCode, which is -1 on a nil state.
abbrev pub state_exit_code : Option ℤ → ℤ
state_exit_code none = negsuc 0
state_exit_code (some c) = c

abbrev pub is_running : Status → Bool
is_running status_active = true
is_running status_stopping = true
is_running _ = false

-- Job.Status
unfoldable pub job_status : Job → Status × ℤ
job_status j =
    let st = Handlers.status j.handler in
    if is_running st then (st, pos 0) else (st, state_exit_code j.process_state)

unfoldable pub completed : Job → Bool
completed j = if is_running (Handlers.status j.handler) then false else true

unfoldable pub set_handler : Job → Handler → Job
set_handler j h = record j { handler = h }

-- The state is changed only where the handler's method returned no error.
abbrev set_if_ok : Handler → Job × Option Error → Job × Option Error
unfolding set_handler
set_if_ok h (j, none) = (set_handler j h, none)
set_if_ok h (j, some e) = (j, some e)

unfoldable pub init_stop : Sys → Job → ℕ → Job × Option Error
unfolding set_handler Handlers.graceful_stop
init_stop sys j to = set_if_ok stopping (Handlers.graceful_stop j.handler sys j to)

unfoldable pub stop : Sys → Job → Job × Option Error
unfolding set_handler Handlers.force_stop
stop sys j = set_if_ok stopped (Handlers.force_stop j.handler sys j)

unfoldable pub cleanup : Sys → Job → Outcome (Job × Option Error)
unfolding set_handler Handlers.cleanup
cleanup sys j = Handlers.cleanup j.handler sys j >>= λ r. returns (set_if_ok zombie r)

-- The counter is an int32.
abbrev count_reader : Job × Result OutputReader → Job × Result OutputReader
count_reader (j, ok r) = (record j { log_readers = (j.log_readers + 1) % 2 ^ 32 }, ok r)
count_reader (j, err e) = (j, err e)

unfoldable pub logs : Sys → Job → Job × Result OutputReader
unfolding Handlers.logs
logs sys j = count_reader (Handlers.logs j.handler sys j)

-- removeCgroup; a failure is only logged.
unfoldable pub remove_cgroup : Sys → Job → Job
remove_cgroup sys j = elim (sys.remove_all j.cgroup_outer) [
  | none ↦ record j { cgroup_removed = true }
  | some e ↦ j
]

unfoldable pub store_exit_code : Job → Job
store_exit_code j = elim j.process_state [ none ↦ j | some c ↦ record j { exit_code = c } ]

-- Job.exited
unfoldable pub exited : Sys → Job → Outcome Job
unfolding remove_cgroup store_exit_code set_handler Handlers.exited
exited sys j =
    let k = remove_cgroup sys (store_exit_code j) in
    Handlers.exited k.handler k >>= λ r. returns (set_handler r.0 r.1)

-- Job.Wait
unfoldable pub wait : Job → Outcome (Unit {0})
wait j = if j.done then returns tt else blocks

-- outputReader.Close; the WaitGroup panics below zero.
unfoldable pub close_reader : Job → Outcome Job
close_reader j =
    if j.out_lock == 0
    then panics
    else returns (record j {
      out_lock = j.out_lock - 1;
      log_readers = (j.log_readers + 2 ^ 32 - 1) % 2 ^ 32;
    })
