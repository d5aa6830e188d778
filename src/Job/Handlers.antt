-- ===== src/Job/Handlers.antt =====
-- The methods of the five state handlers, pkg/job/state_*.go, with the methods of pkg/job/job.go
-- that they call. The receiver has no fields: it is the first argument.
use jobs.Prelude.{
  ℕ, suc, ◌+◌, ◌==◌, Bool, true, false, List, [], ◌∷◌, Option, none, some, if◌then◌else◌,
}
use jobs.Job.{
  Job, Sys, Handler, active, ended, stopping, stopped, zombie, Status, status_active, status_ended,
  status_stopping, status_stopped, status_removed, sigterm, sigkill, Error, already_ended,
  already_stopping, already_stopped, removed, system, no_output, Result, ok, err, Outcome, returns,
  blocks, panics, ◌>>=◌, OutputReader,
}

-- time.AfterFunc(to, j.Stop), kept in j.stopTimer.
unfoldable pub after_func : Job → ℕ → Job
after_func j to = record j {
  stop_timer = some j.next_timer;
  next_timer = suc j.next_timer;
  armed = (j.next_timer, to) ∷ j.armed;
}

abbrev pub disarm : ℕ → List (ℕ × ℕ) → List (ℕ × ℕ)
disarm t [] = []
disarm t ((u, to) ∷ l) = let rest = disarm t l in if u == t then rest else (u, to) ∷ rest

-- if j.stopTimer != nil { j.stopTimer.Stop() }
unfoldable pub halt_timer : Job → Job
halt_timer j = elim j.stop_timer [ none ↦ j | some t ↦ record j { armed = disarm t j.armed } ]

-- sendStopSignal; `sent` keeps the signals that were delivered.
unfoldable pub send_stop_signal : Sys → Job → Bool → Job × Option Error
send_stop_signal sys j graceful =
    let s = if graceful then sigterm else sigkill in
    elim (sys.signal j s) [
      | none ↦ (record j { sent = s ∷ j.sent }, none)
      | some e ↦ (j, some (system e))
    ]

-- j.outLock.Wait() blocks while a reader is open.
unfoldable pub do_cleanup : Sys → Job → Outcome (Job × Option Error)
do_cleanup sys j =
    if j.out_lock == 0
    then returns (elim (sys.remove_all j.job_dir) [
      | none ↦ (record j { dir_removed = true }, none)
      | some e ↦ (j, some (system e))
    ])
    else blocks

unfoldable pub logs_reader : Sys → Job → Job × Result OutputReader
logs_reader sys j = elim (sys.open_file j.out_file_path) [
  | none ↦
      (record j { out_lock = j.out_lock + 1 }, ok (record { path = j.out_file_path; offset = 0 }))
  | some e ↦ (j, err (no_output e))
]

-- close(j.done) panics on a closed channel.
unfoldable pub close_done : Job → Outcome Job
close_done j = if j.done then panics else returns (record j { done = true })

-- The interface stateHandler; `exited` gives the next handler.
pub record StateHandler : Type 0 where
  pub status : Status
  pub graceful_stop : Sys → Job → ℕ → Job × Option Error
  pub force_stop : Sys → Job → Job × Option Error
  pub cleanup : Sys → Job → Outcome (Job × Option Error)
  pub logs : Sys → Job → Job × Result OutputReader
  pub exited : Job → Outcome (Job × Handler)

abbrev pub active_handler : StateHandler
active_handler = record {
  status = status_active;
  graceful_stop = λ sys j to. send_stop_signal sys (after_func j to) true;
  force_stop = λ sys j. send_stop_signal sys j false;
  cleanup = λ sys j. do_cleanup sys j;
  logs = λ sys j. logs_reader sys j;
  exited = λ j. close_done j >>= λ k. returns (k, ended);
}

abbrev pub ended_handler : StateHandler
ended_handler = record {
  status = status_ended;
  graceful_stop = λ sys j to. (j, some already_ended);
  force_stop = λ sys j. (j, some already_ended);
  cleanup = λ sys j. do_cleanup sys j;
  logs = λ sys j. logs_reader sys j;
  exited = λ j. returns (j, ended);
}

abbrev pub stopping_handler : StateHandler
stopping_handler = record {
  status = status_stopping;
  graceful_stop = λ sys j to. (j, some already_stopping);
  force_stop = λ sys j. send_stop_signal sys (halt_timer j) false;
  cleanup = λ sys j. do_cleanup sys j;
  logs = λ sys j. logs_reader sys j;
  exited = λ j. close_done (halt_timer j) >>= λ k. returns (k, stopped);
}

abbrev pub stopped_handler : StateHandler
stopped_handler = record {
  status = status_stopped;
  graceful_stop = λ sys j to. (j, some already_stopped);
  force_stop = λ sys j. (j, some already_stopped);
  cleanup = λ sys j. do_cleanup sys j;
  logs = λ sys j. logs_reader sys j;
  exited = λ j. close_done j >>= λ k. returns (k, stopped);
}

abbrev pub zombie_handler : StateHandler
zombie_handler = record {
  status = status_removed;
  graceful_stop = λ sys j to. (j, some removed);
  force_stop = λ sys j. (j, some removed);
  cleanup = λ sys j. returns (j, some removed);
  logs = λ sys j. (j, err removed);
  exited = λ j. returns (j, zombie);
}

-- A method of the handler that a job has.
abbrev pub status : Handler → Status
status active = active_handler.status
status ended = ended_handler.status
status stopping = stopping_handler.status
status stopped = stopped_handler.status
status zombie = zombie_handler.status

unfoldable pub graceful_stop : Handler → Sys → Job → ℕ → Job × Option Error
unfolding after_func send_stop_signal
graceful_stop active sys j to = active_handler.graceful_stop sys j to
graceful_stop ended sys j to = ended_handler.graceful_stop sys j to
graceful_stop stopping sys j to = stopping_handler.graceful_stop sys j to
graceful_stop stopped sys j to = stopped_handler.graceful_stop sys j to
graceful_stop zombie sys j to = zombie_handler.graceful_stop sys j to

unfoldable pub force_stop : Handler → Sys → Job → Job × Option Error
unfolding halt_timer send_stop_signal
force_stop active sys j = active_handler.force_stop sys j
force_stop ended sys j = ended_handler.force_stop sys j
force_stop stopping sys j = stopping_handler.force_stop sys j
force_stop stopped sys j = stopped_handler.force_stop sys j
force_stop zombie sys j = zombie_handler.force_stop sys j

unfoldable pub cleanup : Handler → Sys → Job → Outcome (Job × Option Error)
unfolding do_cleanup
cleanup active sys j = active_handler.cleanup sys j
cleanup ended sys j = ended_handler.cleanup sys j
cleanup stopping sys j = stopping_handler.cleanup sys j
cleanup stopped sys j = stopped_handler.cleanup sys j
cleanup zombie sys j = zombie_handler.cleanup sys j

unfoldable pub logs : Handler → Sys → Job → Job × Result OutputReader
unfolding logs_reader
logs active sys j = active_handler.logs sys j
logs ended sys j = ended_handler.logs sys j
logs stopping sys j = stopping_handler.logs sys j
logs stopped sys j = stopped_handler.logs sys j
logs zombie sys j = zombie_handler.logs sys j

unfoldable pub exited : Handler → Job → Outcome (Job × Handler)
unfolding close_done halt_timer
exited active j = active_handler.exited j
exited ended j = ended_handler.exited j
exited stopping j = stopping_handler.exited j
exited stopped j = stopped_handler.exited j
exited zombie j = zombie_handler.exited j
