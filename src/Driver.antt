-- ===== src/Driver.antt =====
-- cmd/test/main.go, the driver for tests by hand, once the package flag has parsed its command line:
-- it runs one job without a server, and has a shim of its own.
pub mod Telling
mod Examples
use jobs.Prelude.{
  Text, text, text_eq, join, ℕ, ℤ, pos, Bool, true, false, List, [], ◌∷◌, ◌++◌, Option, none, some,
  if◌then◌else◌,
}
use jobs.Effects.{Effect, System, Failure, M, ok, err, format_int}
use jobs.Effects
use jobs.Job.{Job, ExecIdentity, Sys, OutputReader, Result}
use jobs.Job
use jobs.Job.Api
use jobs.Job.New.{JobOption, new, shim, uid, gid, mem}
use jobs.Cgroup.Process.{setup_proc}
use jobs.Shim.{Host, Begun, Life, ended, looping, is_zero}
use jobs.Server.Follow.{Round, ReadError, read}

-- The driver has ended with a status, with what it printed of the job; or it panics, or still reads.
pub data Driven : Type 0 where
  exited : ℕ → List ℕ → Driven
  crashed : Driven
  reading : List ℕ → Driven
  in_shim : Text × Begun → Driven

abbrev pub driver_options : List JobOption
driver_options =
    shim (text "/proc/self/exe") ∷ uid (pos 1000) ∷ gid (pos 1000) ∷ mem (pos 31_111_111) ∷ []

-- The loop over the job's output. A round's `done` is what Completed says; an error of the read is
-- dropped.
unfoldable pub driver_loop : List Round → OutputReader → List ℕ → Driven
driver_loop [] r out = reading out
driver_loop (o ∷ os) r out =
    let (r', chunk, e) = read 64 o r in
    let rest = driver_loop os r' (out ++ chunk) in
    elim chunk [ [] ↦ if o.done then exited 0 out else rest | b ∷ bs ↦ rest ]

-- The second reader, which a goroutine closes, only has to open.
abbrev with_second : List Round → OutputReader → Result OutputReader → Driven
with_second rounds r (Job.err e) = crashed
with_second rounds r (Job.ok r2) = driver_loop rounds r []

abbrev with_reader : Sys → List Round → Job × Result OutputReader → Driven
with_reader sys rounds (j, Job.err e) = crashed
with_reader sys rounds (j, Job.ok r) = with_second rounds r (Api.logs sys j).1

abbrev with_job : Sys → List Round → Effects.Result Job → Driven
with_job sys rounds (err e) = crashed
with_job sys rounds (ok j) = with_reader sys rounds (Api.logs sys j)

-- Without an argument, the first one is out of range.
unfoldable pub run_job : System → Sys → List Round → List Text → Driven
unfolding driver_loop
run_job host sys rounds [] = crashed
run_job host sys rounds (cmd ∷ args) = with_job sys rounds (new cmd args driver_options host []).0

-- The pipe is open until prctl has answered.
abbrev pub announce : Host → Text × Life
announce h =
    if h.prctl_works
    then ([], looping h.command_starts)
    else (text "failed to setup the process", ended 1)

-- What the driver's shim prints first, to the output of the job.
abbrev pub running_line : Host → Text → List Text → ExecIdentity → Text
running_line h command args ids =
    text "Running {"
    ++ (command
        ++ (text " ["
            ++ (join args (text " ")
                ++ (text "]} with PID="
                    ++ (format_int h.system.pid
                        ++ (text " (uid:"
                            ++ (format_int ids.uid
                                ++ (text "; gid:" ++ (format_int ids.gid ++ text ")\n")))))))))

-- After SetupProc.
abbrev pub set_up_shim : Host → Text → List Text → Effects.Result (Unit {0}) × List Effect → Begun
set_up_shim h command args (err e, trace) = record {
  message = text "failed to setup the process: " ++ h.render e;
  trace = trace;
  life = ended 1;
  command = command;
  args = args;
}
set_up_shim h command args (ok _, trace) = record {
  message = (announce h).0;
  trace = trace;
  life = (announce h).1;
  command = command;
  args = args;
}

-- The shim of the driver, up to its loop, which is that of the server's shim: what it prints, and how
-- it has begun.
unfoldable pub begin : Host → Text → List Text → Text → ExecIdentity → Text × Begun
begin h command args cgroup ids = (
  running_line h command args ids,
  set_up_shim h command args (setup_proc cgroup ids h.system []),
)

unfoldable pub main :
    Host → Sys → List Round → Text → Text → List Text → Text → ExecIdentity → Driven
unfolding run_job begin
main h sys rounds mode command args cgroup ids =
    if is_zero h.system.uid
    then (if text_eq mode (text "shim")
        then in_shim (begin h command args cgroup ids)
        else run_job h.system sys rounds args)
    else exited 1 []
