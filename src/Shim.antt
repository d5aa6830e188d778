-- ===== src/Shim.antt =====
-- pkg/server/shim/shim.go, and the part of cmd/server/main.go that leads to it: the process that New
-- starts, which sets itself up, tells its parent of a failure through the pipe, and runs the command.
pub mod Signals
pub mod Protocol
mod Examples
use jobs.Prelude.{
  Text, text, text_eq, ℕ, zero, suc, ℤ, pos, negsuc, ◌+◌, ◌-◌, ◌%◌, Bool, true, false, List, [],
  ◌∷◌, ◌++◌, Option, none, some, if◌then◌else◌,
}
use jobs.Job.{ExecIdentity}
use jobs.Job.Api.{state_exit_code}
use jobs.Effects.{Effect, System, Failure, Result, ok, err}
use jobs.Cgroup.Process.{setup_proc}
use jobs.Flags.{Flags, Parsed, parsed, help_shown, usage_error, parse}

-- How the shim goes on: it has ended with a status, or it runs the loop, with its command started or
-- not.
pub data Life : Type 0 where
  ended : ℕ → Life
  looping : Bool → Life

pub record Begun : Type 0 where
  pub message : Text  -- what it wrote to the pipe
  pub trace : List Effect  -- what SetupProc did
  pub life : Life
  pub command : Text
  pub args : List Text

-- How the shim's own calls are answered: an error's text, prctl, and the start of the command.
pub record Host : Type 0 where
  pub system : System
  pub render : Failure → Text
  pub prctl_works : Bool
  pub command_starts : Bool

abbrev pub is_zero : ℤ → Bool
is_zero (pos zero) = true
is_zero _ = false

-- After SetupProc: the pipe is closed, so that the message of a failed prctl is lost.
abbrev begin_loop : Host → Life
begin_loop h = if h.prctl_works then looping h.command_starts else ended 1

-- Main of the shim, up to its loop.
unfoldable pub begin : Host → Text → Text → List Text → Text → ExecIdentity → Begun
begin h argv0 command args cgroup ids =
    let (set_up, trace) = setup_proc cgroup ids h.system [] in
    if text_eq argv0 (text "/proc/self/exe")
    then (elim set_up [
      | err e ↦ record {
        message = text "failed to setup the process: " ++ h.render e;
        trace = trace;
        life = ended 1;
        command = command;
        args = args;
      }
      | ok _ ↦ record {
        message = [];
        trace = trace;
        life = begin_loop h;
        command = command;
        args = args;
      }
    ])
    else record { message = []; trace = []; life = ended 1; command = command; args = args }

-- main of cmd/server, up to the choice between the shim and the server.
pub data Started : Type 0 where
  exited : ℕ → Started
  shim : Begun → Started
  server : Flags → Started

unfoldable pub main_start : Host → Text → List Text → Started
main_start h argv0 argv =
    if is_zero h.system.uid
    then (elim (parse argv) [
      | help_shown ↦ exited 0
      | usage_error ↦ exited 2
      | parsed f args ↦
          if text_eq f.mode (text "shim")
          then shim (begin h argv0 f.cmd args f.cgroup (record { uid = f.uid; gid = f.gid }))
          else server f
    ])
    else exited 1

-- What comes to the shim in its loop: the command ends, with the code of its state if it has one, a
-- signal that its loop receives, or the end of its last child. The channels of the signals hold one
-- each, and signal.Notify drops those that find their channel full: these are no events.
pub data Event : Type 0 where
  command_ends : Option ℤ → Event
  hang_up terminate : Event
  no_children : Event

-- `waiting` in the select, `draining` in waitForOrphans; each with the number of the SIGTERMs that
-- were passed on.
pub data State : Type 0 where
  waiting : Bool → ℕ → State
  draining : ℤ → ℕ → State
  ended : ℕ → ℕ → State

-- The status that the system keeps of os.Exit(code).
abbrev pub exit_status : ℤ → ℕ
exit_status (pos n) = n % 256
exit_status (negsuc n) = 255 - n % 256

-- A SIGTERM for a command that was not started is a call on a nil process, and a panic.
unfoldable pub step : State → Event → State
step (waiting started n) (command_ends code) = draining (state_exit_code code) n
step (waiting started n) hang_up = ended 1 n
step (waiting started n) terminate = if started then waiting started (n + 1) else ended 2 n
step (waiting started n) no_children = waiting started n
step (draining code n) no_children = ended (exit_status code) n
step (draining code n) _ = draining code n
step (ended code n) _ = ended code n

unfoldable pub run : State → List Event → State
unfolding step
run s [] = s
run s (e ∷ es) = run (step s e) es
