-- ===== src/Startup/Shutdown.antt =====
-- The end of main in cmd/server/main.go: the goroutine that awaits a signal, the two that it starts,
-- for GracefulStop of the gRPC server and for StopServer, and Serve with the wait that follows it.
pub mod Waiting
mod Examples
use jobs.Prelude.{
  Text, ℕ, ◌+◌, ◌-◌, ◌==◌, ==_iff, Bool, true, false, Assoc, List, [], ◌∷◌, Option, none, some,
  if◌then◌else◌, ◌≡◌, ◌≢◌, ◌⊎◌, inl, inr, refl, arith,
}
use jobs.Effects.{System}
use jobs.Job.{Job, Sys, Outcome, returns, blocks, ◌>>=◌}
use jobs.Server.{JobServer, Limits, start, stop_server}

pub data Task : Type 0 where
  not_started running ended : Task

pub data Main : Type 0 where
  serving waiting : Main  -- in Serve, and in doneWg.Wait
  exited : ℕ → Main

pub record Process : Type 0 where
  pub signalled : Bool  -- the channel of the signals, which has room for one
  pub awaits : Bool  -- the goroutine has not read it
  pub count : ℕ  -- of doneWg
  pub graceful : Task
  pub stopper : Task
  pub main : Main
  pub server : JobServer

pub data Event : Type 0 where
  signal_comes signal_read : Event
  graceful_ends : Event
  stop_server_ends : Sys → (Assoc Job → Assoc Job) → Sys → Event
  serve_fails serve_returns : Event
  wait_ends : Event
  start_served : System → Text → Text → List Text → Limits → Event

abbrev pub is_running : Task → Bool
is_running running = true
is_running _ = false

abbrev pub is_begun : Task → Bool
is_begun not_started = false
is_begun _ = true

abbrev pub is_ended : Task → Bool
is_ended ended = true
is_ended _ = false

-- Serve returns a nil error only once GracefulStop was called, and GracefulStop waits for the calls
-- that are being served. StopServer holds the supervisor's lock, which a Start wants.
abbrev act : Process → Event → Outcome Process
unfolding stop_server start
act p signal_comes = returns (record p { signalled = true })
act p signal_read =
    if p.signalled
    then (if p.awaits
        then returns (record p {
          signalled = false;
          awaits = false;
          count = p.count + 2;
          graceful = running;
          stopper = running;
        })
        else blocks)
    else blocks
act p graceful_ends =
    if is_running p.graceful
    then returns (record p { graceful = ended; count = p.count - 1 })
    else blocks
act p (stop_server_ends sys meanwhile later) =
    if is_running p.stopper
    then (stop_server sys meanwhile later p.server >>= λ s.
        returns (record p { stopper = ended; count = p.count - 1; server = s }))
    else blocks
act p serve_fails = if is_begun p.graceful then blocks else returns (record p { main = exited 1 })
act p serve_returns = if is_begun p.graceful then returns (record p { main = waiting }) else blocks
act p wait_ends = blocks
act p (start_served host cid cmd args l) =
    if is_ended p.graceful
    then blocks
    else (if is_running p.stopper
        then blocks
        else returns (record p { server = (start host p.server (some cid) cmd args (some l)).0 }))

abbrev wait : Process → Event → Outcome Process
wait p wait_ends = if p.count == 0 then returns (record p { main = exited 0 }) else blocks
wait p serve_fails = blocks
wait p serve_returns = blocks
wait p e = act p e

-- The main goroutine ends the process with the others in it.
unfoldable pub step : Process → Event → Outcome Process
unfolding act wait
step p e = elim p.main [ serving ↦ act p e | waiting ↦ wait p e | exited n ↦ blocks ]

pub data Reach (p : Process) : Process → Type 0 where
  here : Reach p p
  next : {q r : Process} → Reach p q → (e : Event) → step q e ≡ returns r → Reach p r

abbrev pub begun : JobServer → Process
begun s = record {
  signalled = false;
  awaits = true;
  count = 0;
  graceful = not_started;
  stopper = not_started;
  main = serving;
  server = s;
}
