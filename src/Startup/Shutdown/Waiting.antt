-- ===== src/Startup/Shutdown/Waiting.antt =====
-- What the process waits for before it ends, and what it does not wait for.
use jobs.Prelude.{
  Text, text, join, pos, trim_space, ℕ, ◌+◌, true, false, Assoc, List, [], ◌∷◌, some, ◌≡◌, ◌≢◌, ◌⊎◌,
  refl, arith,
}
use jobs.Effects.{System}
use jobs.Job.{Job, Sys, returns}
use jobs.Server.{JobServer, Limits, ok, pb_active, start, inspect, stop_server}
use jobs.Server.Lifecycle.{start-inspect}
use jobs.Startup.Shutdown.{
  Task, running, ended, waiting, exited, Process, Event, signal_comes, signal_read, graceful_ends,
  stop_server_ends, serve_returns, wait_ends, start_served, is_begun, step, Reach, here, next,
  begun,
}

abbrev weight : Task → ℕ
weight running = 1
weight _ = 0

record Inv (p : Process) : Type 0 where
  pub counted : p.count ≡ weight p.graceful + weight p.stopper
  pub together : is_begun p.graceful ≡ is_begun p.stopper
  pub unread : p.awaits ≡ true → is_begun p.graceful ≡ false
  pub served : p.main ≡ waiting → is_begun p.graceful ≡ true
  pub done : p.main ≡ exited 0 → (p.graceful ≡ ended) × (p.stopper ≡ ended)
  pub failed : (n : ℕ) → p.main ≡ exited n → (n ≡ 0) ⊎ (n ≡ 1)

step-Inv : (p : Process) (e : Event) (q : Process) → Inv p → step p e ≡ returns q → Inv q
unfolding step
step-Inv p signal_comes q v h = ground arith
step-Inv p _ q v h = ground arith

Reach-Inv : {s : JobServer} {p : Process} → Reach (begun s) p → Inv p
Reach-Inv here = record {
  counted = refl;
  together = refl;
  unread = λ e. refl;
  served = λ e. cc;
  done = λ e. cc;
  failed = λ n e. cc;
}
Reach-Inv (next {q = q} {r = r} v e h) = step-Inv q e r (Reach-Inv v) h

-- The process ends only with 0 or 1, and with 0 only once GracefulStop and StopServer have both
-- returned: the counter is raised before Serve can return, so that the wait never misses them. Once
-- both have, and Serve has returned, the wait ends.
pub exit_waits :
    {s : JobServer} {p : Process}
    → Reach (begun s) p
    → ((n : ℕ) → p.main ≡ exited n → (n ≡ 0) ⊎ (n ≡ 1))
      × (p.main ≡ exited 0 → (p.graceful ≡ ended) × (p.stopper ≡ ended))
      × (p.main ≡ waiting
          → p.graceful ≡ ended
          → p.stopper ≡ ended
          → step p wait_ends ≡ returns (record p { main = exited 0 }))
unfolding step
exit_waits {p = p} r = let v = Reach-Inv r in (v.failed, v.done, λ w g t. ground (arith, v.counted))

-- The run of a shutdown in which a Start that was being served comes after StopServer.
abbrev signalled : JobServer → Process
signalled s = record (begun s) { signalled = true }

abbrev stopping : JobServer → Process
stopping s = record (begun s) { awaits = false; count = 2; graceful = running; stopper = running }

abbrev stopped : JobServer → Process
stopped s = record (begun s) { awaits = false; count = 1; graceful = running; stopper = ended }

abbrev drained : JobServer → Process
drained s = record (begun s) { awaits = false; count = 0; graceful = ended; stopper = ended }

abbrev pub over : JobServer → Process
over s = record (drained s) { main = exited 0 }

-- GracefulStop lets the calls end that are being served, and StopServer does not wait for them: a
-- Start that gets the supervisor's lock after StopServer, of a client and an id without blanks at
-- their ends, leaves a job that is active when the process ends with status 0.
pub late_start_survives :
    (sys later : Sys) (meanwhile : Assoc Job → Assoc Job) (s t : JobServer) (host : System)
    (cid cmd : Text) (args : List Text) (l : Limits) (jid : Text)
    → stop_server sys meanwhile later s ≡ returns t
    → (start host t (some cid) cmd args (some l)).1 ≡ ok jid
    → cid ≢ []
    → trim_space cid ≡ cid
    → host.new_id ≢ []
    → trim_space host.new_id ≡ host.new_id
    → (u : JobServer) × Reach (begun s) (over u)
      × (inspect u (some cid) jid
          ≡ ok (record {
            command = join (cmd ∷ args) (text " ");
            status = pb_active;
            exit_code = pos 0;
          }))
unfolding step
late_start_survives sys later meanwhile s t host cid cmd args l jid stops begins c e n i =
    let (_, seen) = start-inspect host t cid cmd args (some l) jid c e n i begins in (u, r7, seen)
  where
    u : JobServer
    u = (start host t (some cid) cmd args (some l)).0

    r2 : Reach (begun s) (stopping s)
    r2 = Reach.next {q = signalled s} (Reach.next Reach.here signal_comes refl) signal_read refl

    r3 : Reach (begun s) (stopped t)
    r3 = Reach.next r2 (stop_server_ends sys meanwhile later) (rw stops refl)

    r4 : Reach (begun s) (stopped u)
    r4 = Reach.next r3 (start_served host cid cmd args l) refl

    r5 : Reach (begun s) (drained u)
    r5 = Reach.next r4 graceful_ends refl

    r6 : Reach (begun s) (record (drained u) { main = waiting })
    r6 = Reach.next r5 serve_returns refl

    r7 : Reach (begun s) (over u)
    r7 = Reach.next r6 wait_ends refl
