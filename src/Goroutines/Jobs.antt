-- ===== src/Goroutines/Jobs.antt =====
-- Whatever the handlers do, a job sees only what Job/Threads describes.
use jobs.Prelude.{
  Text, ℕ, ◌==◌, ==_iff, ◌<◌, true, List, [], ◌≡◌, ◌≢◌, inl, inr, refl, subst, sym, arith,
  Bool-cases, ◌↔◌,
}
use jobs.Effects.{System}
use jobs.Effects
use jobs.Job.{Job, ExecIdentity, ExecLimits, Sys, returns, panics, zombie}
use jobs.Job.Api.{wait}
use jobs.Job.Threads
use jobs.Job.Threads.{World, Action, IsFresh, step, begin_cleanup, end_cleanup, call_logs}
use jobs.Job.Safety.{step-ne-panics, wait_iff}
use jobs.Supervisor.{create_job}
use jobs.Supervisor.Starting.{create_job_ok, create_job_unread}
use jobs.Goroutines.{
  Memory, Pc, new_world, allocate, at, stop_action, Move, create, register, own, grant, missing,
  stop, open_logs, inspect, refuse, unlink, begin, begin_removed, finish, fail, put_back, forget,
  State, Step, moves, runs, IsNew, Reach, here, later,
}

-- The job has come from New to where it is by steps of its own machine.
abbrev pub Lives : World → Type 0
Lives w = (v : World) × IsFresh v × Threads.Reach v w

abbrev pub AllLive : Memory → Type 0
AllLive m = (p : ℕ) → p < m.next → Lives (m.heap p)

pub Lives-on : (sys : Sys) (v w : World) (a : Action) → Lives v → step sys v a ≡ returns w → Lives w
Lives-on sys v w a (u, f, r) h = (u, f, Threads.Reach.next r sys a h)

at-AllLive :
    (m : Memory) (p : ℕ) (w : World) → AllLive m → (p < m.next → Lives w) → AllLive (at m p w)
at-AllLive m p w all l q b = elim (Bool-cases (p == q)) [
  | inl same ↦ rw same (l (subst (λ x. x < m.next) (sym ((==_iff p q).0 same)) b))
  | inr other ↦ rw other (all q b)
]

new_world-IsFresh :
    (sys : System) (cmd : Text) (args : List Text) (limits : ExecLimits) (ids : ExecIdentity)
    (j : Job)
    → (create_job cmd args limits ids sys []).0 ≡ Effects.ok j
    → IsFresh (new_world j)
new_world-IsFresh sys cmd args limits ids j h =
    let (_, a, d, o, _, _, _, _) = create_job_ok sys cmd args limits ids j h in
    record {
      is_active = a;
      not_done = d;
      no_readers = (o, create_job_unread sys cmd args limits ids j h);
      none_open = (refl, refl);
      not_exited = refl;
      not_cleaning = refl;
    }

allocate-AllLive : (m : Memory) (j : Job) → AllLive m → Lives (new_world j) → AllLive (allocate m j)
allocate-AllLive m j all l q b = elim (Bool-cases (m.next == q)) [
  | inl same ↦ rw same l
  | inr other ↦ rw other (all q (ground arith))
]

Move-AllLive : {m n : Memory} {p q : Pc} → Move m p n q → AllLive m → AllLive n
Move-AllLive {m} (create sys cid cmd args limits j h) all =
    allocate-AllLive m j all
      (new_world j, new_world-IsFresh sys cmd args limits m.ids j h, Threads.Reach.here)
Move-AllLive register all = all
Move-AllLive own all = all
Move-AllLive (grant cid op h) all = all
Move-AllLive (missing h) all = all
Move-AllLive {m} (stop {graceful = g} {w = w} sys p f h) all =
    at-AllLive m p w all (λ b. Lives-on sys (m.heap p) w (stop_action g) (all p b) h)
Move-AllLive {m} (open_logs {follow = f} {w = w} sys p g h) all =
    at-AllLive m p w all (λ b. Lives-on sys (m.heap p) w (call_logs f) (all p b) h)
Move-AllLive (inspect p f c) all = all
Move-AllLive (refuse p f c d) all = all
Move-AllLive (unlink p f c d) all = all
Move-AllLive {m} (begin {p = p} {w = w} sys h c) all =
    at-AllLive m p w all (λ b. Lives-on sys (m.heap p) w begin_cleanup (all p b) h)
Move-AllLive {m} (begin_removed {p = p} {w = w} sys h c) all =
    at-AllLive m p w all (λ b. Lives-on sys (m.heap p) w begin_cleanup (all p b) h)
Move-AllLive {m} (finish {p = p} {w = w} sys h c) all =
    at-AllLive m p w all (λ b. Lives-on sys (m.heap p) w end_cleanup (all p b) h)
Move-AllLive {m} (fail {p = p} {w = w} sys h c) all =
    at-AllLive m p w all (λ b. Lives-on sys (m.heap p) w end_cleanup (all p b) h)
Move-AllLive put_back all = all
Move-AllLive forget all = all

Step-AllLive : {s u : State} → Step s u → AllLive s.memory → AllLive u.memory
Step-AllLive (moves t h) all = Move-AllLive h all
Step-AllLive {s} (runs p sys a {w} b mine h) all =
    at-AllLive s.memory p w all (λ b'. Lives-on sys (s.memory.heap p) w a (all p b') h)

pub Reach-AllLive : {v s : State} → IsNew v → Reach v s → AllLive s.memory
Reach-AllLive new here = λ p b. absurd (ground (arith, new.none_made))
Reach-AllLive new (later r h) = Step-AllLive h (Reach-AllLive new r)

-- In any interleaving of the handlers of a new server with the goroutines of its jobs, every job has
-- lived by the steps of its own machine from a new job on. So no call and no goroutine of any job
-- panics, and Wait on a job that is not removed returns exactly when its goroutine has called
-- exited, whatever its state is, stopped included.
pub every_job-Lives :
    {v s : State}
    → IsNew v
    → Reach v s
    → (p : ℕ) → p < s.memory.next
    → Lives (s.memory.heap p)
      × ((sys : Sys) (a : Action) → step sys (s.memory.heap p) a ≢ panics)
      × ((s.memory.heap p).job.handler ≢ zombie
          → (wait (s.memory.heap p).job ≡ returns tt) ↔ ((s.memory.heap p).exit_ran ≡ true))
every_job-Lives new r p b =
    let (v, f, l) = Reach-AllLive new r p b in
    ((v, f, l), (λ sys a. step-ne-panics f l sys a), λ z. (wait_iff f l z).0)
