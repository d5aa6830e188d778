-- ===== src/Goroutines/Ending.antt =====
-- What Wait on a job of the table waits for.
use jobs.Prelude.{
  Text, ℕ, false, lookup, none, some, ◌≡◌, ◌≢◌, ◌⊎◌, inl, inr, Bool-cases, Option-cases,
}
use jobs.Job.{Sys, returns, blocks, zombie}
use jobs.Job.Api
use jobs.Job.Api.{wait, exited}
use jobs.Job.Threads.{World, Action, run_exited, begin_cleanup, end_cleanup, call_logs, step}
use jobs.Job.Threads
use jobs.Job.Draining.{took, exited-ran, run-unlocked, Drains, Drained, job-Drains}
use jobs.Job.Safety.{step-ne-panics, wait_iff}
use jobs.Goroutines.{State, IsNew, Reach}
use jobs.Goroutines.Jobs.{Lives, Reach-AllLive}
use jobs.Goroutines.Transfers.{held}
use jobs.Goroutines.Holders.{Reach-Held}
use jobs.Goroutines.Locks.{Reach-Locked}
use jobs.Goroutines.Progress.{table-free}
use jobs.Goroutines.Alive.{Reach-Alive, step-zombie}

-- Wait on a job that is not removed and whose lock is free.
wait_cases :
    (sys : Sys) (v : World)
    → Lives v
    → v.job.handler ≢ zombie
    → v.cleaning ≡ false
    → (wait v.job ≡ returns tt)
      ⊎ ((v.job.process_state ≡ none)
          ⊎ ((w : World) × (step sys v run_exited ≡ returns w) × (wait w.job ≡ returns tt)))
wait_cases sys v (u, f, l) n c = elim (Bool-cases v.exit_ran) [
  | inl ran ↦ inl ((wait_iff f l n).0.1 ran)
  | inr not_yet ↦ elim (Option-cases v.job.process_state) [
    | inl runs_on ↦ inr (inl runs_on)
    | inr (code, p) ↦
        let (w, h) =
          took (step sys v run_exited)
            (run-unlocked sys v code p not_yet c, step-ne-panics f l sys run_exited) in
        inr (
          inr (
            w,
            h,
            (wait_iff f (Threads.Reach.next l sys run_exited h)
                  (λ z. n (step-zombie sys v run_exited w (λ e. cc) h z))).0.1
                (exited-ran sys v w h),
          ))
  ]
]

-- In any interleaving of the handlers of a new server with the goroutines of its jobs, no job of the
-- table is removed, nor one that a handler holds, so that no Remove ever finds its job removed. And
-- Wait on a job of the table, as StopServer calls it, waits for nothing but the job's process: it
-- returns at once, or the process has not ended, or the job's goroutine can call exited at once, and
-- then Wait returns. Nor does such a job wait for a call: its process may end, its goroutine call
-- exited and its readers come to the end of the output, until no reader is open, the channel is
-- closed, and its Cleanup waits for nothing.
pub wait_for_process :
    {v s : State}
    → IsNew v
    → Reach v s
    → ((t x : ℕ) → held (s.pc t) ≡ some x → (s.memory.heap x).job.handler ≢ zombie)
      × ((id : Text) (x : ℕ) (sys : Sys)
          → lookup id s.memory.table ≡ some x
          → ((s.memory.heap x).job.handler ≢ zombie)
            × ((wait (s.memory.heap x).job ≡ returns tt)
                ⊎ (((s.memory.heap x).job.process_state ≡ none)
                    ⊎ ((w : World) × (step sys (s.memory.heap x) run_exited ≡ returns w)
                        × (wait w.job ≡ returns tt))))
            × ((u : World) × Drains sys (s.memory.heap x) u
                × Drained u
                × ((later : Sys) → Api.cleanup later u.job ≢ blocks)))
wait_for_process {s = s} new r =
    let inv = Reach-Alive new r in
    let holds = Reach-Held new r in
    (
      inv.in_hand,
      λ id x sys f.
          let lives = Reach-AllLive new r x (holds.keyed id x f).0 in
          let unlocked = table-free holds (Reach-Locked new r) id x f in
          let (o, fresh, run) = lives in
          (
            inv.listed id x f,
            wait_cases sys (s.memory.heap x) lives (inv.listed id x f) unlocked,
            job-Drains fresh run (inv.listed id x f) unlocked sys,
          ),
    )
