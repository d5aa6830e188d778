-- ===== src/Job/Deadlock.antt =====
-- Cleanup waits for the open log readers while it holds the state lock. A reader in follow mode
-- waits for `done`, which only `exited` closes, under the same lock.
use jobs.Prelude.{Bool, ◌<◌, ◌+◌, true, false, none, ◌≡◌, ◌≢◌, arith}
use jobs.Job.{Sys, sigkill, Job, returns, blocks, zombie}
use jobs.Job.Api.{wait, completed, logs, stop}
use jobs.Job.Threads.{
  World, Action, call_stop, call_logs, begin_cleanup, end_cleanup, run_exited, follower_ends,
  follower_cancels, follower_fails, call_init_stop, timer_stops, step, Reach, IsFresh,
}

-- A Cleanup waits, a follower is open, and the channel is not closed.
pub record IsStuck (w : World) : Type 0 where
  pub present : w.job.handler ≢ zombie
  pub waits : w.cleaning ≡ true
  pub follows : 0 < w.followers
  pub open_channel : w.job.done ≡ false
  pub reading : w.job.out_lock ≡ w.readers + w.followers

-- A run in which no client of a follower goes away, and no read or send of its handler fails.
pub data Patient (v : World) : World → Type 0 where
  here : Patient v v
  next :
      {w u : World}
      → Patient v w
      → (sys : Sys) (a : Action) → a ≢ follower_cancels
      → a ≢ follower_fails
      → step sys w a ≡ returns u
      → Patient v u

step-IsStuck :
    (sys : Sys) (w : World) (a : Action) (u : World)
    → IsStuck w
    → a ≢ follower_cancels
    → a ≢ follower_fails
    → step sys w a ≡ returns u
    → IsStuck u
unfolding step
step-IsStuck sys w call_stop u v n m h = ground arith
step-IsStuck sys w _ u v n m h = ground arith

Patient-keeps : {w u : World} → IsStuck w → Patient w u → IsStuck u
Patient-keeps v here = v
Patient-keeps v (next {w = m} {u = u} r sys a n k h) =
    step-IsStuck sys m a u (Patient-keeps v r) n k h

stuck_cleanup : (sys : Sys) (w : World) → IsStuck w → step sys w end_cleanup ≡ blocks
unfolding step
stuck_cleanup sys w v = ground arith

-- The steps that want the state lock, `exited` and the Stop of a timer among them. Status and
-- Completed want it too; they change nothing and are no steps.
abbrev pub wants_lock : Action → Bool
wants_lock (call_init_stop to) = true
wants_lock call_stop = true
wants_lock (call_logs follow) = true
wants_lock begin_cleanup = true
wants_lock timer_stops = true
wants_lock run_exited = true
wants_lock _ = false

locked_out :
    (sys : Sys) (w : World) (a : Action) → IsStuck w → wants_lock a ≡ true → step sys w a ≡ blocks
unfolding step
locked_out sys w call_stop v n = ground arith
locked_out sys w _ v n = ground arith

-- Once a Cleanup waits for a follower of a job that is not done, in every run in which no client of
-- a follower goes away and no read or send of a follower's handler fails, the Cleanup waits for ever,
-- whatever the process does: it never finishes, Wait blocks, no follower comes to its end, and no
-- step that wants the state lock can be made, which is every InitStop, Stop, Logs and Cleanup, the
-- Stop of a timer, and `exited`.
pub Patient-IsStuck :
    {w u : World}
    → IsStuck w
    → Patient w u
    → IsStuck u
      × (wait u.job ≡ blocks)
      × ((sys : Sys)
          → (step sys u end_cleanup ≡ blocks)
            × (step sys u follower_ends ≡ blocks)
            × ((a : Action) → wants_lock a ≡ true → step sys u a ≡ blocks))
unfolding wait step
Patient-IsStuck {w} {u} v r =
    let s = Patient-keeps v r in
    (s, ground arith, λ sys. (stuck_cleanup sys u s, ground arith, λ a n. locked_out sys u a s n))

-- The calls that lead there from any new job whose output opens and that takes the signal: a client
-- follows the logs, another stops the job by force, and a Cleanup begins before the process was
-- waited for. The job passes for completed, which is all that the supervisor asks before Cleanup.
pub follow_stop_cleanup :
    (sys : Sys) (w : World)
    → IsFresh w
    → sys.open_file w.job.out_file_path ≡ none
    → ((j : Job) → sys.signal j sigkill ≡ none)
    → (u : World) × Reach w u × IsStuck u × (completed u.job ≡ true)
unfolding step completed
follow_stop_cleanup sys w f o k =
    (w3, r3, ground (arith, k (logs sys w.job).0), ground (arith, k (logs sys w.job).0))
  where
    w1 : World
    w1 = record w { job = (logs sys w.job).0; followers = w.followers + 1 }

    w2 : World
    w2 = record w1 { job = (stop sys w1.job).0 }

    w3 : World
    w3 = record w2 { cleaning = true }

    r1 : Reach w w1
    r1 = Reach.next Reach.here sys (call_logs true) (ground arith)

    r2 : Reach w w2
    r2 = Reach.next {w = w1} r1 sys call_stop (ground arith)

    r3 : Reach w w3
    r3 = Reach.next {w = w2} r2 sys begin_cleanup (ground (arith, k (logs sys w.job).0))
