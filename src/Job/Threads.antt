-- ===== src/Job/Threads.antt =====
-- One job under its threads: API calls, timers, the process, the goroutine that New starts to wait
-- for it, and the open log readers, as steps of a machine. The state lock lets one method of
-- pkg/job/job.go run at a time; only Cleanup gives way inside, where it waits for the readers while
-- it holds the lock. A step that `blocks` is not possible now.
use jobs.Prelude.{
  ℕ, ℤ, ◌+◌, ◌-◌, ◌==◌, Bool, true, false, ◌||◌, List, [], ◌∷◌, Option, none, some, if◌then◌else◌,
  ◌≡◌,
}
use jobs.Job.{
  Job, Sys, Handler, active, zombie, Error, Result, ok, err, Outcome, returns, blocks, ◌>>=◌,
  OutputReader,
}
use jobs.Job.Handlers.{disarm}
use jobs.Job.Api

pub data Action : Type 0 where
  -- API calls
  call_init_stop : ℕ → Action
  call_stop : Action
  call_logs : Bool → Action  -- follow mode
  begin_cleanup end_cleanup : Action
  -- a timer runs out, and its goroutine calls Stop later
  timer_expires : ℕ → Action
  timer_stops : Action
  -- the process ends; the waiting goroutine calls exited later
  process_exits : ℤ → Action
  run_exited : Action
  -- a reader without follow mode is at the end; a follower is, and saw the channel closed
  reader_ends follower_ends : Action
  -- the client goes away; a read or a send of a follower's handler fails, and it ends
  reader_cancels follower_cancels : Action
  follower_fails : Action

pub record World : Type 0 where
  pub job : Job
  pub cleaning : Bool  -- a Cleanup holds the lock and waits
  pub exit_ran : Bool  -- the waiting goroutine has called exited
  pub pending_stops : ℕ  -- timers that ran out, whose Stop has not run
  pub readers : ℕ  -- open, without follow mode
  pub followers : ℕ  -- open, in follow mode

abbrev pub is_armed : ℕ → List (ℕ × ℕ) → Bool
is_armed t [] = false
is_armed t ((u, to) ∷ l) = (u == t) || is_armed t l

abbrev with_job : World → Job → World
with_job w j = record w { job = j }

abbrev locked : World → Outcome World → Outcome World
locked w r = if w.cleaning then blocks else r

abbrev open_reader : Bool → World → Job × Result OutputReader → World
open_reader follow w (j, err e) = with_job w j
open_reader true w (j, ok r) = record w { job = j; followers = w.followers + 1 }
open_reader false w (j, ok r) = record w { job = j; readers = w.readers + 1 }

abbrev pub is_zombie : Handler → Bool
is_zombie zombie = true
is_zombie _ = false

abbrev finish_cleanup : World → Outcome (Job × Option Error) → Outcome World
finish_cleanup w m = m >>= λ r. returns (record w { job = r.0; cleaning = false })

-- The first half of Cleanup: a zombie refuses at once, any other job waits with the lock held.
abbrev start_cleanup : Sys → World → Outcome World
unfolding Api.cleanup
start_cleanup sys w =
    if is_zombie w.job.handler
    then finish_cleanup w (Api.cleanup sys w.job)
    else returns (record w { cleaning = true })

abbrev end_reader : World → Outcome World
unfolding Api.close_reader
end_reader w =
    if w.readers == 0
    then blocks
    else Api.close_reader w.job >>= λ j. returns (record w { job = j; readers = w.readers - 1 })

abbrev end_follower : World → Outcome World
unfolding Api.close_reader
end_follower w =
    if w.followers == 0
    then blocks
    else Api.close_reader w.job >>= λ j. returns (record w { job = j; followers = w.followers - 1 })

unfoldable pub step : Sys → World → Action → Outcome World
unfolding Api.init_stop Api.stop Api.logs Api.cleanup Api.exited Api.close_reader
step sys w (call_init_stop to) = locked w (returns (with_job w (Api.init_stop sys w.job to).0))
step sys w call_stop = locked w (returns (with_job w (Api.stop sys w.job).0))
step sys w (call_logs follow) = locked w (returns (open_reader follow w (Api.logs sys w.job)))
step sys w begin_cleanup = locked w (start_cleanup sys w)
step sys w end_cleanup = if w.cleaning then finish_cleanup w (Api.cleanup sys w.job) else blocks
step sys w (timer_expires t) =
    if is_armed t w.job.armed
    then returns (record w {
      job = record (w.job) { armed = disarm t w.job.armed };
      pending_stops = w.pending_stops + 1;
    })
    else blocks
step sys w timer_stops =
    if w.pending_stops == 0
    then blocks
    else locked w
        (returns (record w { job = (Api.stop sys w.job).0; pending_stops = w.pending_stops - 1 }))
step sys w (process_exits code) = elim w.job.process_state [
  | none ↦ returns (with_job w (record (w.job) { process_state = some code }))
  | some _ ↦ blocks
]
step sys w run_exited = elim w.job.process_state [
  | none ↦ blocks
  | some _ ↦
      if w.exit_ran
      then blocks
      else locked w (Api.exited sys w.job >>= λ j. returns (record w { job = j; exit_ran = true }))
]
step sys w reader_ends = end_reader w
step sys w follower_ends = if w.job.done then end_follower w else blocks
step sys w reader_cancels = end_reader w
step sys w follower_cancels = end_follower w
step sys w follower_fails = end_follower w

-- A run of the machine; the system may answer differently at each step.
pub data Reach (v : World) : World → Type 0 where
  here : Reach v v
  next : {w u : World} → Reach v w → (sys : Sys) (a : Action) → step sys w a ≡ returns u → Reach v u

-- The job that New returns, with its process running.
pub record IsFresh (w : World) : Type 0 where
  pub is_active : w.job.handler ≡ active
  pub not_done : w.job.done ≡ false
  pub no_readers : (w.job.out_lock ≡ 0) × (w.job.log_readers ≡ 0)
  pub none_open : (w.readers ≡ 0) × (w.followers ≡ 0)
  pub not_exited : w.exit_ran ≡ false
  pub not_cleaning : w.cleaning ≡ false
