-- ===== src/Job/Safety.antt =====
-- What holds of a job in every run: the channel `done` is closed at most once, when the process has
-- ended, and the reader counters agree with the open readers.
use jobs.Prelude.{◌+◌, ◌%◌, ◌^◌, true, false, none, ◌≡◌, ◌≢◌, ◌⊎◌, ◌↔◌, arith}
use jobs.Job.{Sys, active, ended, stopping, zombie, returns, blocks, panics}
use jobs.Job.Api.{wait}
use jobs.Job.Threads.{World, Action, call_stop, step, Reach, here, next, IsFresh}

pub record Inv (w : World) : Type 0 where
  pub running : (w.job.handler ≡ active) ⊎ (w.job.handler ≡ stopping) → w.exit_ran ≡ false
  pub done_exited : w.job.done ≡ true → w.exit_ran ≡ true
  pub has_code : w.exit_ran ≡ true → w.job.process_state ≢ none
  pub exited_done : w.exit_ran ≡ true → (w.job.handler ≡ zombie) ⊎ (w.job.done ≡ true)
  pub ended_done : w.job.handler ≡ ended → w.job.done ≡ true
  pub counted : w.job.out_lock ≡ w.readers + w.followers
  pub logged : w.job.log_readers ≡ (w.readers + w.followers) % 2 ^ 32

IsFresh-Inv : (w : World) → IsFresh w → Inv w
IsFresh-Inv w f = ground arith

-- Every step of every thread keeps the invariant.
step-Inv :
    (sys : Sys) (w : World) (a : Action) (u : World) → Inv w → step sys w a ≡ returns u → Inv u
unfolding step
step-Inv sys w call_stop u v h = ground arith
step-Inv sys w _ u v h = ground arith

pub Reach-Inv : {w u : World} → IsFresh w → Reach w u → Inv u
Reach-Inv {w} f here = IsFresh-Inv w f
Reach-Inv f (next {w = v} {u = u} r sys a h) = step-Inv sys v a u (Reach-Inv f r) h

no_panic : (sys : Sys) (w : World) (a : Action) → Inv w → step sys w a ≢ panics
unfolding step
no_panic sys w call_stop v h = ground arith
no_panic sys w _ v h = ground arith

-- In any run of a new job no call and no goroutine panics: the channel is never closed twice, and
-- the counter of the readers never falls below zero.
pub step-ne-panics :
    {w u : World} → IsFresh w → Reach w u → (sys : Sys) (a : Action) → step sys u a ≢ panics
step-ne-panics {u = u} f r sys a = no_panic sys u a (Reach-Inv f r)

-- In any run of a new job, the counters of the WaitGroup and of the log are the number of the open
-- readers, the second modulo 2^32.
pub Reach-counted :
    {w u : World}
    → IsFresh w
    → Reach w u
    → (u.job.out_lock ≡ u.readers + u.followers)
      × (u.job.log_readers ≡ (u.readers + u.followers) % 2 ^ 32)
Reach-counted f r = ground (arith, Reach-Inv f r)

-- In any run of a new job that is not removed, Wait returns exactly when the goroutine that waits
-- for the process has called exited; until then it blocks, also on a job that a forced stop has
-- brought to the stopped state already.
pub wait_iff :
    {w u : World}
    → IsFresh w
    → Reach w u
    → u.job.handler ≢ zombie
    → ((wait u.job ≡ returns tt) ↔ (u.exit_ran ≡ true)) × (u.exit_ran ≡ false → wait u.job ≡ blocks)
unfolding wait
wait_iff {w} {u} f r z = (
  (λ h. ground (arith, Reach-Inv f r), λ h. ground (arith, Reach-Inv f r)),
  λ h. ground (arith, Reach-Inv f r),
)

step-never_done :
    (sys : Sys) (w : World) (a : Action) (u : World)
    → (w.job.handler ≡ zombie) × (w.job.done ≡ false)
    → step sys w a ≡ returns u
    → (u.job.handler ≡ zombie) × (u.job.done ≡ false)
unfolding step
step-never_done sys w call_stop u v h = ground arith
step-never_done sys w _ u v h = ground arith

Reach-never_done :
    {w u : World}
    → (w.job.handler ≡ zombie) × (w.job.done ≡ false)
    → Reach w u
    → (u.job.handler ≡ zombie) × (u.job.done ≡ false)
Reach-never_done v here = v
Reach-never_done v (next {w = m} {u = u} r sys a h) =
    step-never_done sys m a u (Reach-never_done v r) h

-- A job that is removed before the goroutine has called exited is never done: in any run from
-- there, Wait blocks, also after the process has ended.
pub removed_early-wait :
    {w u : World}
    → w.job.handler ≡ zombie
    → w.job.done ≡ false
    → Reach w u
    → (u.job.handler ≡ zombie) × (wait u.job ≡ blocks)
unfolding wait
removed_early-wait z d r = ground (arith, Reach-never_done (z, d) r)
