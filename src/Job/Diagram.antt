-- ===== src/Job/Diagram.antt =====
-- The state diagram of a job (rfd/0001-job-service.md, and the handlers).
use jobs.Prelude.{◌≡◌, ◌≢◌, ◌⊎◌, inl, inr, refl, arith}
use jobs.Job.{Sys, Handler, active, ended, stopping, stopped, zombie, returns}
use jobs.Job.Threads.{
  World, Action, call_init_stop, call_stop, end_cleanup, timer_stops, run_exited, step, Reach, here,
  next,
}

-- Which action takes a job from which state to which.
abbrev pub Edge : Action → Handler → Handler → Type 0
Edge (call_init_stop to) h k = (h ≡ active) × (k ≡ stopping)
Edge call_stop h k = ((h ≡ active) ⊎ (h ≡ stopping)) × (k ≡ stopped)
Edge timer_stops h k = ((h ≡ active) ⊎ (h ≡ stopping)) × (k ≡ stopped)
Edge run_exited h k = ((h ≡ active) × (k ≡ ended)) ⊎ ((h ≡ stopping) × (k ≡ stopped))
Edge end_cleanup h k = (h ≢ zombie) × (k ≡ zombie)
Edge _ h k = ⊥

-- Each step of any thread leaves the state of the job, or follows an edge of the diagram.
pub step-Edge :
    (sys : Sys) (w : World) (a : Action) (u : World)
    → step sys w a ≡ returns u
    → (u.job.handler ≡ w.job.handler) ⊎ Edge a w.job.handler u.job.handler
unfolding step
step-Edge sys w call_stop u h = ground arith
step-Edge sys w _ u h = ground arith

-- The states that can follow a state, in any number of steps.
abbrev pub After : Handler → Handler → Type 0
After active k = Unit {0}
After stopping k = (k ≢ active) × (k ≢ ended)
After ended k = (k ≡ ended) ⊎ (k ≡ zombie)
After stopped k = (k ≡ stopped) ⊎ (k ≡ zombie)
After zombie k = k ≡ zombie

After-refl : (h : Handler) → After h h
After-refl active = tt
After-refl stopping = ground arith
After-refl ended = ground arith
After-refl stopped = ground arith
After-refl zombie = refl

After-Edge : (g h k : Handler) (a : Action) → After g h → (k ≡ h) ⊎ Edge a h k → After g k
After-Edge g h k a f (inl e) = rw e f
After-Edge active h k a f (inr e) = tt
After-Edge stopping h k (call_init_stop to) f (inr e) = ground arith
After-Edge stopping h k call_stop f (inr e) = ground arith
After-Edge stopping h k timer_stops f (inr e) = ground arith
After-Edge stopping h k run_exited f (inr e) = ground arith
After-Edge stopping h k end_cleanup f (inr e) = ground arith
After-Edge ended h k (call_init_stop to) f (inr e) = ground arith
After-Edge ended h k call_stop f (inr e) = ground arith
After-Edge ended h k timer_stops f (inr e) = ground arith
After-Edge ended h k run_exited f (inr e) = ground arith
After-Edge ended h k end_cleanup f (inr e) = ground arith
After-Edge stopped h k (call_init_stop to) f (inr e) = ground arith
After-Edge stopped h k call_stop f (inr e) = ground arith
After-Edge stopped h k timer_stops f (inr e) = ground arith
After-Edge stopped h k run_exited f (inr e) = ground arith
After-Edge stopped h k end_cleanup f (inr e) = ground arith
After-Edge zombie h k (call_init_stop to) f (inr e) = ground arith
After-Edge zombie h k call_stop f (inr e) = ground arith
After-Edge zombie h k timer_stops f (inr e) = ground arith
After-Edge zombie h k run_exited f (inr e) = ground arith
After-Edge zombie h k end_cleanup f (inr e) = ground arith
After-Edge _ h k _ f (inr e) = absurd e

-- In any run, a job never goes back in the diagram: a stopping job is never active or ended
-- again, a job that ended or was stopped stays as it is until it is removed, and a removed job
-- stays removed.
pub Reach-After : {w u : World} → Reach w u → After w.job.handler u.job.handler
Reach-After {w} here = After-refl w.job.handler
Reach-After {w} {u} (next {w = v} r sys a h) =
    After-Edge w.job.handler v.job.handler u.job.handler a (Reach-After r) (step-Edge sys v a u h)
