-- ===== src/Job/Stopping.antt =====
-- Stop requests: the signals, the timer of a graceful stop, and what a failed request leaves.
use jobs.Prelude.{
  ==_iff, ℕ, ◌+◌, ◌-◌, ◌<◌, Bool, true, false, List, ◌∷◌, none, some, ◌≡◌, ◌≢◌, ◌⊎◌, refl, ◌∙◌, ap,
  arith,
}
use jobs.Job.{
  Job, Sys, active, ended, stopping, stopped, zombie, Signal, sigterm, sigkill, returns,
  already_stopping, already_stopped, already_ended, removed,
}
use jobs.Job.Handlers.{disarm}
use jobs.Job.Api.{completed, init_stop, stop}
use jobs.Job.Threads.{
  World, Action, call_stop, timer_expires, timer_stops, is_armed, step, Reach, here, next,
}

step-sent :
    (sys : Sys) (w : World) (a : Action) (u : World)
    → completed w.job ≡ true
    → step sys w a ≡ returns u
    → (completed u.job ≡ true) × (u.job.sent ≡ w.job.sent)
unfolding step completed
step-sent sys w call_stop u c h = ground arith
step-sent sys w _ u c h = ground arith

-- A job that is completed stays so, and gets no signal any more: in any run from there its process,
-- or a later process with the same number, is left alone.
pub Reach-sent :
    {w u : World}
    → completed w.job ≡ true
    → Reach w u
    → (completed u.job ≡ true) × (u.job.sent ≡ w.job.sent)
Reach-sent c here = (c, refl)
Reach-sent c (next {w = m} {u = u} r sys a h) =
    let (d, e) = Reach-sent c r in let (d', e') = step-sent sys m a u d h in (d', e' ∙ e)

abbrev pub timer_armed : Job → Bool
timer_armed j = elim j.stop_timer [ none ↦ false | some t ↦ is_armed t j.armed ]

-- A kill is due: the timer of the stop request runs, or a Stop by a timer is about to be made.
abbrev pub WillKill : World → Type 0
WillKill w = (timer_armed w.job ≡ true) ⊎ (0 < w.pending_stops)

-- SIGKILL reaches the process of any job.
abbrev pub Delivers : Sys → Type 0
Delivers sys = (j : Job) → sys.signal j sigkill ≡ none

-- A run in which it does so at each step.
pub data Delivered (v : World) : World → Type 0 where
  unmoved : Delivered v v
  moved :
      {w u : World}
      → Delivered v w
      → (sys : Sys) (a : Action) → Delivers sys
      → step sys w a ≡ returns u
      → Delivered v u

-- What InitStop does in each state, where `after_func j to` is the job with its timer armed: an
-- active job gets SIGTERM, and is stopping if the signal was delivered; a job in any other state is
-- left as it is, with that state's error.
pub init_stop_lem :
    (sys : Sys) (j : Job) (to : ℕ)
    → (j.handler ≡ active
        → (timer_armed (init_stop sys j to).0 ≡ true)
          × ((((init_stop sys j to).1 ≡ none)
                × ((init_stop sys j to).0.handler ≡ stopping)
                × ((init_stop sys j to).0.sent ≡ sigterm ∷ j.sent))
              ⊎ (((init_stop sys j to).1 ≢ none)
                  × ((init_stop sys j to).0.handler ≡ active)
                  × ((init_stop sys j to).0.sent ≡ j.sent))))
      × (j.handler ≡ stopping → init_stop sys j to ≡ (j, some already_stopping))
      × (j.handler ≡ stopped → init_stop sys j to ≡ (j, some already_stopped))
      × (j.handler ≡ ended → init_stop sys j to ≡ (j, some already_ended))
      × (j.handler ≡ zombie → init_stop sys j to ≡ (j, some removed))
unfolding init_stop
init_stop_lem sys j to = (
  λ h. (ground (arith, ==_iff j.next_timer j.next_timer), ground arith),
  λ h. ground arith,
  λ h. ground arith,
  λ h. ground arith,
  λ h. ground arith,
)

pub stop_active :
    (sys : Sys) (j : Job)
    → j.handler ≡ active
    → sys.signal j sigkill ≡ none
    → stop sys j ≡ (record j { sent = sigkill ∷ j.sent; handler = stopped }, none)
unfolding stop
stop_active sys j a k = ground arith

failed_init_stop :
    (sys : Sys) (j : Job) (to : ℕ)
    → j.handler ≡ active
    → (init_stop sys j to).1 ≢ none
    → ((init_stop sys j to).0.handler ≡ active)
      × ((init_stop sys j to).0.sent ≡ j.sent)
      × (is_armed j.next_timer (init_stop sys j to).0.armed ≡ true)
unfolding init_stop
failed_init_stop sys j to a e =
    (ground arith, ground arith, ground (arith, ==_iff j.next_timer j.next_timer))

timer_kills :
    (later : Sys) (w : World) (t : ℕ)
    → w.job.handler ≡ active
    → w.cleaning ≡ false
    → is_armed t w.job.armed ≡ true
    → ((k : Job) → later.signal k sigkill ≡ none)
    → (u v : World) × (step later w (timer_expires t) ≡ returns u)
      × (step later u timer_stops ≡ returns v)
      × (v.job.handler ≡ stopped)
      × (v.job.sent ≡ sigkill ∷ w.job.sent)
unfolding step
timer_kills later w t a l e k =
    (u, v, ground arith, ground arith, rw killed_job refl, rw killed_job refl)
  where
    u : World
    u = record w {
      job = record (w.job) { armed = disarm t w.job.armed };
      pending_stops = w.pending_stops + 1;
    }

    v : World
    v = record u { job = (stop later u.job).0; pending_stops = u.pending_stops - 1 }

    killed_job :
        stop later u.job ≡ (record (u.job) { sent = sigkill ∷ u.job.sent; handler = stopped }, none)
    killed_job = stop_active later u.job a (k _)

-- A request for a graceful stop that fails on an active job leaves its timer armed: InitStop
-- returns an error and the job stays active, but when that timer runs out and SIGKILL can be
-- delivered, it is delivered.
pub failed_init_stop_kills :
    (sys later : Sys) (w : World) (to : ℕ)
    → w.job.handler ≡ active
    → w.cleaning ≡ false
    → (init_stop sys w.job to).1 ≢ none
    → ((k : Job) → later.signal k sigkill ≡ none)
    → let asked = record w { job = (init_stop sys w.job to).0 } in
      (asked.job.handler ≡ active)
      × ((u v : World) × (step later asked (timer_expires w.job.next_timer) ≡ returns u)
          × (step later u timer_stops ≡ returns v)
          × (v.job.handler ≡ stopped)
          × (v.job.sent ≡ sigkill ∷ w.job.sent))
failed_init_stop_kills sys later w to a l e k =
    let (still, sent, arm) = failed_init_stop sys w.job to a e in
    let asked : World = record w { job = (init_stop sys w.job to).0 } in
    let (u, v, p, q, r, s) = timer_kills later asked w.job.next_timer still l arm k in
    (still, (u, v, p, q, r, s ∙ ap (λ (x : List Signal). sigkill ∷ x) sent))
