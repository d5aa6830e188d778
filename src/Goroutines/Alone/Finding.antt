-- ===== src/Goroutines/Alone/Finding.antt =====
-- What a Remove comes to, by what it finds.
use jobs.Prelude.{
  Text, true, false, lookup, delete, Option, none, some, ◌≡◌, ◌≢◌, ◌⊎◌, inl, inr, refl, arith,
}
use jobs.Job.{Job, Sys, Outcome, returns, blocks, panics, zombie}
use jobs.Job
use jobs.Job.Api
use jobs.Job.Threads.{World, begin_cleanup, end_cleanup, is_zombie, step}
use jobs.Supervisor.{JobSupervisor, add}
use jobs.Supervisor
use jobs.Server.{JobServer, has_full_access, after_remove, remove}

-- The two halves of a Cleanup that does not wait.
pub cleaning-begins :
    (sys : Sys) (v : World)
    → v.cleaning ≡ false
    → is_zombie v.job.handler ≡ false
    → step sys v begin_cleanup ≡ returns (record v { cleaning = true })
unfolding step
cleaning-begins sys v c z = ground arith

pub cleaning-ends :
    (sys : Sys) (v : World) (k : Job) (e : Option Job.Error)
    → Api.cleanup sys v.job ≡ returns (k, e)
    → step sys (record v { cleaning = true }) end_cleanup
      ≡ returns (record v { job = k; cleaning = false })
unfolding step
cleaning-ends sys v k e c = rw c refl

pub zombie-refuses :
    (sys : Sys) (v : World) (k : Job) (e : Option Job.Error)
    → v.cleaning ≡ false
    → is_zombie v.job.handler ≡ true
    → Api.cleanup sys v.job ≡ returns (k, e)
    → (step sys v begin_cleanup ≡ returns (record v { job = k; cleaning = false })) × (e ≢ none)
unfolding step Api.cleanup
zombie-refuses sys v k e c z q = (ground arith, λ n. ground arith)

-- What Remove of the supervisor comes to, by what it finds.
module _ (sys : Sys) (s : JobSupervisor) (jid : Text) where
  pub finds_none :
      lookup jid s.jobs ≡ none
      → Supervisor.remove sys s jid ≡ returns (s, some Supervisor.not_found)
  unfolding Supervisor.remove
  finds_none e = ground arith

  module _ (j : Job) (e : lookup jid s.jobs ≡ some j) where
    pub finds_running :
        Api.completed j ≡ false
        → Supervisor.remove sys s jid ≡ returns (s, some Supervisor.still_running)
    unfolding Supervisor.remove
    finds_running d = ground arith

    pub finds_cleaned :
        (k : Job)
        → Api.completed j ≡ true
        → Api.cleanup sys j ≡ returns (k, none)
        → Supervisor.remove sys s jid ≡ returns (record s { jobs = delete jid s.jobs }, none)
    unfolding Supervisor.remove
    finds_cleaned k d c = ground arith

    pub finds_failing :
        (k : Job) (x : Job.Error)
        → Api.completed j ≡ true
        → Api.cleanup sys j ≡ returns (k, some x)
        → Supervisor.remove sys s jid
          ≡ returns (add (record s { jobs = delete jid s.jobs }) k, some (Supervisor.job_error x))
    unfolding Supervisor.remove
    finds_failing k x d c = ground arith

    pub finds_waiting :
        (r : Outcome (Job × Option Job.Error))
        → Api.completed j ≡ true
        → Api.cleanup sys j ≡ r
        → (r ≡ blocks) ⊎ (r ≡ panics)
        → (Supervisor.remove sys s jid ≡ blocks) ⊎ (Supervisor.remove sys s jid ≡ panics)
    unfolding Supervisor.remove
    finds_waiting r d c (inl b) = inl (ground arith)
    finds_waiting r d c (inr b) = inr (ground arith)

module _ (sys : Sys) (s : JobServer) (cid jid : Text) where
  pub remove-refused : has_full_access s cid jid ≡ false → (remove sys s (some cid) jid).0 ≡ s
  unfolding remove
  remove-refused e = rw e refl

  pub remove-returns :
      (o : Outcome (JobSupervisor × Option Supervisor.Error))
      → has_full_access s cid jid ≡ true
      → Supervisor.remove sys s.jobs jid ≡ o
      → remove sys s (some cid) jid ≡ after_remove s jid o
  unfolding remove
  remove-returns o may e = rw (may, e) refl
