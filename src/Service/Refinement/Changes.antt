-- ===== src/Service/Refinement/Changes.antt =====
-- Remove and Start against the specification: the calls that change both tables of the server.
use jobs.Prelude.{
  Text, trim_space, lookup, insert, delete, true, false, List, [], Option, none, some, ◌≡◌, ◌≢◌,
  inl, inr, refl, ap, ◌∙◌, arith, Bool-cases,
}
use jobs.Acl
use jobs.Job.{Job, ExecLimits, Sys, Outcome, returns, blocks, panics}
use jobs.Job
use jobs.Job.Api
use jobs.Effects.{System}
use jobs.Effects
use jobs.Supervisor.{
  JobSupervisor, put_back, clean, add, create_job, create_error, job_error, still_running,
}
use jobs.Supervisor
use jobs.Supervisor.Shapes.{cleanup-id}
use jobs.Supervisor.Starting.{create_job_ok}
use jobs.Server.{
  JobServer, mode_graceful, Limits, Reply, ok, waits, started, start, remove, has_full_access,
  after_remove, to_job_limits,
}
use jobs.Server.Matching.{Matched}
use jobs.Server.Denial.{reader_cannot_touch}
use jobs.Service.{start_job, remove_job, done, job_started, Moment, handle, respond, Response}
use jobs.Service.Spec.{change, replace, internal, spec_handle, spec_remove, spec_started}
use jobs.Service.View.{
  view, policy, has_full_access-may_change, view-delete, view-returned, view-add, policy-remove,
  policy-set_owner,
}
use jobs.Service.Refinement.{gate, Implements, Implements-intro}

cleanup-ne-panics : (sys : Sys) (j : Job) → Api.cleanup sys j ≢ panics
unfolding Api.cleanup
cleanup-ne-panics sys j h = ground arith

remove_full :
    (sys : Sys) (s : JobServer) (cid id : Text)
    → has_full_access s cid id ≡ true
    → remove sys s (some cid) id ≡ after_remove s id (Supervisor.remove sys s.jobs id)
unfolding remove
remove_full sys s cid id h = rw (h, remove) refl

running :
    (sys : Sys) (s : JobSupervisor) (id : Text) (j : Job)
    → lookup id s.jobs ≡ some j
    → Api.completed j ≡ false
    → Supervisor.remove sys s id ≡ returns (s, some still_running)
unfolding Supervisor.remove
running sys s id j h c = ground arith

completed_job :
    (sys : Sys) (s : JobSupervisor) (id : Text) (j k : Job) (e : Option Job.Error)
    → lookup id s.jobs ≡ some j
    → Api.completed j ≡ true
    → Api.cleanup sys j ≡ returns (k, e)
    → Supervisor.remove sys s id ≡ returns (put_back (record s { jobs = delete id s.jobs }) (k, e))
unfolding Supervisor.remove clean
completed_job sys s id j k e h c q = ground arith

completed_blocks :
    (sys : Sys) (s : JobSupervisor) (id : Text) (j : Job)
    → lookup id s.jobs ≡ some j
    → Api.completed j ≡ true
    → Api.cleanup sys j ≡ blocks
    → Supervisor.remove sys s id ≡ blocks
unfolding Supervisor.remove clean
completed_blocks sys s id j h c q = ground arith

-- A removal that the access check lets through.
remove_works :
    (m : Moment) (s : JobServer) (cid id : Text) (j : Job)
    → Matched s
    → (handle m s (some cid) (remove_job id)).1 ≢ waits
    → lookup id s.jobs.jobs ≡ some j
    → has_full_access s cid id ≡ true
    → Implements s (handle m s (some cid) (remove_job id)) (spec_remove m (view s) id j)
unfolding handle put_back
remove_works m s cid id j k w found full = elim (Bool-cases (Api.completed j)) [
  | inr c ↦
      Implements-intro s s (view s) (internal still_running) _ _
        (impl (returns (s.jobs, some still_running)) (running m.sys s.jobs id j found c))
        (rw c refl) refl refl
  | inl c ↦ go c (Api.cleanup m.sys j) refl
]
  where
    impl :
        (r : Outcome (JobSupervisor × Option Supervisor.Error))
        → Supervisor.remove m.sys s.jobs id ≡ r
        → handle m s (some cid) (remove_job id)
          ≡ respond (λ (u : Unit {0}). done) (after_remove s id r)
    impl r q = ap (respond (λ (u : Unit {0}). done)) (
        remove_full m.sys s cid id full
        ∙ ap (λ (x : Outcome (JobSupervisor × Option Supervisor.Error)). after_remove s id x) q)

    go :
        Api.completed j ≡ true
        → (r : Outcome (Job × Option Job.Error)) → Api.cleanup m.sys j ≡ r
        → Implements s (handle m s (some cid) (remove_job id)) (spec_remove m (view s) id j)
    go c (returns (x, none)) q =
        Implements-intro s
          (record s {
            jobs = record (s.jobs) { jobs = delete id s.jobs.jobs };
            auth = (Acl.remove s.auth id).0;
          })
          (replace (view s) id none) (ok done) _ _
          (impl _ (completed_job m.sys s.jobs id j x none found c q)) (rw (c, q) refl)
          (view-delete s id)
          (policy-remove s id (record (s.jobs) { jobs = delete id s.jobs.jobs }) refl)
    go c (returns (x, some e)) q =
        Implements-intro s
          (record s { jobs = record (s.jobs) { jobs = insert x.id x (delete id s.jobs.jobs) } })
          (change (view s) id x) (internal (job_error e)) _ _
          (impl _ (completed_job m.sys s.jobs id j x (some e) found c q)) (rw (c, q) refl)
          (view-returned s id j x k found (cleanup-id m.sys j x (some e) q)) refl
    go c blocks q = absurd (
        w (
          ap (λ (x : JobServer × Reply Response). x.1)
            (impl blocks (completed_blocks m.sys s.jobs id j found c q))))
    go c panics q = absurd (cleanup-ne-panics m.sys j q)

pub remove-Implements :
    (m : Moment) (s : JobServer) (cid id : Text)
    → Matched s
    → (handle m s (some cid) (remove_job id)).1 ≢ waits
    → Implements s
        (handle m s (some cid) (remove_job id))
        (spec_handle m (policy s) (view s) cid (remove_job id))
unfolding handle spec_handle
remove-Implements m s cid id k w =
    let same = has_full_access-may_change s cid id k in
    gate s id (has_full_access s cid id) _ _ _ k same (λ h. ground (arith, same))
      (λ h.
        ap (respond (λ (u : Unit {0}). done))
          (reader_cannot_touch m.sys s cid id mode_graceful h).1)
      (λ j found full. remove_works m s cid id j k w found full)

-- A client's name has more than blanks, and the new id none.
pub record IsFit (m : Moment) (cid : Text) : Type 0 where
  pub named : trim_space cid ≢ []
  pub id_trimmed : trim_space m.host.new_id ≡ m.host.new_id
  pub id_given : m.host.new_id ≢ []

start_as :
    (sys : System) (s : JobSupervisor) (cmd : Text) (args : List Text) (limits : ExecLimits)
    (r : Effects.Result Job)
    → (create_job cmd args limits s.ids sys []).0 ≡ r
    → Supervisor.start sys s cmd args limits ≡ (elim r [
      | Effects.err e ↦ (s, Supervisor.err (create_error e))
      | Effects.ok j ↦ (add s j, Supervisor.ok j.id)
    ])
unfolding Supervisor.start
start_as sys s cmd args limits r q = rw (q, Supervisor.start) refl

pub start-Implements :
    (m : Moment) (s : JobServer) (cid cmd : Text) (args : List Text) (l : Limits)
    → IsFit m cid
    → Implements s
        (handle m s (some cid) (start_job cmd args (some l)))
        (spec_handle m (policy s) (view s) cid (start_job cmd args (some l)))
unfolding handle spec_handle start
start-Implements m s cid cmd args l fit =
    go (create_job cmd args (to_job_limits l) s.jobs.ids m.host []).0 refl
  where
    impl :
        (x : JobSupervisor × Supervisor.Result Text)
        → Supervisor.start m.host s.jobs cmd args (to_job_limits l) ≡ x
        → handle m s (some cid) (start_job cmd args (some l))
          ≡ respond job_started (started s cid x)
    impl x q =
        ap (λ (y : JobSupervisor × Supervisor.Result Text). respond job_started (started s cid y)) q

    go :
        (r : Effects.Result Job)
        → (create_job cmd args (to_job_limits l) s.jobs.ids m.host []).0 ≡ r
        → Implements s
            (handle m s (some cid) (start_job cmd args (some l)))
            (spec_handle m (policy s) (view s) cid (start_job cmd args (some l)))
    go (Effects.err e) q =
        Implements-intro s s (view s) (internal (create_error e)) _ _
          (impl _ (start_as m.host s.jobs cmd args (to_job_limits l) (Effects.err e) q))
          (ap (spec_started (view s) cid) q) refl refl
    go (Effects.ok j) q =
        let made = create_job_ok m.host cmd args (to_job_limits l) s.jobs.ids j q in
        Implements-intro s
          (record s { jobs = add s.jobs j; auth = (Acl.set_owner s.auth j.id cid).0 })
          (replace (view s) j.id (some (record { owner = trim_space cid; job = j })))
          (ok (job_started j.id)) _ _
          (impl _ (start_as m.host s.jobs cmd args (to_job_limits l) (Effects.ok j) q))
          (ap (spec_started (view s) cid) q)
          (view-add s j cid fit.named (rw made.0 fit.id_trimmed) (rw made.0 fit.id_given))
          (policy-set_owner s j.id cid (add s.jobs j) (unfold add in refl))
