-- ===== src/Supervisor/Starting.antt =====
-- Start, and the job that it registers.
use jobs.Prelude.{
  Text, text, join, text_eq_iff, pos, to_int32, lookup, lookup-insert, false, List, [], ◌∷◌, some,
  ◌≡◌, ◌≢◌, ◌⊎◌, inl, inr, refl, ap, arith,
}
use jobs.Job.{Job, ExecIdentity, ExecLimits, active, status_active}
use jobs.Job.Api
use jobs.Job.New.{configured, cpu, mem, io, uid, gid}
use jobs.Job.New.Failures.{new_ok, placed}
use jobs.Effects.{System, Effect}
use jobs.Effects
use jobs.Cgroup.{◌//◌}
use jobs.Supervisor.{
  JobSupervisor, Result, Error, job_options, create_job, create_error, ok, err, start, inspect, add,
}
use jobs.Supervisor.Table.{insert-other}

-- The job that createJob makes: only the three fields below are not those of its options.
pub create_job_shape :
    (sys : System) (cmd : Text) (args : List Text) (limits : ExecLimits) (ids : ExecIdentity)
    (j : Job)
    → (create_job cmd args limits ids sys []).0 ≡ Effects.ok j
    → j ≡ record (placed (configured sys cmd args (job_options limits ids))) {
      handler = active;
      cgroup_outer = j.cgroup_outer;
      cgroup_inner = j.cgroup_outer // text "inner";
    }
unfolding create_job
create_job_shape sys cmd args limits ids j h =
    new_ok cmd args (job_options limits ids) sys [] (create_job cmd args limits ids sys []).1 j
      (ground arith)

pub create_job_ok :
    (sys : System) (cmd : Text) (args : List Text) (limits : ExecLimits) (ids : ExecIdentity)
    (j : Job)
    → (create_job cmd args limits ids sys []).0 ≡ Effects.ok j
    → (j.id ≡ sys.new_id)
      × (j.handler ≡ active)
      × (j.done ≡ false)
      × (j.out_lock ≡ 0)
      × (j.command ≡ cmd)
      × (j.args ≡ args)
      × (j.limits ≡ limits)
      × (j.ids ≡ ids)
unfolding configured cpu mem io uid gid
create_job_ok sys cmd args limits ids j h =
    let e = create_job_shape sys cmd args limits ids j h in
    (
      ap (λ (k : Job). k.id) e,
      ap (λ (k : Job). k.handler) e,
      ap (λ (k : Job). k.done) e,
      ap (λ (k : Job). k.out_lock) e,
      ap (λ (k : Job). k.command) e,
      ap (λ (k : Job). k.args) e,
      ap (λ (k : Job). k.limits) e,
      ap (λ (k : Job). k.ids) e,
    )

pub create_job_unread :
    (sys : System) (cmd : Text) (args : List Text) (limits : ExecLimits) (ids : ExecIdentity)
    (j : Job)
    → (create_job cmd args limits ids sys []).0 ≡ Effects.ok j
    → j.log_readers ≡ 0
unfolding configured cpu mem io uid gid
create_job_unread sys cmd args limits ids j h =
    ap (λ (k : Job). k.log_readers) (create_job_shape sys cmd args limits ids j h)

-- A Start fails and changes nothing, or adds the job that createJob made.
pub start_cases :
    (sys : System) (s : JobSupervisor) (cmd : Text) (args : List Text) (limits : ExecLimits)
    → ((e : Error) × (start sys s cmd args limits ≡ (s, err e)))
      ⊎ ((j : Job) × (start sys s cmd args limits ≡ (add s j, ok j.id))
          × (j.id ≡ sys.new_id)
          × (j.handler ≡ active)
          × (j.command ≡ cmd)
          × (j.args ≡ args))
unfolding start
start_cases sys s cmd args limits = go (create_job cmd args limits s.ids sys []).0 refl
  where
    go :
        (r : Effects.Result Job)
        → (create_job cmd args limits s.ids sys []).0 ≡ r
        → ((e : Error) × (start sys s cmd args limits ≡ (s, err e)))
          ⊎ ((j : Job) × (start sys s cmd args limits ≡ (add s j, ok j.id))
              × (j.id ≡ sys.new_id)
              × (j.handler ≡ active)
              × (j.command ≡ cmd)
              × (j.args ≡ args))
    go (Effects.err f) e = inl (create_error f, rw (e, start) refl)
    go (Effects.ok j) e =
        let (i, a, _, _, c, g, _, _) = create_job_ok sys cmd args limits s.ids j e in
        inr (j, rw (e, start) refl, i, a, c, g)

pub inspect_active :
    (s : JobSupervisor) (id : Text) (j : Job)
    → lookup id s.jobs ≡ some j
    → j.handler ≡ active
    → inspect s id ≡ ok (status_active, pos 0, join (j.command ∷ j.args) (text " "))
unfolding inspect Api.job_status to_int32
inspect_active s id j h a = ground arith

abbrev Registers : System → JobSupervisor → Text → List Text → JobSupervisor × Result Text → Type 0
Registers sys s cmd args r =
    ((id : Text)
      → r.1 ≡ ok id
      → (id ≡ sys.new_id)
        × (inspect r.0 id ≡ ok (status_active, pos 0, join (cmd ∷ args) (text " ")))
        × ((k : Text) → id ≢ k → lookup k r.0.jobs ≡ lookup k s.jobs))
    × ((e : Error) → r.1 ≡ err e → r.0 ≡ s)

add-Registers :
    (sys : System) (s : JobSupervisor) (cmd : Text) (args : List Text) (limits : ExecLimits)
    (j : Job)
    → (create_job cmd args limits s.ids sys []).0 ≡ Effects.ok j
    → Registers sys s cmd args (add s j, ok j.id)
unfolding add
add-Registers sys s cmd args limits j h =
    let (i, a, _, _, c, g, _, _) = create_job_ok sys cmd args limits s.ids j h in
    (
      λ id e. (
        ground arith,
        ground (
          arith,
          inspect_active (add s j) id j
              (ground (arith, lookup-insert j.id id j s.jobs, text_eq_iff j.id id)) a,
        ),
        λ k n. insert-other j.id k j s.jobs (λ q. n (ground arith)),
      ),
      λ e q. cc,
    )

-- A Start that succeeds registers a job under a new id: Inspect answers for it with the status
-- active, the exit code 0 and the command line, and every other entry stays. A Start that fails
-- changes nothing.
pub start_lem :
    (sys : System) (s : JobSupervisor) (cmd : Text) (args : List Text) (limits : ExecLimits)
    → ((id : Text)
        → (start sys s cmd args limits).1 ≡ ok id
        → let t = (start sys s cmd args limits).0 in
          (id ≡ sys.new_id)
          × (inspect t id ≡ ok (status_active, pos 0, join (cmd ∷ args) (text " ")))
          × ((k : Text) → id ≢ k → lookup k t.jobs ≡ lookup k s.jobs))
      × ((e : Error)
          → (start sys s cmd args limits).1 ≡ err e
          → (start sys s cmd args limits).0 ≡ s)
unfolding start
start_lem sys s cmd args limits = go (create_job cmd args limits s.ids sys []).0 refl
  where
    go :
        (r : Effects.Result Job)
        → (create_job cmd args limits s.ids sys []).0 ≡ r
        → Registers sys s cmd args (start sys s cmd args limits)
    go (Effects.ok j) e = rw (e, start) (add-Registers sys s cmd args limits j e)
    go (Effects.err f) e = rw (e, start) ((λ id q. cc), (λ x q. refl))
