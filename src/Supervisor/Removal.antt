-- ===== src/Supervisor/Removal.antt =====
-- Remove and Cleanup.
use jobs.Prelude.{
  Text, text_eq, text_eq_iff, text_eq_refl, lookup, insert, delete, lookup-insert, lookup-delete,
  ◌<◌, true, false, none, some, if◌then◌else◌, ◌≡◌, ◌≢◌, refl, arith,
}
use jobs.Job.{Job, Sys, zombie, removed, system, returns, blocks}
use jobs.Job.Api
use jobs.Supervisor.{
  JobSupervisor, not_found, still_running, job_error, remove, cleanup, put_back, find,
}

-- The table after a Remove that could not clean up.
abbrev returned : JobSupervisor → Text → Job → JobSupervisor
returned s id k = record s { jobs = insert k.id k (delete id s.jobs) }

remove-zombie :
    (sys : Sys) (s : JobSupervisor) (id : Text) (k : Job)
    → lookup id s.jobs ≡ some k
    → k.handler ≡ zombie
    → remove sys s id ≡ returns (returned s id k, some (job_error removed))
unfolding remove Api.cleanup Api.completed
remove-zombie sys s id k h z = ground arith

returned-same :
    (s : JobSupervisor) (id : Text) (j : Job)
    → lookup id s.jobs ≡ some j
    → j.id ≡ id
    → (k : Text) → lookup k (returned s id j).jobs ≡ lookup k s.jobs
returned-same s id j h i k =
    ground (
      arith,
      lookup-delete id k s.jobs,
      lookup-insert j.id k j (delete id s.jobs),
      text_eq_iff id k,
    )

-- What Remove does on every branch, for an entry whose job has the id of the entry: an unknown id is
-- not found, and a job that runs is refused, both without a change; for a job that was cleaned up
-- already the call fails and every entry is as it was; another completed job with an open log reader
-- blocks the call; without one, where the job's directory can be removed, its entry and no other is
-- gone, and where it cannot, the call fails and every entry is as it was.
pub remove_lem :
    (sys : Sys) (s : JobSupervisor) (id : Text)
    → (lookup id s.jobs ≡ none → remove sys s id ≡ returns (s, some not_found))
      × ((j : Job)
          → lookup id s.jobs ≡ some j
          → j.id ≡ id
          → (Api.completed j ≡ false → remove sys s id ≡ returns (s, some still_running))
            × (j.handler ≡ zombie
                → (t : JobSupervisor) × (remove sys s id ≡ returns (t, some (job_error removed)))
                  × ((k : Text) → lookup k t.jobs ≡ lookup k s.jobs))
            × (Api.completed j ≡ true
                → j.handler ≢ zombie
                → 0 < j.out_lock
                → remove sys s id ≡ blocks)
            × (Api.completed j ≡ true
                → j.handler ≢ zombie
                → j.out_lock ≡ 0
                → (sys.remove_all j.job_dir ≡ none
                    → (t : JobSupervisor) × (remove sys s id ≡ returns (t, none))
                      × ((k : Text)
                          → lookup k t.jobs ≡ (if text_eq id k then none else lookup k s.jobs)))
                  × ((e : Text)
                      → sys.remove_all j.job_dir ≡ some e
                      → (t : JobSupervisor) × (remove sys s id
                          ≡ returns (t, some (job_error (system e))))
                        × ((k : Text) → lookup k t.jobs ≡ lookup k s.jobs))))
unfolding remove Api.cleanup Api.completed
remove_lem sys s id = (
  λ h. ground arith,
  λ j h i. (
    (λ c. ground arith),
    (λ z. (returned s id j, remove-zombie sys s id j h z, returned-same s id j h i)),
    (λ c z o. ground arith),
    (λ c z o. (
      (λ ok. (
        record s { jobs = delete id s.jobs },
        ground arith,
        λ k. ground (arith, lookup-delete id k s.jobs),
      )),
      (λ e bad. (returned s id j, ground arith, returned-same s id j h i)),
    )),
  ),
)

abbrev cleaned : Job → Job
cleaned j = record j { dir_removed = true; handler = zombie }

cleanup_ok :
    (sys : Sys) (s t : JobSupervisor) (id : Text) (j : Job)
    → lookup id s.jobs ≡ some j
    → cleanup sys s id ≡ returns (t, none)
    → t ≡ record s { jobs = insert id (cleaned j) s.jobs }
unfolding cleanup find put_back Api.cleanup
cleanup_ok sys s t id j h c = ground arith

-- Cleanup cleans a job up and leaves its entry: after a Cleanup that returned no error the id is
-- still in the table, with a removed job, and every later Remove of it fails and puts it back.
pub cleanup_keeps_entry :
    (sys : Sys) (s t : JobSupervisor) (id : Text) (j : Job)
    → lookup id s.jobs ≡ some j
    → j.id ≡ id
    → cleanup sys s id ≡ returns (t, none)
    → (k : Job) × (lookup id t.jobs ≡ some k)
      × (k.handler ≡ zombie)
      × ((later : Sys)
          → (u : JobSupervisor) × (remove later t id ≡ returns (u, some (job_error removed)))
            × (lookup id u.jobs ≡ some k))
cleanup_keeps_entry sys s t id j h i c = (
  cleaned j,
  found,
  refl,
  λ later. (returned t id (cleaned j), remove-zombie later t id (cleaned j) found refl, back),
)
  where
    found : lookup id t.jobs ≡ some (cleaned j)
    found = ground (
      arith,
      cleanup_ok sys s t id j h c,
      lookup-insert id id (cleaned j) s.jobs,
      text_eq_refl id,
    )

    back : lookup id (returned t id (cleaned j)).jobs ≡ some (cleaned j)
    back = ground (arith, lookup-insert j.id id (cleaned j) (delete id t.jobs), text_eq_iff j.id id)
