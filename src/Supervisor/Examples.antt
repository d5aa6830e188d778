-- ===== src/Supervisor/Examples.antt =====
-- Tests and instances, on a table with one job, which was stopped by force.
use jobs.Prelude.{
  Text, text, text_eq, text_eq_iff, ◌<◌, pos, lookup, insert, none, some, [], ◌∷◌, true, false,
  if◌then◌else◌, ◌≡◌, ◌≢◌, refl, arith,
}
use jobs.Job.{Job, Sys, zombie, removed, system, returns, blocks, ExecLimits}
use jobs.Job.Api
use jobs.Supervisor.{
  JobSupervisor, not_found, still_running, job_error, remove, cleanup, find, put_back,
}
use jobs.Supervisor.Removal.{remove_lem, cleanup_keeps_entry}
use jobs.Supervisor.Table.{IsKeyed}
use jobs.Fixtures.{all_ok, supervisor, killed_job}

abbrev one : Text
one = text "j1"

present : lookup one supervisor.jobs ≡ some killed_job
unfolding lookup text_eq
present = refl

remove_lem_example :
    (lookup one supervisor.jobs ≡ none
      → remove all_ok supervisor one ≡ returns (supervisor, some not_found))
    × ((j : Job)
        → lookup one supervisor.jobs ≡ some j
        → j.id ≡ one
        → (Api.completed j ≡ false
            → remove all_ok supervisor one ≡ returns (supervisor, some still_running))
          × (j.handler ≡ zombie
              → (t : JobSupervisor) × (remove all_ok supervisor one
                  ≡ returns (t, some (job_error removed)))
                × ((k : Text) → lookup k t.jobs ≡ lookup k supervisor.jobs))
          × (Api.completed j ≡ true
              → j.handler ≢ zombie
              → 0 < j.out_lock
              → remove all_ok supervisor one ≡ blocks)
          × (Api.completed j ≡ true
              → j.handler ≢ zombie
              → j.out_lock ≡ 0
              → (all_ok.remove_all j.job_dir ≡ none
                  → (t : JobSupervisor) × (remove all_ok supervisor one ≡ returns (t, none))
                    × ((k : Text)
                        → lookup k t.jobs
                          ≡ (if text_eq one k then none else lookup k supervisor.jobs)))
                × ((e : Text)
                    → all_ok.remove_all j.job_dir ≡ some e
                    → (t : JobSupervisor) × (remove all_ok supervisor one
                        ≡ returns (t, some (job_error (system e))))
                      × ((k : Text) → lookup k t.jobs ≡ lookup k supervisor.jobs))))
remove_lem_example = remove_lem all_ok supervisor one

abbrev cleaned_up : JobSupervisor
cleaned_up = record supervisor {
  jobs = (one, record killed_job { dir_removed = true; handler = zombie }) ∷ [];
}

cleans : cleanup all_ok supervisor one ≡ returns (cleaned_up, none)
unfolding cleanup find put_back Api.cleanup lookup insert text_eq
cleans = refl

cleanup_keeps_entry_example :
    (k : Job) × (lookup one cleaned_up.jobs ≡ some k)
    × (k.handler ≡ zombie)
    × ((later : Sys)
        → (u : JobSupervisor) × (remove later cleaned_up one
            ≡ returns (u, some (job_error removed)))
          × (lookup one u.jobs ≡ some k))
cleanup_keeps_entry_example =
    cleanup_keeps_entry all_ok supervisor cleaned_up one killed_job present refl cleans

abbrev no_limits : ExecLimits
no_limits = record { cpu = 0; max_ram_bytes = pos 0; max_disk_io_bytes = pos 0 }

supervisor-IsKeyed : IsKeyed supervisor
unfolding lookup
supervisor-IsKeyed id j h = ground (arith, text_eq_iff one id)

other : one ≢ text "j2"
unfolding text_eq
other e = ground (arith, text_eq_iff one (text "j2"))
