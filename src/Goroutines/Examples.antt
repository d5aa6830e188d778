-- ===== src/Goroutines/Examples.antt =====
-- Tests and instances: john starts a job, and asks for its stop.
use jobs.Prelude.{
  Text, text, text_eq, trim_space, is_space, ℕ, ◌<◌, pos, lookup, insert, true, false, [], none,
  some, zero, suc, ◌≡◌, ◌≢◌, ◌⊎◌, ◌↔◌, refl, arith,
}
use jobs.Acl.{AccessControl, AccessType, check}
use jobs.Acl
use jobs.Effects
use jobs.Job.{Job, ExecIdentity, ExecLimits, Sys, returns, blocks, panics, zombie}
use jobs.Job.Api
use jobs.Job.Api.{wait}
use jobs.Job.Draining.{Drains, Drained}
use jobs.Job.New.{
  cpu, mem, io, uid, gid, new, configured, apply, default_job, init_job_dirs, build, launch,
}
use jobs.Cgroup.{
  cgroup_name, setup_cgroup, make_outer, setup_inner, echo, limit_io, limit_ram, limit_cpu,
  find_cgroup_mount, scan_mounts, fields, fields_from,
}
use jobs.Job.Threads.{World, Action, run_exited, step}
use jobs.Supervisor.{create_job}
use jobs.Goroutines.{
  to_stop, Pc, idle, granted, put, allocate, link, Move, State, Step, IsNew, Reach,
}
use jobs.Goroutines.Transfers.{held, id_of}
use jobs.Goroutines.Deeds.{newborn}
use jobs.Goroutines.Owned.{IdsAreNew, IsLeaving}
use jobs.Goroutines.Access.{checks_follow_table}
use jobs.Goroutines.Jobs.{Lives, every_job-Lives}
use jobs.Goroutines.Progress.{CanMove, WaitsForReader, only_readers_delay}
use jobs.Goroutines.Ending.{wait_for_process}
use jobs.Fixtures.{host, all_ok, world, job}

abbrev ids : ExecIdentity
ids = record { uid = pos 1000; gid = pos 1000 }

abbrev limits : ExecLimits
limits = record { cpu = 0; max_ram_bytes = pos 0; max_disk_io_bytes = pos 0 }

abbrev job_of : Effects.Result Job → Job
job_of (Effects.ok j) = j
job_of (Effects.err e) = job

made : Job
made = job_of (create_job (text "ls") [] limits ids host []).0

makes : (create_job (text "ls") [] limits ids host []).0 ≡ Effects.ok made
unfolding made create_job new configured apply cpu mem io uid gid default_job init_job_dirs build
    launch setup_cgroup make_outer setup_inner echo limit_io limit_ram limit_cpu find_cgroup_mount
    scan_mounts fields fields_from is_space text_eq cgroup_name
makes = refl

abbrev start : State
start = record {
  memory = record {
    heap = λ p. world;
    next = 0;
    table = [];
    auth = record { super_users = []; super_read_users = []; owners = [] };
    ids = ids;
  };
  pc = λ t. idle;
}

start-IsNew : IsNew start
start-IsNew = record { none_made = refl; empty = refl; none_owned = refl; quiet = λ t. refl }

abbrev after_create : State
after_create = record {
  memory = allocate start.memory made;
  pc = put start.pc 0 (Pc.created 0 (text "john"));
}

abbrev after_register : State
after_register = record {
  memory = link after_create.memory 0;
  pc = put after_create.pc 0 (Pc.registered 0 (text "john"));
}

after_own : State
after_own = record {
  memory = record (after_register.memory) {
    auth = (Acl.set_owner after_register.memory.auth made.id (text "john")).0;
  };
  pc = put after_register.pc 0 idle;
}

after_grant : State
after_grant = record after_own { pc = put after_own.pc 1 (granted (to_stop (text "j2") true)) }

owned : Reach start after_own
unfolding after_own
owned =
    Reach.later {s = after_register}
      (Reach.later {s = after_create}
        (Reach.later Reach.here
          (Step.moves 0 (Move.create host (text "john") (text "ls") [] limits made makes)))
        (Step.moves 0 Move.register))
      (Step.moves 0 Move.own)

may :
    check after_own.memory.auth
      (record { subject = text "john"; object = text "j2"; action = Acl.full_access })
    ≡ true
unfolding after_own check Acl.set_owner lookup insert trim_space is_space text_eq made create_job
    new configured apply cpu mem io uid gid default_job init_job_dirs build launch setup_cgroup
    make_outer setup_inner echo limit_io limit_ram limit_cpu find_cgroup_mount scan_mounts fields
    fields_from cgroup_name
may = refl

asked : Reach start after_grant
unfolding after_grant after_own
asked = Reach.later owned (Step.moves 1 (Move.grant (text "john") (to_stop (text "j2") true) may))

begun : after_grant.pc 1 ≢ idle
unfolding after_grant
begun e = cc

one_job : 0 < after_own.memory.next
unfolding after_own
one_job = omega arith

every_job-Lives_example :
    Lives (after_own.memory.heap 0)
    × ((sys : Sys) (a : Action) → step sys (after_own.memory.heap 0) a ≢ panics)
    × ((after_own.memory.heap 0).job.handler ≢ zombie
        → (wait (after_own.memory.heap 0).job ≡ returns tt)
          ↔ ((after_own.memory.heap 0).exit_ran ≡ true))
every_job-Lives_example = every_job-Lives start-IsNew owned 0 one_job

only_readers_delay_example :
    CanMove all_ok after_grant.memory (after_grant.pc 1)
    ⊎ WaitsForReader after_grant.memory (after_grant.pc 1)
only_readers_delay_example = only_readers_delay start-IsNew asked all_ok 1 begun

found : lookup (text "j2") after_own.memory.table ≡ some 0
unfolding after_own lookup insert text_eq made create_job new configured apply cpu mem io uid gid
    default_job init_job_dirs build launch setup_cgroup make_outer setup_inner echo limit_io
    limit_ram limit_cpu find_cgroup_mount scan_mounts fields fields_from is_space cgroup_name
found = refl

too_many : (x : ℕ) → suc x < after_own.memory.next → ⊥
unfolding after_own
too_many x b = omega arith

first_trimmed : trim_space (after_own.memory.heap 0).job.id ≡ (after_own.memory.heap 0).job.id
unfolding after_own made create_job new configured apply cpu mem io uid gid default_job
    init_job_dirs build launch setup_cgroup make_outer setup_inner echo limit_io limit_ram limit_cpu
    find_cgroup_mount scan_mounts fields fields_from is_space text_eq cgroup_name trim_space
first_trimmed = refl

trims :
    (x : ℕ)
    → x < after_own.memory.next
    → trim_space (id_of after_own.memory x) ≡ id_of after_own.memory x
trims zero b = first_trimmed
trims (suc x) b = absurd (too_many x b)

ids_new : IdsAreNew after_own.memory
unfolding after_own
ids_new = record { distinct = λ x y b c e. omega arith; trimmed = trims }

checks_follow_table_example :
    ((cid k : Text) (a : AccessType)
      → check after_own.memory.auth (record { subject = cid; object = k; action = a }) ≡ true
      → (lookup k after_own.memory.table ≢ none) ⊎ IsLeaving after_own.memory after_own.pc k)
    × ((t x : ℕ) (cid : Text) (a : AccessType)
        → newborn (after_own.pc t) ≡ some x
        → check after_own.memory.auth
            (record { subject = cid; object = id_of after_own.memory x; action = a })
          ≡ false)
    × (((t : ℕ) → after_own.pc t ≡ idle)
        → (cid k : Text) (a : AccessType)
        → check after_own.memory.auth (record { subject = cid; object = k; action = a }) ≡ true
        → lookup k after_own.memory.table ≢ none)
checks_follow_table_example = checks_follow_table start-IsNew owned ids_new

wait_for_process_example :
    ((t x : ℕ) → held (after_own.pc t) ≡ some x → (after_own.memory.heap x).job.handler ≢ zombie)
    × ((id : Text) (x : ℕ) (sys : Sys)
        → lookup id after_own.memory.table ≡ some x
        → ((after_own.memory.heap x).job.handler ≢ zombie)
          × ((wait (after_own.memory.heap x).job ≡ returns tt)
              ⊎ (((after_own.memory.heap x).job.process_state ≡ none)
                  ⊎ ((w : World) × (step sys (after_own.memory.heap x) run_exited ≡ returns w)
                      × (wait w.job ≡ returns tt))))
          × ((u : World) × Drains sys (after_own.memory.heap x) u
              × Drained u
              × ((later : Sys) → Api.cleanup later u.job ≢ blocks)))
wait_for_process_example = wait_for_process start-IsNew owned
