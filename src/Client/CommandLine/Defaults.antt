-- ===== src/Client/CommandLine/Defaults.antt =====
-- What a command runs with where its flags are not set.
use jobs.Prelude.{Text, text, text_eq, pos, Bool, List, [], ◌∷◌, ◌≡◌, refl, ap}
use jobs.Job.{Job, ExecIdentity}
use jobs.Effects.{System}
use jobs.Effects
use jobs.Supervisor.{create_job}
use jobs.Supervisor.Starting.{create_job_ok}
use jobs.Server.{Limits, to_job_limits}
use jobs.Client.{Machine, Disk}
use jobs.Client.Commands.{run, plan}
use jobs.Client.CommandLine.{
  Library, selected, plans, root_flags, commands, one, unset, declared, initialised, set_all,
  execute,
}

abbrev pub one_cpu : Limits
one_cpu = record { memory = pos 0; cpus = one; io = pos 0 }

-- A run whose flags are not set asks for 1.0 CPU, and for no limit of the memory and of the IO; every
-- job that the server makes for it has these limits.
pub unset_cpu_is_one :
    (l : Library) (m : Machine) (d : Disk) (is_missing : Text → Bool) (line : List Text)
    (cmd : Text) (args : List Text)
    → l.cobra root_flags commands line ≡ selected (text "run") [] (cmd ∷ args)
    → (execute l m d is_missing line
        ≡ plans (
            plan
              (l.bound root_flags (record unset { cpu_limit = one }))
              m
              []
              (run one_cpu)
              (cmd ∷ args)))
      × ((sys : System) (ids : ExecIdentity) (j : Job)
          → (create_job cmd args (to_job_limits one_cpu) ids sys []).0 ≡ Effects.ok j
          → (j.limits.cpu ≡ one)
            × (j.limits.max_ram_bytes ≡ pos 0)
            × (j.limits.max_disk_io_bytes ≡ pos 0))
unfolding execute initialised declared set_all text_eq
unset_cpu_is_one l m d is_missing line cmd args h = (
  rw h refl,
  λ sys ids j made.
      let (_, _, _, _, _, _, e, _) =
        create_job_ok sys cmd args (to_job_limits one_cpu) ids j made in
      (ap (λ x. x.cpu) e, ap (λ x. x.max_ram_bytes) e, ap (λ x. x.max_disk_io_bytes) e),
)
