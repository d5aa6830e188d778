-- ===== src/Service/Examples.antt =====
-- Tests and instances: john starts a job on a new server, and paul asks for it.
use jobs.Prelude.{
  Text, text, text_eq, text_eq_iff, trim_space, is_space, lookup, insert, pos, ℤ, [], ◌∷◌, List,
  none, some, ◌≡◌, ◌≢◌, refl, sym, subst, arith,
}
use jobs.Acl
use jobs.Acl.{check, full_access}
use jobs.Job.New.{
  cpu, mem, io, uid, gid, new, configured, apply, default_job, init_job_dirs, build, launch,
}
use jobs.Cgroup.{
  cgroup_name, setup_cgroup, make_outer, setup_inner, echo, limit_io, limit_ram, limit_cpu,
  find_cgroup_mount, scan_mounts, fields, fields_from,
}
use jobs.Supervisor
use jobs.Flags.Numbers.{atoi}
use jobs.Server
use jobs.Server.{
  JobServer, created, Reply, ok, denied, status_error, code_internal, internal_error, waits,
  has_read_access,
}
use jobs.Service.{
  Peer, other_credentials, verified, client_id, start_job, inspect_job, Call, job_started, Response,
  Moment, intercept, handle, serve, serve_all,
}
use jobs.Service.Spec.{configured_policy, spec_all}
use jobs.Service.View.{view}
use jobs.Service.Refinement.Calls.{FitPeer}
use jobs.Service.Refinement.Runs.{NoneWaits, serve_all-spec_all-new}
use jobs.Fixtures.{all_ok, host, limits}

abbrev moment : Moment
moment = record { host = host; sys = all_ok }

abbrev named : Text → Peer
named name = verified (((name ∷ []) ∷ []) ∷ [])

abbrev calls : List Call
calls =
    record {
      moment = moment;
      peer = named (text "john");
      request = start_job (text "ls") [] (some limits);
    }
    ∷ record { moment = moment; peer = named (text "paul"); request = inspect_job (text "j2") }
    ∷ record { moment = moment; peer = other_credentials; request = inspect_job (text "j2") }
    ∷ record {
      moment = moment;
      peer = named (text "paul");
      request = start_job (text "ls") [] none;
    }
    ∷ []

abbrev empty_server : JobServer
unfolding Acl.new Acl.add_super_users Supervisor.new_supervisor
empty_server = record {
  jobs = Supervisor.new_supervisor (pos 1000) (pos 1000);
  auth = (Acl.add_super_users Acl.new (text "george" ∷ []) full_access).0;
}

makes : Server.new (text "george" ∷ []) [] (text "1000") (text "1000") ≡ created empty_server
unfolding Server.new atoi Acl.new Acl.add_super_users Supervisor.new_supervisor
makes = refl

abbrev replies : List (Reply Response)
replies =
    ok (job_started (text "j2"))
    ∷ denied
    ∷ status_error code_internal internal_error
    ∷ status_error code_internal internal_error
    ∷ []

answers : (serve_all empty_server calls).1 ≡ replies
unfolding serve_all serve intercept client_id handle Server.inspect has_read_access check
    Acl.set_owner Acl.new Acl.add_super_users Supervisor.new_supervisor lookup insert trim_space
    Server.start Supervisor.start Supervisor.add Supervisor.create_job new configured apply cpu mem
    io uid gid default_job init_job_dirs build launch setup_cgroup make_outer setup_inner echo
    limit_io limit_ram limit_cpu find_cgroup_mount scan_mounts fields fields_from is_space text_eq
    cgroup_name
answers = refl

fit : (name : Text) → trim_space name ≢ [] → FitPeer moment (named name)
unfolding client_id trim_space is_space text_eq
fit name n cid h = record {
  named = subst (λ (x : Text). trim_space x ≢ []) {x = name} {y = cid} (cc) n;
  id_trimmed = refl;
  id_given = λ e. ground (arith, text_eq_iff (text "j2") []);
}

unnamed : FitPeer moment other_credentials
unfolding client_id
unnamed cid h = cc

john : trim_space (text "john") ≢ []
unfolding trim_space is_space text_eq
john e = ground (arith, text_eq_iff (text "john") [])

paul : trim_space (text "paul") ≢ []
unfolding trim_space is_space text_eq
paul e = ground (arith, text_eq_iff (text "paul") [])

none_waits : NoneWaits replies
none_waits = ((λ e. cc), ((λ e. cc), ((λ e. cc), ((λ e. cc), tt))))

serve_all-spec_all-new_example :
    (x y : ℤ) × (atoi (text "1000") ≡ some x)
    × (atoi (text "1000") ≡ some y)
    × (view (serve_all empty_server calls).0
        ≡ (spec_all (configured_policy (text "george" ∷ []) [] x y) (λ id. none) calls).0)
    × ((serve_all empty_server calls).1
        ≡ (spec_all (configured_policy (text "george" ∷ []) [] x y) (λ id. none) calls).1)
serve_all-spec_all-new_example =
    serve_all-spec_all-new (text "george" ∷ []) [] (text "1000") (text "1000") empty_server calls
      makes
      (fit (text "john") john, (fit (text "paul") paul, (unnamed, (fit (text "paul") paul, tt))))
      (subst NoneWaits (sym answers) none_waits)
