-- ===== src/Server/Examples.antt =====
-- Tests and instances, on a server with one job of "john", which was stopped by force.
use jobs.Prelude.{
  Text, text, text_eq, text_eq_iff, trim_space, is_space, pos, lookup, insert, List, true, ◌<◌, ◌^◌,
  none, some, [], ◌∷◌, false, ◌≡◌, ◌≢◌, refl, arith,
}
use jobs.Acl
use jobs.Acl.{check, unknown}
use jobs.Job.{Job, active}
use jobs.Job.Api
use jobs.Job.New.{
  cpu, mem, io, uid, gid, new, configured, apply, default_job, init_job_dirs, build, launch,
}
use jobs.Cgroup.{
  cgroup_name, setup_cgroup, make_outer, setup_inner, echo, limit_io, limit_ram, limit_cpu,
  find_cgroup_mount, scan_mounts, fields, fields_from,
}
use jobs.Supervisor
use jobs.Flags.Numbers.{atoi}
use jobs.Server
use jobs.Server.{
  JobServer, Reply, waits, mode_graceful, created, ok, denied, pb_active, start, stop, remove,
  inspect, open_logs, has_read_access, has_full_access, stop_server,
}
use jobs.Server.Stream
use jobs.Server.Follow.{Round, read, follow_loop, judge}
use jobs.Server.Follow.Delivery.{steady}
use jobs.Supervisor.{stop_all}
use jobs.Server.Matching.{Matched}
use jobs.Server.Serving.{Serves, served-Matched}
use jobs.Server.Denial.{strangers_see_nothing}
use jobs.Server.Lifecycle.{blank_client_orphans}
use jobs.Fixtures.{all_ok, host, server, limits}

stranger : has_read_access server (text "paul") (text "j1") ≡ false
unfolding has_read_access check lookup text_eq
stranger = refl

nobody : lookup (text "j9") server.auth.owners ≡ none
unfolding lookup text_eq
nobody = refl

strangers_see_nothing_example :
    (stop all_ok server (some (text "paul")) (text "j1") mode_graceful
      ≡ stop all_ok server (some (text "paul")) (text "j9") mode_graceful)
    × (remove all_ok server (some (text "paul")) (text "j1")
        ≡ remove all_ok server (some (text "paul")) (text "j9"))
    × (inspect server (some (text "paul")) (text "j1")
        ≡ inspect server (some (text "paul")) (text "j9"))
    × (open_logs all_ok server (some (text "paul")) (text "j1")
        ≡ open_logs all_ok server (some (text "paul")) (text "j9"))
    × ((stop all_ok server (some (text "paul")) (text "j1") mode_graceful).0 ≡ server)
    × ((remove all_ok server (some (text "paul")) (text "j1")).0 ≡ server)
    × ((open_logs all_ok server (some (text "paul")) (text "j1")).0 ≡ server)
strangers_see_nothing_example =
    strangers_see_nothing all_ok server (text "paul") (text "j1") (text "j9") mode_graceful stranger
      nobody

abbrev empty_server : JobServer
unfolding Acl.new Acl.add_super_users Supervisor.new_supervisor
empty_server = record {
  jobs = Supervisor.new_supervisor (pos 1000) (pos 1000);
  auth = (Acl.add_super_users Acl.new (text "george" ∷ []) Acl.full_access).0;
}

makes : Server.new (text "george" ∷ []) [] (text "1000") (text "1000") ≡ created empty_server
unfolding Server.new atoi Acl.new Acl.add_super_users Supervisor.new_supervisor
makes = refl

clean_names : (trim_space (text "john") ≢ []) × (trim_space (text "john") ≡ text "john")
unfolding trim_space is_space text_eq
clean_names = (λ e. ground (arith, text_eq_iff (text "john") []), refl)

clean_id : (trim_space (text "j2") ≡ text "j2") × (text "j2" ≢ [])
unfolding trim_space is_space text_eq
clean_id = (refl, λ e. ground (arith, text_eq_iff (text "j2") []))

abbrev begun : JobServer
begun = (start host empty_server (some (text "john")) (text "ls") [] (some limits)).0

served-Matched_example : Matched begun
served-Matched_example = served-Matched (text "george" ∷ []) [] (text "1000") (text "1000") makes (
    Serves.started Serves.begun host (text "john") (text "ls") [] (some limits) clean_names.0
      clean_id.0 clean_id.1)

starts :
    (cid : Text) → (start host server (some cid) (text "ls") [] (some limits)).1 ≡ ok (text "j2")
unfolding start Supervisor.start Supervisor.create_job new configured apply cpu mem io uid gid
    default_job init_job_dirs build launch setup_cgroup make_outer setup_inner echo limit_io
    limit_ram limit_cpu find_cgroup_mount scan_mounts fields fields_from is_space text_eq
    cgroup_name
starts cid = refl

blank : trim_space (text " ") ≡ []
unfolding trim_space is_space
blank = refl

unowned : lookup host.new_id server.auth.owners ≡ none
unfolding lookup text_eq
unowned = refl

blank_client_orphans_example :
    let t = (start host server (some (text " ")) (text "ls") [] (some limits)).0 in
    ((j : Job) × (lookup (text "j2") t.jobs.jobs ≡ some j) × (j.handler ≡ active))
    × ((u : Text)
        → (has_read_access t u (text "j2") ≡ false) × (has_full_access t u (text "j2") ≡ false))
blank_client_orphans_example =
    blank_client_orphans host server (text " ") (text "ls") [] (some limits) (text "j2") blank
      unowned (starts (text " "))

removes : (remove all_ok server (some (text "john")) (text "j1")).1 ≡ ok tt
unfolding remove has_full_access check lookup text_eq Supervisor.remove Supervisor.unlink
    Supervisor.clean Supervisor.put_back Api.completed Api.cleanup
removes = refl

refused : (Stream.logs all_ok (some true) [] server (some (text "paul")) (text "j1")).2 ≡ denied
unfolding Stream.logs open_logs has_read_access check lookup text_eq
refused = refl

few_readers : (j : Job) → lookup (text "j1") server.jobs.jobs ≡ some j → j.log_readers < 2 ^ 32
unfolding lookup text_eq
few_readers j h = ground arith

abbrev rounds : List Round
rounds = steady (text "ab") ∷ steady (text "ab") ∷ []

reads : (Stream.logs all_ok (some true) rounds server (some (text "john")) (text "j1")).2 ≡ ok tt
unfolding Stream.logs Stream.close Api.close_reader open_logs has_read_access check lookup insert
    text_eq Supervisor.logs Api.logs read follow_loop judge
reads = refl
