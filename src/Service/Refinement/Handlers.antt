-- ===== src/Service/Refinement/Handlers.antt =====
-- Each handler, for a named client, against the specification.
use jobs.Prelude.{Text, lookup, true, Option, some, if◌then◌else◌, ◌≡◌, refl, ap, ◌∙◌, arith}
use jobs.Job.{Job, Sys, Outcome, returns, blocks, panics}
use jobs.Job
use jobs.Job.Api
use jobs.Supervisor.{JobSupervisor, update, as_error, as_result}
use jobs.Supervisor
use jobs.Server.{
  JobServer, StopMode, mode_graceful, Details, Reply, from_reader, stop, inspect, open_logs,
  has_full_access, has_read_access, is_graceful, from_option,
}
use jobs.Server.Matching.{Matched}
use jobs.Service.{
  stop_job, inspect_job, open_log, done, job_details, log_opened, Moment, handle, respond,
}
use jobs.Service.Spec.{View, change, reply, spec_handle, spec_inspect, spec_opened}
use jobs.Service.View.{
  view, policy, has_full_access-may_change, has_read_access-may_see, view-update,
}
use jobs.Server.Denial.{denied_all, reader_cannot_touch}
use jobs.Service.Refinement.{gate, Implements, Implements-intro, respond-from_option}

abbrev stopped : Sys → Job → StopMode → Job × Option Job.Error
stopped sys j mode = if is_graceful mode then Api.init_stop sys j 30_000_000_000 else Api.stop sys j

stop_found :
    (sys : Sys) (s : JobServer) (cid id : Text) (mode : StopMode) (j : Job)
    → has_full_access s cid id ≡ true
    → lookup id s.jobs.jobs ≡ some j
    → stop sys s (some cid) id mode ≡ (
      record s { jobs = update s.jobs id (stopped sys j mode).0 },
      from_option (as_error (stopped sys j mode).1),
    )
unfolding stop Supervisor.stop
stop_found sys s cid id mode j full found = rw (full, found, stop, Supervisor.stop) refl

pub stop-Implements :
    (m : Moment) (s : JobServer) (cid id : Text) (mode : StopMode)
    → Matched s
    → Implements s
        (handle m s (some cid) (stop_job id mode))
        (spec_handle m (policy s) (view s) cid (stop_job id mode))
unfolding handle spec_handle
stop-Implements m s cid id mode k =
    let same = has_full_access-may_change s cid id k in
    gate s id (has_full_access s cid id) _ _ _ k same (λ h. ground (arith, same))
      (λ h. ap (respond (λ (u : Unit {0}). done)) (reader_cannot_touch m.sys s cid id mode h).0)
      (λ j found full.
        Implements-intro s (record s { jobs = update s.jobs id (stopped m.sys j mode).0 })
          (change (view s) id (stopped m.sys j mode).0) (reply (stopped m.sys j mode).1) _ _
          (ap (respond (λ (u : Unit {0}). done)) (stop_found m.sys s cid id mode j full found)
            ∙ respond-from_option _ (stopped m.sys j mode).1)
          refl (view-update s id j (stopped m.sys j mode).0 k found) refl)

inspect_found :
    (s : JobServer) (cid id : Text) (j : Job)
    → has_read_access s cid id ≡ true
    → lookup id s.jobs.jobs ≡ some j
    → respond job_details (s, inspect s (some cid) id) ≡ (s, spec_inspect j)
unfolding inspect Supervisor.inspect
inspect_found s cid id j read found = rw (read, found, inspect, Supervisor.inspect) refl

pub inspect-Implements :
    (m : Moment) (s : JobServer) (cid id : Text)
    → Matched s
    → Implements s
        (handle m s (some cid) (inspect_job id))
        (spec_handle m (policy s) (view s) cid (inspect_job id))
unfolding handle spec_handle
inspect-Implements m s cid id k =
    let same = has_read_access-may_see s cid id k in
    gate s id (has_read_access s cid id) _ _ _ k same (λ h. ground (arith, same))
      (λ h.
        ap (λ (r : Reply Details). respond job_details (s, r))
          (denied_all m.sys s cid id mode_graceful h).2)
      (λ j found read.
        Implements-intro s s (view s) (spec_inspect j) _ _ (inspect_found s cid id j read found)
          refl refl refl)

open_logs_found :
    (sys : Sys) (s : JobServer) (cid id : Text) (j : Job)
    → has_read_access s cid id ≡ true
    → lookup id s.jobs.jobs ≡ some j
    → open_logs sys s (some cid) id ≡ (
      record s { jobs = update s.jobs id (Api.logs sys j).0 },
      from_reader (as_result (Api.logs sys j).1),
    )
unfolding open_logs Supervisor.logs
open_logs_found sys s cid id j read found = rw (read, found, open_logs, Supervisor.logs) refl

opened_as :
    (s : JobServer) (v : View) (id : Text) (r : Job × Job.Result Job.OutputReader)
    → (respond log_opened (s, from_reader (as_result r.1)) ≡ (s, (spec_opened v id r).1))
      × (spec_opened v id r ≡ (change v id r.0, (spec_opened v id r).1))
opened_as s v id (k, Job.ok r) = (refl, refl)
opened_as s v id (k, Job.err e) = (refl, refl)

pub open_log-Implements :
    (m : Moment) (s : JobServer) (cid id : Text)
    → Matched s
    → Implements s
        (handle m s (some cid) (open_log id))
        (spec_handle m (policy s) (view s) cid (open_log id))
unfolding handle spec_handle
open_log-Implements m s cid id k =
    let same = has_read_access-may_see s cid id k in
    gate s id (has_read_access s cid id) _ _ _ k same (λ h. ground (arith, same))
      (λ h. ap (respond log_opened) (denied_all m.sys s cid id mode_graceful h).3)
      (λ j found read.
        let t : JobServer = record s { jobs = update s.jobs id (Api.logs m.sys j).0 } in
        let (impl, spec) = opened_as t (view s) id (Api.logs m.sys j) in
        Implements-intro s t (change (view s) id (Api.logs m.sys j).0)
          (spec_opened (view s) id (Api.logs m.sys j)).1 _ _
          (ap (respond log_opened) (open_logs_found m.sys s cid id j read found) ∙ impl) spec
          (view-update s id j (Api.logs m.sys j).0 k found) refl)
