-- ===== src/Service/Spec.antt =====
-- What the service promises: one map from ids to jobs with their owners, and one rule of access.
use jobs.Prelude.{
  Text, text, text_eq, join, trim_space, to_int32, ℤ, Bool, true, false, ◌||◌, List, [], ◌∷◌,
  Option, none, some, if◌then◌else◌,
}
use jobs.Job.{Job, Outcome, returns, blocks, panics}
use jobs.Job
use jobs.Job.Api
use jobs.Effects
use jobs.Supervisor
use jobs.Supervisor.{create_job, create_error, job_error, still_running}
use jobs.Job.{ExecIdentity}
use jobs.Server.{
  Limits, code_unauthenticated, code_internal, error_text, no_name_provided, internal_error, Reply,
  ok, status_error, waits, denied, is_graceful, to_job_limits, from_job_status,
}
use jobs.Service.{
  Peer, client_id, Request, start_job, stop_job, remove_job, inspect_job, open_log, Response,
  job_started, done, job_details, log_opened, Moment, Call,
}

pub record Entry : Type 0 where
  pub owner : Text
  pub job : Job

abbrev pub View : Type 0
View = Text → Option Entry

-- What never changes: the superusers, and the user that runs the jobs.
pub record Policy : Type 0 where
  pub full : Text → Bool
  pub read : Text → Bool
  pub ids : ExecIdentity

-- The owner and the superusers see and change a job, a read superuser sees it.
abbrev pub may_change : Policy → View → Text → Text → Bool
may_change p v cid id = elim (v id) [
  | none ↦ false
  | some e ↦ if text_eq e.owner cid then true else p.full cid
]

abbrev pub may_see : Policy → View → Text → Text → Bool
may_see p v cid id = elim (v id) [
  | none ↦ false
  | some e ↦ if text_eq e.owner cid then true else (if p.full cid then true else p.read cid)
]

abbrev pub replace : View → Text → Option Entry → View
replace v id e k = if text_eq id k then e else v k

-- A job in the place of another, with its owner.
abbrev pub change : View → Text → Job → View
change v id j = elim (v id) [ none ↦ v | some e ↦ replace v id (some (record e { job = j })) ]

abbrev pub internal : Supervisor.Error → Reply Response
internal e = status_error code_internal (error_text e)

abbrev pub reply : Option Job.Error → Reply Response
reply none = ok done
reply (some e) = internal (job_error e)

abbrev pub spec_started : View → Text → Effects.Result Job → View × Reply Response
spec_started v cid (Effects.err e) = (v, internal (create_error e))
spec_started v cid (Effects.ok j) =
    (replace v j.id (some (record { owner = trim_space cid; job = j })), ok (job_started j.id))

abbrev pub spec_start :
    Moment → Policy → View → Text → Text → List Text → Limits → View × Reply Response
spec_start m p v cid cmd args l =
    spec_started v cid (create_job cmd args (to_job_limits l) p.ids m.host []).0

abbrev pub spec_stop : Moment → View → Text → Job → Bool → View × Reply Response
spec_stop m v id j graceful =
    let (k, e) = if graceful then Api.init_stop m.sys j 30_000_000_000 else Api.stop m.sys j in
    (change v id k, reply e)

abbrev pub spec_cleanup : View → Text → Outcome (Job × Option Job.Error) → View × Reply Response
spec_cleanup v id (returns (k, none)) = (replace v id none, ok done)
spec_cleanup v id (returns (k, some e)) = (change v id k, internal (job_error e))
spec_cleanup v id blocks = (replace v id none, waits)
spec_cleanup v id panics = (v, status_error code_internal internal_error)

abbrev pub spec_remove : Moment → View → Text → Job → View × Reply Response
spec_remove m v id j =
    if Api.completed j then spec_cleanup v id (Api.cleanup m.sys j) else (v, internal still_running)

abbrev pub spec_inspect : Job → Reply Response
spec_inspect j =
    let (st, code) = Api.job_status j in
    ok (
      job_details (record {
        command = join (j.command ∷ j.args) (text " ");
        status = from_job_status st;
        exit_code = to_int32 code;
      }))

abbrev pub spec_opened : View → Text → Job × Job.Result Job.OutputReader → View × Reply Response
spec_opened v id (k, Job.ok r) = (change v id k, ok (log_opened r))
spec_opened v id (k, Job.err e) = (change v id k, internal (job_error e))

-- A call about a job that a client may not know of, and one about no job, get the same answer.
abbrev pub allowed : Bool → View → Text → (Job → View × Reply Response) → View × Reply Response
allowed b v id op =
    if b then (elim (v id) [ none ↦ (v, denied) | some e ↦ op e.job ]) else (v, denied)

unfoldable pub spec_handle : Moment → Policy → View → Text → Request → View × Reply Response
spec_handle m p v cid (start_job cmd args none) = (v, status_error code_internal internal_error)
spec_handle m p v cid (start_job cmd args (some l)) = spec_start m p v cid cmd args l
spec_handle m p v cid (stop_job id mode) =
    allowed (may_change p v cid id) v id (λ j. spec_stop m v id j (is_graceful mode))
spec_handle m p v cid (remove_job id) =
    allowed (may_change p v cid id) v id (λ j. spec_remove m v id j)
spec_handle m p v cid (inspect_job id) =
    allowed (may_see p v cid id) v id (λ j. (v, spec_inspect j))
spec_handle m p v cid (open_log id) =
    allowed (may_see p v cid id) v id (λ j. spec_opened v id (Api.logs m.sys j))

abbrev pub spec_intercepted :
    Outcome (Option Text) → Moment → Policy → View → Request → View × Reply Response
spec_intercepted panics m p v r = (v, status_error code_internal internal_error)
spec_intercepted blocks m p v r = (v, waits)
spec_intercepted (returns none) m p v r = (v, status_error code_unauthenticated no_name_provided)
spec_intercepted (returns (some cid)) m p v r = spec_handle m p v cid r

unfoldable pub spec_serve : Moment → Policy → Peer → View → Request → View × Reply Response
spec_serve m p peer v r = spec_intercepted (client_id peer) m p v r

unfoldable pub spec_all : Policy → View → List Call → View × List (Reply Response)
spec_all p v [] = (v, [])
spec_all p v (c ∷ cs) =
    let (w, r) = spec_serve c.moment p c.peer v c.request in
    let (x, rs) = spec_all p w cs in (x, r ∷ rs)

abbrev pub is_listed : Text → List Text → Bool
is_listed u [] = false
is_listed u (w ∷ ws) = text_eq w u || is_listed u ws

-- The policy of a configuration: its two lists of superusers, and the ids that it gives the jobs.
abbrev pub configured_policy : List Text → List Text → ℤ → ℤ → Policy
configured_policy full read u g = record {
  full = λ w. is_listed w full;
  read = λ w. is_listed w read;
  ids = record { uid = u; gid = g };
}
