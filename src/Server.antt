-- ===== src/Server.antt =====
-- pkg/server/server.go: the handlers of the API. A handler gets the client id that the interceptor
-- stored in the context, if any, and returns the server and its reply. The loop of Logs is in
-- Follow; here is the part before it, which opens the reader.
pub mod Follow
pub mod Context
pub mod Stream
pub mod Stopping
pub mod Draining
pub mod Denial
pub mod Matching
pub mod Serving
pub mod Lifecycle
mod Examples
use jobs.Prelude.{
  Text, text, text_eq, trim_space, Assoc, ℕ, ℤ, Bool, true, false, List, [], ◌∷◌, Option, none,
  some, if◌then◌else◌,
}
use jobs.Acl.{AccessControl, full_access, read_access, check}
use jobs.Acl
use jobs.Job.{
  Job, ExecLimits, Status, status_active, status_ended, status_stopping, status_stopped,
  status_removed, Sys, Outcome, returns, blocks, panics, ◌>>=◌, OutputReader,
}
use jobs.Job
use jobs.Supervisor.{JobSupervisor, not_found}
use jobs.Supervisor
use jobs.Effects.{System}
use jobs.Flags.Numbers.{atoi}

pub record JobServer : Type 0 where
  pub jobs : JobSupervisor
  pub auth : AccessControl

-- proto/jobs/v1/jobs.proto
pub data PbStatus : Type 0 where
  pb_unspecified pb_active pb_stopping pb_stopped pb_ended : PbStatus

pub data StopMode : Type 0 where
  mode_unspecified mode_immediate mode_graceful : StopMode

pub record Limits : Type 0 where
  pub memory : ℤ
  pub cpus : ℕ  -- float32, its bits
  pub io : ℤ

pub record Details : Type 0 where
  pub command : Text
  pub status : PbStatus
  pub exit_code : ℤ

pub data Code : Type 0 where
  code_unauthenticated code_not_found code_internal code_canceled : Code

pub data Message : Type 0 where
  invalid_client_id job_not_found : Message
  no_name_provided internal_error : Message  -- of the interceptors
  context_canceled output_failed send_failed : Message  -- of Logs
  error_text : Supervisor.Error → Message

-- What a handler sends: a response, a status error, or nothing, because it panics or waits.
pub data Reply {ℓ} (A : Type ℓ) : Type ℓ where
  ok : A → Reply A
  status_error : Code → Message → Reply A
  panicked waits : Reply A

abbrev pub denied {ℓ} : {A : Type ℓ} → Reply A
denied = status_error code_not_found job_not_found

abbrev pub unauthenticated {ℓ} : {A : Type ℓ} → Reply A
unauthenticated = status_error code_unauthenticated invalid_client_id

-- The switch on errors.Is(err, supervisor.ErrNotFound).
abbrev pub from_error {ℓ} : {A : Type ℓ} → Supervisor.Error → Reply A
from_error not_found = denied
from_error e = status_error code_internal (error_text e)

abbrev pub from_option : Option Supervisor.Error → Reply (Unit {0})
from_option none = ok tt
from_option (some e) = from_error e

abbrev pub to_job_limits : Limits → ExecLimits
to_job_limits l = record { cpu = l.cpus; max_disk_io_bytes = l.io; max_ram_bytes = l.memory }

unfoldable pub has_read_access : JobServer → Text → Text → Bool
has_read_access s cid jid =
    check s.auth (record { subject = cid; object = jid; action = read_access })

unfoldable pub has_full_access : JobServer → Text → Text → Bool
has_full_access s cid jid =
    check s.auth (record { subject = cid; object = jid; action = full_access })

abbrev pub started :
    JobServer → Text → JobSupervisor × Supervisor.Result Text → JobServer × Reply Text
started s cid (t, Supervisor.err e) = (record s { jobs = t }, from_error e)
started s cid (t, Supervisor.ok jid) =
    (record s { jobs = t; auth = (Acl.set_owner s.auth jid cid).0 }, ok jid)

-- Start; a nil Limits is a nil pointer that toJobLimits reads. The error of SetOwner is dropped.
unfoldable pub start :
    System → JobServer → Option Text → Text → List Text → Option Limits → JobServer × Reply Text
start sys s none cmd args limits = (s, unauthenticated)
start sys s (some cid) cmd args none = (s, panicked)
start sys s (some cid) cmd args (some l) =
    started s cid (Supervisor.start sys s.jobs cmd args (to_job_limits l))

abbrev pub is_graceful : StopMode → Bool
is_graceful mode_graceful = true
is_graceful _ = false

unfoldable pub stop : Sys → JobServer → Option Text → Text → StopMode → JobServer × Reply (Unit {0})
unfolding has_full_access
stop sys s none jid mode = (s, unauthenticated)
stop sys s (some cid) jid mode =
    if has_full_access s cid jid
    then (let (t, e) = Supervisor.stop sys s.jobs jid (is_graceful mode) in
        (record s { jobs = t }, from_option e))
    else (s, denied)

-- Remove once the supervisor is asked; the error of the access table is only logged. A call that
-- waits has taken the entry out of the table already.
abbrev pub after_remove :
    JobServer
    → Text
    → Outcome (JobSupervisor × Option Supervisor.Error)
    → JobServer × Reply (Unit {0})
after_remove s jid (returns (t, none)) =
    (record s { jobs = t; auth = (Acl.remove s.auth jid).0 }, ok tt)
after_remove s jid (returns (t, some e)) = (record s { jobs = t }, from_error e)
after_remove s jid blocks = (record s { jobs = (Supervisor.unlink s.jobs jid).0 }, waits)
after_remove s jid panics = (s, panicked)

unfoldable pub remove : Sys → JobServer → Option Text → Text → JobServer × Reply (Unit {0})
unfolding has_full_access
remove sys s none jid = (s, unauthenticated)
remove sys s (some cid) jid =
    if has_full_access s cid jid
    then after_remove s jid (Supervisor.remove sys s.jobs jid)
    else (s, denied)

unfoldable pub from_job_status : Status → PbStatus
from_job_status status_active = pb_active
from_job_status status_ended = pb_ended
from_job_status status_stopping = pb_stopping
from_job_status status_stopped = pb_stopped
from_job_status status_removed = pb_unspecified

abbrev from_details : Supervisor.Result (Status × ℤ × Text) → Reply Details
unfolding from_job_status
from_details (Supervisor.ok (st, code, cmd)) =
    ok (record { command = cmd; status = from_job_status st; exit_code = code })
from_details (Supervisor.err e) = from_error e

unfoldable pub inspect : JobServer → Option Text → Text → Reply Details
unfolding has_read_access from_job_status
inspect s none jid = unauthenticated
inspect s (some cid) jid =
    if has_read_access s cid jid then from_details (Supervisor.inspect s.jobs jid) else denied

abbrev pub from_reader : Supervisor.Result OutputReader → Reply OutputReader
from_reader (Supervisor.ok r) = ok r
from_reader (Supervisor.err e) = from_error e

unfoldable pub open_logs : Sys → JobServer → Option Text → Text → JobServer × Reply OutputReader
unfolding has_read_access
open_logs sys s none jid = (s, unauthenticated)
open_logs sys s (some cid) jid =
    if has_read_access s cid jid
    then (let (t, r) = Supervisor.logs sys s.jobs jid in (record s { jobs = t }, from_reader r))
    else (s, denied)

-- StopServer
unfoldable pub stop_server : Sys → (Assoc Job → Assoc Job) → Sys → JobServer → Outcome JobServer
unfolding Supervisor.stop_supervisor
stop_server sys meanwhile later s =
    Supervisor.stop_supervisor sys meanwhile later s.jobs >>= λ t. returns (record s { jobs = t })

-- New, of the parts of the configuration that it reads.
pub data ConfigError : Type 0 where
  bad_superusers invalid_uid invalid_gid : ConfigError

pub data Created : Type 0 where
  created : JobServer → Created
  refused : ConfigError → Created

abbrev pub finish_new : AccessControl × Option Acl.Error → Option ℤ → Option ℤ → Created
finish_new (auth, some e) u g = refused bad_superusers
finish_new (auth, none) none g = refused invalid_uid
finish_new (auth, none) (some u) none = refused invalid_gid
finish_new (auth, none) (some u) (some g) =
    created (record { jobs = Supervisor.new_supervisor u g; auth = auth })

abbrev pub add_readers :
    AccessControl × Option Acl.Error → List Text → AccessControl × Option Acl.Error
add_readers (auth, some e) read = (auth, some e)
add_readers (auth, none) read = Acl.add_super_users auth read read_access

unfoldable pub new : List Text → List Text → Text → Text → Created
new full read u g =
    finish_new (add_readers (Acl.add_super_users Acl.new full full_access) read) (atoi u) (atoi g)
