-- ===== src/Server/Serving.antt =====
-- The server through any calls of its clients.
use jobs.Prelude.{Text, ℤ, trim_space, lookup, List, [], Option, none, some, ◌≡◌, ◌≢◌, arith}
use jobs.Acl.{AccessControl, full_access}
use jobs.Acl
use jobs.Job.{Sys}
use jobs.Effects.{System}
use jobs.Supervisor.{JobSupervisor, update, add}
use jobs.Supervisor
use jobs.Server.Matching.{Matched, start-Matched, stop-Matched, remove-Matched, open_logs-Matched}
use jobs.Flags.Numbers.{atoi}
use jobs.Server.{
  JobServer, StopMode, Limits, waits, start, stop, remove, open_logs, finish_new, add_readers, new,
  created,
}

-- A call that a client can make, and the server after it. A client's id has more than blanks, and
-- a new job's id is not empty and has none at its ends (xid writes twenty letters and digits); a
-- Remove has come back.
pub data Serves (s : JobServer) : JobServer → Type 0 where
  begun : Serves s s
  started :
      {t : JobServer}
      → Serves s t
      → (host : System) (c cmd : Text) (args : List Text) (limits : Option Limits)
      → trim_space c ≢ []
      → trim_space host.new_id ≡ host.new_id
      → host.new_id ≢ []
      → Serves s (start host t (some c) cmd args limits).0
  stopped :
      {t : JobServer}
      → Serves s t
      → (sys : Sys) (cid : Option Text) (jid : Text) (mode : StopMode)
      → Serves s (stop sys t cid jid mode).0
  removed :
      {t : JobServer}
      → Serves s t
      → (sys : Sys) (cid : Option Text) (jid : Text) → (remove sys t cid jid).1 ≢ waits
      → Serves s (remove sys t cid jid).0
  opened :
      {t : JobServer}
      → Serves s t
      → (sys : Sys) (cid : Option Text) (jid : Text) → Serves s (open_logs sys t cid jid).0

Serves-Matched : {s t : JobServer} → Matched s → Serves s t → Matched t
Serves-Matched m begun = m
Serves-Matched m (started v host c cmd args limits b t n) =
    start-Matched host _ c cmd args limits b t n (Serves-Matched m v)
Serves-Matched m (stopped v sys cid jid mode) = stop-Matched sys _ cid jid mode (Serves-Matched m v)
Serves-Matched m (removed v sys cid jid w) = remove-Matched sys _ cid jid w (Serves-Matched m v)
Serves-Matched m (opened v sys cid jid) = open_logs-Matched sys _ cid jid (Serves-Matched m v)

finish_new-Matched :
    (full read : List Text) (u g : Option ℤ) (s : JobServer)
    → finish_new (add_readers (Acl.add_super_users Acl.new full full_access) read) u g ≡ created s
    → Matched s
unfolding Acl.new Acl.add_super_users Supervisor.new_supervisor lookup
finish_new-Matched full read none g s h = cc
finish_new-Matched full read (some u) none s h = cc
finish_new-Matched full read (some u) (some g) s h = record {
  keyed = λ i l q. ground arith;
  owned = λ i. (λ q. ground arith, λ q. ground arith);
}

pub new-Matched :
    (full read : List Text) (u g : Text) (s : JobServer) → new full read u g ≡ created s → Matched s
unfolding new
new-Matched full read u g s h = finish_new-Matched full read (atoi u) (atoi g) s h

-- Through any calls on a new server where the name of each client that starts a job is not blank,
-- each new id is not empty and has no blanks at its ends, and each Remove comes back, each job stands
-- under its id, and the server knows an owner for exactly the ids that it has a job for: no job is
-- without an owner, and no owner outlives its job.
pub served-Matched :
    (full read : List Text) (u g : Text) {s t : JobServer}
    → new full read u g ≡ created s
    → Serves s t
    → Matched t
served-Matched full read u g h v = Serves-Matched (new-Matched full read u g _ h) v
