-- ===== src/Client/Session.antt =====
-- A command of jctrl on a server: the call over the connection, with the client that the server sees
-- at its other end.
pub mod Jobs
pub mod Strangers
pub mod Streaming
use jobs.Prelude.{Text, List, [], Option, none, some}
use jobs.Job.{Outcome, returns}
use jobs.Server.{
  JobServer, Code, code_unauthenticated, code_not_found, code_internal, code_canceled, Message,
  Reply, ok, status_error, panicked, waits, start, stop, remove, inspect,
}
use jobs.Server.Follow.{Round}
use jobs.Server.Stream.{logs}
use jobs.Service.{Peer, Moment, client_id, intercept}
use jobs.Client.Commands.{
  Ran, RpcCode, RpcError, internal, not_found_code, unauthenticated, other_code, Answer, answered,
  failed, Stream, Plan, exits, starts, stops, removes, inspects, streams,
}

abbrev pub rpc_code : Code → RpcCode
rpc_code code_unauthenticated = unauthenticated
rpc_code code_not_found = not_found_code
rpc_code code_internal = internal
rpc_code code_canceled = other_code

-- How the network shows a status error as a text, and the rounds that the loop of Logs runs.
pub record Wire : Type 0 where
  pub render : Code → Message → Text
  pub rounds : List Round

abbrev pub rpc_error : Wire → Code → Message → RpcError
rpc_error w c e = record { code = some (rpc_code c); message = w.render c e }

-- The command goes on with the reply, if there is one.
abbrev pub deliver {ℓ} :
    {A : Type ℓ} → Wire → (Answer A → Ran) → JobServer × Reply A → JobServer × Option Ran
deliver w k (s, ok a) = (s, some (k (answered a)))
deliver w k (s, status_error c e) = (s, some (k (failed (rpc_error w c e))))
deliver w k (s, waits) = (s, none)
deliver w k (s, panicked) = (s, none)

-- The error of a stream's handler comes after its data, whatever it is.
abbrev pub deliver_stream :
    Wire → (Answer Stream → Ran) → Text → JobServer × Reply (Unit {0}) → JobServer × Option Ran
deliver_stream w k out (s, ok u) =
    (s, some (k (answered (record { received = out; error = none }))))
deliver_stream w k out (s, status_error c e) =
    (s, some (k (answered (record { received = out; error = some (rpc_error w c e) }))))
deliver_stream w k out (s, waits) = (s, none)
deliver_stream w k out (s, panicked) = (s, none)

-- What the handler sends, if it is called.
abbrev pub sent : Outcome (Option Text) → (Option Text → Text) → Text
sent (returns (some cid)) f = f (some cid)
sent _ f = []

unfoldable pub execute : Wire → Moment → Peer → JobServer → Plan → JobServer × Option Ran
unfolding intercept
execute w m p s (exits r) = (s, some r)
execute w m p s (starts c cmd args l k) =
    deliver w k (intercept p s (λ cid. start m.host s cid cmd args (some l)))
execute w m p s (stops c id mode k) = deliver w k (intercept p s (λ cid. stop m.sys s cid id mode))
execute w m p s (removes c id k) = deliver w k (intercept p s (λ cid. remove m.sys s cid id))
execute w m p s (inspects c id k) = deliver w k (intercept p s (λ cid. (s, inspect s cid id)))
execute w m p s (streams c id follow k) =
    deliver_stream w k (sent (client_id p) (λ cid. (logs m.sys (some follow) w.rounds s cid id).1))
      (intercept p s
        (λ cid. let (t, out, r) = logs m.sys (some follow) w.rounds s cid id in (t, r)))
