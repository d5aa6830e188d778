-- ===== src/Server/Stream.antt =====
-- The whole of Logs (pkg/server/server.go): the reader is opened, the loop of Follow sends its data,
-- and the deferred call closes the reader. No other call about the job comes in between.
pub mod Balance
use jobs.Prelude.{
  Text, ℕ, ◌<◌, ◌^◌, ◌==◌, ==_iff, Bool, List, [], ◌∷◌, lookup, Option, none, some, ◌≡◌, ◌≢◌, refl,
  arith,
}
use jobs.Job.{Job, Sys, Outcome, returns, blocks, panics}
use jobs.Job.Api.{close_reader}
use jobs.Supervisor.{update}
use jobs.Server.{
  JobServer, Reply, ok, status_error, waits, code_canceled, code_internal, context_canceled,
  output_failed, send_failed, open_logs,
}
use jobs.Server
use jobs.Server.Follow.{
  Round, End, finished, canceled, failed_get, failed_send, panicked, waiting, follow_loop,
}
use jobs.Job.{OutputReader}

abbrev pub replied : End → Reply (Unit {0})
replied finished = ok tt
replied canceled = status_error code_canceled context_canceled
replied failed_get = status_error code_internal output_failed
replied failed_send = status_error code_internal send_failed
replied panicked = Server.panicked
replied waiting = waits

abbrev closed : JobServer → Text → Reply (Unit {0}) → Outcome Job → JobServer × Reply (Unit {0})
closed s jid r (returns j) = (record s { jobs = update s.jobs jid j }, r)
closed s jid r blocks = (s, waits)
closed s jid r panics = (s, Server.panicked)

unfoldable pub close : JobServer → Text → Reply (Unit {0}) → JobServer × Reply (Unit {0})
close s jid r = elim (lookup jid s.jobs.jobs) [
  | none ↦ (s, r)
  | some j ↦ closed s jid r (close_reader j)
]

abbrev pub ends : JobServer → Text → End → JobServer × Reply (Unit {0})
unfolding close
ends s jid waiting = (s, waits)
ends s jid e = close s jid (replied e)

abbrev pub streamed :
    Option Bool
    → List Round
    → Text
    → JobServer × Reply OutputReader
    → JobServer × List ℕ × Reply (Unit {0})
streamed options rounds jid (s, ok r) =
    let (out, e) = follow_loop options rounds r [] in
    let (t, reply) = ends s jid e in (t, out, reply)
streamed options rounds jid (s, status_error c e) = (s, [], status_error c e)
streamed options rounds jid (s, Server.panicked) = (s, [], Server.panicked)
streamed options rounds jid (s, waits) = (s, [], waits)

-- Logs, with the data that it sends.
unfoldable pub logs :
    Sys
    → Option Bool
    → List Round
    → JobServer
    → Option Text
    → Text
    → JobServer × List ℕ × Reply (Unit {0})
logs sys options rounds s cid jid = streamed options rounds jid (open_logs sys s cid jid)
