-- ===== src/Goroutines/Alone/Handlers.antt =====
-- The handlers of Server, each as moves without a break.
use jobs.Prelude.{Text, Bool, Option, some, List}
use jobs.Effects.{System}
use jobs.Job.{Sys}
use jobs.Server.{JobServer, Limits, StopMode, start, stop, remove, open_logs}
use jobs.Goroutines.{Memory}
use jobs.Goroutines.Alone.{Shows, Ends, stop-Ends, logs-Ends}
use jobs.Goroutines.Alone.Starting.{start-Ends}
use jobs.Goroutines.Alone.Removing.{HasEnded, remove-Ends}

-- The handlers that interleave are those of the server. Where the memory shows the state of a server,
-- in which no job is locked, every handler of that server runs as moves of one handler from its
-- beginning to its end, and the memory then shows the state that the handler leaves: Start, Stop and
-- Logs up to its loop always, whatever they reply, and Remove unless it is left waiting or panics.
pub handlers_run_alone :
    {m : Memory} {s : JobServer}
    → Shows m s
    → ((host : System) (cid cmd : Text) (args : List Text) (l : Option Limits)
        → Ends m (start host s (some cid) cmd args l).0)
      × ((sys : Sys) (cid jid : Text) (mode : StopMode) → Ends m (stop sys s (some cid) jid mode).0)
      × ((sys : Sys) (cid jid : Text) → (follow : Bool) → Ends m (open_logs sys s (some cid) jid).0)
      × ((sys : Sys) (cid jid : Text)
          → HasEnded (remove sys s (some cid) jid)
          → Ends m (remove sys s (some cid) jid).0)
handlers_run_alone h = (
  (λ host cid cmd args l. start-Ends host h cid cmd args l),
  (λ sys cid jid mode. stop-Ends sys h cid jid mode),
  (λ sys cid jid follow. logs-Ends sys h cid jid follow),
  λ sys cid jid e. remove-Ends sys h cid jid e,
)
