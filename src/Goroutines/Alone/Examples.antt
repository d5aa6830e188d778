-- ===== src/Goroutines/Alone/Examples.antt =====
-- Tests and instances: the memory of a server with one job, which was stopped by force.
use jobs.Prelude.{Text, text, text_eq_iff, Bool, lookup, List, [], ◌∷◌, Option, some, refl, arith}
use jobs.Effects.{System}
use jobs.Job.{Sys}
use jobs.Server.{Limits, StopMode, start, stop, remove, open_logs}
use jobs.Goroutines.{Memory}
use jobs.Goroutines.Alone.{Shows, Ends}
use jobs.Goroutines.Alone.Removing.{HasEnded}
use jobs.Goroutines.Alone.Handlers.{handlers_run_alone}
use jobs.Fixtures.{killed_world, server}

abbrev memory : Memory
memory = record {
  heap = λ p. killed_world;
  next = 1;
  table = (text "j1", 0) ∷ [];
  auth = server.auth;
  ids = server.jobs.ids;
}

memory-Shows : Shows memory server
unfolding lookup
memory-Shows = record {
  same_auth = refl;
  same_ids = refl;
  same_jobs = λ id. ground arith;
  unlocked = λ id p f. ground arith;
  keyed = λ id p f. ground (arith, text_eq_iff (text "j1") id);
}

handlers_run_alone_example :
    ((host : System) (cid cmd : Text) (args : List Text) (l : Option Limits)
      → Ends memory (start host server (some cid) cmd args l).0)
    × ((sys : Sys) (cid jid : Text) (mode : StopMode)
        → Ends memory (stop sys server (some cid) jid mode).0)
    × ((sys : Sys) (cid jid : Text)
        → (follow : Bool) → Ends memory (open_logs sys server (some cid) jid).0)
    × ((sys : Sys) (cid jid : Text)
        → HasEnded (remove sys server (some cid) jid)
        → Ends memory (remove sys server (some cid) jid).0)
handlers_run_alone_example = handlers_run_alone memory-Shows
