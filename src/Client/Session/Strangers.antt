-- ===== src/Client/Session/Strangers.antt =====
-- What jctrl tells a client of the jobs of others.
use jobs.Prelude.{
  Text, text, lookup, false, true, [], ◌∷◌, none, some, ◌≡◌, List, ◌≢◌, ◌⊎◌, inl, inr, refl,
}
use jobs.Job.{returns}
use jobs.Server.{JobServer, Limits, mode_immediate, mode_graceful, denied, has_read_access}
use jobs.Server.Stream.Balance.{logs-refused}
use jobs.Server.Denial.{denied_all, unowned-denied}
use jobs.Service.{Peer, Moment, client_id, intercept}
use jobs.Client.{Config, Machine, Viper, Connection, ok, found, find_config, new}
use jobs.Client.Commands.{
  Ran, Command, run, stop_it, rm, inspect_it, logs, fails, diag_message, plan,
}
use jobs.Client.Session.{Wire, execute}
use jobs.Client.Session.Streaming.{executed_logs}

-- How a command ends whose call is refused as for an unknown job; run is about no job.
abbrev pub told : Command → Ran
told (run l) = fails (text "failed to start the job: no such job")
told (stop_it force) = fails (text "failed to stop the job: no such job")
told rm = fails (text "failed to stop the job: no such job")
told inspect_it = fails (text "failed to inspect: no such job")
told (logs follow) = record {
  stdout = text "failed to read logs: no such job\n";
  stderr = [];
  status = 1;
}

module _ (v : Viper) (m : Machine) (file used : Text) (cfg : Config) (conn : Connection) (w : Wire)
    (p : Peer) (cid : Text) (read : find_config v file ≡ found used cfg)
    (connects : new m cfg ≡ ok conn) (seen : client_id p ≡ returns (some cid)) where
  refused :
      (t : Moment) (s : JobServer) (cmd : Command) (id : Text) (rest : List Text)
      → ((l : Limits) → cmd ≢ run l)
      → has_read_access s cid id ≡ false
      → execute w t p s (plan v m file cmd (id ∷ rest)) ≡ (s, some (told cmd))
  unfolding execute plan intercept diag_message
  refused t s (run l) id rest n h = absurd (n l refl)
  refused t s (stop_it true) id rest n h =
      rw (read, connects, seen, (denied_all t.sys s cid id mode_immediate h).0) refl
  refused t s (stop_it false) id rest n h =
      rw (read, connects, seen, (denied_all t.sys s cid id mode_graceful h).0) refl
  refused t s rm id rest n h =
      rw (read, connects, seen, (denied_all t.sys s cid id mode_graceful h).1) refl
  refused t s inspect_it id rest n h =
      rw (read, connects, seen, (denied_all t.sys s cid id mode_graceful h).2) refl
  refused t s (logs follow) id rest n h =
      rw
        (executed_logs v m file used cfg conn w p cid read connects seen t s s follow id rest []
          denied
          (logs-refused t.sys (some follow) w.rounds s s (some cid) id _ _
            (denied_all t.sys s cid id mode_graceful h).3))
        refl

  -- Where the client connects and the server sees a name of it, every command about a job that
  -- the client may not read, or about an id that nobody owns, prints only that there is no such
  -- job, ends with status 1, and leaves the server as it was.
  pub no_such_job :
      (t : Moment) (s : JobServer) (cmd : Command) (id : Text) (rest : List Text)
      → ((l : Limits) → cmd ≢ run l)
      → (has_read_access s cid id ≡ false) ⊎ (lookup id s.auth.owners ≡ none)
      → execute w t p s (plan v m file cmd (id ∷ rest)) ≡ (s, some (told cmd))
  no_such_job t s cmd id rest n (inl h) = refused t s cmd id rest n h
  no_such_job t s cmd id rest n (inr u) = refused t s cmd id rest n (unowned-denied s cid id u)
