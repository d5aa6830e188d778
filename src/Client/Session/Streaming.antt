-- ===== src/Client/Session/Streaming.antt =====
-- jctrl logs, from the rounds of the server's loop to what is printed.
use jobs.Prelude.{
  Text, text, length, replicate, ℕ, ◌<◌, ◌^◌, List, [], ◌∷◌, lookup, Bool, Option, some, ◌≡◌, refl,
  ap, sym, ◌∙◌, inl, inr,
}
use jobs.Job.{Job, OutputReader, returns}
use jobs.Server.{JobServer, Reply, status_error, denied, open_logs}
use jobs.Server
use jobs.Server.Follow.{finished}
use jobs.Server.Follow.Delivery.{steady, steady_completes}
use jobs.Server.Stream
use jobs.Server.Stream.Balance.{Same, opening_cases, logs-opened}
use jobs.Service.{Peer, Moment, client_id, intercept, recovered}
use jobs.Client.{Config, Machine, Viper, Connection, ok, found, find_config, new}
use jobs.Client.Commands.{Ran, prints, finish, shown, logs, plan}
use jobs.Client.Session.{Wire, deliver_stream, execute}

module _ (v : Viper) (m : Machine) (file used : Text) (cfg : Config) (conn : Connection) (w : Wire)
    (p : Peer) (cid : Text) (read : find_config v file ≡ found used cfg)
    (connects : new m cfg ≡ ok conn) (seen : client_id p ≡ returns (some cid)) where
  pub executed_logs :
      (t : Moment) (s u : JobServer) (follow : Bool) (id : Text) (rest : List Text) (out : Text)
      (r : Reply (Unit {0}))
      → Stream.logs t.sys (some follow) w.rounds s (some cid) id ≡ (u, out, r)
      → execute w t p s (plan v m file (logs follow) (id ∷ rest))
        ≡ deliver_stream w (finish (text "failed to get logs: ") shown) out (recovered (u, r))
  unfolding execute plan intercept
  executed_logs t s u follow id rest out r h =
      let goes : JobServer × Text × Reply (Unit {0}) → JobServer × Option Ran = λ x.
        deliver_stream w (finish (text "failed to get logs: ") shown) x.1 (recovered (x.0, x.2)) in
      let calls : execute w t p s (plan v m file (logs follow) (id ∷ rest))
          ≡ goes (Stream.logs t.sys (some follow) w.rounds s (some cid) id) =
        rw (read, connects, seen) refl in
      calls ∙ ap goes h

  -- Where the client connects, the server sees a name of it and opens the reader of the job, whose
  -- count of readers is a pattern of 32 bits, jctrl logs prints the whole output of a job whose
  -- process has ended, in either mode, and ends with status 0, if nothing fails, and the loop has
  -- one round more than the output has bytes; and the server has its table and its owners as
  -- before, the reader counted back.
  pub logs_print_output :
      (t : Moment) (s x : JobServer) (r : OutputReader) (follow : Bool) (id : Text)
      (rest : List Text) (c : Text) (n : ℕ)
      → open_logs t.sys s (some cid) id ≡ (x, Server.ok r)
      → ((j : Job) → lookup id s.jobs.jobs ≡ some j → j.log_readers < 2 ^ 32)
      → w.rounds ≡ replicate n (steady c)
      → length c < n
      → (u : JobServer) × (execute w t p s (plan v m file (logs follow) (id ∷ rest))
          ≡ (u, some (prints c)))
        × Same s u
  logs_print_output t s x r follow id rest c n o b k l =
      elim (opening_cases t.sys s (some cid) id) [
        | inl (y, code, e, q, same) ↦ absurd (refused (sym o ∙ q))
        | inr (j, found_job, q) ↦
            let (run, same) =
              logs-opened t.sys (some follow) w.rounds s (some cid) id j c finished found_job
                (b j found_job) (λ z. cc) q
                (rw k (steady_completes follow n c [] c _ refl refl l)) in
            (_, executed_logs t s _ follow id rest c (Server.ok tt) run, same)
      ]
    where
      refused :
          {y : JobServer} {code : Server.Code} {e : Server.Message}
          → ◌≡◌ {A = JobServer × Reply OutputReader} (x, Server.ok r) (y, status_error code e)
          → ⊥
      refused z = cc
