-- ===== src/Client/Examples.antt =====
-- Tests and instances: john's jctrl on the server with his job, and paul's.
use jobs.Prelude.{
  Text, text, text_eq, lookup, true, false, [], ◌∷◌, ◌++◌, replicate, join, ◌<◌, ◌^◌, none, some,
  ◌≡◌, ◌↔◌, inl, refl, arith,
}
use jobs.Acl.{check}
use jobs.Job.{returns}
use jobs.Job.New.{new}
use jobs.Supervisor
use jobs.Job.Api
use jobs.Server.Follow.Delivery.{steady}
use jobs.Server.Stream.Balance.{Same}
use jobs.Job.{Job, OutputReader}
use jobs.Client.Session.Streaming.{logs_print_output}
use jobs.Server.{JobServer, Limits, mode_graceful, has_read_access}
use jobs.Server
use jobs.Service.{Peer, verified, Moment, client_id}
use jobs.Client.{
  Config, Machine, Viper, Disk, Connection, Search, ok, err, search, found, find_config, encode,
  load_tls_creds, save_config, tls13,
}
use jobs.Client
use jobs.Client.Commands.{Ran, quiet, prints, fails, logs, rm, diag_message, plan, config}
use jobs.Client.Connecting.{Connects, new_iff}
use jobs.Client.Saving.{or_empty, config-find_config}
use jobs.Client.Session.{Wire, execute}
use jobs.Client.Session.Strangers.{told, no_such_job}
use jobs.Fixtures.{all_ok, host, server, killed_job}

abbrev jctrl_config : Config
jctrl_config = record {
  server = text "localhost:8443";
  ca_path = text "ca.pem";
  cert_path = text "john.pem";
  key_path = text "john.key";
}

-- The configuration is read from the file.
abbrev viper : Viper
viper = record {
  home = some (text "/home/john");
  join = λ a b. a ++ (text "/" ++ b);
  read_error = λ s. none;
  value = λ s key. or_empty (lookup key (encode jctrl_config));
  unmarshal_error = λ s. none;
  file_used = λ s. text "jctrl.yaml";
}

abbrev machine : Machine
machine = record {
  read_file = λ path. ok (text "authority");
  parses = λ ca. true;
  load_pair = λ cert key. ok (text "john");
  dial = λ address. none;
}

abbrev connection : Connection
connection = record {
  endpoint = text "localhost:8443";
  credentials = record {
    root_cas = text "authority";
    insecure_skip_verify = false;
    certificate = text "john";
    min_version = tls13;
  };
}

abbrev disk : Disk
disk = record { create_error = λ file. none; write_error = λ file. none }

abbrev wire : Wire
wire = record { render = λ c e. text "rpc error"; rounds = replicate 3 (steady (text "ab")) }

abbrev named : Text → Peer
named name = verified (((name ∷ []) ∷ []) ∷ [])

abbrev moment : Moment
moment = record { host = host; sys = all_ok }

reads : find_config viper [] ≡ found (text "jctrl.yaml") jctrl_config
unfolding find_config lookup text_eq
reads = refl

connects : Client.new machine jctrl_config ≡ ok connection
unfolding Client.new load_tls_creds text_eq
connects = refl

new_iff_example :
    (Client.new machine jctrl_config ≡ ok connection) ↔ Connects machine jctrl_config connection
new_iff_example = new_iff machine jctrl_config connection

no_key :
    Client.new machine (record jctrl_config { key_path = [] }) ≡ err (text "TLS cert key required")
unfolding Client.new load_tls_creds text_eq
no_key = refl

keeps : config viper disk (λ e. false) [] ≡ (quiet, some (encode jctrl_config))
unfolding config find_config save_config lookup text_eq
keeps = refl

config-find_config_example :
    (quiet.status ≡ 0)
    × (find_config viper (text "copy.yaml") ≡ found (text "jctrl.yaml") jctrl_config)
config-find_config_example =
    config-find_config viper viper disk (λ e. false) [] (text "copy.yaml") (text "jctrl.yaml")
      jctrl_config quiet (encode jctrl_config) reads keeps refl refl (λ key. refl)

seen : (name : Text) → client_id (named name) ≡ returns (some name)
unfolding client_id
seen name = refl

needs_id : plan viper machine [] rm [] ≡ Client.Commands.exits (fails (text "job_id required"))
unfolding plan find_config
needs_id = refl

stranger : has_read_access server (text "paul") (text "j1") ≡ false
unfolding has_read_access check lookup text_eq
stranger = refl

no_such_job_example :
    execute wire moment (named (text "paul")) server (plan viper machine [] rm (text "j1" ∷ []))
    ≡ (server, some (told rm))
no_such_job_example =
    no_such_job viper machine [] (text "jctrl.yaml") jctrl_config connection wire
      (named (text "paul")) (text "paul") reads connects (seen (text "paul")) moment server rm
      (text "j1") [] (λ l. λ e. cc) (inl stranger)

abbrev reader : OutputReader
reader = record { path = killed_job.out_file_path; offset = 0 }

reading : JobServer
unfolding Server.open_logs Supervisor.logs Api.logs
reading = (Server.open_logs all_ok server (some (text "john")) (text "j1")).0

opens :
    Server.open_logs all_ok server (some (text "john")) (text "j1") ≡ (reading, Server.ok reader)
unfolding reading Server.open_logs has_read_access check lookup text_eq Supervisor.logs Api.logs
opens = refl

few_readers : (j : Job) → lookup (text "j1") server.jobs.jobs ≡ some j → j.log_readers < 2 ^ 32
unfolding lookup text_eq
few_readers j h = ground arith

logs_print_output_example :
    (u : JobServer) × (execute wire moment
        (named (text "john"))
        server
        (plan viper machine [] (logs true) (text "j1" ∷ []))
      ≡ (u, some (prints (text "ab"))))
    × Same server u
logs_print_output_example =
    logs_print_output viper machine [] (text "jctrl.yaml") jctrl_config connection wire
      (named (text "john")) (text "john") reads connects (seen (text "john")) moment server reading
      reader true (text "j1") [] (text "ab") 3 opens few_readers refl (omega arith)
