-- ===== src/Startup/Examples.antt =====
-- Tests and instances: a server that is started with a configuration of its own.
use jobs.Prelude.{Text, text, ℤ, pos, ◌^◌, true, [], ◌∷◌, none, some, ◌≡◌, ◌⊎◌, refl, arith}
use jobs.Acl
use jobs.Acl.{full_access}
use jobs.CertLoader.{loaded}
use jobs.CertLoader
use jobs.Flags.{default_flags}
use jobs.Flags.Numbers.{atoi}
use jobs.Server.{JobServer, created}
use jobs.Server
use jobs.Server.Matching.{Matched}
use jobs.Startup.{World, exited, crashed, serving, main}
use jobs.Startup.Config.{ServerConfig, Sources, found, find_config, seconds}
use jobs.Startup.Listening.{running, CanServe, main_lem}

-- As it is read, every value from the file.
abbrev read_config : ℤ → ServerConfig
read_config reload = record {
  work_root = text "/tmp/jobs";
  full_access = text "george" ∷ [];
  read_access = [];
  ca_path = text "ca.pem";
  cert_path = text "cert.pem";
  key_path = text "key.pem";
  reload_sec = reload;
  uid = text "nobody";
  gid = text "1000";
  address = text "localhost:8443";
}

abbrev sources : ℤ → Sources
sources reload = record {
  viper = λ name. found (read_config reload);
  uid_flag = none;
  gid_flag = some (text "2000");
  user_id = λ name. some (text "1000");
  group_id = λ name. none;
}

abbrev config : ServerConfig
config = record (read_config (pos 30)) { uid = text "1000"; gid = text "2000" }

abbrev world : ℤ → World
world reload = record {
  sources = sources reload;
  certificate = λ cert key. loaded (text "certificate");
  ca_file = λ path. some (text "authority");
  ca_parses = λ ca. true;
  listens = λ address. true;
}

-- An interval that is not positive is 30 seconds.
finds : find_config (sources (pos 0)) (text "jobserver.yaml") ≡ found config
unfolding find_config
finds = refl

-- A ticker whose interval has overflowed to zero panics.
overflows : main (world (pos (2 ^ 55))) default_flags ≡ crashed
unfolding main find_config seconds CertLoader.start Server.new atoi Acl.new Acl.add_super_users
overflows = refl

main_lem_example :
    ((main (world (pos 0)) default_flags ≡ exited 1)
      ⊎ ((js : JobServer) × (c : Text) × (main (world (pos 0)) default_flags
            ≡ serving config js (running config c))
          × CanServe (world (pos 0)) config js c))
    × ((js : JobServer) (c : Text)
        → CanServe (world (pos 0)) config js c
        → (main (world (pos 0)) default_flags ≡ serving config js (running config c)) × Matched js)
main_lem_example = main_lem (world (pos 0)) default_flags config 30 finds refl (omega arith)
