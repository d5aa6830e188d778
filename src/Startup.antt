-- ===== src/Startup.antt =====
-- The server's main, cmd/server/main.go, from its configuration (pkg/server/config.go) to the call
-- that serves. Viper, pflag, the user database, the certificate's files and the network are what
-- `World` answers.
pub mod Config
pub mod Reload
pub mod Listening
pub mod Shutdown
mod Examples
use jobs.Prelude.{Text, ℕ, ℤ, Bool, true, false, List, Option, none, some, if◌then◌else◌}
use jobs.CertLoader.{Loader, LoadResult}
use jobs.CertLoader
use jobs.Flags.{Flags}
use jobs.Server.{JobServer, created, refused}
use jobs.Server
use jobs.Startup.Config.{
  ServerConfig, Sources, Found, found, not_found, ended, find_config, seconds,
}

pub record World : Type 0 where
  pub sources : Sources
  pub certificate : Text → Text → LoadResult
  pub ca_file : Text → Option Text  -- os.ReadFile
  pub ca_parses : Text → Bool  -- AppendCertsFromPEM
  pub listens : Text → Bool  -- net.Listen

-- main has ended with a status, or panicked, or serves.
pub data Outcome : Type 0 where
  exited : ℕ → Outcome
  crashed : Outcome
  serving : ServerConfig → JobServer → Loader → Outcome

abbrev pub loader : ServerConfig → Loader
loader cfg = record {
  cert_path = cfg.cert_path;
  key_path = cfg.key_path;
  reload = seconds cfg.reload_sec;
  cert = none;
  started = false;
  ticking = 0;
}

abbrev pub listen : World → ServerConfig → JobServer → Loader → Outcome
listen w cfg js l = elim (w.ca_file cfg.ca_path) [
  | none ↦ exited 1
  | some ca ↦
      if w.ca_parses ca
      then (if w.listens cfg.address then serving cfg js l else exited 1)
      else exited 1
]

abbrev pub with_certificate : World → ServerConfig → JobServer → CertLoader.Outcome → Outcome
with_certificate w cfg js (CertLoader.panics l) = crashed
with_certificate w cfg js (CertLoader.returns l (some e)) = exited 1
with_certificate w cfg js (CertLoader.returns l none) = listen w cfg js l

abbrev pub with_server : World → ServerConfig → Server.Created → Outcome
with_server w cfg (refused e) = exited 1
with_server w cfg (created js) =
    with_certificate w cfg js
      (CertLoader.start (w.certificate cfg.cert_path cfg.key_path) (loader cfg))

abbrev pub with_config : World → Found → Outcome
with_config w (not_found e) = exited 1
with_config w (ended n) = exited n
with_config w (found cfg) =
    with_server w cfg (Server.new cfg.full_access cfg.read_access cfg.uid cfg.gid)

-- main, where the mode is not that of the shim, up to the goroutine that awaits a signal and Serve.
unfoldable pub main : World → Flags → Outcome
main w f = with_config w (find_config w.sources f.config)
