-- ===== src/Client/Connecting.antt =====
-- When client.New connects.
use jobs.Prelude.{text_eq_iff, true, false, none, [], ◌≡◌, ◌≢◌, ◌↔◌, arith}
use jobs.Client.{Config, ok, tls13, Machine, Connection, new, load_tls_creds}

-- A configuration without a blank, with files that can be used and an address that can be dialled.
abbrev pub Connects : Machine → Config → Connection → Type 0
Connects m cfg c =
    (cfg.ca_path ≢ [])
    × (cfg.cert_path ≢ [])
    × (cfg.key_path ≢ [])
    × (cfg.server ≢ [])
    × (m.read_file cfg.ca_path ≡ ok c.credentials.root_cas)
    × (m.parses c.credentials.root_cas ≡ true)
    × (m.load_pair cfg.cert_path cfg.key_path ≡ ok c.credentials.certificate)
    × (m.dial cfg.server ≡ none)
    × (c.endpoint ≡ cfg.server)
    × (c.credentials.insecure_skip_verify ≡ false)
    × (c.credentials.min_version ≡ tls13)

-- The client connects exactly if its configuration has all of its four entries, the CA's file is
-- read and parsed, the certificate is loaded with its key and the address can be dialled; then the
-- connection goes to that address, verifies the server by that CA, shows that certificate and takes
-- no version of TLS below 1.3.
pub new_iff : (m : Machine) (cfg : Config) (c : Connection) → (new m cfg ≡ ok c) ↔ Connects m cfg c
unfolding new load_tls_creds
new_iff m cfg c = ground (
  arith,
  text_eq_iff cfg.ca_path [],
  text_eq_iff cfg.cert_path [],
  text_eq_iff cfg.key_path [],
  text_eq_iff cfg.server [],
)
