-- ===== src/Client.antt =====
-- pkg/client: the client's configuration (config.go), and the connection that is made with it
-- (client.go). Viper, the YAML encoder, the file system, the parsing of certificates and grpc.Dial
-- are what `Viper` and `Machine` answer.
pub mod CommandLine
pub mod Commands
pub mod Connecting
pub mod Saving
pub mod Session
mod Examples
use jobs.Prelude.{
  Text, text, text_eq, ℕ, Bool, true, false, List, [], ◌∷◌, ◌++◌, Option, none, some, if◌then◌else◌,
}

pub record Config : Type 0 where
  pub server : Text
  pub ca_path : Text
  pub cert_path : Text
  pub key_path : Text

-- A value, or the text of an error.
pub data Result {ℓ} (A : Type ℓ) : Type ℓ where
  ok : A → Result A
  err : Text → Result A

pub record Machine : Type 0 where
  pub read_file : Text → Result Text
  pub parses : Text → Bool  -- AppendCertsFromPEM
  pub load_pair : Text → Text → Result Text  -- tls.LoadX509KeyPair
  pub dial : Text → Option Text  -- the error of grpc.Dial

-- tls.VersionTLS13.
abbrev pub tls13 : ℕ
tls13 = 0x0304

-- The authorities that are trusted, with the client's certificate.
pub record Credentials : Type 0 where
  pub root_cas : Text
  pub insecure_skip_verify : Bool
  pub certificate : Text
  pub min_version : ℕ

pub record Connection : Type 0 where
  pub endpoint : Text
  pub credentials : Credentials

abbrev with_pair : Text → Result Text → Result Credentials
with_pair ca (err e) = err (text "failed to load TLS cert: " ++ e)
with_pair ca (ok cert) = ok (record {
  root_cas = ca;
  insecure_skip_verify = false;
  certificate = cert;
  min_version = tls13;
})

abbrev with_ca : Machine → Config → Result Text → Result Credentials
with_ca m cfg (err e) = err (text "failed to read CA cert: " ++ e)
with_ca m cfg (ok ca) =
    if m.parses ca
    then with_pair ca (m.load_pair cfg.cert_path cfg.key_path)
    else err (text "failed to add CA cert")

unfoldable pub load_tls_creds : Machine → Config → Result Credentials
load_tls_creds m cfg = with_ca m cfg (m.read_file cfg.ca_path)

abbrev dialled : Config → Credentials → Option Text → Result Connection
dialled cfg c (some e) = err (text "failed to dial: " ++ e)
dialled cfg c none = ok (record { endpoint = cfg.server; credentials = c })

abbrev with_creds : Machine → Config → Result Credentials → Result Connection
with_creds m cfg (err e) = err (text "failed to dial: " ++ e)
with_creds m cfg (ok c) = dialled cfg c (m.dial cfg.server)

unfoldable pub new : Machine → Config → Result Connection
unfolding load_tls_creds
new m cfg =
    if text_eq cfg.ca_path []
    then err (text "CA cert required")
    else (if text_eq cfg.cert_path []
        then err (text "TLS cert required")
        else (if text_eq cfg.key_path []
            then err (text "TLS cert key required")
            else (if text_eq cfg.server []
                then err (text "server endpoint required")
                else with_creds m cfg (load_tls_creds m cfg))))

-- Where viper is told to look.
pub record Search : Type 0 where
  pub paths : List Text
  pub file : Option Text  -- SetConfigFile
  pub name : Text
  pub kind : Text

-- Viper, whose flags the command line has bound: the error of ReadInConfig, the value of a key,
-- the error of Unmarshal, and the file that was read.
pub record Viper : Type 0 where
  pub home : Option Text  -- os.UserHomeDir
  pub join : Text → Text → Text  -- filepath.Join
  pub read_error : Search → Option Text
  pub value : Search → Text → Text
  pub unmarshal_error : Search → Option Text
  pub file_used : Search → Text

-- The file with the configuration; or the file, the pointer to the configuration, and the error.
pub data Found : Type 0 where
  found : Text → Config → Found
  not_found : Text → Option Config → Text → Found

abbrev pub home_paths : Viper → Option Text → List Text
home_paths v none = []
home_paths v (some home) = home ∷ v.join home (text ".jobs") ∷ []

abbrev pub search : Viper → Text → Search
search v file =
    if text_eq file []
    then record {
      paths = text "." ∷ text "/etc" ∷ home_paths v v.home;
      file = none;
      name = text "jctrl.yaml";
      kind = text "yaml";
    }
    else record { paths = text "." ∷ []; file = some file; name = []; kind = [] }

abbrev pub file_name : Text → Text
file_name file = if text_eq file [] then text "jctrl.yaml" else file

-- Unmarshal by the tags of the fields.
abbrev pub unmarshal : Viper → Search → Config
unmarshal v s = record {
  server = v.value s (text "server");
  ca_path = v.value s (text "capath");
  cert_path = v.value s (text "cert");
  key_path = v.value s (text "key");
}

-- Without a file, the configuration is that of the flags.
abbrev pub read : Viper → Search → Text → Option Text → Option Text → Found
read v s file (some e) none = found file (unmarshal v s)
read v s file (some e) (some u) = not_found file none (text "failed to load config: " ++ u)
read v s file none none = found (v.file_used s) (unmarshal v s)
read v s file none (some u) =
    not_found [] (some (unmarshal v s)) (text "failed to parse config: " ++ u)

unfoldable pub find_config : Viper → Text → Found
find_config v file =
    let s = search v file in read v s (file_name file) (v.read_error s) (v.unmarshal_error s)

-- What the encoder writes of the fields: their tags, or their names in lower case.
abbrev pub encode : Config → List (Text × Text)
encode c =
    (text "server", c.server)
    ∷ (text "capath", c.ca_path)
    ∷ (text "cert", c.cert_path)
    ∷ (text "key", c.key_path)
    ∷ []

abbrev pub encoded : Option Config → List (Text × Text)
encoded none = []
encoded (some c) = encode c

-- How os.Create and the write of the encoder end.
pub record Disk : Type 0 where
  pub create_error : Text → Option Text
  pub write_error : Text → Option Text

-- The file's fields once it is written, none of a nil configuration; or the error.
abbrev pub saved : Disk → Text → Option Config → Result (List (Text × Text))
saved d file cfg = elim (d.create_error file) [
  | some e ↦ err e
  | none ↦ elim (d.write_error file) [ some e ↦ err e | none ↦ ok (encoded cfg) ]
]

unfoldable pub save_config : Disk → Text → Option Config → Result (List (Text × Text))
save_config d file cfg = saved d file cfg
