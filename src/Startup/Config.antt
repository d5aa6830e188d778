-- ===== src/Startup/Config.antt =====
-- pkg/server/config.go.
use jobs.Prelude.{
  Text, ℕ, suc, ℤ, pos, negsuc, is_positive, ltb, ◌-◌, ◌*◌, ◌%◌, ◌^◌, List, Option, none, some,
  if◌then◌else◌,
}

pub record ServerConfig : Type 0 where
  pub work_root : Text
  pub full_access : List Text
  pub read_access : List Text
  pub ca_path : Text
  pub cert_path : Text
  pub key_path : Text
  pub reload_sec : ℤ
  pub uid : Text
  pub gid : Text
  pub address : Text

-- A configuration, an error, or the status with which pflag has ended the process.
pub data Found : Type 0 where
  found : ServerConfig → Found
  not_found : Text → Found
  ended : ℕ → Found

-- What pflag and viper make of a name, the flags uid and gid where pflag saw them, and the system's users
-- and groups by name.
pub record Sources : Type 0 where
  pub viper : Text → Found
  pub uid_flag : Option Text
  pub gid_flag : Option Text
  pub user_id : Text → Option Text
  pub group_id : Text → Option Text

abbrev pub or_else : Option Text → Text → Text
or_else none t = t
or_else (some u) t = u

abbrev pub resolve : (Text → Option Text) → Option Text → Text → Text
resolve ids flag t = or_else (ids (or_else flag t)) (or_else flag t)

abbrev pub default_reload : ℤ → ℤ
default_reload x = if is_positive x then x else pos 30

-- FindConfig, after viper
abbrev pub completed : Sources → ServerConfig → ServerConfig
completed s c = record c {
  reload_sec = default_reload c.reload_sec;
  uid = resolve s.user_id s.uid_flag c.uid;
  gid = resolve s.group_id s.gid_flag c.gid;
}

abbrev pub complete : Sources → Found → Found
complete s (not_found e) = not_found e
complete s (ended n) = ended n
complete s (found c) = found (completed s c)

unfoldable pub find_config : Sources → Text → Found
find_config s file = complete s (s.viper file)

-- time.Duration(x) * time.Second, a product of int64 values.
abbrev pub signed64 : ℕ → ℤ
signed64 m = if ltb m (2 ^ 63) then pos m else negsuc (2 ^ 64 - 1 - m)

unfoldable pub seconds : ℤ → ℤ
seconds (pos n) = signed64 (n * 1_000_000_000 % 2 ^ 64)
seconds (negsuc n) = signed64 ((2 ^ 64 - suc n * 1_000_000_000 % 2 ^ 64) % 2 ^ 64)
