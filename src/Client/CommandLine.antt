-- ===== src/Client/CommandLine.antt =====
-- The command line of jctrl: the variables of cmd/client/cmd with the flags that each init declares,
-- the commands that are added to rootCmd, and Execute. Cobra parses the arguments by these
-- declarations, and viper binds the flags of the root.
pub mod Defaults
mod Examples
use jobs.Prelude.{
  Text, text, text_eq, ℕ, ℤ, pos, Bool, true, false, List, [], ◌∷◌, Option, none, some,
  if◌then◌else◌,
}
use jobs.Client.{Machine, Viper, Disk}
use jobs.Client.Commands.{Ran, Plan, Command, run, stop_it, rm, inspect_it, logs, plan, config}

-- A value of a flag; a float32 is its bits.
pub data Value : Type 0 where
  text_value : Text → Value
  float32_value : ℕ → Value
  int64_value : ℤ → Value
  bool_value : Bool → Value

pub record Flag : Type 0 where
  pub name : Text
  pub shorthand : Option Text
  pub default : Value

abbrev text_flag : Text → Flag
text_flag n = record { name = n; shorthand = none; default = text_value [] }

abbrev pub root_flags : List Flag
root_flags =
    text_flag (text "config")
    ∷ text_flag (text "capath")
    ∷ text_flag (text "cert")
    ∷ text_flag (text "key")
    ∷ text_flag (text "server")
    ∷ []

-- 1.0
abbrev pub one : ℕ
one = 1_065_353_216

abbrev run_flags : List Flag
run_flags =
    record { name = text "cpu"; shorthand = some (text "c"); default = float32_value one }
    ∷ record { name = text "mem"; shorthand = some (text "m"); default = int64_value (pos 0) }
    ∷ record { name = text "io"; shorthand = some (text "i"); default = int64_value (pos 0) }
    ∷ []

abbrev stop_flags : List Flag
stop_flags =
    record { name = text "force"; shorthand = some (text "f"); default = bool_value false } ∷ []

abbrev logs_flags : List Flag
logs_flags =
    record { name = text "follow"; shorthand = some (text "f"); default = bool_value false } ∷ []

-- The commands under rootCmd with their flags, in the order of the files.
abbrev pub commands : List (Text × List Flag)
commands =
    (text "config", [])
    ∷ (text "inspect", [])
    ∷ (text "logs", logs_flags)
    ∷ (text "rm", [])
    ∷ (text "run", run_flags)
    ∷ (text "stop", stop_flags)
    ∷ []

pub record Variables : Type 0 where
  pub config : Text
  pub ca_path : Text
  pub cert : Text
  pub key : Text
  pub server : Text
  pub cpu_limit : ℕ
  pub mem_limit : ℤ
  pub io_limit : ℤ
  pub force : Bool
  pub follow : Bool

abbrev pub unset : Variables
unset = record {
  config = [];
  ca_path = [];
  cert = [];
  key = [];
  server = [];
  cpu_limit = 0;
  mem_limit = pos 0;
  io_limit = pos 0;
  force = false;
  follow = false;
}

-- The variable behind a flag takes a value of its type.
abbrev pub assign : Variables → Text → Value → Variables
assign v n (text_value x) =
    if text_eq n (text "config")
    then record v { config = x }
    else (if text_eq n (text "capath")
        then record v { ca_path = x }
        else (if text_eq n (text "cert")
            then record v { cert = x }
            else (if text_eq n (text "key")
                then record v { key = x }
                else (if text_eq n (text "server") then record v { server = x } else v))))
assign v n (float32_value x) = if text_eq n (text "cpu") then record v { cpu_limit = x } else v
assign v n (int64_value x) =
    if text_eq n (text "mem")
    then record v { mem_limit = x }
    else (if text_eq n (text "io") then record v { io_limit = x } else v)
assign v n (bool_value x) =
    if text_eq n (text "force")
    then record v { force = x }
    else (if text_eq n (text "follow") then record v { follow = x } else v)

-- A declaration sets the variable to the default.
unfoldable pub declared : Variables → List Flag → Variables
declared v [] = v
declared v (f ∷ fs) = declared (assign v f.name f.default) fs

unfoldable pub initialised : Variables → List (Text × List Flag) → Variables
unfolding declared
initialised v [] = v
initialised v ((name, fs) ∷ cs) = initialised (declared v fs) cs

-- What cobra makes of the arguments: an error, or its help, which it prints; or a command with the
-- flags that are set, which are declared for it or for the root, and the arguments that are left.
pub data Parsed : Type 0 where
  refused helped : Text → Parsed
  selected : Text → List (Text × Value) → List Text → Parsed

unfoldable pub set_all : Variables → List (Text × Value) → Variables
set_all v [] = v
set_all v ((n, x) ∷ xs) = set_all (assign v n x) xs

-- Cobra, and viper with the values of the flags of the root.
pub record Library : Type 0 where
  pub cobra : List Flag → List (Text × List Flag) → List Text → Parsed
  pub bound : List Flag → Variables → Viper

pub data Executed : Type 0 where
  ends : Ran → Executed
  plans : Plan → Executed
  writes : Ran × Option (List (Text × Text)) → Executed

abbrev pub select : Machine → Disk → (Text → Bool) → Viper → Variables → Text → List Text → Executed
select m d is_missing w v name args =
    if text_eq name (text "config")
    then writes (config w d is_missing v.config)
    else (if text_eq name (text "inspect")
        then plans (plan w m v.config inspect_it args)
        else (if text_eq name (text "logs")
            then plans (plan w m v.config (logs v.follow) args)
            else (if text_eq name (text "rm")
                then plans (plan w m v.config rm args)
                else (if text_eq name (text "run")
                    then plans (
                        plan w m v.config
                          (run
                            (record { memory = v.mem_limit; cpus = v.cpu_limit; io = v.io_limit }))
                          args)
                    else plans (plan w m v.config (stop_it v.force) args)))))

-- Execute, with the error of rootCmd.Execute.
abbrev pub after_parse : Library → Machine → Disk → (Text → Bool) → Variables → Parsed → Executed
unfolding set_all
after_parse l m d is_missing v (refused e) = ends (record { stdout = []; stderr = e; status = 1 })
after_parse l m d is_missing v (helped h) = ends (record { stdout = h; stderr = []; status = 0 })
after_parse l m d is_missing v (selected name xs args) =
    let s = set_all v xs in select m d is_missing (l.bound root_flags s) s name args

unfoldable pub execute : Library → Machine → Disk → (Text → Bool) → List Text → Executed
unfolding initialised declared
execute l m d is_missing args =
    after_parse l m d is_missing (initialised (declared unset root_flags) commands)
      (l.cobra root_flags commands args)
