-- ===== src/Flags.antt =====
-- The command line of cmd/server/main.go: package flag over the flags that `init` there declares.
-- None of them is Boolean. The package ends the process at an error, or after printing its help.
pub mod Numbers
pub mod RoundTrip
mod Examples
use jobs.Prelude.{
  Text, text, text_eq, ℕ, ℤ, pos, ◌==◌, Bool, true, false, ◌||◌, List, [], ◌∷◌, Option, none, some,
  if◌then◌else◌,
}
use jobs.Flags.Numbers.{parse_int0}

-- The variables that the flags set.
pub record Flags : Type 0 where
  pub address : Text
  pub config : Text
  pub mode : Text
  pub cmd : Text
  pub cgroup : Text
  pub uid : ℤ
  pub gid : ℤ
  pub pidfile : Text

abbrev pub default_flags : Flags
default_flags = record {
  address = text "localhost";
  config = text "jobserver.yaml";
  mode = [];
  cmd = [];
  cgroup = [];
  uid = pos 0;
  gid = pos 0;
  pidfile = [];
}

-- flag.Set on the flag of that name: no such flag, a value that is refused, or the flags after it.
pub data Assigned : Type 0 where
  unknown refused : Assigned
  assigned : Flags → Assigned

abbrev assign_int : Option ℤ → (ℤ → Flags) → Assigned
assign_int none f = refused
assign_int (some i) f = assigned (f i)

unfoldable pub assign : Flags → Text → Text → Assigned
assign f name value =
    if text_eq name (text "address")
    then assigned (record f { address = value })
    else (if text_eq name (text "config")
        then assigned (record f { config = value })
        else (if text_eq name (text "mode")
            then assigned (record f { mode = value })
            else (if text_eq name (text "cmd")
                then assigned (record f { cmd = value })
                else (if text_eq name (text "cgroup")
                    then assigned (record f { cgroup = value })
                    else (if text_eq name (text "uid")
                        then assign_int (parse_int0 value) (λ i. record f { uid = i })
                        else (if text_eq name (text "gid")
                            then assign_int (parse_int0 value) (λ i. record f { gid = i })
                            else (if text_eq name (text "pid")
                                then assigned (record f { pidfile = value })
                                else unknown)))))))

-- One argument, as flag.FlagSet.parseOne reads it.
pub data Arg : Type 0 where
  positional terminator bad_syntax : Arg
  named : Text → Option Text → Arg

-- The name up to the first "=" and the value after it.
abbrev pub cut : Text → Text × Option Text
cut [] = ([], none)
cut (c ∷ s) = let (name, value) = cut s in if c == b'=' then ([], some s) else (c ∷ name, value)

abbrev flag_name : Text → Arg
flag_name [] = bad_syntax
flag_name (c ∷ s) =
    let (name, value) = cut s in
    if (c == b'-') || (c == b'=') then bad_syntax else named (c ∷ name) value

abbrev dashed : ℕ → Text → Arg
dashed d [] = if d == b'-' then terminator else flag_name (d ∷ [])
dashed d (c ∷ s) = if d == b'-' then flag_name (c ∷ s) else flag_name (d ∷ c ∷ s)

unfoldable pub classify : Text → Arg
classify [] = positional
classify (c ∷ []) = positional
classify (c ∷ d ∷ s) = if c == b'-' then dashed d s else positional

-- flag.Parse: the flags with flag.Args, or the end of the process.
pub data Parsed : Type 0 where
  parsed : Flags → List Text → Parsed
  help_shown usage_error : Parsed

abbrev after_assign : Assigned → Text → (Flags → Parsed) → Parsed
after_assign (assigned f) name k = k f
after_assign refused name k = usage_error
after_assign unknown name k =
    if text_eq name (text "help") || text_eq name (text "h") then help_shown else usage_error

-- The loop over the arguments, with the name of a flag that waits for its value. A flag that is not
-- declared is refused before a value is taken for it.
abbrev is_declared : Text → Bool
is_declared name =
    text_eq name (text "address")
    || text_eq name (text "config")
    || text_eq name (text "mode")
    || text_eq name (text "cmd")
    || text_eq name (text "cgroup")
    || text_eq name (text "uid")
    || text_eq name (text "gid")
    || text_eq name (text "pid")

unfoldable pub parse_from : Flags → Option Text → List Text → Parsed
unfolding assign classify
parse_from f none [] = parsed f []
parse_from f (some name) [] = usage_error
parse_from f (some name) (a ∷ args) =
    after_assign (assign f name a) name (λ g. parse_from g none args)
parse_from f none (a ∷ args) = elim (classify a) [
  | positional ↦ parsed f (a ∷ args)
  | terminator ↦ parsed f args
  | bad_syntax ↦ usage_error
  | named name (some value) ↦ after_assign (assign f name value) name (λ g. parse_from g none args)
  | named name none ↦
      if is_declared name
      then parse_from f (some name) args
      else after_assign unknown name (λ g. parse_from g none args)
]

unfoldable pub parse : List Text → Parsed
unfolding parse_from
parse args = parse_from default_flags none args
