-- ===== src/Client/CommandLine/Examples.antt =====
-- Tests and instances: lines that cobra has parsed.
use jobs.Prelude.{text, text_eq, true, false, [], ◌∷◌, none, ◌≡◌, refl}
use jobs.Client.{Machine, Viper, Disk, err}
use jobs.Client.Commands.{stop_it, plan}
use jobs.Client.CommandLine.{
  Variables, Library, Parsed, refused, selected, ends, plans, one, unset, text_value, bool_value,
  initialised, declared, set_all, select, after_parse, execute,
}

abbrev bound : Variables → Viper
bound v = record {
  home = none;
  join = λ a b. a;
  read_error = λ s. none;
  value = λ s k. v.server;
  unmarshal_error = λ s. none;
  file_used = λ s. [];
}

abbrev parses : Parsed → Library
parses p = record { cobra = λ fs cs line. p; bound = λ fs v. bound v }

abbrev machine : Machine
machine = record {
  read_file = λ path. err [];
  parses = λ c. false;
  load_pair = λ c k. err [];
  dial = λ a. none;
}

abbrev disk : Disk
disk = record { create_error = λ f. none; write_error = λ f. none }

-- An error of cobra ends the process with status 1.
unknown_command :
    execute (parses (refused (text "unknown command"))) machine disk (λ e. true) []
    ≡ ends (record { stdout = []; stderr = text "unknown command"; status = 1 })
unfolding execute after_parse
unknown_command = refl

-- Flags of the root and of the command.
forced :
    execute
      (parses (
        selected
          (text "stop")
          ((text "force", bool_value true) ∷ (text "server", text_value (text "host:1")) ∷ [])
          (text "j1" ∷ [])))
      machine
      disk
      (λ e. true)
      []
    ≡ plans (
        plan
          (bound (record unset { cpu_limit = one; force = true; server = text "host:1" }))
          machine
          []
          (stop_it true)
          (text "j1" ∷ []))
unfolding execute after_parse select initialised declared set_all text_eq
forced = refl
