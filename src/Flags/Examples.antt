-- ===== src/Flags/Examples.antt =====
-- Tests and instances, on command lines.
use jobs.Prelude.{text, text_eq, pos, negsuc, [], ◌∷◌, none, some, ◌≡◌, refl, arith}
use jobs.Job.New.{cmd_args}
use jobs.Flags.{default_flags, parsed, help_shown, usage_error, parse}
use jobs.Flags.Numbers.{parse_int0, atoi}
use jobs.Flags.RoundTrip.{shim_flags, parse-cmd_args}
use jobs.Fixtures.{job}

hexadecimal : parse_int0 (text "-0x1f") ≡ some (negsuc 30)
unfolding parse_int0
hexadecimal = refl

grouped : parse_int0 (text "1_000") ≡ some (pos 1000)
unfolding parse_int0
grouped = refl

octal : parse_int0 (text "010") ≡ some (pos 8)
unfolding parse_int0
octal = refl

badly_grouped : parse_int0 (text "1__0") ≡ none
unfolding parse_int0
badly_grouped = refl

too_large : atoi (text "9223372036854775808") ≡ none
unfolding atoi
too_large = refl

separate_value :
    parse (text "-mode" ∷ text "shim" ∷ text "ls" ∷ text "-l" ∷ [])
    ≡ parsed (record default_flags { mode = text "shim" }) (text "ls" ∷ text "-l" ∷ [])
unfolding parse text_eq
separate_value = refl

helps : parse (text "--help" ∷ []) ≡ help_shown
unfolding parse text_eq
helps = refl

lacks_value : parse (text "-uid" ∷ []) ≡ usage_error
unfolding parse text_eq
lacks_value = refl

parse-cmd_args_example : parse (cmd_args job) ≡ parsed (shim_flags job) (text "/tmp" ∷ [])
parse-cmd_args_example = parse-cmd_args job (omega arith) (omega arith)
