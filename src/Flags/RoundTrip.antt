-- ===== src/Flags/RoundTrip.antt =====
-- The arguments that a job gives its shim, and what the shim reads from them.
use jobs.Prelude.{Text, text, text_eq, ℤ, List, [], ◌∷◌, ◌++◌, none, ◌≡◌, refl, ◌∙◌}
use jobs.Job.{Job}
use jobs.Job.New.{cmd_args}
use jobs.Effects.{format_int}
use jobs.Flags.{Flags, parsed, default_flags, parse_from, parse}
use jobs.Flags.Numbers.RoundTrip.{IsInt64, parse_int-format_int}

-- The flags that a job's shim runs with.
abbrev pub shim_flags : Job → Flags
shim_flags j = record default_flags {
  mode = text "shim";
  cmd = j.command;
  cgroup = j.cgroup_inner;
  uid = j.ids.uid;
  gid = j.ids.gid;
}

read_uid :
    (f : Flags) (i : ℤ) (args : List Text)
    → IsInt64 i
    → parse_from f none ((text "--uid=" ++ format_int i) ∷ args)
      ≡ parse_from (record f { uid = i }) none args
unfolding parse_from text_eq
read_uid f i args b = rw ((parse_int-format_int i b).0, parse_from)

read_gid :
    (f : Flags) (i : ℤ) (args : List Text)
    → IsInt64 i
    → parse_from f none ((text "--gid=" ++ format_int i) ∷ args)
      ≡ parse_from (record f { gid = i }) none args
unfolding parse_from text_eq
read_gid f i args b = rw ((parse_int-format_int i b).0, parse_from)

abbrev after_dashes : List Text → List Text
after_dashes args = elim args [ [] ↦ [] | a ∷ as' ↦ text "--" ∷ (a ∷ as') ]

read_args : (f : Flags) (args : List Text) → parse_from f none (after_dashes args) ≡ parsed f args
unfolding parse_from
read_args f [] = refl
read_args f (a ∷ args) = refl

-- What Job.cmdArgs writes, flag.Parse reads: whatever texts the command, its arguments and the
-- cgroup are, also with dashes and equal signs, the shim gets the mode, the command, the cgroup, the
-- ids and the arguments of the job, if the ids are ints.
pub parse-cmd_args :
    (j : Job)
    → IsInt64 j.ids.uid
    → IsInt64 j.ids.gid
    → parse (cmd_args j) ≡ parsed (shim_flags j) j.args
unfolding parse cmd_args text_eq
parse-cmd_args j u g =
    read_uid (record default_flags { mode = text "shim"; cmd = j.command; cgroup = j.cgroup_inner })
      j.ids.uid ((text "--gid=" ++ format_int j.ids.gid) ∷ after_dashes j.args) u
    ∙ read_gid
        (record default_flags {
          mode = text "shim";
          cmd = j.command;
          cgroup = j.cgroup_inner;
          uid = j.ids.uid;
        })
        j.ids.gid (after_dashes j.args) g
    ∙ read_args (shim_flags j) j.args
