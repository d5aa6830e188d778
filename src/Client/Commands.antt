-- ===== src/Client/Commands.antt =====
-- cmd/client/cmd: the commands of jctrl, once cobra has parsed the command line. A command ends the
-- process, or first asks the server for one call and goes on with what comes back.
use jobs.Prelude.{Text, text, ℕ, Bool, List, [], ◌∷◌, ◌++◌, Option, none, some, if◌then◌else◌}
use jobs.Effects.{format_int}
use jobs.Server.{
  Details, Limits, PbStatus, pb_unspecified, pb_active, pb_stopping, pb_stopped, pb_ended, StopMode,
  mode_immediate, mode_graceful,
}
use jobs.Client.{
  Config, Connection, Result, ok, err, Machine, Viper, Found, found, not_found, find_config, new,
  Disk, save_config,
}

-- What the process has written when it ends, and its status.
pub record Ran : Type 0 where
  pub stdout : Text
  pub stderr : Text
  pub status : ℕ

-- The codes that the messages tell apart, if the error is a status, and the error's text.
pub data RpcCode : Type 0 where
  internal not_found_code unauthenticated other_code : RpcCode

pub record RpcError : Type 0 where
  pub code : Option RpcCode
  pub message : Text

pub data Answer {ℓ} (A : Type ℓ) : Type ℓ where
  answered : A → Answer A
  failed : RpcError → Answer A

-- A stream: the data of all the messages that were received, up to its end or an error.
pub record Stream : Type 0 where
  pub received : Text
  pub error : Option RpcError

pub data Plan : Type 0 where
  exits : Ran → Plan
  starts : Connection → Text → List Text → Limits → (Answer Text → Ran) → Plan
  stops : Connection → Text → StopMode → (Answer (Unit {0}) → Ran) → Plan
  removes : Connection → Text → (Answer (Unit {0}) → Ran) → Plan
  inspects : Connection → Text → (Answer Details → Ran) → Plan
  streams : Connection → Text → Bool → (Answer Stream → Ran) → Plan

-- The commands with their own flags.
pub data Command : Type 0 where
  run : Limits → Command
  stop_it : Bool → Command
  rm inspect_it : Command
  logs : Bool → Command

-- diagMessage
unfoldable pub diag_message : RpcError → Text
diag_message e = elim e.code [
  | some internal ↦ e.message
  | some not_found_code ↦ text "no such job"
  | some unauthenticated ↦ text "invalid certificate"
  | some other_code ↦ e.message
  | none ↦ e.message
]

abbrev pub quiet : Ran
quiet = record { stdout = []; stderr = []; status = 0 }

abbrev pub prints : Text → Ran
prints t = record { stdout = t; stderr = []; status = 0 }

abbrev pub fails : Text → Ran
fails t = record { stdout = []; stderr = t ++ text "\n"; status = 1 }

-- A message of an error of the call, or what is done with the answer.
abbrev pub finish {ℓ} : {A : Type ℓ} → Text → (A → Ran) → Answer A → Ran
finish what k (answered a) = k a
finish what k (failed e) = fails (what ++ diag_message e)

-- The generated names of the statuses.
abbrev pub status_name : PbStatus → Text
status_name pb_unspecified = text "STATUS_UNSPECIFIED"
status_name pb_active = text "STATUS_ACTIVE"
status_name pb_stopping = text "STATUS_STOPPING"
status_name pb_stopped = text "STATUS_STOPPED"
status_name pb_ended = text "STATUS_ENDED"

abbrev pub details_text : Text → Details → Text
details_text id d =
    text "Job:\t\t"
    ++ (id
        ++ (text "\nCommand:\t"
            ++ (d.command
                ++ (text "\nStatus:\t\t"
                    ++ (status_name d.status
                        ++ (text "\nExitCode:\t" ++ (format_int d.exit_code ++ text "\n")))))))

-- The loop over the stream; its error is printed on the standard output.
abbrev pub shown : Stream → Ran
shown s = elim s.error [
  | none ↦ prints (s.received)
  | some e ↦ record {
    stdout = s.received ++ (text "failed to read logs: " ++ (diag_message e ++ text "\n"));
    stderr = [];
    status = 1;
  }
]

-- What every command does first: the configuration, an argument, and the connection.
abbrev pub connected :
    Text → List Text → (Connection → Text → List Text → Plan) → Result Connection → Plan
connected a args k (err e) = exits (fails (text "failed to connect: " ++ e))
connected a args k (ok c) = k c a args

abbrev pub with_args :
    Machine → Config → Text → List Text → (Connection → Text → List Text → Plan) → Plan
with_args m cfg required [] k = exits (fails required)
with_args m cfg required (a ∷ args) k = connected a args k (new m cfg)

abbrev pub prepared :
    Machine → Found → Text → List Text → (Connection → Text → List Text → Plan) → Plan
prepared m (not_found file cfg e) required args k = exits (fails (text "failed to load config"))
prepared m (found file cfg) required args k = with_args m cfg required args k

-- The Run of each command.
unfoldable pub run_cmd : Viper → Machine → Text → Limits → List Text → Plan
run_cmd v m file limits args =
    prepared m (find_config v file) (text "command required") args (λ c cmd rest.
      starts c cmd rest limits
        (finish (text "failed to start the job: ") (λ id. prints (id ++ text "\n"))))

unfoldable pub stop_cmd : Viper → Machine → Text → Bool → List Text → Plan
stop_cmd v m file force args =
    prepared m (find_config v file) (text "job_id required") args (λ c id rest.
      stops c id (if force then mode_immediate else mode_graceful)
        (finish (text "failed to stop the job: ") (λ _. quiet)))

unfoldable pub rm_cmd : Viper → Machine → Text → List Text → Plan
rm_cmd v m file args =
    prepared m (find_config v file) (text "job_id required") args
      (λ c id rest. removes c id (finish (text "failed to stop the job: ") (λ _. quiet)))

unfoldable pub inspect_cmd : Viper → Machine → Text → List Text → Plan
inspect_cmd v m file args =
    prepared m (find_config v file) (text "job_id required") args (λ c id rest.
      inspects c id (finish (text "failed to inspect: ") (λ d. prints (details_text id d))))

unfoldable pub logs_cmd : Viper → Machine → Text → Bool → List Text → Plan
logs_cmd v m file follow args =
    prepared m (find_config v file) (text "job_id required") args
      (λ c id rest. streams c id follow (finish (text "failed to get logs: ") shown))

unfoldable pub plan : Viper → Machine → Text → Command → List Text → Plan
unfolding run_cmd stop_cmd rm_cmd inspect_cmd logs_cmd
plan v m file (run limits) args = run_cmd v m file limits args
plan v m file (stop_it force) args = stop_cmd v m file force args
plan v m file rm args = rm_cmd v m file args
plan v m file inspect_it args = inspect_cmd v m file args
plan v m file (logs follow) args = logs_cmd v m file follow args

abbrev pub ran : Result (List (Text × Text)) → Ran × Option (List (Text × Text))
ran (err e) =
    (record { stdout = []; stderr = text "failed to save config file: " ++ e; status = 1 }, none)
ran (ok fields) = (quiet, some fields)

-- The command config, with what it leaves in its file; `is_missing` is errors.Is of os.ErrNotExist.
abbrev pub keep : Disk → (Text → Bool) → Found → Ran × Option (List (Text × Text))
keep d is_missing (found file cfg) = ran (save_config d file (some cfg))
keep d is_missing (not_found file cfg e) =
    if is_missing e
    then ran (save_config d file cfg)
    else (record { stdout = []; stderr = []; status = 1 }, none)

unfoldable pub config : Viper → Disk → (Text → Bool) → Text → Ran × Option (List (Text × Text))
config v d is_missing file = keep d is_missing (find_config v file)
