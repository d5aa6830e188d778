-- ===== src/Lib.antt =====
-- A verification of the job service: a gRPC server that starts commands on its host for its clients,
-- and lets their owners watch, follow, stop and remove them.
--
-- The parts, and how they interact. A client's call reaches a handler of pkg/server/server.go. The
-- handler asks pkg/acl/acl.go whether the client may touch the job, and passes the call on to
-- pkg/supervisor/supervisor.go, which keeps the table of the jobs. A job (pkg/job) is a state machine
-- under one lock: the states are the handlers of pkg/job/state_*.go, the methods are those of
-- pkg/job/job.go; its process is started by New, inside a cgroup (pkg/job/cgroup.go), and its output
-- is a file that readers (pkg/job/logreader.go) follow. pkg/certloader reads the server's certificate.
-- The process that New starts is the server's own binary in its mode as a shim (cmd/server/main.go,
-- pkg/server/shim), which sets itself up, tells its parent through a pipe how that went, and runs the
-- command. The client's side is jctrl (cmd/client, pkg/client): a command reads a configuration,
-- connects, asks for one call and prints what comes back.
--
-- Which file models which part:
--   Prelude         texts, maps, signed numbers, lists: strings.TrimSpace, strings.Join, Go's maps
--   Acl             AccessControl: New, AddSuperUsers, SetOwner, Remove, Check
--   Job             the types of pkg/job
--   Job/Handlers    the interface stateHandler as a record, and its five values, one for each
--                   pkg/job/state_*.go
--   Job/Api         Status, Completed, InitStop, Stop, Cleanup, Logs, exited, Wait, Read's Close
--   Job/Threads     one job among the callers, its timers, its process, the goroutine that waits for
--                   it, and the log readers: a function `step`, and its runs `Reach`
--   Job/Draining    how a job ends that nobody calls any more
--   Job/New         New with its options, and its directories, initJobDirs
--   Effects         the system calls that New and setupCgroup make, as a trace, with Go's deferred calls
--   Cgroup          setupCgroup, echo, listBlockDevs, findCgroupMount, itoa
--   Cgroup/Process  SetupProc, setupIDs, addPidToCgroup, and remountProc of pkg/job/namespace.go
--   Supervisor      Start, Stop, Inspect, Logs, Remove, Cleanup, StopSupervisor
--   Server          Start, Stop, Remove, Inspect, StopServer, New, and Logs up to its loop
--   Server/Follow   the loop of Logs over outputReader.Read
--   Server/Context  StoreAuthID and authID
--   Server/Stream   Logs from the opening of the reader to its close
--   Goroutines      the handlers as goroutines that share a heap of jobs, the table of pointers to
--                   them and the access table, and interleave with the jobs' own goroutines: `Move`
--                   is one handler's next move, `Step` any move, `Reach` the runs of a new server;
--                   Transfers, Holders, Locks follow the pointers and the locks, Deeds and Owned the
--                   ids, Alive the removals; Jobs, Progress, Access and Ending draw the conclusions,
--                   and Alone compares the moves with the handlers of Server
--   Service         the interceptors of cmd/server/main.go and clientID around the handlers: a call
--                   of a peer on the server, and lists of calls
--   Service/Spec    what the service promises: one map from ids to owned jobs, and one rule of
--                   access; View is what the server's two tables are to it, Refinement the proof
--   Flags           the flags of cmd/server/main.go; Flags/Numbers has strconv.Atoi and ParseInt
--   Shim            the start of main, Main of the shim, and its loop with waitForOrphans
--   Startup         main in its mode as a server, up to net.Listen
--   Startup/Config  FindConfig of pkg/server/config.go, and the length of the reload interval
--   Startup/Shutdown the end of main: its signal, GracefulStop, StopServer, Serve and the wait
--   Driver          cmd/test/main.go: one job and the loop over its output, and the driver's shim
--   Client          pkg/client: New, loadTLSCreds, FindConfig, SaveConfig
--   Client/Commands cmd/client/cmd: the commands run, stop, rm, inspect, logs, config; diagMessage
--   Client/CommandLine the flags and commands that cmd/client/cmd declares, and Execute
--   Client/Session  a command on a server of Service: what it prints, and the server after it
--   CertLoader      Loader: Start, Stop, reload, the ticker
--   Fixtures        concrete values for the modules called Examples, which hold tests and instances
-- The other modules hold proofs, and are named for what they prove.
--
-- How state is kept. A struct is a record, a method a function from the record to the new record and
-- the result; an error is a value of the module's own type. The program shares a job by pointers: it
-- has one entry in the table, under its id, and a call writes the entry again. A mutex makes a
-- method one step; where a method waits with the lock held, or after it gave the lock back, the model
-- has `blocks`, and Job/Threads and Server.after_remove say what the others can see meanwhile. A
-- panic is `panics`.
--
-- What lies outside. `Sys` answers the calls on a signal, a file and a directory, `System` those of
-- New; both may answer anything, `Sys` differently at each step, and `System` differently after
-- each call. xid.New, os.Getuid, /proc/mounts, the output of lsblk, the message of the child and
-- the text for cpu.max are fields of `System`. What viper, pflag and the user database find,
-- tls.LoadX509KeyPair, the CA's file and its parsing, net.Listen and grpc.Dial are fields of
-- `World` and `Sources` for the server, and of `Viper`, `Machine` and `Disk` for the client. The
-- packages flag and strconv are modelled as far as the program's own arguments need them: flags
-- without Boolean values, numbers of any base. gRPC carries a reply, a status error with its code,
-- or, for a stream, the data and then the error; the text of a status error is an argument.
--
-- Bounds. int32 values wrap around: the count of the readers modulo 2^32, and the exit code that
-- Inspect shows; so does the product of int64 values for the reload interval, and the flags refuse
-- a number that is not an int64. The other integers are only compared, stored and printed. No
-- definition has fuel: the loop of Logs runs over a list of rounds, each with what the loop sees in
-- it, and ends as `waiting` where the list does; one round more than the missing bytes is enough to
-- get the whole output once the process has ended. The loop of the shim runs over a list of events:
-- the signals that it receives, which leaves out those that find its channel full.
--
-- What is not modelled: the loggers; the file with the server's process id; cobra's reading of the
-- client's command line, which is an argument, and the texts of its help; the options of New that
-- replace its system calls in tests. Of Serve and GracefulStop the model has what gRPC documents: the
-- one returns without an error only once the other was called, and the other waits for the calls
-- that are being served. The command of a shim gets its output and its environment from the system.
-- filepath.Join is written for the clean paths that the program joins. Calls of Service come one after
-- another, and no other call comes between the opening and the close of a stream's reader; in
-- Goroutines they interleave, where a method of the supervisor is one move, a stream's handler is
-- gone once it has opened its reader, which is then one of the job's, and StopServer is no move.
pub mod Acl
pub mod CertLoader
pub mod Cgroup
pub mod Client
pub mod Driver
pub mod Effects
pub mod Fixtures
pub mod Flags
pub mod Goroutines
pub mod Job
pub mod Prelude
pub mod Server
pub mod Service
pub mod Shim
pub mod Startup
pub mod Supervisor
