-- ===== src/Goroutines.antt =====
-- The handlers of pkg/server/server.go as the goroutines that gRPC runs them in, with the goroutines
-- and timers of the jobs, in any order. The memory that they share: the jobs that New has made, the
-- table of pkg/supervisor/supervisor.go with pointers to them, and the access table. A method of the
-- supervisor or of the access table holds its lock, and is one move; Remove is several, since it
-- calls Cleanup with the lock given back.
pub mod Jobs
pub mod Transfers
pub mod Holders
pub mod Locks
pub mod Progress
pub mod Deeds
pub mod Owned
pub mod Access
pub mod Alive
pub mod Ending
pub mod Alone
mod Examples
use jobs.Prelude.{
  Text, ℕ, suc, ◌==◌, Bool, true, false, Assoc, lookup, insert, delete, List, [], Option, none,
  some, if◌then◌else◌, ◌≡◌, ◌≢◌, ◌<◌, trim_space,
}
use jobs.Acl.{AccessControl, AccessType, AccessRequest, read_access, full_access, check}
use jobs.Acl
use jobs.Effects.{System}
use jobs.Effects
use jobs.Job.{Job, ExecIdentity, ExecLimits, Sys, Error, returns}
use jobs.Job.Api.{completed, cleanup}
use jobs.Job.Threads.{
  World, Action, call_init_stop, call_stop, call_logs, begin_cleanup, end_cleanup, timer_expires,
  timer_stops, process_exits, run_exited, reader_ends, follower_ends, reader_cancels,
  follower_cancels, follower_fails, step,
}
use jobs.Supervisor.{create_job}

-- A pointer is a number below `next`; what the heap has from there on is not used.
pub record Memory : Type 0 where
  pub heap : ℕ → World
  pub next : ℕ
  pub table : Assoc ℕ
  pub auth : AccessControl
  pub ids : ExecIdentity

-- What a handler does once its client may.
pub data Op : Type 0 where
  to_stop : Text → Bool → Op  -- graceful
  to_remove to_inspect : Text → Op
  to_open : Text → Bool → Op  -- follow mode

abbrev pub op_id : Op → Text
op_id (to_stop id graceful) = id
op_id (to_remove id) = id
op_id (to_inspect id) = id
op_id (to_open id follow) = id

abbrev pub op_access : Op → AccessType
op_access (to_stop id graceful) = full_access
op_access (to_remove id) = full_access
op_access (to_inspect id) = read_access
op_access (to_open id follow) = read_access

-- Where a handler stands, with what it holds in its variables.
pub data Pc : Type 0 where
  idle : Pc
  created registered : ℕ → Text → Pc  -- Start, before its write of the table, and of the owner
  granted : Op → Pc  -- after the access check
  unlinked cleaning : ℕ → Text → Pc  -- Remove, before j.Cleanup, and in it, with the job's lock
  failed : ℕ → Pc  -- Remove, before it puts the job back
  cleaned : Text → Pc  -- Remove, before the access table forgets the id

abbrev pub put {ℓ} : {A : Type ℓ} → (ℕ → A) → ℕ → A → ℕ → A
put f i a j = if i == j then a else f j

abbrev pub new_world : Job → World
new_world j = record {
  job = j;
  cleaning = false;
  exit_ran = false;
  pending_stops = 0;
  readers = 0;
  followers = 0;
}

abbrev pub allocate : Memory → Job → Memory
allocate m j = record m { heap = put m.heap m.next (new_world j); next = suc m.next }

abbrev pub at : Memory → ℕ → World → Memory
at m p w = record m { heap = put m.heap p w }

-- s.jobs[j.ID] = j
abbrev pub link : Memory → ℕ → Memory
link m p = record m { table = insert (m.heap p).job.id p m.table }

abbrev pub stop_action : Bool → Action
stop_action graceful = if graceful then call_init_stop 30_000_000_000 else call_stop

-- One move of one handler. A handler that is refused, or whose New fails, changes nothing and is not
-- listed. A job's method waits for its lock, which Cleanup may hold.
pub data Move (m : Memory) : Pc → Memory → Pc → Type 0 where
  create :
      (sys : System) (cid cmd : Text) (args : List Text) (limits : ExecLimits) (j : Job)
      → (create_job cmd args limits m.ids sys []).0 ≡ Effects.ok j
      → Move m idle (allocate m j) (created m.next cid)
  register : {p : ℕ} {cid : Text} → Move m (created p cid) (link m p) (registered p cid)
  own :
      {p : ℕ} {cid : Text}
      → Move m
          (registered p cid)
          (record m { auth = (Acl.set_owner m.auth (m.heap p).job.id cid).0 })
          idle
  grant :
      (cid : Text) (op : Op)
      → check m.auth (record { subject = cid; object = op_id op; action = op_access op }) ≡ true
      → Move m idle m (granted op)
  missing : {op : Op} → lookup (op_id op) m.table ≡ none → Move m (granted op) m idle
  stop :
      {id : Text} {graceful : Bool} {w : World}
      → (sys : Sys) (p : ℕ) → lookup id m.table ≡ some p
      → step sys (m.heap p) (stop_action graceful) ≡ returns w
      → Move m (granted (to_stop id graceful)) (at m p w) idle
  open_logs :
      {id : Text} {follow : Bool} {w : World}
      → (sys : Sys) (p : ℕ) → lookup id m.table ≡ some p
      → step sys (m.heap p) (call_logs follow) ≡ returns w
      → Move m (granted (to_open id follow)) (at m p w) idle
  inspect :
      {id : Text}
      → (p : ℕ) → lookup id m.table ≡ some p
      → (m.heap p).cleaning ≡ false
      → Move m (granted (to_inspect id)) m idle
  refuse :
      {id : Text}
      → (p : ℕ) → lookup id m.table ≡ some p
      → (m.heap p).cleaning ≡ false
      → completed (m.heap p).job ≡ false
      → Move m (granted (to_remove id)) m idle
  unlink :
      {id : Text}
      → (p : ℕ) → lookup id m.table ≡ some p
      → (m.heap p).cleaning ≡ false
      → completed (m.heap p).job ≡ true
      → Move m (granted (to_remove id)) (record m { table = delete id m.table }) (unlinked p id)
  begin :
      {p : ℕ} {id : Text} {w : World}
      → (sys : Sys) → step sys (m.heap p) begin_cleanup ≡ returns w
      → w.cleaning ≡ true
      → Move m (unlinked p id) (at m p w) (cleaning p id)
  begin_removed :
      {p : ℕ} {id : Text} {w : World}
      → (sys : Sys) → step sys (m.heap p) begin_cleanup ≡ returns w
      → w.cleaning ≡ false
      → Move m (unlinked p id) (at m p w) (failed p)
  finish :
      {p : ℕ} {id : Text} {w : World} {k : Job}
      → (sys : Sys) → step sys (m.heap p) end_cleanup ≡ returns w
      → cleanup sys (m.heap p).job ≡ returns (k, none)
      → Move m (cleaning p id) (at m p w) (cleaned id)
  fail :
      {p : ℕ} {id : Text} {w : World} {k : Job} {e : Error}
      → (sys : Sys) → step sys (m.heap p) end_cleanup ≡ returns w
      → cleanup sys (m.heap p).job ≡ returns (k, some e)
      → Move m (cleaning p id) (at m p w) (failed p)
  put_back : {p : ℕ} → Move m (failed p) (link m p) idle
  forget : {id : Text} → Move m (cleaned id) (record m { auth = (Acl.remove m.auth id).0 }) idle

-- What a job's own goroutines, timers, process and readers do; the other actions are calls.
abbrev pub is_own : Action → Bool
is_own (timer_expires t) = true
is_own timer_stops = true
is_own (process_exits code) = true
is_own run_exited = true
is_own reader_ends = true
is_own follower_ends = true
is_own reader_cancels = true
is_own follower_cancels = true
is_own follower_fails = true
is_own _ = false

pub record State : Type 0 where
  pub memory : Memory
  pub pc : ℕ → Pc

pub data Step (s : State) : State → Type 0 where
  moves :
      (t : ℕ) {m : Memory} {p : Pc}
      → Move s.memory (s.pc t) m p
      → Step s (record { memory = m; pc = put s.pc t p })
  runs :
      (p : ℕ) (sys : Sys) (a : Action) {w : World}
      → p < s.memory.next
      → is_own a ≡ true
      → step sys (s.memory.heap p) a ≡ returns w
      → Step s (record s { memory = at s.memory p w })

-- No job is made yet, and no handler runs.
pub record IsNew (s : State) : Type 0 where
  pub none_made : s.memory.next ≡ 0
  pub empty : s.memory.table ≡ []
  pub none_owned : s.memory.auth.owners ≡ []
  pub quiet : (t : ℕ) → s.pc t ≡ idle

pub data Reach (v : State) : State → Type 0 where
  here : Reach v v
  later : {s u : State} → Reach v s → Step s u → Reach v u
