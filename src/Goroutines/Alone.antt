-- ===== src/Goroutines/Alone.antt =====
-- A handler that is not interrupted: its moves do what the handler of Server does.
pub mod Starting
pub mod Tables
pub mod Finding
pub mod Removing
pub mod Handlers
mod Examples
use jobs.Prelude.{
  Text, text_eq, text_eq_iff, ℕ, suc, ◌==◌, ==_iff, ◌<◌, Bool, true, false, lookup, insert, delete,
  lookup-insert, lookup-delete, List, Option, none, some, if◌then◌else◌, ◌≡◌, ◌≢◌, ◌⊎◌, inl, inr,
  refl, sym, ◌∙◌, arith, Bool-cases, Option-cases,
}
use jobs.Acl.{check, read_access, full_access, AccessRequest}
use jobs.Acl
use jobs.Effects.{System}
use jobs.Effects
use jobs.Job.{Job, Sys, returns}
use jobs.Job.Api
use jobs.Job.Threads.{World, Action, call_logs, step}
use jobs.Supervisor.{JobSupervisor, create_job, update}
use jobs.Supervisor
use jobs.Server.{
  JobServer, Limits, StopMode, is_graceful, to_job_limits, start, stop, open_logs, has_full_access,
  has_read_access,
}
use jobs.Server
use jobs.Goroutines.{
  Memory, Op, to_stop, to_open, op_id, op_access, Pc, idle, put, at, allocate, link, new_world,
  stop_action, Move,
}
use jobs.Goroutines.Transfers.{id_of, step-id, step-cleaning}
use jobs.Goroutines.Progress.{free}

-- The moves of one handler.
pub data Moves (m : Memory) (p : Pc) : Memory → Pc → Type 0 where
  stays : Moves m p m p
  goes : {n : Memory} {q : Pc} {o : Memory} {r : Pc} → Moves m p n q → Move n q o r → Moves m p o r

abbrev pub job_at : Memory → Option ℕ → Option Job
job_at m none = none
job_at m (some p) = some ((m.heap p).job)

-- The memory has what the server's record has: the pointers of the table, followed, are its jobs,
-- and none of them is locked.
pub record Shows (m : Memory) (s : JobServer) : Type 0 where
  pub same_auth : m.auth ≡ s.auth
  pub same_ids : m.ids ≡ s.jobs.ids
  pub same_jobs : (id : Text) → lookup id s.jobs.jobs ≡ job_at m (lookup id m.table)
  pub unlocked : (id : Text) (p : ℕ) → lookup id m.table ≡ some p → (m.heap p).cleaning ≡ false
  pub keyed : (id : Text) (p : ℕ) → lookup id m.table ≡ some p → (p < m.next) × (id_of m p ≡ id)

-- Where a handler that has ended leaves the memory.
abbrev pub Ends : Memory → JobServer → Type 0
Ends m t = (n : Memory) × Moves m idle n idle × Shows n t

at-Shows :
    (m : Memory) (s : JobServer) (id : Text) (p : ℕ) (w : World)
    → Shows m s
    → lookup id m.table ≡ some p
    → w.job.id ≡ id_of m p
    → w.cleaning ≡ false
    → Shows (at m p w) (record s { jobs = update s.jobs id w.job })
at-Shows m s id p w h f e c = record {
  same_auth = h.same_auth;
  same_ids = h.same_ids;
  same_jobs = λ k. elim (Option-cases (lookup k m.table)) [
    | inl gone ↦
        ground (arith, h.same_jobs k, lookup-insert id k w.job s.jobs.jobs, text_eq_iff id k)
    | inr (x, g) ↦ ground (
      arith,
      h.same_jobs k,
      lookup-insert id k w.job s.jobs.jobs,
      text_eq_iff id k,
      ==_iff p x,
      h.keyed k x,
      h.keyed id p,
    )
  ];
  unlocked = λ k x g. ground (arith, ==_iff p x, h.unlocked k x);
  keyed = λ k x g. ground (arith, ==_iff p x, h.keyed k x);
}

-- A call on a job that is not locked.
stop-runs :
    (sys : Sys) (v : World) (g : Bool)
    → v.cleaning ≡ false
    → (w : World) × (step sys v (stop_action g) ≡ returns w)
      × (w.job ≡ (if g then Api.init_stop sys v.job 30_000_000_000 else Api.stop sys v.job).0)
      × (w.cleaning ≡ false)
      × (w.job.id ≡ v.job.id)
unfolding step Api.init_stop Api.stop
stop-runs sys v true c = (
  record v { job = (Api.init_stop sys v.job 30_000_000_000).0 },
  rw c refl,
  refl,
  c,
  ground arith,
)
stop-runs sys v false c =
    (record v { job = (Api.stop sys v.job).0 }, rw c refl, refl, c, ground arith)

logs-runs :
    (sys : Sys) (v : World) (f : Bool)
    → v.cleaning ≡ false
    → (w : World) × (step sys v (call_logs f) ≡ returns w)
      × (w.job ≡ (Api.logs sys v.job).0)
      × (w.cleaning ≡ false)
      × (w.job.id ≡ v.job.id)
logs-runs sys v f c =
    let (w, e) = free sys v (call_logs f) refl c in
    (
      w,
      e,
      opened-job sys v f w e,
      step-cleaning sys v (call_logs f) w (λ q. cc) (λ q. cc) e ∙ c,
      step-id sys v (call_logs f) w e,
    )
  where
    opened-job :
        (sys : Sys) (v : World) (f : Bool) (w : World)
        → step sys v (call_logs f) ≡ returns w
        → w.job ≡ (Api.logs sys v.job).0
    opened-job sys v f w e = unfold step in ground arith

-- The handlers of Server where the check passes, by what the table has.
module _ (sys : Sys) (s : JobServer) (cid jid : Text) where
  stop-absent :
      (mode : StopMode) → lookup jid s.jobs.jobs ≡ none → (stop sys s (some cid) jid mode).0 ≡ s
  unfolding stop Supervisor.stop
  stop-absent mode e = elim (Bool-cases (has_full_access s cid jid)) [
    | inl may ↦ rw (may, e, Supervisor.stop) refl
    | inr refused ↦ rw refused refl
  ]

  stop-refused :
      (mode : StopMode) → has_full_access s cid jid ≡ false → (stop sys s (some cid) jid mode).0 ≡ s
  unfolding stop
  stop-refused mode e = rw e refl

  stop-present :
      (mode : StopMode) (j : Job)
      → lookup jid s.jobs.jobs ≡ some j
      → has_full_access s cid jid ≡ true
      → (stop sys s (some cid) jid mode).0 ≡ record s {
        jobs =
            update s.jobs jid
              (if is_graceful mode then Api.init_stop sys j 30_000_000_000 else Api.stop sys j).0;
      }
  unfolding stop Supervisor.stop
  stop-present mode j e may = rw (may, e, Supervisor.stop) refl

  logs-absent : lookup jid s.jobs.jobs ≡ none → (open_logs sys s (some cid) jid).0 ≡ s
  unfolding open_logs Supervisor.logs
  logs-absent e = elim (Bool-cases (has_read_access s cid jid)) [
    | inl may ↦ rw (may, e, Supervisor.logs) refl
    | inr refused ↦ rw refused refl
  ]

  logs-refused : has_read_access s cid jid ≡ false → (open_logs sys s (some cid) jid).0 ≡ s
  unfolding open_logs
  logs-refused e = rw e refl

  logs-present :
      (j : Job)
      → lookup jid s.jobs.jobs ≡ some j
      → has_read_access s cid jid ≡ true
      → (open_logs sys s (some cid) jid).0
        ≡ record s { jobs = update s.jobs jid (Api.logs sys j).0 }
  unfolding open_logs Supervisor.logs
  logs-present j e may = rw (may, e, Supervisor.logs) refl

module _ (sys : Sys) {m : Memory} {s : JobServer} (h : Shows m s) where
  pub checked :
      (cid : Text) (o : Op)
      → check s.auth (record { subject = cid; object = op_id o; action = op_access o }) ≡ true
      → Moves m idle m (Pc.granted o)
  checked cid o e = Moves.goes Moves.stays (Move.grant cid o (rw h.same_auth e))

  -- The supervisor has no such job.
  pub missing-Ends :
      (cid : Text) (o : Op)
      → check s.auth (record { subject = cid; object = op_id o; action = op_access o }) ≡ true
      → lookup (op_id o) m.table ≡ none
      → Ends m s
  missing-Ends cid o c f = (m, Moves.goes (checked cid o c) (Move.missing f), h)

  pub stop-Ends : (cid jid : Text) (mode : StopMode) → Ends m (stop sys s (some cid) jid mode).0
  unfolding has_full_access
  stop-Ends cid jid mode = elim (Bool-cases (has_full_access s cid jid)) [
    | inr refused ↦ rw (stop-refused sys s cid jid mode refused) (m, Moves.stays, h)
    | inl may ↦ elim (Option-cases (lookup jid m.table)) [
      | inl gone ↦
          rw (stop-absent sys s cid jid mode (rw (h.same_jobs jid, gone) refl))
            (missing-Ends cid (to_stop jid (is_graceful mode)) may gone)
      | inr (p, f) ↦
          let (w, e, j, c, i) = stop-runs sys (m.heap p) (is_graceful mode) (h.unlocked jid p f) in
          rw (stop-present sys s cid jid mode (m.heap p).job (rw (h.same_jobs jid, f) refl) may) (
            at m p w,
            Moves.goes (checked cid (to_stop jid (is_graceful mode)) may) (Move.stop sys p f e),
            rw (sym j) (at-Shows m s jid p w h f i c),
          )
    ]
  ]

  pub logs-Ends : (cid jid : Text) (follow : Bool) → Ends m (open_logs sys s (some cid) jid).0
  unfolding has_read_access
  logs-Ends cid jid follow = elim (Bool-cases (has_read_access s cid jid)) [
    | inr refused ↦ rw (logs-refused sys s cid jid refused) (m, Moves.stays, h)
    | inl may ↦ elim (Option-cases (lookup jid m.table)) [
      | inl gone ↦
          rw (logs-absent sys s cid jid (rw (h.same_jobs jid, gone) refl))
            (missing-Ends cid (to_open jid follow) may gone)
      | inr (p, f) ↦
          let (w, e, j, c, i) = logs-runs sys (m.heap p) follow (h.unlocked jid p f) in
          rw (logs-present sys s cid jid (m.heap p).job (rw (h.same_jobs jid, f) refl) may) (
            at m p w,
            Moves.goes (checked cid (to_open jid follow) may) (Move.open_logs sys p f e),
            rw (sym j) (at-Shows m s jid p w h f i c),
          )
    ]
  ]
