-- ===== src/Server/Stream/Balance.antt =====
-- The readers of a job are counted back when Logs ends.
use jobs.Prelude.{
  Text, text_eq_iff, ℕ, ◌+◌, ◌%◌, ◌^◌, ◌<◌, Bool, List, [], lookup, insert, lookup-insert, Option,
  none, some, ◌≡◌, ◌≢◌, ◌⊎◌, inl, inr, refl, ap, arith, Option-cases, Bool-cases,
}
use jobs.Job.{
  Job, Sys, Outcome, returns, OutputReader, Result, ok, err, Error, active, ended, stopping,
  stopped, zombie, Handler,
}
use jobs.Job
use jobs.Job.Api
use jobs.Job.Handlers
use jobs.Job.Api.{close_reader}
use jobs.Supervisor.{JobSupervisor, update}
use jobs.Supervisor
use jobs.Server.{
  JobServer, Reply, status_error, waits, has_read_access, open_logs, from_reader, denied,
}
use jobs.Server
use jobs.Server.Follow.{
  Round, End, finished, canceled, failed_get, failed_send, panicked, waiting, follow_loop,
}
use jobs.Server.Stream.{close, ends, replied, logs}

-- A job with one reader more.
abbrev pub with_reader : Job → Job
with_reader j = record j { out_lock = j.out_lock + 1; log_readers = (j.log_readers + 1) % 2 ^ 32 }

close-with_reader : (j : Job) → j.log_readers < 2 ^ 32 → close_reader (with_reader j) ≡ returns j
unfolding close_reader
close-with_reader j h = ground arith

reader_cases :
    (sys : Sys) (j : Job)
    → ((e : Error) × (Handlers.logs_reader sys j ≡ (j, err e)))
      ⊎ (Handlers.logs_reader sys j ≡ (
        record j { out_lock = j.out_lock + 1 },
        ok (record { path = j.out_file_path; offset = 0 }),
      ))
unfolding Handlers.logs_reader
reader_cases sys j = elim (Option-cases (sys.open_file j.out_file_path)) [
  | inl opens ↦ inr (rw (opens, Handlers.logs_reader) refl)
  | inr (e, fails) ↦ inl (Job.no_output e, rw (fails, Handlers.logs_reader) refl)
]

handler_cases :
    (h : Handler) (sys : Sys) (j : Job)
    → ((e : Error) × (Handlers.logs h sys j ≡ (j, err e)))
      ⊎ (Handlers.logs h sys j ≡ (
        record j { out_lock = j.out_lock + 1 },
        ok (record { path = j.out_file_path; offset = 0 }),
      ))
unfolding Handlers.logs
handler_cases active sys j = reader_cases sys j
handler_cases ended sys j = reader_cases sys j
handler_cases stopping sys j = reader_cases sys j
handler_cases stopped sys j = reader_cases sys j
handler_cases zombie sys j = inl (_, refl)

pub open_cases :
    (sys : Sys) (j : Job)
    → ((e : Error) × (Api.logs sys j ≡ (j, err e)))
      ⊎ (Api.logs sys j ≡ (with_reader j, ok (record { path = j.out_file_path; offset = 0 })))
unfolding Api.logs
open_cases sys j = elim (handler_cases j.handler sys j) [
  | inl (e, p) ↦ inl (e, rw p refl)
  | inr p ↦ inr (rw p refl)
]

-- The server with the same entries in its table, and the same owners.
abbrev pub Same : JobServer → JobServer → Type 0
Same s t =
    ((k : Text) → lookup k t.jobs.jobs ≡ lookup k s.jobs.jobs)
    × (t.auth ≡ s.auth)
    × (t.jobs.ids ≡ s.jobs.ids)

insert-same :
    (id k : Text) (j : Job) (m : List (Text × Job))
    → lookup id m ≡ some j
    → lookup k (insert id j m) ≡ lookup k m
insert-same id k j m h = ground (arith, lookup-insert id k j m, text_eq_iff id k)

insert-twice :
    (id k : Text) (i j : Job) (m : List (Text × Job))
    → lookup id m ≡ some j
    → lookup k (insert id j (insert id i m)) ≡ lookup k m
insert-twice id k i j m h =
    ground (arith, lookup-insert id k j (insert id i m), lookup-insert id k i m, text_eq_iff id k)

-- The server whose job at an id has one reader more.
abbrev pub opened : JobServer → Text → Job → JobServer
opened s id j = record s { jobs = update s.jobs id (with_reader j) }

pub close-opened :
    (s : JobServer) (id : Text) (j : Job) (r : Reply (Unit {0}))
    → lookup id s.jobs.jobs ≡ some j
    → j.log_readers < 2 ^ 32
    → close (opened s id j) id r
      ≡ (record s { jobs = update (update s.jobs id (with_reader j)) id j }, r)
unfolding close
close-opened s id j r h b = rw (found, close-with_reader j b, close) refl
  where
    found : lookup id (insert id (with_reader j) s.jobs.jobs) ≡ some (with_reader j)
    found = ground (arith, lookup-insert id id (with_reader j) s.jobs.jobs, text_eq_iff id id)

closed-Same :
    (s : JobServer) (id : Text) (j : Job) (r : Reply (Unit {0}))
    → lookup id s.jobs.jobs ≡ some j
    → j.log_readers < 2 ^ 32
    → ((close (opened s id j) id r).1 ≡ r) × Same s (close (opened s id j) id r).0
closed-Same s id j r h b =
    rw (close-opened s id j r h b)
      (refl, ((λ k. insert-twice id k (with_reader j) j s.jobs.jobs h), refl, refl))

pub ended-Same :
    (s : JobServer) (id : Text) (j : Job) (e : End)
    → lookup id s.jobs.jobs ≡ some j
    → j.log_readers < 2 ^ 32
    → e ≢ waiting
    → ((ends (opened s id j) id e).1 ≡ replied e) × Same s (ends (opened s id j) id e).0
unfolding ends
ended-Same s id j finished h b n = closed-Same s id j (replied finished) h b
ended-Same s id j canceled h b n = closed-Same s id j (replied canceled) h b
ended-Same s id j failed_get h b n = closed-Same s id j (replied failed_get) h b
ended-Same s id j failed_send h b n = closed-Same s id j (replied failed_send) h b
ended-Same s id j panicked h b n = closed-Same s id j (replied panicked) h b
ended-Same s id j waiting h b n = absurd (n refl)

-- What the opening of the reader comes to: a refusal that changes nothing, or a reader more.
pub opening_cases :
    (sys : Sys) (s : JobServer) (cid : Option Text) (id : Text)
    → ((t : JobServer) × (c : Server.Code) × (e : Server.Message) × (open_logs sys s cid id
          ≡ (t, status_error c e))
        × Same s t)
      ⊎ ((j : Job) × (lookup id s.jobs.jobs ≡ some j)
          × (open_logs sys s cid id
              ≡ (opened s id j, Server.ok (record { path = j.out_file_path; offset = 0 }))))
unfolding open_logs Supervisor.logs
opening_cases sys s none id = inl (_, _, _, refl, ((λ k. refl), refl, refl))
opening_cases sys s (some cid) id = elim (Bool-cases (has_read_access s cid id)) [
  | inr denies ↦ inl (
    s,
    Server.code_not_found,
    Server.job_not_found,
    rw (denies, open_logs) refl,
    ((λ k. refl), refl, refl),
  )
  | inl reads ↦ elim (Option-cases (lookup id s.jobs.jobs)) [
    | inl missing ↦ inl (
      s,
      Server.code_not_found,
      Server.job_not_found,
      rw (reads, missing, open_logs, Supervisor.logs) refl,
      ((λ k. refl), refl, refl),
    )
    | inr (j, found) ↦ elim (open_cases sys j) [
      | inl (e, p) ↦ inl (
        record s { jobs = update s.jobs id j },
        Server.code_internal,
        Server.error_text (Supervisor.job_error e),
        rw (reads, found, p, open_logs, Supervisor.logs) refl,
        ((λ k. insert-same id k j s.jobs.jobs found), refl, refl),
      )
      | inr p ↦ inr (j, found, rw (reads, found, p, open_logs, Supervisor.logs) refl)
    ]
  ]
]

pub logs-refused :
    (sys : Sys) (follow : Option Bool) (rounds : List Round) (s t : JobServer) (cid : Option Text)
    (id : Text) (c : Server.Code) (e : Server.Message)
    → open_logs sys s cid id ≡ (t, status_error c e)
    → logs sys follow rounds s cid id ≡ (t, [], status_error c e)
unfolding logs
logs-refused sys follow rounds s t cid id c e h = rw h refl

pub logs-opened :
    (sys : Sys) (options : Option Bool) (rounds : List Round) (s : JobServer) (cid : Option Text)
    (id : Text) (j : Job) (out : List ℕ) (e : End)
    → lookup id s.jobs.jobs ≡ some j
    → j.log_readers < 2 ^ 32
    → e ≢ waiting
    → open_logs sys s cid id
      ≡ (opened s id j, Server.ok (record { path = j.out_file_path; offset = 0 }))
    → follow_loop options rounds (record { path = j.out_file_path; offset = 0 }) [] ≡ (out, e)
    → (logs sys options rounds s cid id ≡ ((ends (opened s id j) id e).0, out, replied e))
      × Same s (ends (opened s id j) id e).0
unfolding logs
logs-opened sys options rounds s cid id j out e f b n h l =
    let (reply, same) = ended-Same s id j e f b n in
    (rw (h, l) (ap (λ (r : Reply (Unit {0})). ((ends (opened s id j) id e).0, out, r)) reply), same)

-- Whatever the outcome of Logs, the server is as before once it has ended: a reader that was opened
-- has been closed, and counted back, where the job's count of them is a pattern of 32 bits.
pub logs_lem :
    (sys : Sys) (follow : Option Bool) (rounds : List Round) (s : JobServer) (cid : Option Text)
    (id : Text)
    → ((j : Job) → lookup id s.jobs.jobs ≡ some j → j.log_readers < 2 ^ 32)
    → (logs sys follow rounds s cid id).2 ≢ waits
    → Same s (logs sys follow rounds s cid id).0
unfolding logs ends
logs_lem sys follow rounds s cid id b n = elim (opening_cases sys s cid id) [
  | inl (t, c, e, p, same) ↦ rw (p, logs) same
  | inr (j, found, p) ↦
      let r : OutputReader = record { path = j.out_file_path; offset = 0 } in
      rw (p, logs)
        (ended-Same s id j (follow_loop follow rounds r []).1 found (b j found)
          (λ q. (rw (p, logs) at n) (rw q refl))).1
]
