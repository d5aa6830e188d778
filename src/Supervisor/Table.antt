-- ===== src/Supervisor/Table.antt =====
-- The entries of the table under every call.
use jobs.Prelude.{
  Text, text_eq_iff, lookup, insert, delete, lookup-insert, lookup-delete, Bool, Option, none, some,
  ◌≡◌, ◌≢◌, inl, inr, refl, arith, Option-cases, Bool-cases, Assoc,
}
use jobs.Job.{
  Job, ExecIdentity, ExecLimits, Sys, Handler, active, zombie, status_active, returns, blocks,
  panics, Outcome,
}
use jobs.Job
use jobs.Job.Api
use jobs.Supervisor.{
  JobSupervisor, Error, update, ok, stop, logs, remove, cleanup, clean, put_back, find,
}

-- Every entry stands under its job's id.
abbrev pub IsKeyed : JobSupervisor → Type 0
IsKeyed s = (id : Text) (j : Job) → lookup id s.jobs ≡ some j → j.id ≡ id

cleanup-id :
    (sys : Sys) (j : Job) (k : Job) (e : Option Job.Error)
    → Api.cleanup sys j ≡ returns (k, e)
    → k.id ≡ j.id
unfolding Api.cleanup
cleanup-id sys j k e h = ground arith

put_back-other :
    (s : JobSupervisor) (k : Text) (j : Job) (e : Option Job.Error)
    → j.id ≢ k
    → lookup k (put_back s (j, e)).0.jobs ≡ lookup k s.jobs
unfolding put_back
put_back-other s k j none n = refl
put_back-other s k j (some e) n = ground (arith, lookup-insert j.id k j s.jobs, text_eq_iff j.id k)

clean-other :
    (sys : Sys) (s : JobSupervisor) (k : Text) (j : Job) (t : JobSupervisor) (e : Option Error)
    → j.id ≢ k
    → clean sys s (ok j) ≡ returns (t, e)
    → lookup k t.jobs ≡ lookup k s.jobs
unfolding clean
clean-other sys s k j t e n h = go (Api.cleanup sys j) refl
  where
    go :
        (r : Outcome (Job × Option Job.Error))
        → Api.cleanup sys j ≡ r
        → lookup k t.jobs ≡ lookup k s.jobs
    go (returns (m, x)) q = ground (arith, put_back-other s k m x, cleanup-id sys j m x q)
    go blocks q = ground arith
    go panics q = ground arith

remove-other :
    (sys : Sys) (s : JobSupervisor) (id k : Text) (t : JobSupervisor) (e : Option Error)
    → IsKeyed s
    → id ≢ k
    → remove sys s id ≡ returns (t, e)
    → lookup k t.jobs ≡ lookup k s.jobs
unfolding remove
remove-other sys s id k t e keyed n h = elim (Option-cases (lookup id s.jobs)) [
  | inl missing ↦ ground arith
  | inr (j, found) ↦ elim (Bool-cases (Api.completed j)) [
    | inl c ↦ ground (
      arith,
      clean-other sys (record s { jobs = delete id s.jobs }) k j t e,
      keyed id j found,
      lookup-delete id k s.jobs,
      text_eq_iff id k,
    )
    | inr c ↦ ground arith
  ]
]

pub insert-other :
    (id k : Text) (j : Job) (m : Assoc Job) → id ≢ k → lookup k (insert id j m) ≡ lookup k m
insert-other id k j m n = ground (arith, lookup-insert id k j m, text_eq_iff id k)

stop-other :
    (sys : Sys) (s : JobSupervisor) (id k : Text) (graceful : Bool)
    → id ≢ k
    → lookup k (stop sys s id graceful).0.jobs ≡ lookup k s.jobs
unfolding stop
stop-other sys s id k graceful n = elim (Option-cases (lookup id s.jobs)) [
  | inl missing ↦ rw (missing, stop) refl
  | inr (j, found) ↦ rw (found, stop) (insert-other id k _ s.jobs n)
]

logs-other :
    (sys : Sys) (s : JobSupervisor) (id k : Text)
    → id ≢ k
    → lookup k (logs sys s id).0.jobs ≡ lookup k s.jobs
unfolding logs
logs-other sys s id k n = elim (Option-cases (lookup id s.jobs)) [
  | inl missing ↦ rw (missing, logs) refl
  | inr (j, found) ↦ rw (found, logs) (insert-other id k _ s.jobs n)
]

cleanup-other :
    (sys : Sys) (s : JobSupervisor) (id k : Text) (t : JobSupervisor) (e : Option Error)
    → IsKeyed s
    → id ≢ k
    → cleanup sys s id ≡ returns (t, e)
    → lookup k t.jobs ≡ lookup k s.jobs
unfolding cleanup find
cleanup-other sys s id k t e keyed n h = elim (Option-cases (lookup id s.jobs)) [
  | inl missing ↦ ground arith
  | inr (j, found) ↦ go j found (Api.cleanup sys j) refl
]
  where
    go :
        (j : Job)
        → lookup id s.jobs ≡ some j
        → (r : Outcome (Job × Option Job.Error)) → Api.cleanup sys j ≡ r
        → lookup k t.jobs ≡ lookup k s.jobs
    go j found (returns (m, x)) q = ground (
      arith,
      put_back-other (update s id m) k m x,
      insert-other id k m s.jobs n,
      cleanup-id sys j m x q,
      keyed id j found,
    )
    go j found blocks q = ground arith
    go j found panics q = ground arith

-- The calls about one job leave every other entry alone: a Stop, Logs, Remove or Cleanup of `id`
-- changes no entry but that of `id`, whatever it returns.
pub other_entries :
    (sys : Sys) (s : JobSupervisor) (id k : Text) (graceful : Bool)
    → IsKeyed s
    → id ≢ k
    → (lookup k (stop sys s id graceful).0.jobs ≡ lookup k s.jobs)
      × (lookup k (logs sys s id).0.jobs ≡ lookup k s.jobs)
      × ((t : JobSupervisor) (e : Option Error)
          → remove sys s id ≡ returns (t, e)
          → lookup k t.jobs ≡ lookup k s.jobs)
      × ((t : JobSupervisor) (e : Option Error)
          → cleanup sys s id ≡ returns (t, e)
          → lookup k t.jobs ≡ lookup k s.jobs)
other_entries sys s id k graceful keyed n = (
  stop-other sys s id k graceful n,
  logs-other sys s id k n,
  λ t e h. remove-other sys s id k t e keyed n h,
  λ t e h. cleanup-other sys s id k t e keyed n h,
)
