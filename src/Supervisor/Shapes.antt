-- ===== src/Supervisor/Shapes.antt =====
-- The table after each call, as one change of one entry.
use jobs.Prelude.{
  Text, ℕ, lookup, insert, delete, Bool, true, false, Option, none, some, ◌≡◌, ◌≢◌, ◌⊎◌, inl, inr,
  refl, arith, Option-cases, Bool-cases,
}
use jobs.Job.{Job, Sys, returns, blocks, panics, Outcome}
use jobs.Job
use jobs.Job.Api
use jobs.Supervisor.{JobSupervisor, Error, stop, logs, remove, update}

-- Nothing is changed, or the job of one entry, which keeps its id.
abbrev pub Updates : Text → JobSupervisor → JobSupervisor → Type 0
Updates id s t =
    (t ≡ s) ⊎ ((j k : Job) × (lookup id s.jobs ≡ some j) × (k.id ≡ j.id) × (t ≡ update s id k))

stop-id : (sys : Sys) (j : Job) → (Api.stop sys j).0.id ≡ j.id
unfolding Api.stop
stop-id sys j = ground arith

init_stop-id : (sys : Sys) (j : Job) (to : ℕ) → (Api.init_stop sys j to).0.id ≡ j.id
unfolding Api.init_stop
init_stop-id sys j to = ground arith

logs-id : (sys : Sys) (j : Job) → (Api.logs sys j).0.id ≡ j.id
unfolding Api.logs
logs-id sys j = ground arith

pub stop-Updates :
    (sys : Sys) (s : JobSupervisor) (id : Text) (graceful : Bool)
    → Updates id s (stop sys s id graceful).0
unfolding stop
stop-Updates sys s id true = elim (Option-cases (lookup id s.jobs)) [
  | inl missing ↦ inl (rw (missing, stop) refl)
  | inr (j, found) ↦ inr (
    j,
    (Api.init_stop sys j 30_000_000_000).0,
    found,
    init_stop-id sys j _,
    rw (found, stop) refl,
  )
]
stop-Updates sys s id false = elim (Option-cases (lookup id s.jobs)) [
  | inl missing ↦ inl (rw (missing, stop) refl)
  | inr (j, found) ↦ inr (j, (Api.stop sys j).0, found, stop-id sys j, rw (found, stop) refl)
]

pub logs-Updates : (sys : Sys) (s : JobSupervisor) (id : Text) → Updates id s (logs sys s id).0
unfolding logs
logs-Updates sys s id = elim (Option-cases (lookup id s.jobs)) [
  | inl missing ↦ inl (rw (missing, logs) refl)
  | inr (j, found) ↦ inr (j, (Api.logs sys j).0, found, logs-id sys j, rw (found, logs) refl)
]

-- What a Remove that returned did: it deleted the entry, or changed nothing and failed, or failed
-- and put the entry back, under the id of its job.
abbrev pub Removes : Text → JobSupervisor → JobSupervisor → Option Error → Type 0
Removes id s t e =
    ((e ≡ none) × (t ≡ record s { jobs = delete id s.jobs }))
    ⊎ ((e ≢ none) × (t ≡ s))
    ⊎ ((e ≢ none)
        × ((j k : Job) × (lookup id s.jobs ≡ some j)
            × (k.id ≡ j.id)
            × (t ≡ record s { jobs = insert k.id k (delete id s.jobs) })))

pub cleanup-id :
    (sys : Sys) (j k : Job) (e : Option Job.Error)
    → Api.cleanup sys j ≡ returns (k, e)
    → k.id ≡ j.id
unfolding Api.cleanup
cleanup-id sys j k e h = ground arith

pub remove-Removes :
    (sys : Sys) (s : JobSupervisor) (id : Text) (t : JobSupervisor) (e : Option Error)
    → remove sys s id ≡ returns (t, e)
    → Removes id s t e
unfolding remove
remove-Removes sys s id t e h = elim (Option-cases (lookup id s.jobs)) [
  | inl missing ↦ inr (inl (ground arith, ground arith))
  | inr (j, found) ↦ elim (Bool-cases (Api.completed j)) [
    | inl c ↦ go j found c (Api.cleanup sys j) refl
    | inr c ↦ inr (inl (ground arith, ground arith))
  ]
]
  where
    go :
        (j : Job)
        → lookup id s.jobs ≡ some j
        → Api.completed j ≡ true
        → (r : Outcome (Job × Option Job.Error)) → Api.cleanup sys j ≡ r
        → Removes id s t e
    go j found c (returns (k, none)) q = inl (ground arith, ground arith)
    go j found c (returns (k, some x)) q =
        inr (inr (ground arith, (j, k, found, cleanup-id sys j k (some x) q, ground arith)))
    go j found c blocks q = ground arith
    go j found c panics q = ground arith
