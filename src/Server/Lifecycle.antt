-- ===== src/Server/Lifecycle.antt =====
-- A job from Start to Remove, as its client sees it.
use jobs.Prelude.{
  Text, text, join, text_eq_iff, trim_space, pos, lookup, delete, lookup-insert, lookup-delete,
  List, [], ◌∷◌, true, false, Option, none, some, ◌≡◌, ◌≢◌, inl, inr, refl, ◌∙◌, arith, Bool-cases,
}
use mathlib.Core.Path.{ap₂}
use jobs.Acl.{AccessControl, AccessRequest, contains, check, read_access}
use jobs.Acl
use jobs.Job.{Job, Sys, returns, blocks, panics, Outcome, active}
use jobs.Effects.{System}
use jobs.Supervisor.{JobSupervisor, update, add}
use jobs.Supervisor
use jobs.Supervisor.Shapes.{remove-Removes}
use jobs.Supervisor.Starting.{start_cases, inspect_active}
use jobs.Server.{
  JobServer, Limits, ok, denied, pb_active, has_read_access, has_full_access, from_error,
  after_remove, start, remove, inspect, to_job_limits,
}

-- The server after a Start of `cid` that registered `j`.
abbrev registered : JobServer → Text → Job → JobServer
registered s cid j = record s { jobs = add s.jobs j; auth = (Acl.set_owner s.auth j.id cid).0 }

starts :
    (host : System) (s : JobServer) (cid cmd : Text) (args : List Text) (l : Limits) (jid : Text)
    → (start host s (some cid) cmd args (some l)).1 ≡ ok jid
    → (j : Job) × (start host s (some cid) cmd args (some l) ≡ (registered s cid j, ok j.id))
      × (j.id ≡ host.new_id)
      × (j.handler ≡ active)
      × (j.command ≡ cmd)
      × (j.args ≡ args)
      × (jid ≡ j.id)
unfolding start
starts host s cid cmd args l jid h = elim (start_cases host s.jobs cmd args (to_job_limits l)) [
  | inl (e, q) ↦ absurd (refuted e (rw (q, start) at h))
  | inr (j, q, i, a, c, g) ↦ (j, rw (q, start) refl, i, a, c, g, same (rw (q, start) at h))
]
  where
    same : {a b : Text} → ok a ≡ ok b → b ≡ a
    same p = cc

    refuted : (e : Supervisor.Error) → (from_error e) ≢ ok jid
    refuted e p = ground arith

owner_reads :
    (s : JobServer) (cid : Text) (j : Job)
    → cid ≢ []
    → trim_space cid ≡ cid
    → j.id ≢ []
    → trim_space j.id ≡ j.id
    → has_read_access (registered s cid j) cid j.id ≡ true
unfolding has_read_access check Acl.set_owner
owner_reads s cid j c t n i = ground (
  arith,
  lookup-insert (trim_space j.id) j.id (trim_space cid) s.auth.owners,
  text_eq_iff (trim_space j.id) j.id,
  text_eq_iff (trim_space cid) cid,
  text_eq_iff (trim_space cid) [],
  text_eq_iff (trim_space j.id) [],
)

registered-inspect :
    (s : JobServer) (cid : Text) (j : Job)
    → has_read_access (registered s cid j) cid j.id ≡ true
    → j.handler ≡ active
    → inspect (registered s cid j) (some cid) j.id
      ≡ ok (record {
        command = join (j.command ∷ j.args) (text " ");
        status = pb_active;
        exit_code = pos 0;
      })
unfolding inspect add
registered-inspect s cid j r a = ground (
  arith,
  inspect_active (add s.jobs j) j.id j
      (ground (arith, lookup-insert j.id j.id j s.jobs.jobs, text_eq_iff j.id j.id)) a,
)

-- A client whose id has no blanks at its ends, and is not empty, sees the job that it started: a
-- Start that succeeds answers with the new id, and Inspect with that id tells its client that the
-- job is active, with exit code 0 and its command line.
pub start-inspect :
    (host : System) (s : JobServer) (cid cmd : Text) (args : List Text) (limits : Option Limits)
    (jid : Text)
    → cid ≢ []
    → trim_space cid ≡ cid
    → host.new_id ≢ []
    → trim_space host.new_id ≡ host.new_id
    → (start host s (some cid) cmd args limits).1 ≡ ok jid
    → (jid ≡ host.new_id)
      × (inspect (start host s (some cid) cmd args limits).0 (some cid) jid
          ≡ ok (record {
            command = join (cmd ∷ args) (text " ");
            status = pb_active;
            exit_code = pos 0;
          }))
unfolding start
start-inspect host s cid cmd args none jid c t n i h = cc
start-inspect host s cid cmd args (some l) jid c t n i h =
    let (j, q, new, a, d, g, e) = starts host s cid cmd args l jid h in
    (
      e ∙ new,
      rw (q, e)
          (registered-inspect s cid j (owner_reads s cid j c t (rw new n) (rw new i)) a
            ∙ ap₂
                (λ (x : Text) (y : List Text). ok (record {
                  command = join (x ∷ y) (text " ");
                  status = pb_active;
                  exit_code = pos 0;
                }))
                d g),
    )

registered-lookup :
    (s : JobServer) (cid : Text) (j : Job) → lookup j.id (registered s cid j).jobs.jobs ≡ some j
unfolding add
registered-lookup s cid j =
    ground (arith, lookup-insert j.id j.id j s.jobs.jobs, text_eq_iff j.id j.id)

unowned :
    (s : JobServer) (cid : Text) (j : Job)
    → trim_space cid ≡ []
    → lookup j.id s.auth.owners ≡ none
    → (u : Text)
    → (has_read_access (registered s cid j) u j.id ≡ false)
      × (has_full_access (registered s cid j) u j.id ≡ false)
unfolding has_read_access has_full_access check Acl.set_owner
unowned s cid j b o u = (
  ground (arith, text_eq_iff (trim_space cid) []),
  ground (arith, text_eq_iff (trim_space cid) []),
)

-- A job that a client starts whose id is only blanks, under a new id that has no owner yet, has no
-- owner: Start answers with its id, the job is active, and nobody, superusers included, has any
-- access to it.
pub blank_client_orphans :
    (host : System) (s : JobServer) (cid cmd : Text) (args : List Text) (limits : Option Limits)
    (jid : Text)
    → trim_space cid ≡ []
    → lookup host.new_id s.auth.owners ≡ none
    → (start host s (some cid) cmd args limits).1 ≡ ok jid
    → let t = (start host s (some cid) cmd args limits).0 in
      ((j : Job) × (lookup jid t.jobs.jobs ≡ some j) × (j.handler ≡ active))
      × ((u : Text) → (has_read_access t u jid ≡ false) × (has_full_access t u jid ≡ false))
unfolding start
blank_client_orphans host s cid cmd args none jid b o h = cc
blank_client_orphans host s cid cmd args (some l) jid b o h =
    let (j, q, new, a, d, g, e) = starts host s cid cmd args l jid h in
    rw (q, e)
      ((j, ground (arith, registered-lookup s cid j), a), λ u. unowned s cid j b (rw new o) u)

-- The server without a job and its owner.
abbrev gone : JobServer → Text → JobServer
gone s jid = record s {
  jobs = record (s.jobs) { jobs = delete jid s.jobs.jobs };
  auth = (Acl.remove s.auth jid).0;
}

removes :
    (sys : Sys) (s : JobServer) (cid jid : Text)
    → (remove sys s (some cid) jid).1 ≡ ok tt
    → (remove sys s (some cid) jid ≡ (gone s jid, ok tt)) × (has_full_access s cid jid ≡ true)
unfolding remove
removes sys s cid jid h = elim (Bool-cases (has_full_access s cid jid)) [
  | inl full ↦ (
    rw (full, remove) (go (Supervisor.remove sys s.jobs jid) refl (rw (full, remove) at h)),
    full,
  )
  | inr denies ↦ ground arith
]
  where
    go :
        (r : Outcome (JobSupervisor × Option Supervisor.Error))
        → Supervisor.remove sys s.jobs jid ≡ r
        → (after_remove s jid r).1 ≡ ok tt
        → after_remove s jid r ≡ (gone s jid, ok tt)
    go (returns (t, none)) q p = elim (remove-Removes sys s.jobs jid t none q) [
      | inl (_, e) ↦ rw e refl
      | inr (inl (n, e)) ↦ absurd (n refl)
      | inr (inr (n, w)) ↦ absurd (n refl)
    ]
    go (returns (t, some e)) q p = ground arith
    go blocks q p = cc
    go panics q p = cc

gone-access :
    (s : JobServer) (jid u k : Text)
    → jid ≢ k
    → (has_full_access (gone s jid) u k ≡ has_full_access s u k)
      × (has_read_access (gone s jid) u k ≡ has_read_access s u k)
unfolding has_read_access has_full_access check Acl.remove
gone-access s jid u k n = (
  ground (arith, lookup-delete jid k s.auth.owners, text_eq_iff jid k),
  ground (arith, lookup-delete jid k s.auth.owners, text_eq_iff jid k),
)

gone-denied : (s : JobServer) (jid u : Text) → inspect (gone s jid) (some u) jid ≡ denied
unfolding inspect has_read_access check Acl.remove
gone-denied s jid u = ground (arith, lookup-delete jid jid s.auth.owners, text_eq_iff jid jid)

-- A Remove that succeeds takes the job and its owner away: the id is unknown to everybody from then
-- on, and every other job and its access stay.
pub remove_ok :
    (sys : Sys) (s : JobServer) (cid jid : Text)
    → (remove sys s (some cid) jid).1 ≡ ok tt
    → let t = (remove sys s (some cid) jid).0 in
      (lookup jid t.jobs.jobs ≡ none)
      × ((u : Text) → inspect t (some u) jid ≡ denied)
      × ((k : Text)
          → jid ≢ k
          → (lookup k t.jobs.jobs ≡ lookup k s.jobs.jobs)
            × ((u : Text) → has_full_access t u k ≡ has_full_access s u k)
            × ((u : Text) → has_read_access t u k ≡ has_read_access s u k))
remove_ok sys s cid jid h =
    let (q, _) = removes sys s cid jid h in
    rw q (
      ground (arith, lookup-delete jid jid s.jobs.jobs, text_eq_iff jid jid),
      λ u. gone-denied s jid u,
      λ k n. (
        ground (arith, lookup-delete jid k s.jobs.jobs, text_eq_iff jid k),
        λ u. (gone-access s jid u k n).0,
        λ u. (gone-access s jid u k n).1,
      ),
    )
