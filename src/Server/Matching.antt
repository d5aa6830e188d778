-- ===== src/Server/Matching.antt =====
-- The two tables of the server: every job has an owner, and every owner a job.
use jobs.Prelude.{
  Text, text_eq_iff, trim_space, lookup, insert, delete, lookup-insert, lookup-delete, List, [],
  Bool, true, false, Option, none, some, if◌then◌else◌, ◌≡◌, ◌≢◌, ◌↔◌, inl, inr, refl, arith,
  Bool-cases,
}
use jobs.Acl.{AccessControl}
use jobs.Acl
use jobs.Job.{Job, Sys, returns, blocks, panics, Outcome}
use jobs.Effects.{System}
use jobs.Supervisor.{JobSupervisor, update, add}
use jobs.Supervisor
use jobs.Supervisor.Shapes.{Updates, Removes, stop-Updates, logs-Updates, remove-Removes}
use jobs.Supervisor.Table.{IsKeyed}
use jobs.Supervisor.Starting.{start_cases}
use jobs.Server.{
  JobServer, StopMode, Limits, waits, has_read_access, has_full_access, start, stop, remove,
  open_logs, after_remove, is_graceful, to_job_limits,
}

-- Every entry stands under its job's id, and an id has an entry exactly when it has an owner.
pub record Matched (s : JobServer) : Type 0 where
  pub keyed : IsKeyed s.jobs
  pub owned : (id : Text) → (lookup id s.jobs.jobs ≡ none) ↔ (lookup id s.auth.owners ≡ none)

Updates-Matched :
    (s : JobServer) (id : Text) (t : JobSupervisor)
    → Updates id s.jobs t
    → Matched s
    → Matched (record s { jobs = t })
Updates-Matched s id t (inl e) m = rw e m
Updates-Matched s id t (inr (j, k, found, same, e)) m = rw e (record {
  keyed = λ i l h.
      ground (
        arith,
        lookup-insert id i k s.jobs.jobs,
        text_eq_iff id i,
        m.keyed i l,
        m.keyed id j found,
      );
  owned = λ i. (
    λ h. ground (arith, lookup-insert id i k s.jobs.jobs, text_eq_iff id i, m.owned i),
    λ h. ground (arith, lookup-insert id i k s.jobs.jobs, text_eq_iff id i, m.owned i),
  );
})

Matched-if :
    {A : Type 0} (b : Bool) (x y : JobServer × A)
    → Matched x.0
    → Matched y.0
    → Matched (if b then x else y).0
Matched-if true x y p q = p
Matched-if false x y p q = q

pub stop-Matched :
    (sys : Sys) (s : JobServer) (cid : Option Text) (jid : Text) (mode : StopMode)
    → Matched s
    → Matched (stop sys s cid jid mode).0
unfolding stop
stop-Matched sys s none jid mode m = m
stop-Matched sys s (some cid) jid mode m =
    Matched-if (has_full_access s cid jid) _ _
      (Updates-Matched s jid _ (stop-Updates sys s.jobs jid (is_graceful mode)) m) m

pub open_logs-Matched :
    (sys : Sys) (s : JobServer) (cid : Option Text) (jid : Text)
    → Matched s
    → Matched (open_logs sys s cid jid).0
unfolding open_logs
open_logs-Matched sys s none jid m = m
open_logs-Matched sys s (some cid) jid m =
    Matched-if (has_read_access s cid jid) _ _
      (Updates-Matched s jid _ (logs-Updates sys s.jobs jid) m) m

-- An entry and its owner go together.
deleted-Matched :
    (s : JobServer) (id : Text)
    → Matched s
    → Matched (record s {
      jobs = record (s.jobs) { jobs = delete id s.jobs.jobs };
      auth = (Acl.remove s.auth id).0;
    })
unfolding Acl.remove
deleted-Matched s id m = record {
  keyed = λ i l h. ground (arith, lookup-delete id i s.jobs.jobs, text_eq_iff id i, m.keyed i l);
  owned = λ i. (
    λ h. ground (
      arith,
      lookup-delete id i s.jobs.jobs,
      lookup-delete id i s.auth.owners,
      text_eq_iff id i,
      m.owned i,
    ),
    λ h. ground (
      arith,
      lookup-delete id i s.jobs.jobs,
      lookup-delete id i s.auth.owners,
      text_eq_iff id i,
      m.owned i,
      m.owned id,
    ),
  );
}

returned-Matched :
    (s : JobServer) (id : Text) (j k : Job)
    → lookup id s.jobs.jobs ≡ some j
    → k.id ≡ j.id
    → Matched s
    → Matched (record s { jobs = record (s.jobs) { jobs = insert k.id k (delete id s.jobs.jobs) } })
returned-Matched s id j k found same m = record {
  keyed = λ i l h. ground (
    arith,
    lookup-insert k.id i k (delete id s.jobs.jobs),
    lookup-delete id i s.jobs.jobs,
    text_eq_iff id i,
    text_eq_iff k.id i,
    m.keyed i l,
  );
  owned = λ i. (
    λ h. ground (
      arith,
      lookup-insert k.id i k (delete id s.jobs.jobs),
      lookup-delete id i s.jobs.jobs,
      text_eq_iff id i,
      text_eq_iff k.id i,
      m.owned i,
      m.keyed id j found,
    ),
    λ h. ground (
      arith,
      lookup-insert k.id i k (delete id s.jobs.jobs),
      lookup-delete id i s.jobs.jobs,
      text_eq_iff id i,
      text_eq_iff k.id i,
      m.owned i,
      m.keyed id j found,
    ),
  );
}

removed-Matched :
    (s : JobServer) (id : Text) (t : JobSupervisor) (e : Option Supervisor.Error)
    → Matched s
    → Removes id s.jobs t e
    → Matched (after_remove s id (returns (t, e))).0
removed-Matched s id t none m (inl (_, e)) = rw e (deleted-Matched s id m)
removed-Matched s id t (some x) m (inl (n, e)) = cc
removed-Matched s id t none m (inr (inl (n, e))) = absurd (n refl)
removed-Matched s id t (some x) m (inr (inl (n, e))) = rw e m
removed-Matched s id t none m (inr (inr (n, w))) = absurd (n refl)
removed-Matched s id t (some x) m (inr (inr (n, (j, k, found, same, e)))) =
    rw e (returned-Matched s id j k found same m)

pub remove-Matched :
    (sys : Sys) (s : JobServer) (cid : Option Text) (jid : Text)
    → (remove sys s cid jid).1 ≢ waits
    → Matched s
    → Matched (remove sys s cid jid).0
unfolding remove
remove-Matched sys s none jid w m = m
remove-Matched sys s (some cid) jid w m = elim (Bool-cases (has_full_access s cid jid)) [
  | inl full ↦ full_access full
  | inr denies ↦ rw (denies, remove) m
]
  where
    go :
        has_full_access s cid jid ≡ true
        → (r : Outcome (JobSupervisor × Option Supervisor.Error))
        → Supervisor.remove sys s.jobs jid ≡ r
        → Matched (after_remove s jid r).0
    go full (returns (t, e)) q = removed-Matched s jid t e m (remove-Removes sys s.jobs jid t e q)
    go full blocks q = absurd (w (rw (full, q, remove) refl))
    go full panics q = m

    full_access : has_full_access s cid jid ≡ true → Matched (remove sys s (some cid) jid).0
    full_access full = rw (full, remove) (go full (Supervisor.remove sys s.jobs jid) refl)

add-Matched :
    (s : JobServer) (j : Job) (c : Text)
    → trim_space c ≢ []
    → trim_space j.id ≡ j.id
    → j.id ≢ []
    → Matched s
    → Matched (record s { jobs = add s.jobs j; auth = (Acl.set_owner s.auth j.id c).0 })
unfolding add Acl.set_owner
add-Matched s j c b t n m = record {
  keyed =
      λ i l h. ground (arith, lookup-insert j.id i j s.jobs.jobs, text_eq_iff j.id i, m.keyed i l);
  owned = λ i. (
    λ h. ground (
      arith,
      lookup-insert j.id i j s.jobs.jobs,
      lookup-insert j.id i (trim_space c) s.auth.owners,
      text_eq_iff j.id i,
      text_eq_iff (trim_space c) [],
      text_eq_iff (trim_space j.id) [],
      m.owned i,
    ),
    λ h. ground (
      arith,
      lookup-insert j.id i j s.jobs.jobs,
      lookup-insert j.id i (trim_space c) s.auth.owners,
      text_eq_iff j.id i,
      text_eq_iff (trim_space c) [],
      text_eq_iff (trim_space j.id) [],
      m.owned i,
    ),
  );
}

pub start-Matched :
    (host : System) (s : JobServer) (c : Text) (cmd : Text) (args : List Text)
    (limits : Option Limits)
    → trim_space c ≢ []
    → trim_space host.new_id ≡ host.new_id
    → host.new_id ≢ []
    → Matched s
    → Matched (start host s (some c) cmd args limits).0
unfolding start
start-Matched host s c cmd args none b t n m = m
start-Matched host s c cmd args (some l) b t n m =
    elim (start_cases host s.jobs cmd args (to_job_limits l)) [
      | inl (e, q) ↦ rw q m
      | inr (j, q, i, _, _, _) ↦ rw q (add-Matched s j c b (rw i t) (rw i n) m)
    ]
