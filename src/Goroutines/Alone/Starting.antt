-- ===== src/Goroutines/Alone/Starting.antt =====
-- A Start that is not interrupted.
use jobs.Prelude.{
  Text, text_eq_iff, ℕ, ==_iff, lookup, lookup-insert, List, [], Option, none, some, ◌≡◌, inl, inr,
  refl, arith, Option-cases,
}
use jobs.Acl
use jobs.Effects.{System}
use jobs.Effects
use jobs.Job.{Job, ExecLimits}
use jobs.Supervisor.{JobSupervisor, create_job, add}
use jobs.Supervisor
use jobs.Server.{JobServer, Limits, to_job_limits, start}
use jobs.Goroutines.{Memory, put, allocate, link, Move}
use jobs.Goroutines.Transfers.{id_of}
use jobs.Goroutines.Alone.{Moves, Shows, Ends}

put-here : {A : Type 0} (f : ℕ → A) (i : ℕ) (a : A) → put f i a i ≡ a
put-here f i a = ground arith

abbrev owned : Memory → Job → Text → Memory
owned m j cid =
    let n = link (allocate m j) m.next in
    record n { auth = (Acl.set_owner n.auth (n.heap m.next).job.id cid).0 }

new_id : (m : Memory) (j : Job) → id_of (allocate m j) m.next ≡ j.id
new_id m j = ground arith

owned-Shows :
    (m : Memory) (s : JobServer) (j : Job) (cid : Text)
    → Shows m s
    → Shows
        (owned m j cid)
        (record s { jobs = add s.jobs j; auth = (Acl.set_owner s.auth j.id cid).0 })
unfolding add
owned-Shows m s j cid h = record {
  same_auth = rw (h.same_auth, new_id m j) refl;
  same_ids = h.same_ids;
  same_jobs = λ k. elim (Option-cases (lookup k m.table)) [
    | inl gone ↦ ground (
      arith,
      h.same_jobs k,
      lookup-insert j.id k j s.jobs.jobs,
      lookup-insert (id_of (allocate m j) m.next) k m.next m.table,
      text_eq_iff j.id k,
    )
    | inr (x, g) ↦ ground (
      arith,
      h.same_jobs k,
      lookup-insert j.id k j s.jobs.jobs,
      lookup-insert (id_of (allocate m j) m.next) k m.next m.table,
      text_eq_iff j.id k,
      ==_iff m.next x,
      h.keyed k x,
    )
  ];
  unlocked = λ k x g. ground (
    arith,
    lookup-insert (id_of (allocate m j) m.next) k m.next m.table,
    ==_iff m.next x,
    h.unlocked k x,
    h.keyed k x,
  );
  keyed = λ k x g. ground (
    arith,
    lookup-insert (id_of (allocate m j) m.next) k m.next m.table,
    ==_iff m.next x,
    h.keyed k x,
    text_eq_iff j.id k,
  );
}

added :
    (sys : System) (s : JobSupervisor) (cmd : Text) (args : List Text) (limits : ExecLimits)
    (j : Job)
    → (create_job cmd args limits s.ids sys []).0 ≡ Effects.ok j
    → Supervisor.start sys s cmd args limits ≡ (add s j, Supervisor.ok j.id)
unfolding Supervisor.start
added sys s cmd args limits j e = rw (e, Supervisor.start) refl

not_added :
    (sys : System) (s : JobSupervisor) (cmd : Text) (args : List Text) (limits : ExecLimits)
    (f : Effects.Failure)
    → (create_job cmd args limits s.ids sys []).0 ≡ Effects.err f
    → Supervisor.start sys s cmd args limits ≡ (s, Supervisor.err (Supervisor.create_error f))
unfolding Supervisor.start
not_added sys s cmd args limits f e = rw (e, Supervisor.start) refl

module _ (host : System) {m : Memory} {s : JobServer} (h : Shows m s) (cid cmd : Text)
    (args : List Text) where
  start-made :
      (l : Limits) (j : Job)
      → (create_job cmd args (to_job_limits l) s.jobs.ids host []).0 ≡ Effects.ok j
      → (start host s (some cid) cmd args (some l)).0
        ≡ record s { jobs = add s.jobs j; auth = (Acl.set_owner s.auth j.id cid).0 }
  unfolding start
  start-made l j e = rw (added host s.jobs cmd args (to_job_limits l) j e) refl

  start-failed :
      (l : Limits) (f : Effects.Failure)
      → (create_job cmd args (to_job_limits l) s.jobs.ids host []).0 ≡ Effects.err f
      → (start host s (some cid) cmd args (some l)).0 ≡ s
  unfolding start
  start-failed l f e = rw (not_added host s.jobs cmd args (to_job_limits l) f e) refl

  made_cases :
      (l : Limits) (r : Effects.Result Job)
      → (create_job cmd args (to_job_limits l) s.jobs.ids host []).0 ≡ r
      → Ends m (start host s (some cid) cmd args (some l)).0
  made_cases l (Effects.err f) e = rw (start-failed l f e) (m, Moves.stays, h)
  made_cases l (Effects.ok j) e = rw (start-made l j e) (
    owned m j cid,
    Moves.goes
        (Moves.goes
          (Moves.goes Moves.stays
            (Move.create host cid cmd args (to_job_limits l) j (rw h.same_ids e)))
          Move.register)
        Move.own,
    owned-Shows m s j cid h,
  )

  pub start-Ends : (l : Option Limits) → Ends m (start host s (some cid) cmd args l).0
  unfolding start
  start-Ends none = (m, Moves.stays, h)
  start-Ends (some l) =
      made_cases l (create_job cmd args (to_job_limits l) s.jobs.ids host []).0 refl
