-- ===== src/Goroutines/Alone/Removing.antt =====
-- A Remove that is not interrupted, and waits for no reader.
use jobs.Prelude.{
  Text, ℕ, ==_iff, true, false, lookup, delete, Option, none, some, ◌≡◌, ◌≢◌, ◌⊎◌, inl, inr, refl,
  ap, arith, Bool-cases, Option-cases,
}
use jobs.Acl.{check, full_access}
use jobs.Job.{Job, Sys, Outcome, returns, blocks, panics, zombie}
use jobs.Job
use jobs.Job.Api
use jobs.Job.Threads.{World, end_cleanup, is_zombie, step}
use jobs.Supervisor.{JobSupervisor, add}
use jobs.Supervisor
use jobs.Supervisor.Shapes.{cleanup-id}
use jobs.Server.{JobServer, Reply, waits, panicked, has_full_access, after_remove, remove}
use jobs.Goroutines.{Memory, to_remove, Pc, idle, put, at, Move}
use jobs.Goroutines.Transfers.{id_of}
use jobs.Goroutines.Alone.{Moves, goes, Shows, Ends, checked, missing-Ends}
use jobs.Goroutines.Alone.Tables.{without, Spares, gone-Shows, forget-Shows, linked-Shows}
use jobs.Goroutines.Alone.Finding.{
  cleaning-begins, cleaning-ends, zombie-refuses, finds_none, finds_running, finds_cleaned,
  finds_failing, finds_waiting, remove-refused, remove-returns,
}

-- The reply of a Remove that has come to its end.
abbrev pub HasEnded : JobServer × Reply (Unit {0}) → Type 0
HasEnded r = (r.1 ≢ waits) × (r.1 ≢ panicked)

put-here : {A : Type 0} (f : ℕ → A) (i : ℕ) (a : A) → put f i a i ≡ a
put-here f i a = ground arith

module _ (sys : Sys) {m : Memory} {s : JobServer} (h : Shows m s) (cid jid : Text) (p : ℕ)
    (may : has_full_access s cid jid ≡ true) (f : lookup jid m.table ≡ some p)
    (d : Api.completed (m.heap p).job ≡ true) where
  cut : Memory
  cut = record m { table = delete jid m.table }

  here : lookup jid s.jobs.jobs ≡ some ((m.heap p).job)
  here = rw (h.same_jobs jid, f) refl

  locked : World
  locked = record (m.heap p) { cleaning = true }

  after : Job → World
  after k = record (m.heap p) { job = k; cleaning = false }

  to_unlinked : Moves m idle cut (Pc.unlinked p jid)
  unfolding has_full_access cut
  to_unlinked =
      goes (checked sys h cid (to_remove jid) may) (Move.unlink p f (h.unlocked jid p f) d)

  to_begun :
      is_zombie (m.heap p).job.handler ≡ false → Moves m idle (at cut p locked) (Pc.cleaning p jid)
  unfolding cut locked
  to_begun z =
      goes to_unlinked (Move.begin sys (cleaning-begins sys (m.heap p) (h.unlocked jid p f) z) refl)

  module _ (k : Job) (x : Option Job.Error)
      (c : Api.cleanup sys (m.heap p).job ≡ returns (k, x)) where
    ends_step : step sys ((at cut p locked).heap p) end_cleanup ≡ returns (after k)
    unfolding cut locked after
    ends_step = rw (put-here m.heap p locked) (cleaning-ends sys (m.heap p) k x c)

    ends_job : Api.cleanup sys ((at cut p locked).heap p).job ≡ returns (k, x)
    unfolding cut locked
    ends_job = rw (put-here m.heap p locked) c

    k-id : k.id ≡ id_of m p
    k-id = cleanup-id sys (m.heap p).job k x c

  twice-Spares : (k : Job) → Spares m (at (at cut p locked) p (after k)) p
  unfolding cut
  twice-Spares k = record {
    auth = refl;
    ids = refl;
    next = refl;
    others = λ y n. ground (arith, ==_iff p y);
  }

  once-Spares : (k : Job) → Spares m (at cut p (after k)) p
  unfolding cut
  once-Spares k = record {
    auth = refl;
    ids = refl;
    next = refl;
    others = λ y n. ground (arith, ==_iff p y);
  }

  removed-Ends :
      (k : Job)
      → is_zombie (m.heap p).job.handler ≡ false
      → Api.cleanup sys (m.heap p).job ≡ returns (k, none)
      → Ends m (after_remove s jid (returns ((without s jid).jobs, none))).0
  unfolding cut
  removed-Ends k z c = (
    _,
    goes
        (goes (to_begun z)
          (Move.finish {w = after k} {k = k} sys (ends_step k none c) (ends_job k none c)))
        Move.forget,
    forget-Shows jid (gone-Shows jid h f (twice-Spares k) refl),
  )

  failed-Ends :
      (k : Job) (x : Job.Error)
      → is_zombie (m.heap p).job.handler ≡ false
      → Api.cleanup sys (m.heap p).job ≡ returns (k, some x)
      → Ends m (record s { jobs = add (without s jid).jobs k })
  unfolding cut after
  failed-Ends k x z c = (
    _,
    goes
        (goes (to_begun z) (
          Move.fail {w = after k} {k = k} {e = x} sys (ends_step k (some x) c)
            (ends_job k (some x) c)))
        Move.put_back,
    linked-Shows jid k (after k) h f (twice-Spares k) (put-here (at cut p locked).heap p (after k))
        refl refl (k-id k (some x) c) refl,
  )

  refused-Ends :
      (k : Job) (x : Job.Error)
      → is_zombie (m.heap p).job.handler ≡ true
      → Api.cleanup sys (m.heap p).job ≡ returns (k, some x)
      → Ends m (record s { jobs = add (without s jid).jobs k })
  unfolding cut after
  refused-Ends k x z c = (
    _,
    goes
        (goes to_unlinked (
          Move.begin_removed {w = after k} sys
            (zombie-refuses sys (m.heap p) k (some x) (h.unlocked jid p f) z c).0 refl))
        Move.put_back,
    linked-Shows jid k (after k) h f (once-Spares k) (put-here m.heap p (after k)) refl refl
        (k-id k (some x) c) refl,
  )

  -- Where the Cleanup returns.
  cleaned-Ends :
      (k : Job) (x : Option Job.Error)
      → Api.cleanup sys (m.heap p).job ≡ returns (k, x)
      → Ends m (remove sys s (some cid) jid).0
  cleaned-Ends k none c = elim (Bool-cases (is_zombie (m.heap p).job.handler)) [
    | inl z ↦ absurd ((zombie-refuses sys (m.heap p) k none (h.unlocked jid p f) z c).1 refl)
    | inr z ↦
        rw
          (remove-returns sys s cid jid (returns ((without s jid).jobs, none)) may
            (finds_cleaned sys s.jobs jid (m.heap p).job here k d c))
          (removed-Ends k z c)
  ]
  cleaned-Ends k (some x) c =
      let ended : Ends m (record s { jobs = add (without s jid).jobs k }) =
        elim (Bool-cases (is_zombie (m.heap p).job.handler)) [
          | inl z ↦ refused-Ends k x z c
          | inr z ↦ failed-Ends k x z c
        ] in
      rw
        (remove-returns sys s cid jid
          (returns (add (without s jid).jobs k, some (Supervisor.job_error x))) may
          (finds_failing sys s.jobs jid (m.heap p).job here k x d c))
        ended

  unended :
      (Supervisor.remove sys s.jobs jid ≡ blocks) ⊎ (Supervisor.remove sys s.jobs jid ≡ panics)
      → HasEnded (remove sys s (some cid) jid)
      → ⊥
  unended (inl b) e = e.0 (ap (λ r. r.1) (remove-returns sys s cid jid blocks may b))
  unended (inr b) e = e.1 (ap (λ r. r.1) (remove-returns sys s cid jid panics may b))

  completed-Ends :
      (r : Outcome (Job × Option Job.Error))
      → Api.cleanup sys (m.heap p).job ≡ r
      → HasEnded (remove sys s (some cid) jid)
      → Ends m (remove sys s (some cid) jid).0
  completed-Ends (returns (k, x)) c e = cleaned-Ends k x c
  completed-Ends blocks c e =
      absurd (unended (finds_waiting sys s.jobs jid (m.heap p).job here blocks d c (inl refl)) e)
  completed-Ends panics c e =
      absurd (unended (finds_waiting sys s.jobs jid (m.heap p).job here panics d c (inr refl)) e)

pub remove-Ends :
    (sys : Sys) {m : Memory} {s : JobServer}
    → Shows m s
    → (cid jid : Text) → HasEnded (remove sys s (some cid) jid)
    → Ends m (remove sys s (some cid) jid).0
remove-Ends sys {m} {s} h cid jid e = elim (Bool-cases (has_full_access s cid jid)) [
  | inr refused ↦ rw (remove-refused sys s cid jid refused) (m, Moves.stays, h)
  | inl may ↦ elim (Option-cases (lookup jid m.table)) [
    | inl gone ↦
        rw
          (remove-returns sys s cid jid _ may
            (finds_none sys s.jobs jid (rw (h.same_jobs jid, gone) refl)))
          (missing-Ends sys h cid (to_remove jid) (full_checked may) gone)
    | inr (p, f) ↦ elim (Bool-cases (Api.completed (m.heap p).job)) [
      | inl d ↦ completed-Ends sys h cid jid p may f d (Api.cleanup sys (m.heap p).job) refl e
      | inr d ↦
          rw
            (remove-returns sys s cid jid _ may
              (finds_running sys s.jobs jid (m.heap p).job (rw (h.same_jobs jid, f) refl) d))
            (
              m,
              goes (checked sys h cid (to_remove jid) (full_checked may))
                  (Move.refuse p f (h.unlocked jid p f) d),
              h,
            )
    ]
  ]
]
  where
    full_checked :
        has_full_access s cid jid ≡ true
        → check s.auth (record { subject = cid; object = jid; action = full_access }) ≡ true
    full_checked may = unfold has_full_access in may
