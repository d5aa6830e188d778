-- ===== src/Goroutines/Alone/Tables.antt =====
-- The table after the end of a Remove.
use jobs.Prelude.{
  Text, text_eq, text_eq_iff, ℕ, false, lookup, insert, delete, lookup-insert, lookup-delete, some,
  ◌≡◌, ◌≢◌, inl, inr, refl, ◌∙◌, arith, Option-cases,
}
use jobs.Acl.{check, full_access}
use jobs.Acl
use jobs.Job.{Job}
use jobs.Job.Threads.{World}
use jobs.Supervisor.{add}
use jobs.Server.{JobServer}
use jobs.Goroutines.{Memory, link}
use jobs.Goroutines.Transfers.{id_of}
use jobs.Goroutines.Alone.{Shows}

abbrev pub without : JobServer → Text → JobServer
without s jid = record s { jobs = record (s.jobs) { jobs = delete jid s.jobs.jobs } }

-- Only the job at the pointer has changed.
pub record Spares (m n : Memory) (p : ℕ) : Type 0 where
  pub auth : n.auth ≡ m.auth
  pub ids : n.ids ≡ m.ids
  pub next : n.next ≡ m.next
  pub others : (x : ℕ) → p ≢ x → n.heap x ≡ m.heap x

module _ {m n : Memory} {s : JobServer} (jid : Text) {p : ℕ} (h : Shows m s)
    (f : lookup jid m.table ≡ some p) (c : Spares m n p) where
  other-entry :
      (k : Text) (x : ℕ)
      → lookup k (delete jid m.table) ≡ some x
      → (p ≢ x) × (n.heap x ≡ m.heap x) × (lookup k m.table ≡ some x) × (text_eq jid k ≡ false)
  other-entry k x g =
      let d : text_eq jid k ≡ false = ground (arith, lookup-delete jid k m.table) in
      let l : lookup k m.table ≡ some x = ground (arith, lookup-delete jid k m.table) in
      let e : p ≢ x = λ q. ground (arith, h.keyed k x, h.keyed jid p, text_eq_iff jid k) in
      (e, c.others x e, l, d)

  pub gone-Shows : n.table ≡ delete jid m.table → Shows n (without s jid)
  gone-Shows t = record {
    same_auth = c.auth ∙ h.same_auth;
    same_ids = c.ids ∙ h.same_ids;
    same_jobs = λ k. elim (Option-cases (lookup k (delete jid m.table))) [
      | inl none_there ↦
          ground
            (arith, h.same_jobs k, lookup-delete jid k s.jobs.jobs, lookup-delete jid k m.table)
      | inr (x, g) ↦
          ground (arith, h.same_jobs k, lookup-delete jid k s.jobs.jobs, other-entry k x g)
    ];
    unlocked = λ k x g. ground (arith, other-entry k x, h.unlocked k x);
    keyed = λ k x g. ground (arith, other-entry k x, h.keyed k x, c.next);
  }

  back-Shows :
      (k : Job)
      → (n.heap p).job ≡ k
      → k.id ≡ id_of m p
      → (n.heap p).cleaning ≡ false
      → n.table ≡ insert k.id p (delete jid m.table)
      → Shows n (record s { jobs = add (without s jid).jobs k })
  unfolding add
  back-Shows j e i l t = record {
    same_auth = c.auth ∙ h.same_auth;
    same_ids = c.ids ∙ h.same_ids;
    same_jobs = λ k. elim (Option-cases (lookup k (delete jid m.table))) [
      | inl none_there ↦ ground (
        arith,
        h.same_jobs k,
        lookup-insert j.id k j (delete jid s.jobs.jobs),
        lookup-insert j.id k p (delete jid m.table),
        lookup-delete jid k s.jobs.jobs,
        lookup-delete jid k m.table,
      )
      | inr (x, g) ↦ ground (
        arith,
        h.same_jobs k,
        lookup-insert j.id k j (delete jid s.jobs.jobs),
        lookup-insert j.id k p (delete jid m.table),
        lookup-delete jid k s.jobs.jobs,
        other-entry k x g,
      )
    ];
    unlocked = λ k x g.
        ground
          (arith, lookup-insert j.id k p (delete jid m.table), other-entry k x, h.unlocked k x);
    keyed = λ k x g. ground (
      arith,
      lookup-insert j.id k p (delete jid m.table),
      other-entry k x,
      h.keyed k x,
      h.keyed jid p,
      c.next,
      text_eq_iff j.id k,
    );
  }

pub forget-Shows :
    {n : Memory} {t : JobServer} (jid : Text)
    → Shows n t
    → Shows
        (record n { auth = (Acl.remove n.auth jid).0 })
        (record t { auth = (Acl.remove t.auth jid).0 })
forget-Shows jid h = record {
  same_auth = rw (h.same_auth) refl;
  same_ids = h.same_ids;
  same_jobs = h.same_jobs;
  unlocked = h.unlocked;
  keyed = h.keyed;
}

-- The job is put back under its id.
pub linked-Shows :
    {m n : Memory} {s : JobServer} (jid : Text) {p : ℕ} (k : Job) (w : World)
    → Shows m s
    → lookup jid m.table ≡ some p
    → Spares m n p
    → n.heap p ≡ w
    → w.job ≡ k
    → w.cleaning ≡ false
    → k.id ≡ id_of m p
    → n.table ≡ delete jid m.table
    → Shows (link n p) (record s { jobs = add (without s jid).jobs k })
linked-Shows {m} {n} jid {p} k w h f c e j l i t =
    back-Shows jid h f (record { auth = c.auth; ids = c.ids; next = c.next; others = c.others }) k
      (rw e j) i (rw e l) (rw (e, j, t) refl)
