-- ===== src/Goroutines/Deeds.antt =====
-- What a move does with the ids: of the jobs that are being started or removed, of the table, and of
-- the access table.
pub mod Moves
use jobs.Prelude.{
  Text, text_eq, text_eq_iff, Assoc, ℕ, suc, ◌==◌, ==_iff, ◌<◌, ◌≤◌, Bool, true, false, lookup,
  insert, delete, lookup-insert, lookup-delete, trim_space, Option, none, some, if◌then◌else◌, ◌≡◌,
  ◌≢◌, ◌⊎◌, inl, inr, refl, sym, ◌∙◌, arith, Bool-cases, Option-cases,
}
use jobs.Acl.{AccessControl, AccessRequest, check}
use jobs.Acl
use jobs.Job.Threads.{begin_cleanup, end_cleanup, call_logs}
use jobs.Goroutines.{
  Memory, Op, op_id, op_access, Pc, idle, created, registered, granted, unlinked, cleaning, failed,
  cleaned, put, at, link, stop_action, Move, create, register, own, grant, missing, stop, open_logs,
  inspect, refuse, unlink, begin, begin_removed, finish, fail, put_back, forget,
}
use jobs.Goroutines.Transfers.{id_of, put-id, step-id}

-- The job of a Start that has not ended; and where it is in the table already.
abbrev pub newborn : Pc → Option ℕ
newborn (created x cid) = some x
newborn (registered x cid) = some x
newborn _ = none

abbrev pub linked : Pc → Option ℕ
linked (registered x cid) = some x
linked _ = none

-- The id that a call is about which has passed the check; that of a Remove in its Cleanup is also
-- the id of the job that it holds.
abbrev pub named : Pc → Option Text
named (granted o) = some (op_id o)
named (unlinked x id) = some id
named (cleaning x id) = some id
named _ = none

abbrev pub IsPointed : Memory → Pc → Type 0
IsPointed m (unlinked x id) = id_of m x ≡ id
IsPointed m (cleaning x id) = id_of m x ≡ id
IsPointed m _ = Unit

-- The id of a job that a Remove has taken out of the table.
abbrev pub leaving : Memory → Pc → Option Text
leaving m (unlinked x id) = some (id_of m x)
leaving m (cleaning x id) = some (id_of m x)
leaving m (failed x) = some (id_of m x)
leaving m (cleaned id) = some id
leaving m _ = none

pub record Deed (m : Memory) (p : Pc) (n : Memory) (q : Pc) : Type 0 where
  pub grows : m.next ≤ n.next
  pub ids : (x : ℕ) → x < m.next → id_of n x ≡ id_of m x
  pub owners_from :
      (k : Text)
      → lookup k n.auth.owners ≢ none
      → (lookup k m.auth.owners ≢ none)
        ⊎ ((x : ℕ) × (linked p ≡ some x)
            × (newborn p ≡ some x)
            × (id_of m x ≡ k)
            × (newborn q ≡ none))
  pub named_from :
      (k : Text) → named q ≡ some k → (named p ≡ some k) ⊎ (lookup k m.auth.owners ≢ none)
  pub newborn_from :
      (x : ℕ)
      → newborn q ≡ some x
      → (named q ≡ none) × ((newborn p ≡ some x) ⊎ ((x ≡ m.next) × (n.next ≡ suc m.next)))
  pub linked_from : (x : ℕ) → linked q ≡ some x → lookup (id_of n x) n.table ≢ none
  pub table_from :
      (k : Text)
      → lookup k m.table ≢ none
      → (lookup k n.table ≢ none) ⊎ ((named p ≡ some k) × (leaving n q ≡ some k))
  pub leaving_from :
      (k : Text)
      → leaving m p ≡ some k
      → (leaving n q ≡ some k) ⊎ ((lookup k n.table ≢ none) ⊎ (lookup k n.auth.owners ≡ none))
  pub points : IsPointed n q

-- A move that leaves both tables as they are, and does not start a job.
pub calm :
    {m n : Memory} {p q : Pc}
    → ((x : ℕ) → id_of n x ≡ id_of m x)
    → (n.next ≡ m.next) × (n.table ≡ m.table) × (n.auth ≡ m.auth)
    → newborn q ≡ none
    → linked q ≡ none
    → ((k : Text) → named q ≡ some k → (named p ≡ some k) ⊎ (lookup k m.auth.owners ≢ none))
    → ((k : Text) → leaving m p ≡ some k → leaving n q ≡ some k)
    → IsPointed n q
    → Deed m p n q
calm ids (e, t, a) b l g v c = record {
  grows = omega arith;
  ids = λ x _. ids x;
  owners_from = λ k h. inl (rw a at h);
  named_from = g;
  newborn_from = λ x h. absurd (ground arith);
  linked_from = λ x h. absurd (ground arith);
  table_from = λ k h. inl (rw t h);
  leaving_from = λ k h. inl (v k h);
  points = c;
}

-- A check that passes has found an owner.
pub checked-owned :
    (c : AccessControl) (r : AccessRequest) → check c r ≡ true → lookup r.object c.owners ≢ none
unfolding check
checked-owned c r h e = ground arith
