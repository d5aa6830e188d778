-- ===== src/Goroutines/Deeds/Moves.antt =====
-- The deed of each move of a handler.
use jobs.Prelude.{
  Text, text_eq, text_eq_iff, Assoc, ℕ, lookup, insert, delete, lookup-insert, lookup-delete,
  trim_space, none, some, ◌≡◌, ◌≢◌, ◌⊎◌, inl, inr, refl, ◌∙◌, arith, Bool-cases,
}
use jobs.Acl.{AccessControl, AccessRequest, check}
use jobs.Acl
use jobs.Job.Threads.{begin_cleanup, end_cleanup, call_logs}
use jobs.Goroutines.{
  Memory, op_id, op_access, Pc, stop_action, Move, create, register, own, grant, missing, stop,
  open_logs, inspect, refuse, unlink, begin, begin_removed, finish, fail, put_back, forget,
}
use jobs.Goroutines.Transfers.{id_of, put-id, step-id}
use jobs.Goroutines.Deeds.{linked, IsPointed, Deed, calm, checked-owned}

insert-kept :
    (j k : Text) (x : ℕ) (t : Assoc ℕ) → lookup k t ≢ none → lookup k (insert j x t) ≢ none
insert-kept j k x t h e = ground (arith, lookup-insert j k x t)

unlinked-kept :
    (id k : Text) (x : ℕ) (t : Assoc ℕ) {i : Text}
    → i ≡ id
    → lookup k t ≢ none
    → (lookup k (delete id t) ≢ none) ⊎ ((some id ≡ some k) × (some i ≡ some k))
unlinked-kept id k x t e h = elim (Bool-cases (text_eq id k)) [
  | inl same ↦ inr (ground (arith, text_eq_iff id k), ground (arith, text_eq_iff id k))
  | inr other ↦ inl (λ f. ground (arith, lookup-delete id k t, text_eq_iff id k))
]

removed-kept :
    (c : AccessControl) (o k : Text)
    → lookup k (Acl.remove c o).0.owners ≢ none
    → lookup k c.owners ≢ none
unfolding Acl.remove
removed-kept c o k h e = ground (arith, lookup-delete o k c.owners)

removed-gone : (c : AccessControl) (o k : Text) → o ≡ k → lookup k (Acl.remove c o).0.owners ≡ none
unfolding Acl.remove
removed-gone c o k e = ground (arith, lookup-delete o k c.owners, text_eq_iff o k)

owners-set :
    (c : AccessControl) (o u k : Text)
    → trim_space o ≡ o
    → lookup k (Acl.set_owner c o u).0.owners ≢ none
    → (lookup k c.owners ≢ none) ⊎ (o ≡ k)
unfolding Acl.set_owner
owners-set c o u k e h = elim (Bool-cases (text_eq o k)) [
  | inl same ↦ inr ((text_eq_iff o k).0 same)
  | inr other ↦ inl (λ f. ground (arith, lookup-insert (trim_space o) k (trim_space u) c.owners))
]

-- The deed of every move, where the table's entries have their jobs' ids and the id of a job that is
-- to get an owner has no blanks at its ends.
pub Move-Deed :
    {m n : Memory} {p q : Pc}
    → ((id : Text) (x : ℕ) → lookup id m.table ≡ some x → id_of m x ≡ id)
    → ((x : ℕ) → linked p ≡ some x → trim_space (id_of m x) ≡ id_of m x)
    → IsPointed m p
    → Move m p n q
    → Deed m p n q
Move-Deed {m} keyed trims at_it (create sys cid cmd args limits j h) = record {
  grows = omega arith;
  ids = λ x b. ground arith;
  owners_from = λ k h. inl h;
  named_from = λ k h. absurd (ground arith);
  newborn_from = λ x h. (refl, inr (ground arith, refl));
  linked_from = λ x h. absurd (ground arith);
  table_from = λ k h. inl h;
  leaving_from = λ k h. absurd (ground arith);
  points = tt;
}
Move-Deed {m} keyed trims at_it (register {p = x}) = record {
  grows = omega arith;
  ids = λ x b. refl;
  owners_from = λ k h. inl h;
  named_from = λ k h. absurd (ground arith);
  newborn_from = λ x h. (refl, inl h);
  linked_from = λ y h.
      ground (
        arith,
        lookup-insert (id_of m x) (id_of m x) x m.table,
        text_eq_iff (id_of m x) (id_of m x),
      );
  table_from = λ k h. inl (insert-kept (id_of m x) k x m.table h);
  leaving_from = λ k h. absurd (ground arith);
  points = tt;
}
Move-Deed {m} keyed trims at_it (own {p = x} {cid = cid}) = record {
  grows = omega arith;
  ids = λ x b. refl;
  owners_from = λ k h. elim (owners-set m.auth (id_of m x) cid k (trims x refl) h) [
    | inl old ↦ inl old
    | inr e ↦ inr (x, refl, refl, e, refl)
  ];
  named_from = λ k h. absurd (ground arith);
  newborn_from = λ x h. absurd (ground arith);
  linked_from = λ y h. absurd (ground arith);
  table_from = λ k h. inl h;
  leaving_from = λ k h. absurd (ground arith);
  points = tt;
}
Move-Deed {m} keyed trims at_it (grant cid op h) =
    calm (λ x. refl) (refl, refl, refl) refl refl
      (λ k e. inr ground (
        arith,
        checked-owned m.auth (record { subject = cid; object = op_id op; action = op_access op }) h,
      ))
      (λ k e. absurd (ground arith)) tt
Move-Deed {m} keyed trims at_it (missing h) =
    calm (λ x. refl) (refl, refl, refl) refl refl (λ k e. absurd (ground arith))
      (λ k e. absurd (ground arith)) tt
Move-Deed {m} keyed trims at_it (stop {graceful = g} {w = w} sys x f h) =
    calm (put-id m x w (step-id sys (m.heap x) (stop_action g) w h)) (refl, refl, refl) refl refl
      (λ k e. absurd (ground arith)) (λ k e. absurd (ground arith)) tt
Move-Deed {m} keyed trims at_it (open_logs {follow = g} {w = w} sys x f h) =
    calm (put-id m x w (step-id sys (m.heap x) (call_logs g) w h)) (refl, refl, refl) refl refl
      (λ k e. absurd (ground arith)) (λ k e. absurd (ground arith)) tt
Move-Deed {m} keyed trims at_it (inspect x f c) =
    calm (λ x. refl) (refl, refl, refl) refl refl (λ k e. absurd (ground arith))
      (λ k e. absurd (ground arith)) tt
Move-Deed {m} keyed trims at_it (refuse x f c d) =
    calm (λ x. refl) (refl, refl, refl) refl refl (λ k e. absurd (ground arith))
      (λ k e. absurd (ground arith)) tt
Move-Deed {m} keyed trims at_it (unlink {id = id} x f c d) = record {
  grows = omega arith;
  ids = λ x b. refl;
  owners_from = λ k h. inl h;
  named_from = λ k h. inl h;
  newborn_from = λ x h. absurd (ground arith);
  linked_from = λ y h. absurd (ground arith);
  table_from = λ k h. unlinked-kept id k x m.table (keyed id x f) h;
  leaving_from = λ k h. absurd (ground arith);
  points = keyed id x f;
}
Move-Deed {m} keyed trims at_it (begin {p = x} {w = w} sys h c) =
    calm (put-id m x w (step-id sys (m.heap x) begin_cleanup w h)) (refl, refl, refl) refl refl
      (λ k e. inl e)
      (λ k e. ground (arith, put-id m x w (step-id sys (m.heap x) begin_cleanup w h) x))
      (put-id m x w (step-id sys (m.heap x) begin_cleanup w h) x ∙ at_it)
Move-Deed {m} keyed trims at_it (begin_removed {p = x} {w = w} sys h c) =
    calm (put-id m x w (step-id sys (m.heap x) begin_cleanup w h)) (refl, refl, refl) refl refl
      (λ k e. absurd (ground arith))
      (λ k e. ground (arith, put-id m x w (step-id sys (m.heap x) begin_cleanup w h) x)) tt
Move-Deed {m} keyed trims at_it (finish {p = x} {w = w} sys h c) =
    calm (put-id m x w (step-id sys (m.heap x) end_cleanup w h)) (refl, refl, refl) refl refl
      (λ k e. absurd (ground arith)) (λ k e. ground (arith, at_it)) tt
Move-Deed {m} keyed trims at_it (fail {p = x} {w = w} sys h c) =
    calm (put-id m x w (step-id sys (m.heap x) end_cleanup w h)) (refl, refl, refl) refl refl
      (λ k e. absurd (ground arith))
      (λ k e. ground (arith, put-id m x w (step-id sys (m.heap x) end_cleanup w h) x)) tt
Move-Deed {m} keyed trims at_it (put_back {p = x}) = record {
  grows = omega arith;
  ids = λ x b. refl;
  owners_from = λ k h. inl h;
  named_from = λ k h. absurd (ground arith);
  newborn_from = λ x h. absurd (ground arith);
  linked_from = λ y h. absurd (ground arith);
  table_from = λ k h. inl (insert-kept (id_of m x) k x m.table h);
  leaving_from = λ k h.
      inr (inl (ground (arith, lookup-insert (id_of m x) k x m.table, text_eq_iff (id_of m x) k)));
  points = tt;
}
Move-Deed {m} keyed trims at_it (forget {id = id}) = record {
  grows = omega arith;
  ids = λ x b. refl;
  owners_from = λ k h. inl (removed-kept m.auth id k h);
  named_from = λ k h. absurd (ground arith);
  newborn_from = λ x h. absurd (ground arith);
  linked_from = λ y h. absurd (ground arith);
  table_from = λ k h. inl h;
  leaving_from = λ k h. inr (inr (removed-gone m.auth id k (ground arith)));
  points = tt;
}
