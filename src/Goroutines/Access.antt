-- ===== src/Goroutines/Access.antt =====
-- What the access table says of the jobs, while handlers start and remove them.
use jobs.Prelude.{
  Text, ℕ, ◌<◌, ◌≤◌, true, false, lookup, none, some, ◌≡◌, ◌≢◌, ◌⊎◌, inl, inr, refl, sym, ◌∙◌,
  arith,
}
use jobs.Acl.{AccessControl, AccessType, AccessRequest, check}
use jobs.Job.Threads.{World}
use jobs.Goroutines.{Memory, Pc, idle, at, State, moves, runs, IsNew, Reach, here, later}
use jobs.Goroutines.Transfers.{
  id_of, put-id, step-id, Transfer, keeps, takes_new, links, unlinks, Move-Transfer,
}
use jobs.Goroutines.Holders.{Reach-Held}
use jobs.Goroutines.Deeds.{newborn, checked-owned}
use jobs.Goroutines.Deeds.Moves.{Move-Deed}
use jobs.Goroutines.Owned.{
  IdsAreNew, IsLeaving, Owned, linked-newborn, leaving-stays, IsPointed-stays, Deed-Owned,
}

IdsAreNew-before :
    {m n : Memory}
    → m.next ≤ n.next
    → ((x : ℕ) → x < m.next → id_of n x ≡ id_of m x)
    → IdsAreNew n
    → IdsAreNew m
IdsAreNew-before g ids news = record {
  distinct =
      λ x y b c e. news.distinct x y (omega arith) (omega arith) (ids x b ∙ (e ∙ sym (ids y c)));
  trimmed = λ x b. ground (arith, ids x b, news.trimmed x (omega arith));
}

-- A step of a job itself changes no id.
at-Owned :
    (m : Memory) (pc : ℕ → Pc) (p : ℕ) (w : World)
    → w.job.id ≡ id_of m p
    → Owned m pc
    → Owned (at m p w) pc
at-Owned m pc p w e inv =
    let ids = put-id m p w e in
    record {
      owned_known = λ k h. let (x, b, f) = inv.owned_known k h in (x, b, ids x ∙ f);
      named_known = λ t k h. let (x, b, f) = inv.named_known t k h in (x, b, ids x ∙ f);
      born_below = inv.born_below;
      born_alone = inv.born_alone;
      born_unowned = λ t x h. rw (ids x) (inv.born_unowned t x h);
      born_unnamed = λ t u x h. rw (ids x) (inv.born_unnamed t u x h);
      linked_listed = λ t x h. rw (ids x) (inv.linked_listed t x h);
      owned_listed = λ k h. elim (inv.owned_listed k h) [
        | inl listed ↦ inl listed
        | inr (t, v) ↦ inr (t, leaving-stays m (at m p w) (pc t) (λ x _. ids x) ∙ v)
      ];
      all_pointed = λ t. IsPointed-stays m (at m p w) (pc t) (λ x _. ids x) (inv.all_pointed t);
    }

Transfer-extends :
    {m n : Memory} {p q : Pc}
    → Transfer m p n q
    → (m.next ≤ n.next) × ((x : ℕ) → x < m.next → id_of n x ≡ id_of m x)
Transfer-extends (keeps t s ids h) = (omega arith, λ x b. ids x)
Transfer-extends (takes_new t s ids h) = (omega arith, ids)
Transfer-extends (links y t s ids h g) = (omega arith, λ x b. ids x)
Transfer-extends (unlinks y id f t s ids h) = (omega arith, λ x b. ids x)

unowned-unchecked :
    (c : AccessControl) (r : AccessRequest) → lookup r.object c.owners ≡ none → check c r ≡ false
unfolding check
unowned-unchecked c r h = ground arith

Reach-Owned : {v s : State} → IsNew v → Reach v s → IdsAreNew s.memory → Owned s.memory s.pc
unfolding lookup
Reach-Owned {v} new here news = record {
  owned_known = λ k h. absurd (h (rw new.none_owned refl));
  named_known = λ t k h. absurd (ground (arith, new.quiet t));
  born_below = λ t x h. absurd (ground (arith, new.quiet t));
  born_alone = λ t u x h g. absurd (ground (arith, new.quiet t));
  born_unowned = λ t x h. absurd (ground (arith, new.quiet t));
  born_unnamed = λ t u x h g. absurd (ground (arith, new.quiet t));
  linked_listed = λ t x h. absurd (ground (arith, new.quiet t));
  owned_listed = λ k h. absurd (h (rw new.none_owned refl));
  all_pointed = λ t. rw (new.quiet t) tt;
}
Reach-Owned new (later {s = s} r (moves t {m} {p} h)) news =
    let holds = Reach-Held new r in
    let (g, ids) = Transfer-extends (Move-Transfer h) in
    let before = IdsAreNew-before g ids news in
    let inv = Reach-Owned new r before in
    Deed-Owned t holds inv news (
      Move-Deed (λ id x f. (holds.keyed id x f).1)
        (λ x l. before.trimmed x (inv.born_below t x (linked-newborn (s.pc t) x l)))
        (inv.all_pointed t) h)
Reach-Owned new (later {s = s} r (runs p sys a {w} b mine h)) news =
    let e = step-id sys (s.memory.heap p) a w h in
    at-Owned s.memory s.pc p w e
      (Reach-Owned new r (IdsAreNew-before (omega arith) (λ x _. put-id s.memory p w e x) news))

-- However the handlers and the jobs of a new server interleave, where xid gives new ids: a check
-- passes only for a job that is in the table, or that a Remove has taken out and not put back yet, or
-- is about to make the access table forget; and for nobody while the job's Start has not ended. So
-- once no handler runs, nobody may do anything with a job that is not in the table.
pub checks_follow_table :
    {v s : State}
    → IsNew v
    → Reach v s
    → IdsAreNew s.memory
    → ((cid k : Text) (a : AccessType)
        → check s.memory.auth (record { subject = cid; object = k; action = a }) ≡ true
        → (lookup k s.memory.table ≢ none) ⊎ IsLeaving s.memory s.pc k)
      × ((t x : ℕ) (cid : Text) (a : AccessType)
          → newborn (s.pc t) ≡ some x
          → check s.memory.auth (record { subject = cid; object = id_of s.memory x; action = a })
            ≡ false)
      × (((t : ℕ) → s.pc t ≡ idle)
          → (cid k : Text) (a : AccessType)
          → check s.memory.auth (record { subject = cid; object = k; action = a }) ≡ true
          → lookup k s.memory.table ≢ none)
checks_follow_table {s = s} new r news =
    let inv = Reach-Owned new r news in
    let listed : (cid k : Text) (a : AccessType)
        → check s.memory.auth (record { subject = cid; object = k; action = a }) ≡ true
        → (lookup k s.memory.table ≢ none) ⊎ IsLeaving s.memory s.pc k =
      λ cid k a c.
        inv.owned_listed k
          (checked-owned s.memory.auth (record { subject = cid; object = k; action = a }) c) in
    (
      listed,
      (λ t x cid a b.
          unowned-unchecked s.memory.auth
            (record { subject = cid; object = id_of s.memory x; action = a })
            (inv.born_unowned t x b)),
      λ q cid k a c. elim (listed cid k a c) [
        | inl there ↦ there
        | inr (t, v) ↦ absurd (ground (arith, q t))
      ],
    )
