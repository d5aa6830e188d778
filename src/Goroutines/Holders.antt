-- ===== src/Goroutines/Holders.antt =====
-- Who has a job's pointer: the table, or one handler. No job in the table is locked by a Cleanup.
use jobs.Prelude.{
  Text, text_eq_iff, ℕ, ==_iff, ◌<◌, lookup, lookup-insert, lookup-delete, some, ◌≡◌, ◌≢◌, inl, inr,
  arith,
}
use jobs.Goroutines.{Memory, Pc, put, State, Step, moves, runs, IsNew, Reach, here, later}
use jobs.Goroutines.Transfers.{
  held, id_of, Transfer, keeps, takes_new, links, unlinks, Move-Transfer, step-id, put-id,
}

pub record Held (m : Memory) (pc : ℕ → Pc) : Type 0 where
  pub keyed : (id : Text) (x : ℕ) → lookup id m.table ≡ some x → (x < m.next) × (id_of m x ≡ id)
  pub below : (t x : ℕ) → held (pc t) ≡ some x → x < m.next
  pub apart : (t x : ℕ) (id : Text) → held (pc t) ≡ some x → lookup id m.table ≢ some x
  pub alone : (t u x : ℕ) → held (pc t) ≡ some x → held (pc u) ≡ some x → t ≡ u

module _ {m n : Memory} {pc : ℕ → Pc} {q : Pc} (i : ℕ) (inv : Held m pc) where
  Transfer-keyed :
      Transfer m (pc i) n q
      → (id : Text) (x : ℕ) → lookup id n.table ≡ some x
      → (x < n.next) × (id_of n x ≡ id)
  Transfer-keyed (keeps t s ids h) id x e = ground (arith, ids x, inv.keyed id x)
  Transfer-keyed (takes_new t s ids h) id x e = ground (arith, ids x, inv.keyed id x)
  Transfer-keyed (links y t s ids h g) id x e = ground (
    arith,
    ids x,
    inv.keyed id x,
    inv.below i y,
    lookup-insert (id_of m y) id y m.table,
    text_eq_iff (id_of m y) id,
  )
  Transfer-keyed (unlinks y jid f t s ids h) id x e =
      ground (arith, ids x, inv.keyed id x, lookup-delete jid id m.table, text_eq_iff jid id)

  Transfer-below : Transfer m (pc i) n q → (t x : ℕ) → held (put pc i q t) ≡ some x → x < n.next
  Transfer-below (keeps e s ids (inl h)) t x g =
      ground (arith, ==_iff i t, inv.below t x, inv.below i x)
  Transfer-below (keeps e s ids (inr h)) t x g = ground (arith, ==_iff i t, inv.below t x)
  Transfer-below (takes_new e s ids h) t x g = ground (arith, ==_iff i t, inv.below t x)
  Transfer-below (links y e s ids h k) t x g = ground (arith, ==_iff i t, inv.below t x)
  Transfer-below (unlinks y jid f e s ids h) t x g =
      ground (arith, ==_iff i t, inv.below t x, inv.keyed jid y)

  Transfer-apart :
      Transfer m (pc i) n q
      → (t x : ℕ) (id : Text) → held (put pc i q t) ≡ some x
      → lookup id n.table ≢ some x
  Transfer-apart (keeps e s ids (inl h)) t x id g f =
      ground (arith, ==_iff i t, inv.apart t x id, inv.apart i x id)
  Transfer-apart (keeps e s ids (inr h)) t x id g f = ground (arith, ==_iff i t, inv.apart t x id)
  Transfer-apart (takes_new e s ids h) t x id g f =
      ground (arith, ==_iff i t, inv.apart t x id, inv.keyed id x)
  Transfer-apart (links y e s ids h k) t x id g f = ground (
    arith,
    ==_iff i t,
    inv.apart t x id,
    inv.alone i t x,
    lookup-insert (id_of m y) id y m.table,
    text_eq_iff (id_of m y) id,
  )
  Transfer-apart (unlinks y jid f e s ids h) t x id g k = ground (
    arith,
    ==_iff i t,
    inv.apart t x id,
    inv.keyed id y,
    inv.keyed jid y,
    lookup-delete jid id m.table,
    text_eq_iff jid id,
  )

  Transfer-alone :
      Transfer m (pc i) n q
      → (t u x : ℕ) → held (put pc i q t) ≡ some x
      → held (put pc i q u) ≡ some x
      → t ≡ u
  Transfer-alone (keeps e s ids (inl h)) t u x g k =
      ground (arith, ==_iff i t, ==_iff i u, inv.alone t u x, inv.alone i u x, inv.alone t i x)
  Transfer-alone (keeps e s ids (inr h)) t u x g k =
      ground (arith, ==_iff i t, ==_iff i u, inv.alone t u x)
  Transfer-alone (takes_new e s ids h) t u x g k =
      ground (arith, ==_iff i t, ==_iff i u, inv.alone t u x, inv.below t x, inv.below u x)
  Transfer-alone (links y e s ids h j) t u x g k =
      ground (arith, ==_iff i t, ==_iff i u, inv.alone t u x)
  Transfer-alone (unlinks y jid f e s ids h) t u x g k =
      ground (arith, ==_iff i t, ==_iff i u, inv.alone t u x, inv.apart t x jid, inv.apart u x jid)

  Transfer-Held : Transfer m (pc i) n q → Held n (put pc i q)
  Transfer-Held c = record {
    keyed = Transfer-keyed c;
    below = Transfer-below c;
    apart = Transfer-apart c;
    alone = Transfer-alone c;
  }

pub Step-Held : {s u : State} → Step s u → Held s.memory s.pc → Held u.memory u.pc
Step-Held (moves t h) inv = Transfer-Held t inv (Move-Transfer h)
Step-Held {s} (runs p sys a {w} b mine h) inv = record {
  keyed = λ id x e.
      ground (arith, inv.keyed id x, put-id s.memory p w (step-id sys (s.memory.heap p) a w h) x);
  below = inv.below;
  apart = inv.apart;
  alone = inv.alone;
}

pub Reach-Held : {v s : State} → IsNew v → Reach v s → Held s.memory s.pc
unfolding lookup
Reach-Held {v} new here = record {
  keyed = λ id x e. ground (arith, new.empty);
  below = λ t x e. ground (arith, new.quiet t);
  apart = λ t x id e f. ground (arith, new.quiet t);
  alone = λ t u x e f. ground (arith, new.quiet t);
}
Reach-Held new (later r h) = Step-Held h (Reach-Held new r)
