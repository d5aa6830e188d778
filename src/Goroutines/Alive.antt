-- ===== src/Goroutines/Alive.antt =====
-- Which jobs are removed: none that the table or a handler has.
use jobs.Prelude.{
  Text, text_eq, lookup-insert, lookup-delete, ℕ, ◌==◌, ==_iff, ◌<◌, Bool, true, false, lookup,
  none, some, ◌≡◌, ◌≢◌, ◌⊎◌, inl, inr, refl, arith, Bool-cases,
}
use jobs.Job.{Job, Sys, Error, returns, zombie}
use jobs.Job.Api.{cleanup}
use jobs.Job.Threads.{World, Action, begin_cleanup, end_cleanup, call_logs, step}
use jobs.Supervisor.Starting.{create_job_ok}
use jobs.Goroutines.{
  Memory, Pc, put, at, is_own, stop_action, Move, create, register, own, grant, missing, stop,
  open_logs, inspect, refuse, unlink, begin, begin_removed, finish, fail, put_back, forget, State,
  moves, runs, IsNew, Reach, here, later,
}
use jobs.Goroutines.Transfers.{
  held, id_of, Transfer, keeps, takes_new, links, unlinks, Move-Transfer,
}
use jobs.Goroutines.Holders.{Held, Reach-Held}

-- Only a Cleanup that works removes a job.
pub step-zombie :
    (sys : Sys) (v : World) (a : Action) (w : World)
    → a ≢ end_cleanup
    → step sys v a ≡ returns w
    → w.job.handler ≡ zombie
    → v.job.handler ≡ zombie
unfolding step
step-zombie sys v Action.call_stop w n h z = ground arith
step-zombie sys v _ w n h z = ground arith

failed-zombie :
    (sys : Sys) (v w : World) (k : Job) (e : Error)
    → step sys v end_cleanup ≡ returns w
    → cleanup sys v.job ≡ returns (k, some e)
    → w.job.handler ≡ zombie
    → v.job.handler ≡ zombie
unfolding step cleanup
failed-zombie sys v w k e h c z = ground arith

-- A job that is removed after a move was so before, or a Remove has just dropped it.
Removes : Memory → Pc → Memory → Pc → Type 0
Removes m p n q =
    (x : ℕ)
    → x < n.next
    → (n.heap x).job.handler ≡ zombie
    → ((x < m.next) × ((m.heap x).job.handler ≡ zombie))
      ⊎ ((held p ≡ some x) × (held q ≡ none) × (n.table ≡ m.table))

at-zombie :
    (m : Memory) (p : ℕ) (w : World)
    → (w.job.handler ≡ zombie → (m.heap p).job.handler ≡ zombie)
    → (x : ℕ) → ((at m p w).heap x).job.handler ≡ zombie
    → (m.heap x).job.handler ≡ zombie
at-zombie m p w h x z = ground (arith, ==_iff p x)

stop_action-ne : (g : Bool) → stop_action g ≢ end_cleanup
stop_action-ne true e = cc
stop_action-ne false e = cc

Move-Removes : {m n : Memory} {p q : Pc} → Move m p n q → Removes m p n q
unfolding Removes
Move-Removes {m} (create sys cid cmd args limits j h) x b z =
    let (_, a, _, _, _, _, _, _) = create_job_ok sys cmd args limits m.ids j h in
    inl (ground (arith, ==_iff m.next x), ground (arith, ==_iff m.next x))
Move-Removes {m} register x b z = inl (b, z)
Move-Removes {m} own x b z = inl (b, z)
Move-Removes (grant cid op h) x b z = inl (b, z)
Move-Removes (missing h) x b z = inl (b, z)
Move-Removes {m} (stop {graceful = g} {w = w} sys p f h) x b z =
    inl (b, at-zombie m p w (step-zombie sys (m.heap p) (stop_action g) w (stop_action-ne g) h) x z)
Move-Removes {m} (open_logs {follow = f} {w = w} sys p g h) x b z =
    inl (b, at-zombie m p w (step-zombie sys (m.heap p) (call_logs f) w (λ e. cc) h) x z)
Move-Removes (inspect p f c) x b z = inl (b, z)
Move-Removes (refuse p f c d) x b z = inl (b, z)
Move-Removes (unlink p f c d) x b z = inl (b, z)
Move-Removes {m} (begin {p = p} {w = w} sys h c) x b z =
    inl (b, at-zombie m p w (step-zombie sys (m.heap p) begin_cleanup w (λ e. cc) h) x z)
Move-Removes {m} (begin_removed {p = p} {w = w} sys h c) x b z =
    inl (b, at-zombie m p w (step-zombie sys (m.heap p) begin_cleanup w (λ e. cc) h) x z)
Move-Removes {m} (finish {p = p} {w = w} sys h c) x b z = elim (Bool-cases (p == x)) [
  | inl same ↦ inr (ground (arith, ==_iff p x), refl, refl)
  | inr other ↦ inl (b, ground arith)
]
Move-Removes {m} (fail {p = p} {w = w} {k = k} {e = e} sys h c) x b z =
    inl (b, at-zombie m p w (failed-zombie sys (m.heap p) w k e h c) x z)
Move-Removes put_back x b z = inl (b, z)
Move-Removes forget x b z = inl (b, z)

-- Where the job was whose pointer the table, or the handler, has after its move.
listed_before :
    {m n : Memory} {p q : Pc}
    → Transfer m p n q
    → (id : Text) (x : ℕ) → lookup id n.table ≡ some x
    → ((k : Text) × (lookup k m.table ≡ some x)) ⊎ (held p ≡ some x)
listed_before (keeps t s ids h) id x f = inl (id, ground arith)
listed_before (takes_new t s ids h) id x f = inl (id, ground arith)
listed_before {m} (links y t s ids h g) id x f = elim (Bool-cases (text_eq (id_of m y) id)) [
  | inl same ↦ inr (ground (arith, lookup-insert (id_of m y) id y m.table))
  | inr other ↦ inl (id, ground (arith, lookup-insert (id_of m y) id y m.table))
]
listed_before {m} (unlinks y jid f t s ids h) id x g =
    inl (id, ground (arith, lookup-delete jid id m.table))

in_hand_before :
    {m n : Memory} {p q : Pc}
    → Transfer m p n q
    → (x : ℕ) → x < m.next
    → held q ≡ some x
    → ((k : Text) × (lookup k m.table ≡ some x)) ⊎ (held p ≡ some x)
in_hand_before (keeps t s ids (inl h)) x b f = inr (ground arith)
in_hand_before (keeps t s ids (inr h)) x b f = absurd (ground arith)
in_hand_before (takes_new t s ids h) x b f = absurd (ground arith)
in_hand_before (links y t s ids h g) x b f = absurd (ground arith)
in_hand_before (unlinks y jid g t s ids h) x b f = inl (jid, ground arith)

-- No entry of the table, and no handler, has a removed job.
pub record Alive (m : Memory) (pc : ℕ → Pc) : Type 0 where
  pub listed : (id : Text) (x : ℕ) → lookup id m.table ≡ some x → (m.heap x).job.handler ≢ zombie
  pub in_hand : (t x : ℕ) → held (pc t) ≡ some x → (m.heap x).job.handler ≢ zombie

module _ {m n : Memory} {pc : ℕ → Pc} {q : Pc} (i : ℕ) (holds : Held m pc)
    (after : Held n (put pc i q)) (inv : Alive m pc) (c : Transfer m (pc i) n q)
    (d : Removes m (pc i) n q) where
  unremoved :
      (x : ℕ)
      → (m.heap x).job.handler ≡ zombie
      → ((id : Text) × (lookup id m.table ≡ some x)) ⊎ (held (pc i) ≡ some x)
      → ⊥
  unremoved x z (inl (id, f)) = inv.listed id x f z
  unremoved x z (inr h) = inv.in_hand i x h z

  listed_on : (id : Text) (x : ℕ) → lookup id n.table ≡ some x → (n.heap x).job.handler ≢ zombie
  unfolding Removes
  listed_on id x f z = elim (d x (after.keyed id x f).0 z) [
    | inr (h, g, t) ↦ holds.apart i x id h (rw t at f)
    | inl (b, old) ↦ unremoved x old (listed_before c id x f)
  ]

  in_hand_on : (t x : ℕ) → held (put pc i q t) ≡ some x → (n.heap x).job.handler ≢ zombie
  unfolding Removes
  in_hand_on t x f z = elim (d x (after.below t x f) z) [
    | inr (h, g, e) ↦ ground (arith, ==_iff i t, holds.alone i t x)
    | inl (b, old) ↦ elim (Bool-cases (i == t)) [
      | inr other ↦ inv.in_hand t x (ground arith) old
      | inl same ↦ unremoved x old (in_hand_before c x b (ground arith))
    ]
  ]

  Transfer-Alive : Alive n (put pc i q)
  Transfer-Alive = record { listed = listed_on; in_hand = in_hand_on }

own-ne : (a : Action) → is_own a ≡ true → a ≢ end_cleanup
own-ne a h e = ground arith

pub Reach-Alive : {v s : State} → IsNew v → Reach v s → Alive s.memory s.pc
unfolding lookup
Reach-Alive {v} new here = record {
  listed = λ id x e. ground (arith, new.empty);
  in_hand = λ t x e. ground (arith, new.quiet t);
}
Reach-Alive new (later {s = s} r (moves t h)) =
    Transfer-Alive t (Reach-Held new r) (Reach-Held new (later r (moves t h))) (Reach-Alive new r)
      (Move-Transfer h) (Move-Removes h)
Reach-Alive new (later {s = s} r (runs p sys a {w} b mine h)) =
    let inv = Reach-Alive new r in
    let z = at-zombie s.memory p w (step-zombie sys (s.memory.heap p) a w (own-ne a mine) h) in
    record {
      listed = λ id x f g. inv.listed id x f (z x g);
      in_hand = λ t x f g. inv.in_hand t x f (z x g);
    }
