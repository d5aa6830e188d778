-- ===== src/Goroutines/Progress.antt =====
-- Whom a handler waits for.
use jobs.Prelude.{
  Text, ℕ, ◌==◌, ◌<◌, Bool, true, false, lookup, Option, none, some, ◌≡◌, ◌≢◌, ◌⊎◌, inl, inr, refl,
  sym, ◌∙◌, arith, Bool-cases, Option-cases,
}
use jobs.Job.Threads.{
  World, Action, call_init_stop, call_stop, begin_cleanup, end_cleanup, call_logs, step,
}
use jobs.Job.{Sys, Job, Error, returns, blocks, panics}
use jobs.Job.Draining.{took}
use jobs.Job.Api.{completed, cleanup}
use jobs.Goroutines.{
  Memory, Op, to_stop, to_remove, to_inspect, to_open, op_id, Pc, at, stop_action, Move, State,
  IsNew, Reach,
}
use jobs.Goroutines.Transfers.{held, cleans}
use jobs.Goroutines.Holders.{Held, Reach-Held}
use jobs.Goroutines.Locks.{Locked, Reach-Locked, cleans-held}

abbrev is_call : Action → Bool
is_call (call_init_stop to) = true
is_call call_stop = true
is_call (call_logs follow) = true
is_call begin_cleanup = true
is_call _ = false

-- A job whose lock is free takes a call, and the beginning of a Cleanup.
free-runs :
    (sys : Sys) (v : World) (a : Action)
    → is_call a ≡ true
    → v.cleaning ≡ false
    → (step sys v a ≢ blocks) × (step sys v a ≢ panics)
unfolding step cleanup
free-runs sys v call_stop c h = ((λ e. ground arith), (λ e. ground arith))
free-runs sys v (call_init_stop to) c h = ((λ e. ground arith), (λ e. ground arith))
free-runs sys v (call_logs f) c h = ((λ e. ground arith), (λ e. ground arith))
free-runs sys v begin_cleanup c h = ((λ e. ground arith), (λ e. ground arith))
free-runs sys v _ c h = ((λ e. cc), (λ e. cc))

pub free :
    (sys : Sys) (v : World) (a : Action)
    → is_call a ≡ true
    → v.cleaning ≡ false
    → (w : World) × (step sys v a ≡ returns w)
free sys v a c h = took (step sys v a) (free-runs sys v a c h)

-- The end of a Cleanup waits for the readers alone.
unread-ends :
    (sys : Sys) (v : World)
    → v.cleaning ≡ true
    → v.job.out_lock ≡ 0
    → (w : World) × (r : Job × Option Error) × (step sys v end_cleanup ≡ returns w)
      × (cleanup sys v.job ≡ returns r)
unfolding step
unread-ends sys v h o =
    let (r, e) = took (cleanup sys v.job) (not_blocked, not_panicked) in
    let (w, f) = took (step sys v end_cleanup) ((λ q. ground arith), (λ q. ground arith)) in
    (w, r, f, e)
  where
    not_blocked : cleanup sys v.job ≢ blocks
    not_blocked q = unfold cleanup in ground arith

    not_panicked : cleanup sys v.job ≢ panics
    not_panicked q = unfold cleanup in ground arith

-- How the system answers in a move, where it is asked.
abbrev pub Uses : {m n : Memory} {p q : Pc} → Sys → Move m p n q → Type 0
Uses sys (Move.stop s x f h) = s ≡ sys
Uses sys (Move.open_logs s x f h) = s ≡ sys
Uses sys (Move.begin s h c) = s ≡ sys
Uses sys (Move.begin_removed s h c) = s ≡ sys
Uses sys (Move.finish s h c) = s ≡ sys
Uses sys (Move.fail s h c) = s ≡ sys
Uses sys _ = Unit

-- Some move is open to a handler at once, if the system answers in this way.
abbrev pub CanMove : Sys → Memory → Pc → Type 0
CanMove sys m p = (n : Memory) × (q : Pc) × (h : Move m p n q) × Uses sys h

-- A Remove waits for a reader of a job that no entry of the table points to.
abbrev pub WaitsForReader : Memory → Pc → Type 0
WaitsForReader m p =
    (x : ℕ) × (id : Text) × (p ≡ Pc.cleaning x id)
    × (0 < (m.heap x).job.out_lock)
    × ((k : Text) → lookup k m.table ≢ some x)

pub table-free :
    {m : Memory} {pc : ℕ → Pc}
    → Held m pc
    → Locked m pc
    → (id : Text) (x : ℕ) → lookup id m.table ≡ some x
    → (m.heap x).cleaning ≡ false
table-free {m} {pc} holds inv id x f = elim (Bool-cases (m.heap x).cleaning) [
  | inr free_now ↦ free_now
  | inl locked ↦
      let (t, c) = inv.cleaned_by x (holds.keyed id x f).0 locked in
      absurd (holds.apart t x id (cleans-held (pc t) x c) f)
]

module _ (sys : Sys) {m : Memory} {pc : ℕ → Pc} (holds : Held m pc) (inv : Locked m pc) where
  op-CanMove : (o : Op) (x : ℕ) → lookup (op_id o) m.table ≡ some x → CanMove sys m (Pc.granted o)
  op-CanMove (to_stop id true) x f =
      let (w, e) = free sys (m.heap x) (stop_action true) refl (table-free holds inv id x f) in
      (at m x w, Pc.idle, Move.stop sys x f e, refl)
  op-CanMove (to_stop id false) x f =
      let (w, e) = free sys (m.heap x) (stop_action false) refl (table-free holds inv id x f) in
      (at m x w, Pc.idle, Move.stop sys x f e, refl)
  op-CanMove (to_open id follow) x f =
      let (w, e) = free sys (m.heap x) (call_logs follow) refl (table-free holds inv id x f) in
      (at m x w, Pc.idle, Move.open_logs sys x f e, refl)
  op-CanMove (to_inspect id) x f = (m, Pc.idle, Move.inspect x f (table-free holds inv id x f), tt)
  op-CanMove (to_remove id) x f = elim (Bool-cases (completed (m.heap x).job)) [
    | inl over ↦ (_, _, Move.unlink x f (table-free holds inv id x f) over, tt)
    | inr running ↦ (_, _, Move.refuse x f (table-free holds inv id x f) running, tt)
  ]

  granted-CanMove : (o : Op) → CanMove sys m (Pc.granted o)
  granted-CanMove o = elim (Option-cases (lookup (op_id o) m.table)) [
    | inl gone ↦ (m, Pc.idle, Move.missing gone, tt)
    | inr (x, f) ↦ op-CanMove o x f
  ]

  unlinked-free : (t x : ℕ) (id : Text) → pc t ≡ Pc.unlinked x id → (m.heap x).cleaning ≡ false
  unlinked-free t x id e = elim (Bool-cases (m.heap x).cleaning) [
    | inr free_now ↦ free_now
    | inl locked ↦
        let (u, c) = inv.cleaned_by x (holds.below t x (ground arith)) locked in
        absurd (other u c (holds.alone u t x (cleans-held (pc u) x c) (ground arith)))
  ]
    where
      other : (u : ℕ) → cleans (pc u) ≡ some x → u ≢ t
      other u c s = ground arith

  unlinked-CanMove :
      (t x : ℕ) (id : Text) → pc t ≡ Pc.unlinked x id → CanMove sys m (Pc.unlinked x id)
  unlinked-CanMove t x id e =
      let (w, h) = free sys (m.heap x) begin_cleanup refl (unlinked-free t x id e) in
      elim (Bool-cases w.cleaning) [
        | inl waits ↦ (_, _, Move.begin sys h waits, refl)
        | inr refuses ↦ (_, _, Move.begin_removed sys h refuses, refl)
      ]

  ending-CanMove :
      (x : ℕ) (id : Text) (w : World) (r : Job × Option Error)
      → step sys (m.heap x) end_cleanup ≡ returns w
      → cleanup sys (m.heap x).job ≡ returns r
      → CanMove sys m (Pc.cleaning x id)
  ending-CanMove x id w (k, none) h c = (_, _, Move.finish sys h c, refl)
  ending-CanMove x id w (k, some e) h c = (_, _, Move.fail sys h c, refl)

  cleaning_cases :
      (t x : ℕ) (id : Text)
      → pc t ≡ Pc.cleaning x id
      → CanMove sys m (Pc.cleaning x id) ⊎ WaitsForReader m (Pc.cleaning x id)
  cleaning_cases t x id e = elim (Bool-cases ((m.heap x).job.out_lock == 0)) [
    | inl unread ↦
        let (w, r, h, c) =
          unread-ends sys (m.heap x) (inv.has_lock t x (ground arith)) (ground arith) in
        inl (ending-CanMove x id w r h c)
    | inr read ↦ inr (x, id, refl, ground arith, λ k. holds.apart t x k (ground arith))
  ]

  place_cases : (t : ℕ) (p : Pc) → pc t ≡ p → p ≢ Pc.idle → CanMove sys m p ⊎ WaitsForReader m p
  place_cases t Pc.idle e n = absurd (n refl)
  place_cases t (Pc.created x cid) e n = inl (_, _, Move.register, tt)
  place_cases t (Pc.registered x cid) e n = inl (_, _, Move.own, tt)
  place_cases t (Pc.granted o) e n = inl (granted-CanMove o)
  place_cases t (Pc.unlinked x id) e n = inl (unlinked-CanMove t x id e)
  place_cases t (Pc.cleaning x id) e n = cleaning_cases t x id e
  place_cases t (Pc.failed x) e n = inl (_, _, Move.put_back, tt)
  place_cases t (Pc.cleaned id) e n = inl (_, _, Move.forget, tt)

-- However the handlers and the jobs of a new server interleave before it is stopped, no handler ever
-- waits for another: for each way in which the system may answer, each handler that has begun has a
-- next move, open at once, in which the system answers so, except a Remove in its Cleanup of a job
-- with an open log reader; and no entry of the table points to such a job, so that no later call can
-- reach it and wait too.
pub only_readers_delay :
    {v s : State}
    → IsNew v
    → Reach v s
    → (sys : Sys) (t : ℕ) → s.pc t ≢ Pc.idle
    → CanMove sys s.memory (s.pc t) ⊎ WaitsForReader s.memory (s.pc t)
only_readers_delay {s = s} new r sys t n =
    place_cases sys (Reach-Held new r) (Reach-Locked new r) t (s.pc t) refl n

-- At any time in any such interleaving, two entries never point to one job, no handler has the
-- pointer of a job of the table or that of another handler, and no job of the table is locked by a
-- Cleanup.
pub table_jobs_free :
    {v s : State}
    → IsNew v
    → Reach v s
    → (id : Text) (x : ℕ) → lookup id s.memory.table ≡ some x
    → ((s.memory.heap x).job.id ≡ id)
      × ((s.memory.heap x).cleaning ≡ false)
      × ((t : ℕ) → held (s.pc t) ≢ some x)
      × ((k : Text) → lookup k s.memory.table ≡ some x → k ≡ id)
table_jobs_free new r id x f =
    let holds = Reach-Held new r in
    let (_, own_id) = holds.keyed id x f in
    (
      own_id,
      table-free holds (Reach-Locked new r) id x f,
      (λ t h. holds.apart t x id h f),
      λ k g. sym (holds.keyed k x g).1 ∙ own_id,
    )
