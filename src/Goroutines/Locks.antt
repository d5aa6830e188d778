-- ===== src/Goroutines/Locks.antt =====
-- Which handler has the lock of a job, across its moves.
use jobs.Prelude.{
  ℕ, ◌==◌, ==_iff, ◌<◌, Bool, true, false, none, some, if◌then◌else◌, ◌≡◌, ◌≢◌, inl, inr, refl, sym,
  ◌∙◌, arith, Bool-cases,
}
use jobs.Job.Threads.{World, begin_cleanup, end_cleanup, call_logs}
use jobs.Goroutines.{
  Memory, Pc, put, at, stop_action, Move, create, register, own, grant, missing, stop, open_logs,
  inspect, refuse, unlink, begin, begin_removed, finish, fail, put_back, forget, State, Step, moves,
  runs, IsNew, Reach, here, later,
}
use jobs.Goroutines.Transfers.{held, cleans, step-cleaning, ended-cleaning, begun-cleaning}
use jobs.Goroutines.Holders.{Held, Reach-Held}

-- A job is locked by a Cleanup exactly while a handler stands in the middle of its Remove.
pub record Locked (m : Memory) (pc : ℕ → Pc) : Type 0 where
  pub cleaned_by :
      (x : ℕ) → x < m.next → (m.heap x).cleaning ≡ true → (t : ℕ) × (cleans (pc t) ≡ some x)
  pub has_lock : (t x : ℕ) → cleans (pc t) ≡ some x → (m.heap x).cleaning ≡ true

pub cleans-held : (p : Pc) (x : ℕ) → cleans p ≡ some x → held p ≡ some x
cleans-held (Pc.cleaning y id) x h = h
cleans-held Pc.idle x h = cc
cleans-held (Pc.created y c) x h = cc
cleans-held (Pc.registered y c) x h = cc
cleans-held (Pc.granted o) x h = cc
cleans-held (Pc.unlinked y id) x h = cc
cleans-held (Pc.failed y) x h = cc
cleans-held (Pc.cleaned id) x h = cc

-- What a move does with the locks.
data Locks (m : Memory) (p : Pc) (n : Memory) (q : Pc) : Type 0 where
  untouched :
      ((x : ℕ) → x < m.next → (n.heap x).cleaning ≡ (m.heap x).cleaning)
      → ((x : ℕ) → x < n.next → (n.heap x).cleaning ≡ true → x < m.next)
      → cleans p ≡ none
      → cleans q ≡ none
      → Locks m p n q
  locks :
      (y : ℕ)
      → ((x : ℕ) → (n.heap x).cleaning ≡ (if y == x then true else (m.heap x).cleaning))
      → n.next ≡ m.next
      → cleans p ≡ none
      → cleans q ≡ some y
      → Locks m p n q
  unlocks :
      (y : ℕ)
      → ((x : ℕ) → (n.heap x).cleaning ≡ (if y == x then false else (m.heap x).cleaning))
      → n.next ≡ m.next
      → cleans p ≡ some y
      → cleans q ≡ none
      → Locks m p n q

at-same :
    (m : Memory) (p : ℕ) (w : World)
    → w.cleaning ≡ (m.heap p).cleaning
    → (x : ℕ) → ((at m p w).heap x).cleaning ≡ (m.heap x).cleaning
at-same m p w h x = ground (arith, ==_iff p x)

at-cleaning :
    (m : Memory) (p : ℕ) (w : World) (b : Bool)
    → w.cleaning ≡ b
    → (x : ℕ) → ((at m p w).heap x).cleaning ≡ (if p == x then b else (m.heap x).cleaning)
at-cleaning m p w b h x = ground arith

same-Locks :
    {m n : Memory} {p q : Pc}
    → ((x : ℕ) → (n.heap x).cleaning ≡ (m.heap x).cleaning)
    → n.next ≡ m.next
    → cleans p ≡ none
    → cleans q ≡ none
    → Locks m p n q
same-Locks h e c d = Locks.untouched (λ x b. h x) (λ x b g. ground arith) c d

stop_action-calls : (g : Bool) → (stop_action g ≢ begin_cleanup) × (stop_action g ≢ end_cleanup)
stop_action-calls true = ((λ e. cc), (λ e. cc))
stop_action-calls false = ((λ e. cc), (λ e. cc))

Move-Locks : {m n : Memory} {p q : Pc} → Move m p n q → Locks m p n q
Move-Locks (create sys cid cmd args limits j h) =
    Locks.untouched (λ x b. ground arith) (λ x b g. ground arith) refl refl
Move-Locks register = same-Locks (λ x. refl) refl refl refl
Move-Locks own = same-Locks (λ x. refl) refl refl refl
Move-Locks (grant cid op h) = same-Locks (λ x. refl) refl refl refl
Move-Locks (missing h) = same-Locks (λ x. refl) refl refl refl
Move-Locks {m} (stop {graceful = g} {w = w} sys p f h) =
    same-Locks
      (at-same m p w (
        step-cleaning sys (m.heap p) (stop_action g) w (stop_action-calls g).0
          (stop_action-calls g).1 h))
      refl refl refl
Move-Locks {m} (open_logs {follow = f} {w = w} sys p g h) =
    same-Locks (at-same m p w (step-cleaning sys (m.heap p) (call_logs f) w (λ e. cc) (λ e. cc) h))
      refl refl refl
Move-Locks (inspect p f c) = same-Locks (λ x. refl) refl refl refl
Move-Locks (refuse p f c d) = same-Locks (λ x. refl) refl refl refl
Move-Locks (unlink p f c d) = same-Locks (λ x. refl) refl refl refl
Move-Locks {m} (begin {p = p} {w = w} sys h c) =
    Locks.locks p (at-cleaning m p w true c) refl refl refl
Move-Locks {m} (begin_removed {p = p} {w = w} sys h c) =
    same-Locks (at-same m p w (c ∙ sym (begun-cleaning sys (m.heap p) w h))) refl refl refl
Move-Locks {m} (finish {p = p} {w = w} sys h c) =
    Locks.unlocks p (at-cleaning m p w false (ended-cleaning sys (m.heap p) w h)) refl refl refl
Move-Locks {m} (fail {p = p} {w = w} sys h c) =
    Locks.unlocks p (at-cleaning m p w false (ended-cleaning sys (m.heap p) w h)) refl refl refl
Move-Locks put_back = same-Locks (λ x. refl) refl refl refl
Move-Locks forget = same-Locks (λ x. refl) refl refl refl

-- Another handler keeps its place.
stays :
    (pc : ℕ → Pc) (q : Pc) (i t x : ℕ)
    → cleans (pc t) ≡ some x
    → i ≢ t
    → (u : ℕ) × (cleans (put pc i q u) ≡ some x)
stays pc q i t x h d = (t, ground (arith, ==_iff i t))

module _ {m n : Memory} {pc : ℕ → Pc} {q : Pc} (i : ℕ) (holds : Held m pc) (inv : Locked m pc) where
  Locks-cleaned_by :
      Locks m (pc i) n q
      → (x : ℕ) → x < n.next
      → (n.heap x).cleaning ≡ true
      → (t : ℕ) × (cleans (put pc i q t) ≡ some x)
  Locks-cleaned_by (untouched same below c d) x b g =
      let old = below x b g in
      let (t, h) = inv.cleaned_by x old (sym (same x old) ∙ g) in
      stays pc q i t x h (λ e. ground arith)
  Locks-cleaned_by (locks y same e c d) x b g = elim (Bool-cases (y == x)) [
    | inl eq ↦ (i, ground (arith, ==_iff y x, ==_iff i i))
    | inr other ↦
        let (t, h) = inv.cleaned_by x (ground arith) (ground (arith, same x)) in
        stays pc q i t x h (λ e. ground arith)
  ]
  Locks-cleaned_by (unlocks y same e c d) x b g =
      let (t, h) = inv.cleaned_by x (ground arith) (ground (arith, same x)) in
      stays pc q i t x h (λ e. ground (arith, same x, ==_iff y x))

  Locks-has_lock :
      Locks m (pc i) n q → (t x : ℕ) → cleans (put pc i q t) ≡ some x → (n.heap x).cleaning ≡ true
  Locks-has_lock (untouched same below c d) t x g =
      ground (arith, ==_iff i t, same x, inv.has_lock t x, holds.below t x, cleans-held (pc t) x)
  Locks-has_lock (locks y same e c d) t x g =
      ground (arith, ==_iff i t, ==_iff y x, same x, inv.has_lock t x)
  Locks-has_lock (unlocks y same e c d) t x g = ground (
    arith,
    ==_iff i t,
    ==_iff y x,
    same x,
    inv.has_lock t x,
    holds.alone i t x,
    cleans-held (pc t) x,
    cleans-held (pc i) x,
  )

  Locks-Locked : Locks m (pc i) n q → Locked n (put pc i q)
  Locks-Locked c = record { cleaned_by = Locks-cleaned_by c; has_lock = Locks-has_lock c }

Step-Locked :
    {s u : State} → Step s u → Held s.memory s.pc → Locked s.memory s.pc → Locked u.memory u.pc
Step-Locked (moves t h) holds inv = Locks-Locked t holds inv (Move-Locks h)
Step-Locked {s} (runs p sys a {w} b mine h) holds inv = record {
  cleaned_by = λ x c g. inv.cleaned_by x c (sym (same x) ∙ g);
  has_lock = λ t x g. same x ∙ inv.has_lock t x g;
}
  where
    same : (x : ℕ) → ((at s.memory p w).heap x).cleaning ≡ (s.memory.heap x).cleaning
    same =
        at-same s.memory p w
          (step-cleaning sys (s.memory.heap p) a w (λ e. ground arith) (λ e. ground arith) h)

pub Reach-Locked : {v s : State} → IsNew v → Reach v s → Locked s.memory s.pc
Reach-Locked new here = record {
  cleaned_by = λ x b g. absurd (ground (arith, new.none_made));
  has_lock = λ t x g. ground (arith, new.quiet t);
}
Reach-Locked new (later r h) = Step-Locked h (Reach-Held new r) (Reach-Locked new r)
