-- ===== src/Goroutines/Transfers.antt =====
-- What a move does with the pointers of the jobs, and with their locks.
use jobs.Prelude.{
  Text, ℕ, suc, ==_iff, ◌<◌, false, lookup, insert, delete, Option, none, some, ◌≡◌, ◌≢◌, ◌⊎◌, inl,
  inr, refl, arith,
}
use jobs.Job.{Sys, returns}
use jobs.Job.Threads.{World, Action, begin_cleanup, end_cleanup, call_logs, call_stop, step}
use jobs.Goroutines.{
  Memory, Pc, created, unlinked, cleaning, failed, at, stop_action, Move, create, register, own,
  grant, missing, stop, open_logs, inspect, refuse, unlink, begin, begin_removed, finish, fail,
  put_back, forget,
}

abbrev pub held : Pc → Option ℕ
held (created p cid) = some p
held (unlinked p id) = some p
held (cleaning p id) = some p
held (failed p) = some p
held _ = none

abbrev pub cleans : Pc → Option ℕ
cleans (cleaning p id) = some p
cleans _ = none

abbrev pub id_of : Memory → ℕ → Text
id_of m p = (m.heap p).job.id

-- A job keeps its id, and but for Cleanup no step takes or gives back its lock.
pub step-id :
    (sys : Sys) (v : World) (a : Action) (w : World)
    → step sys v a ≡ returns w
    → w.job.id ≡ v.job.id
unfolding step
step-id sys v call_stop w h = ground arith
step-id sys v _ w h = ground arith

pub step-cleaning :
    (sys : Sys) (v : World) (a : Action) (w : World)
    → a ≢ begin_cleanup
    → a ≢ end_cleanup
    → step sys v a ≡ returns w
    → w.cleaning ≡ v.cleaning
unfolding step
step-cleaning sys v call_stop w b e h = ground arith
step-cleaning sys v _ w b e h = ground arith

pub ended-cleaning :
    (sys : Sys) (v w : World) → step sys v end_cleanup ≡ returns w → w.cleaning ≡ false
unfolding step
ended-cleaning sys v w h = ground arith

pub begun-cleaning :
    (sys : Sys) (v w : World) → step sys v begin_cleanup ≡ returns w → v.cleaning ≡ false
unfolding step
begun-cleaning sys v w h = ground arith

-- What a move does with the pointers.
pub data Transfer (m : Memory) (p : Pc) (n : Memory) (q : Pc) : Type 0 where
  keeps :
      n.table ≡ m.table
      → n.next ≡ m.next
      → ((x : ℕ) → id_of n x ≡ id_of m x)
      → (held q ≡ held p) ⊎ (held q ≡ none)
      → Transfer m p n q
  takes_new :
      n.table ≡ m.table
      → n.next ≡ suc m.next
      → ((x : ℕ) → x < m.next → id_of n x ≡ id_of m x)
      → held q ≡ some m.next
      → Transfer m p n q
  links :
      (x : ℕ)
      → n.table ≡ insert (id_of m x) x m.table
      → n.next ≡ m.next
      → ((y : ℕ) → id_of n y ≡ id_of m y)
      → held p ≡ some x
      → held q ≡ none
      → Transfer m p n q
  unlinks :
      (x : ℕ) (id : Text)
      → lookup id m.table ≡ some x
      → n.table ≡ delete id m.table
      → n.next ≡ m.next
      → ((y : ℕ) → id_of n y ≡ id_of m y)
      → held q ≡ some x
      → Transfer m p n q

pub put-id :
    (m : Memory) (p : ℕ) (w : World)
    → w.job.id ≡ id_of m p
    → (x : ℕ) → id_of (at m p w) x ≡ id_of m x
put-id m p w h x = ground (arith, ==_iff p x)

pub Move-Transfer : {m n : Memory} {p q : Pc} → Move m p n q → Transfer m p n q
Move-Transfer {m} (create sys cid cmd args limits j h) =
    Transfer.takes_new refl refl (λ x b. ground (arith)) refl
Move-Transfer {m} (register {p = p}) = Transfer.links p refl refl (λ y. refl) refl refl
Move-Transfer own = Transfer.keeps refl refl (λ x. refl) (inl refl)
Move-Transfer (grant cid op h) = Transfer.keeps refl refl (λ x. refl) (inl refl)
Move-Transfer (missing h) = Transfer.keeps refl refl (λ x. refl) (inl refl)
Move-Transfer {m} (stop {graceful = g} {w = w} sys p f h) =
    Transfer.keeps refl refl (put-id m p w (step-id sys (m.heap p) (stop_action g) w h)) (inl refl)
Move-Transfer {m} (open_logs {follow = f} {w = w} sys p g h) =
    Transfer.keeps refl refl (put-id m p w (step-id sys (m.heap p) (call_logs f) w h)) (inl refl)
Move-Transfer (inspect p f c) = Transfer.keeps refl refl (λ x. refl) (inl refl)
Move-Transfer (refuse p f c d) = Transfer.keeps refl refl (λ x. refl) (inl refl)
Move-Transfer (unlink {id = id} p f c d) = Transfer.unlinks p id f refl refl (λ y. refl) refl
Move-Transfer {m} (begin {p = p} {w = w} sys h c) =
    Transfer.keeps refl refl (put-id m p w (step-id sys (m.heap p) begin_cleanup w h)) (inl refl)
Move-Transfer {m} (begin_removed {p = p} {w = w} sys h c) =
    Transfer.keeps refl refl (put-id m p w (step-id sys (m.heap p) begin_cleanup w h)) (inl refl)
Move-Transfer {m} (finish {p = p} {w = w} sys h c) =
    Transfer.keeps refl refl (put-id m p w (step-id sys (m.heap p) end_cleanup w h)) (inr refl)
Move-Transfer {m} (fail {p = p} {w = w} sys h c) =
    Transfer.keeps refl refl (put-id m p w (step-id sys (m.heap p) end_cleanup w h)) (inl refl)
Move-Transfer {m} (put_back {p = p}) = Transfer.links p refl refl (λ y. refl) refl refl
Move-Transfer forget = Transfer.keeps refl refl (λ x. refl) (inl refl)
