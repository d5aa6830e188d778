-- ===== src/Job/Draining.antt =====
-- How a job that nobody calls any more comes to its end: its process ends, the goroutine of New calls
-- exited, and the readers that are open reach the end of the output.
use jobs.Prelude.{
  ℕ, ℤ, zero, suc, pos, Bool, true, false, none, some, ◌≡◌, ◌≢◌, inl, inr, refl, ◌∙◌, arith,
  Bool-cases, Option-cases,
}
use jobs.Job.{Job, Sys, Outcome, returns, blocks, panics, zombie}
use jobs.Job.Api
use jobs.Job.Api.{exited}
use jobs.Job.Threads.{
  World, Action, process_exits, run_exited, reader_ends, follower_ends, step, IsFresh, Reach, next,
}
use jobs.Job.Safety.{Reach-Inv, step-ne-panics}

abbrev pub is_ending : Action → Bool
is_ending (process_exits code) = true
is_ending run_exited = true
is_ending reader_ends = true
is_ending follower_ends = true
is_ending _ = false

-- A run of such steps alone.
pub data Drains (sys : Sys) : World → World → Type 0 where
  stays : {v : World} → Drains sys v v
  first :
      {v w u : World}
      → (a : Action) → is_ending a ≡ true
      → step sys v a ≡ returns w
      → Drains sys w u
      → Drains sys v u

-- A step that neither blocks nor panics returns.
pub took : {A : Type 0} (r : Outcome A) → (r ≢ blocks) × (r ≢ panics) → (a : A) × (r ≡ returns a)
took (returns a) n = (a, refl)
took blocks n = absurd (n.0 refl)
took panics n = absurd (n.1 refl)

-- The goroutine of New calls exited once the process has ended and the lock is free.
exited-ne : (sys : Sys) (j : Job) → exited sys j ≢ blocks
unfolding exited
exited-ne sys j e = ground arith

pub exited-ran : (sys : Sys) (v w : World) → step sys v run_exited ≡ returns w → w.exit_ran ≡ true
unfolding step
exited-ran sys v w h = ground arith

pub run-unlocked :
    (sys : Sys) (v : World) (code : ℤ)
    → v.job.process_state ≡ some code
    → v.exit_ran ≡ false
    → v.cleaning ≡ false
    → step sys v run_exited ≢ blocks
unfolding step
run-unlocked sys v code p e c h = ground (arith, exited-ne sys v.job)

exited-alive :
    (sys : Sys) (v w : World)
    → step sys v run_exited ≡ returns w
    → w.job.handler ≡ zombie
    → v.job.handler ≡ zombie
unfolding step
exited-alive sys v w h z = ground arith

process-ends :
    (sys : Sys) (v : World)
    → v.job.process_state ≡ none
    → step sys v (process_exits (pos 0))
      ≡ returns (record v { job = record (v.job) { process_state = some (pos 0) } })
unfolding step
process-ends sys v p = ground arith

-- What the steps do to the counts.
reader-open : (sys : Sys) (v : World) (n : ℕ) → v.readers ≡ suc n → step sys v reader_ends ≢ blocks
unfolding step
reader-open sys v n h e = ground arith

reader-closed :
    (sys : Sys) (v w : World) (n : ℕ)
    → v.readers ≡ suc n
    → step sys v reader_ends ≡ returns w
    → (w.readers ≡ n)
      × (w.followers ≡ v.followers)
      × (w.job.done ≡ v.job.done)
      × (w.job.handler ≡ v.job.handler)
unfolding step
reader-closed sys v w n h e = ground arith

follower-open :
    (sys : Sys) (v : World) (n : ℕ)
    → v.followers ≡ suc n
    → v.job.done ≡ true
    → step sys v follower_ends ≢ blocks
unfolding step
follower-open sys v n h d e = ground arith

follower-closed :
    (sys : Sys) (v w : World) (n : ℕ)
    → v.followers ≡ suc n
    → step sys v follower_ends ≡ returns w
    → (w.followers ≡ n)
      × (w.readers ≡ v.readers)
      × (w.job.done ≡ v.job.done)
      × (w.job.handler ≡ v.job.handler)
unfolding step
follower-closed sys v w n h e = ground arith

pub record Drained (u : World) : Type 0 where
  pub done : u.job.done ≡ true
  pub unread : u.job.out_lock ≡ 0

module _ (sys : Sys) {o : World} (f : IsFresh o) where
  Drains-followers :
      (n : ℕ) (v : World)
      → Reach o v
      → v.readers ≡ 0
      → v.followers ≡ n
      → v.job.done ≡ true
      → (u : World) × Drains sys v u × Drained u
  Drains-followers zero v r a b d =
      (v, stays, record { done = d; unread = (Reach-Inv f r).counted ∙ ground arith })
  Drains-followers (suc n) v r a b d =
      let (w, h) =
        took (step sys v follower_ends)
          (follower-open sys v n b d, step-ne-panics f r sys follower_ends) in
      let (c, e, g, _) = follower-closed sys v w n b h in
      let (u, run, q) = Drains-followers n w (next r sys follower_ends h) (e ∙ a) c (g ∙ d) in
      (u, first follower_ends refl h run, q)

  Drains-readers :
      (n : ℕ) (v : World)
      → Reach o v
      → v.readers ≡ n
      → v.job.done ≡ true
      → (u : World) × Drains sys v u × Drained u
  Drains-readers zero v r a d = Drains-followers v.followers v r a refl d
  Drains-readers (suc n) v r a d =
      let (w, h) =
        took (step sys v reader_ends) (reader-open sys v n a, step-ne-panics f r sys reader_ends) in
      let (c, e, g, _) = reader-closed sys v w n a h in
      let (u, run, q) = Drains-readers n w (next r sys reader_ends h) c (g ∙ d) in
      (u, first reader_ends refl h run, q)

  exited-Drains :
      (v : World) (code : ℤ)
      → Reach o v
      → v.job.process_state ≡ some code
      → v.exit_ran ≡ false
      → v.cleaning ≡ false
      → v.job.handler ≢ zombie
      → (u : World) × Drains sys v u × Drained u
  exited-Drains v code r p e c z =
      let (w, h) =
        took (step sys v run_exited)
          (run-unlocked sys v code p e c, step-ne-panics f r sys run_exited) in
      let s = next r sys run_exited h in
      let d = ran_done w s (exited-ran sys v w h) (λ q. z (exited-alive sys v w h q)) in
      let (u, run, q) = Drains-readers w.readers w s refl d in (u, first run_exited refl h run, q)
    where
      ran_done :
          (w : World) → Reach o w → w.exit_ran ≡ true → w.job.handler ≢ zombie → w.job.done ≡ true
      ran_done w s e n = elim ((Reach-Inv f s).exited_done e) [
        | inl zombied ↦ absurd (n zombied)
        | inr done ↦ done
      ]

-- Wherever a run of a new job stands, if the job is not removed and no Cleanup holds its lock, it can
-- come to its end without any call: its process ends, exited closes the channel, and the open
-- readers and followers end; then no reader is open, and a Cleanup waits for nothing.
pub job-Drains :
    {o v : World}
    → IsFresh o
    → Reach o v
    → v.job.handler ≢ zombie
    → v.cleaning ≡ false
    → (sys : Sys)
    → (u : World) × Drains sys v u × Drained u × ((later : Sys) → Api.cleanup later u.job ≢ blocks)
job-Drains {o} {v} f r z c sys =
    let (u, run, d) = drained in (u, run, d, λ later. cleanup-free later u.job d.unread)
  where
    cleanup-free : (later : Sys) (j : Job) → j.out_lock ≡ 0 → Api.cleanup later j ≢ blocks
    cleanup-free later j l e = unfold Api.cleanup in ground arith

    drained : (u : World) × Drains sys v u × Drained u
    drained = elim (Bool-cases v.exit_ran) [
      | inl ran ↦ elim ((Reach-Inv f r).exited_done ran) [
        | inl zombied ↦ absurd (z zombied)
        | inr done ↦ Drains-readers sys f v.readers v r refl done
      ]
      | inr not_yet ↦ elim (Option-cases v.job.process_state) [
        | inr (code, p) ↦ exited-Drains sys f v code r p not_yet c z
        | inl runs_on ↦
            let h = process-ends sys v runs_on in
            let (u, run, d) =
              exited-Drains sys f _ (pos 0) (next r sys (process_exits (pos 0)) h) refl not_yet c
                z in
            (u, first (process_exits (pos 0)) refl h run, d)
      ]
    ]
