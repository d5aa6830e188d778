-- ===== src/Job/Examples.antt =====
-- Tests and instances, on one job and its threads.
use jobs.Prelude.{pos, Bool, true, false, [], ◌∷◌, none, some, ◌≡◌, ◌≢◌, ◌↔◌, refl, arith}
use jobs.Job.{
  Sys, Job, active, stopping, stopped, zombie, sigterm, sigkill, returns, blocks, panics,
}
use jobs.Job.Api.{wait, init_stop, stop, completed}
use jobs.Job.Threads.{
  World, Action, call_stop, begin_cleanup, end_cleanup, timer_expires, timer_stops, process_exits,
  run_exited, follower_ends, step, Reach, IsFresh,
}
use jobs.Job.Diagram.{After, Reach-After}
use jobs.Job.Safety.{step-ne-panics, wait_iff}
use jobs.Job.Stopping.{failed_init_stop_kills}
use jobs.Job.Deadlock.{IsStuck, Patient, wants_lock, Patient-IsStuck, follow_stop_cleanup}
use jobs.Fixtures.{all_ok, no_signal, job, killed_job, world, killed_world}

fresh : IsFresh world
fresh = ground arith

-- A forced stop.
killing : Reach world killed_world
unfolding step
killing = Reach.next Reach.here all_ok call_stop refl

step-ne-panics_example : step all_ok killed_world run_exited ≢ panics
step-ne-panics_example = step-ne-panics fresh killing all_ok run_exited

wait_iff_example :
    ((wait killed_job ≡ returns tt) ↔ (false ≡ true))
    × (◌≡◌ {A = Bool} false false → wait killed_job ≡ blocks)
wait_iff_example = wait_iff fresh killing (λ e. cc)

-- The killed job, when its process ends, and after the waiting goroutine.
abbrev ended_world : World
ended_world = record killed_world { job = record killed_job { process_state = some (pos 0) } }

abbrev dead_zombie : World
dead_zombie = record killed_world {
  job = record killed_job { handler = zombie; process_state = some (pos 0) };
}

abbrev zombie_world : World
zombie_world = record killed_world { job = record killed_job { handler = zombie } }

after_kill : Reach killed_world ended_world
unfolding step
after_kill = Reach.next Reach.here all_ok (process_exits (pos 0)) refl

after_zombie : Reach zombie_world dead_zombie
unfolding step
after_zombie = Reach.next Reach.here all_ok (process_exits (pos 0)) refl

-- A job that was asked to stop.
abbrev asked_world : World
asked_world = record world {
  job = record job {
    sent = sigterm ∷ [];
    handler = stopping;
    stop_timer = some 0;
    next_timer = 1;
    armed = (0, 30) ∷ [];
  };
}

-- An asked job that is stopped by force, and then removed.
stopped_job : Job
unfolding stop
stopped_job = (stop all_ok asked_world.job).0

stopped_world : World
stopped_world = record asked_world { job = stopped_job }

removed_world : World
removed_world = record stopped_world {
  job = record stopped_job { handler = zombie; dir_removed = true };
}

removing : Reach asked_world removed_world
unfolding step removed_world stopped_world stopped_job stop
removing =
    Reach.next {w = record stopped_world { cleaning = true }}
      (Reach.next {w = stopped_world} (Reach.next Reach.here all_ok call_stop refl) all_ok
        begin_cleanup refl)
      all_ok end_cleanup refl

-- It is neither active nor ended.
Reach-After_example : After stopping removed_world.job.handler
Reach-After_example = Reach-After removing

abbrev refused : World
unfolding init_stop
refused = record world { job = (init_stop no_signal job 30).0 }

refuses : (init_stop no_signal world.job 30).1 ≢ none
unfolding init_stop
refuses e = cc

failed_init_stop_kills_example :
    (refused.job.handler ≡ active)
    × ((u v : World) × (step all_ok refused (timer_expires 0) ≡ returns u)
        × (step all_ok u timer_stops ≡ returns v)
        × (v.job.handler ≡ stopped)
        × (v.job.sent ≡ sigkill ∷ []))
unfolding init_stop
failed_init_stop_kills_example =
    failed_init_stop_kills no_signal all_ok world 30 refl refl refuses (λ k. refl)

-- A follower, a forced stop, and a Cleanup.
abbrev stuck : World
stuck = record killed_world {
  job = record killed_job { out_lock = 1; log_readers = 1 };
  cleaning = true;
  followers = 1;
}

stuck-IsStuck : IsStuck stuck
stuck-IsStuck = ground arith

-- The process ends, and the Cleanup still waits.
abbrev still_stuck : World
still_stuck = record stuck {
  job = record killed_job { out_lock = 1; log_readers = 1; process_state = some (pos 0) };
}

waiting : Patient stuck still_stuck
unfolding step
waiting =
    Patient.next Patient.here all_ok (process_exits (pos 0)) (λ e. ground arith) (λ e. ground arith)
      refl

Patient-IsStuck_example :
    IsStuck still_stuck
    × (wait still_stuck.job ≡ blocks)
    × ((sys : Sys)
        → (step sys still_stuck end_cleanup ≡ blocks)
          × (step sys still_stuck follower_ends ≡ blocks)
          × ((a : Action) → wants_lock a ≡ true → step sys still_stuck a ≡ blocks))
Patient-IsStuck_example = Patient-IsStuck stuck-IsStuck waiting

follow_stop_cleanup_example : (u : World) × Reach world u × IsStuck u × (completed u.job ≡ true)
follow_stop_cleanup_example = follow_stop_cleanup all_ok world fresh refl (λ j. refl)
