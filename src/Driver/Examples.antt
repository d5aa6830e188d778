-- ===== src/Driver/Examples.antt =====
-- Tests and instances.
use jobs.Prelude.{text, text_eq, true, false, [], ◌∷◌, ◌≡◌, refl}
use jobs.Shim.{Host}
use jobs.Shim
use jobs.Server.Follow.{read}
use jobs.Server.Follow.Delivery.{steady, fresh_reader}
use jobs.Driver.{exited, crashed, driver_loop, run_job, main}
use jobs.Fixtures.{all_ok, host, job}

abbrev h : Host
h = record { system = host; render = λ e. text "busy"; prctl_works = false; command_starts = true }

no_argument : main h all_ok [] [] [] [] [] job.ids ≡ crashed
unfolding main run_job text_eq
no_argument = refl

prints :
    driver_loop
      (record (steady (text "a")) { done = false } ∷ steady (text "ab") ∷ steady (text "ab") ∷ [])
      (fresh_reader (text "out"))
      []
    ≡ exited 0 (text "ab")
unfolding driver_loop read
prints = refl
