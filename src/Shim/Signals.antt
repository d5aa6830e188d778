-- ===== src/Shim/Signals.antt =====
-- What the shim does with signals, and the status that it ends with.
use jobs.Prelude.{◌≡◌, ◌⊎◌}
use jobs.Shim.{Event, hang_up, terminate}

-- SIGHUP or SIGTERM.
abbrev pub IsSignal : Event → Type 0
IsSignal e = (e ≡ hang_up) ⊎ (e ≡ terminate)
