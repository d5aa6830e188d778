-- ===== src/Driver/Telling.antt =====
-- The two shims, and what they tell their parent.
use jobs.Shim.{Begun}
use jobs.Shim
