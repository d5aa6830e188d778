-- ===== src/Client/Session/Jobs.antt =====
-- A job from jctrl run to jctrl inspect.
use jobs.Server
