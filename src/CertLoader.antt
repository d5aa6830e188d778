-- ===== src/CertLoader.antt =====
-- pkg/certloader/loader.go: the server's certificate, read again at every tick of a ticker. Each
-- method holds the lock, so it is one function of the loader. `ticking` counts the tickers that run.
pub mod Reloads
mod Examples
use jobs.Prelude.{
  Text, ℕ, suc, ℤ, pos, is_positive, is_negative, Bool, true, false, List, [], ◌∷◌, Option, none,
  some, if◌then◌else◌,
}

-- What tls.LoadX509KeyPair answers; a certificate is its text.
pub data LoadResult : Type 0 where
  loaded : Text → LoadResult
  failed : Text → LoadResult

pub data Error : Type 0 where
  already_started : Error
  load_error : Text → Error

pub record Loader : Type 0 where
  pub cert_path : Text
  pub key_path : Text
  pub reload : ℤ  -- nanoseconds
  pub cert : Option Text
  pub started : Bool
  pub ticking : ℕ

-- A call returns the loader and its error, or panics.
pub data Outcome : Type 0 where
  returns : Loader → Option Error → Outcome
  panics : Loader → Outcome

abbrev pub after : Outcome → Loader
after (returns l e) = l
after (panics l) = l

unfoldable pub stop : Loader → Loader
stop l = if l.started then record l { ticking = 0; started = false } else l

abbrev default_reload : Loader → Loader
default_reload l = if is_negative l.reload then record l { reload = pos 30_000_000_000 } else l

-- time.NewTicker panics on an interval that is not positive.
abbrev start_ticker : Loader → Outcome
start_ticker l =
    if is_positive l.reload then returns (record l { ticking = suc l.ticking }) none else panics l

unfoldable pub start : LoadResult → Loader → Outcome
start (loaded c) l =
    if l.started
    then returns l (some already_started)
    else start_ticker (record (default_reload l) { cert = some c })
start (failed e) l =
    if l.started
    then returns l (some already_started)
    else returns (default_reload l) (some (load_error e))

-- The body of the ticker's loop; an error is only logged.
unfoldable pub reload : LoadResult → Loader → Loader × Option Error
reload (loaded c) l = (record l { cert = some c }, none)
reload (failed e) l = (l, some (load_error e))

pub data Event : Type 0 where
  starts ticks : LoadResult → Event
  stops : Event

-- A tick comes only while a ticker runs.
unfoldable pub step : Loader → Event → Loader
unfolding start reload stop
step l (starts r) = after (start r l)
step l (ticks r) = if is_positive (pos l.ticking) then (reload r l).0 else l
step l stops = stop l

unfoldable pub run : Loader → List Event → Loader
run l [] = l
run l (e ∷ es) = run (step l e) es
