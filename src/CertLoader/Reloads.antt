-- ===== src/CertLoader/Reloads.antt =====
-- What the loader serves, and what Stop does.
use jobs.Prelude.{Text, ◌≤◌, ◌<◌, false, List, [], ◌∷◌, Option, some, ◌≡◌, refl, arith, ◌∙◌}
use jobs.CertLoader.{loaded, failed, Loader, Event, starts, ticks, stops, stop, step, run}

step-started :
    (l : Loader) (e : Event)
    → l.started ≡ false
    → ((step l e).started ≡ false) × (l.ticking ≤ (step l e).ticking)
unfolding step
step-started l (starts (loaded c)) h = ground arith
step-started l (starts (failed c)) h = ground arith
step-started l (ticks (loaded c)) h = ground arith
step-started l (ticks (failed c)) h = ground arith
step-started l stops h = ground arith

-- `started` is never set: a loader that is not started stays so through any calls and ticks, and
-- so none of them stops a ticker, Stop included; there are never fewer tickers than before.
pub run-never_started :
    (l : Loader) (es : List Event)
    → l.started ≡ false
    → ((run l es).started ≡ false) × (l.ticking ≤ (run l es).ticking) × (stop (run l es) ≡ run l es)
unfolding run stop
run-never_started l [] h = ground arith
run-never_started l (e ∷ es) h =
    let (s, t) = step-started l e h in
    let (s', t', u) = run-never_started (step l e) es s in (s', omega arith, u)

-- The last certificate that was read, in calls and ticks that reached the loader.
abbrev pub last_loaded : Option Text → List Event → Option Text
last_loaded c [] = c
last_loaded c (starts (loaded d) ∷ es) = last_loaded (some d) es
last_loaded c (ticks (loaded d) ∷ es) = last_loaded (some d) es
last_loaded c (_ ∷ es) = last_loaded c es

last_loaded-step :
    (l : Loader) (e : Event) (es : List Event)
    → 0 < l.ticking
    → l.started ≡ false
    → last_loaded (step l e).cert es ≡ last_loaded l.cert (e ∷ es)
unfolding step
last_loaded-step l (starts (loaded c)) es t s = ground arith
last_loaded-step l (starts (failed c)) es t s = ground arith
last_loaded-step l (ticks (loaded c)) es t s = ground arith
last_loaded-step l (ticks (failed c)) es t s = ground arith
last_loaded-step l stops es t s = ground arith

-- Once a ticker runs, Cert is the last certificate that was read without an error, by a tick or by
-- a Start: a pair of files that cannot be read leaves the previous one in use, and Stop changes
-- nothing.
pub run-cert :
    (l : Loader) (es : List Event)
    → l.started ≡ false
    → 0 < l.ticking
    → (run l es).cert ≡ last_loaded l.cert es
unfolding run
run-cert l [] s t = refl
run-cert l (e ∷ es) s t =
    let (s', t') = step-started l e s in
    run-cert (step l e) es s' (omega arith) ∙ last_loaded-step l e es t s
