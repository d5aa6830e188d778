-- ===== src/CertLoader/Examples.antt =====
-- Tests and instances.
use jobs.Prelude.{text, ◌≤◌, pos, false, [], ◌∷◌, List, none, some, ◌≡◌, refl}
use jobs.CertLoader.{Loader, loaded, failed, Event, starts, ticks, stops, step, run, stop}
use jobs.CertLoader.Reloads.{run-never_started}

abbrev idle : Loader
idle = record {
  cert_path = text "cert.pem";
  key_path = text "key.pem";
  reload = pos 30_000_000_000;
  cert = none;
  started = false;
  ticking = 0;
}

abbrev serving : Loader
serving = record idle { cert = some (text "a"); ticking = 1 }

abbrev events : List Event
events = ticks (loaded (text "b")) ∷ ticks (failed (text "no file")) ∷ stops ∷ []

run-never_started_example :
    ((run idle (starts (loaded (text "a")) ∷ stops ∷ [])).started ≡ false)
    × (0 ≤ (run idle (starts (loaded (text "a")) ∷ stops ∷ [])).ticking)
    × (stop (run idle (starts (loaded (text "a")) ∷ stops ∷ []))
        ≡ run idle (starts (loaded (text "a")) ∷ stops ∷ []))
run-never_started_example = run-never_started idle (starts (loaded (text "a")) ∷ stops ∷ []) refl

-- A ticker still runs after Stop.
stop_leaves_ticker : (run idle (starts (loaded (text "a")) ∷ stops ∷ [])).ticking ≡ 1
unfolding run step
stop_leaves_ticker = refl
