-- ===== src/Startup/Reload.antt =====
-- The interval at which the server reads its certificate again.
use jobs.Prelude.{
  Text, ℕ, zero, suc, ℤ, pos, negsuc, ◌*◌, ◌^◌, ◌<◌, ◌≤◌, Option, none, some, ◌≡◌, refl, arith,
}
use jobs.CertLoader.{Loader, LoadResult, loaded, failed}
use jobs.CertLoader
use jobs.Startup.{loader}
use jobs.Startup.Config.{
  ServerConfig, Sources, Found, found, not_found, ended, complete, find_config, default_reload,
  seconds,
}

-- No overflow up to the largest number of seconds that a Duration holds.
seconds-pos : (n : ℕ) → n ≤ 9_223_372_036 → seconds (pos n) ≡ pos (n * 1_000_000_000)
unfolding seconds
seconds-pos n h = ground arith

seconds_overflow : (k : ℕ) → seconds (pos (k * 2 ^ 55)) ≡ pos 0
unfolding seconds
seconds_overflow k = ground arith

default_reload-pos : (x : ℤ) → (n : ℕ) × (default_reload x ≡ pos n) × (0 < n)
default_reload-pos (pos zero) = (30, refl, omega arith)
default_reload-pos (pos (suc n)) = (suc n, refl, omega arith)
default_reload-pos (negsuc n) = (30, refl, omega arith)

reload_pos :
    (s : Sources) (file : Text) (cfg : ServerConfig)
    → find_config s file ≡ found cfg
    → (n : ℕ) × (cfg.reload_sec ≡ pos n) × (0 < n)
unfolding find_config
reload_pos s file cfg h = go (s.viper file) h
  where
    go : (f : Found) → complete s f ≡ found cfg → (n : ℕ) × (cfg.reload_sec ≡ pos n) × (0 < n)
    go (not_found e) q = absurd (cc)
    go (ended n) q = absurd (cc)
    go (found c) q = let (n, e, p) = default_reload-pos c.reload_sec in (n, ground arith, p)

start-returns :
    (cfg : ServerConfig) (n : ℕ)
    → 0 < n
    → seconds cfg.reload_sec ≡ pos (n * 1_000_000_000)
    → (r : LoadResult)
    → (l : Loader) × (x : Option CertLoader.Error) × (CertLoader.start r (loader cfg)
        ≡ CertLoader.returns l x)
unfolding CertLoader.start
start-returns cfg n p e (loaded c) =
    (record (loader cfg) { cert = some c; ticking = 1 }, none, ground arith)
start-returns cfg n p e (failed x) = (loader cfg, some (CertLoader.load_error x), ground arith)

start-panics :
    (cfg : ServerConfig) (c : Text)
    → seconds cfg.reload_sec ≡ pos 0
    → (l : Loader) × (CertLoader.start (loaded c) (loader cfg) ≡ CertLoader.panics l)
unfolding CertLoader.start
start-panics cfg c e = (record (loader cfg) { cert = some c }, ground arith)

pub seconds_bounds :
    (s : Sources) (file : Text) (cfg : ServerConfig)
    → find_config s file ≡ found cfg
    → (n : ℕ) × (cfg.reload_sec ≡ pos n)
      × (0 < n)
      × (n ≤ 9_223_372_036
          → (seconds cfg.reload_sec ≡ pos (n * 1_000_000_000))
            × ((r : LoadResult)
                → (l : Loader) × (x : Option CertLoader.Error) × (CertLoader.start r (loader cfg)
                    ≡ CertLoader.returns l x)))
      × ((k : ℕ)
          → n ≡ k * 2 ^ 55
          → (c : Text)
          → (l : Loader) × (CertLoader.start (loaded c) (loader cfg) ≡ CertLoader.panics l))
seconds_bounds s file cfg h =
    let (n, e, p) = reload_pos s file cfg h in
    (
      n,
      e,
      p,
      (λ small.
          let f : seconds cfg.reload_sec ≡ pos (n * 1_000_000_000) = rw e (seconds-pos n small) in
          (f, λ r. start-returns cfg n p f r)),
      (λ k q c. start-panics cfg c (rw (e, q) (seconds_overflow k))),
    )
