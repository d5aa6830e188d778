-- ===== src/Startup/Listening.antt =====
-- When the server comes to serve, and with what.
use jobs.Prelude.{
  Text, ℕ, pos, ◌*◌, ◌<◌, ◌≤◌, true, none, some, ◌≡◌, ◌⊎◌, inl, inr, refl, sym, ◌∙◌, ap, arith,
  Option-cases, Bool-cases,
}
use jobs.CertLoader.{Loader, LoadResult, loaded, failed}
use jobs.CertLoader
use jobs.Flags.{Flags}
use jobs.Server.{JobServer, Created, created, refused}
use jobs.Server
use jobs.Server.Matching.{Matched}
use jobs.Server.Serving.{new-Matched}
use jobs.Startup.{
  World, Outcome, exited, serving, loader, listen, with_certificate, with_server, main,
}
use jobs.Startup.Config.{ServerConfig, found, find_config, seconds}
use jobs.Startup.Reload.{seconds_bounds}

-- The loader once its ticker runs.
abbrev pub running : ServerConfig → Text → Loader
running cfg c = record (loader cfg) { cert = some c; ticking = 1 }

start_loaded :
    (cfg : ServerConfig) (c : Text) (n : ℕ)
    → seconds cfg.reload_sec ≡ pos n
    → 0 < n
    → CertLoader.start (loaded c) (loader cfg) ≡ CertLoader.returns (running cfg c) none
unfolding CertLoader.start
start_loaded cfg c n e p = ground arith

start_failed :
    (cfg : ServerConfig) (e : Text)
    → (l : Loader) × (x : CertLoader.Error) × (CertLoader.start (failed e) (loader cfg)
        ≡ CertLoader.returns l (some x))
unfolding CertLoader.start
start_failed cfg e = (_, _, refl)

-- What the server needs to serve.
abbrev pub CanServe : World → ServerConfig → JobServer → Text → Type 0
CanServe w cfg js c =
    (Server.new cfg.full_access cfg.read_access cfg.uid cfg.gid ≡ created js)
    × (w.certificate cfg.cert_path cfg.key_path ≡ loaded c)
    × ((ca : Text) × (w.ca_file cfg.ca_path ≡ some ca) × (w.ca_parses ca ≡ true))
    × (w.listens cfg.address ≡ true)

listen_cases :
    (w : World) (cfg : ServerConfig) (js : JobServer) (c : Text)
    → Server.new cfg.full_access cfg.read_access cfg.uid cfg.gid ≡ created js
    → w.certificate cfg.cert_path cfg.key_path ≡ loaded c
    → (listen w cfg js (running cfg c) ≡ exited 1)
      ⊎ ((listen w cfg js (running cfg c) ≡ serving cfg js (running cfg c)) × CanServe w cfg js c)
listen_cases w cfg js c h q = elim (Option-cases (w.ca_file cfg.ca_path)) [
  | inl missing ↦ inl (rw (missing, listen) refl)
  | inr (ca, read) ↦ elim (Bool-cases (w.ca_parses ca)) [
    | inr bad ↦ inl (rw (read, bad, listen) refl)
    | inl good ↦ elim (Bool-cases (w.listens cfg.address)) [
      | inr busy ↦ inl (rw (read, good, busy, listen) refl)
      | inl free ↦ inr (rw (read, good, free, listen) refl, (h, q, (ca, read, good), free))
    ]
  ]
]

-- It ends with status 1, or it serves and could.
abbrev Ends : World → ServerConfig → Outcome → Type 0
Ends w cfg o =
    (o ≡ exited 1)
    ⊎ ((js : JobServer) × (c : Text) × (o ≡ serving cfg js (running cfg c)) × CanServe w cfg js c)

module _ (w : World) (cfg : ServerConfig) (n : ℕ) (interval : seconds cfg.reload_sec ≡ pos n)
    (positive : 0 < n) where
  certificate_Ends :
      (js : JobServer) (r : LoadResult)
      → Server.new cfg.full_access cfg.read_access cfg.uid cfg.gid ≡ created js
      → w.certificate cfg.cert_path cfg.key_path ≡ r
      → Ends w cfg (with_certificate w cfg js (CertLoader.start r (loader cfg)))
  certificate_Ends js (loaded c) h q =
      rw (start_loaded cfg c n interval positive)
        (elim (listen_cases w cfg js c h q) [ inl e ↦ inl e | inr (e, can) ↦ inr (js, c, e, can) ])
  certificate_Ends js (failed e) h q = let (l, x, p) = start_failed cfg e in rw p (inl refl)

  server_Ends :
      (r : Created)
      → Server.new cfg.full_access cfg.read_access cfg.uid cfg.gid ≡ r
      → Ends w cfg (with_server w cfg r)
  server_Ends (refused e) h = inl refl
  server_Ends (created js) h = certificate_Ends js (w.certificate cfg.cert_path cfg.key_path) h refl

  can_serve :
      (js : JobServer) (c : Text)
      → CanServe w cfg js c
      → with_server w cfg (Server.new cfg.full_access cfg.read_access cfg.uid cfg.gid)
        ≡ serving cfg js (running cfg c)
  can_serve js c (made, cert, (ca, read, good), free) =
      rw (made, cert, start_loaded cfg c n interval positive, read, good, free, listen) refl

-- A server whose configuration is found, with an interval for the certificate of at most 9223372036
-- seconds, never panics in its start. It serves exactly if its configuration makes a server, its certificate is loaded, the CA's
-- file is read and parsed, and the address can be listened at; then it serves with that server, in
-- which every job has an owner, with that certificate, and with a ticker that runs. In all other
-- cases it ends with status 1.
pub main_lem :
    (w : World) (f : Flags) (cfg : ServerConfig) (n : ℕ)
    → find_config w.sources f.config ≡ found cfg
    → cfg.reload_sec ≡ pos n
    → n ≤ 9_223_372_036
    → ((main w f ≡ exited 1)
        ⊎ ((js : JobServer) × (c : Text) × (main w f ≡ serving cfg js (running cfg c))
            × CanServe w cfg js c))
      × ((js : JobServer) (c : Text)
          → CanServe w cfg js c
          → (main w f ≡ serving cfg js (running cfg c)) × Matched js)
unfolding main
main_lem w f cfg n h e b =
    let (k, same, p, small, _) = seconds_bounds w.sources f.config cfg h in
    let k_n : k ≡ n = pos-injective k n (sym same ∙ e) in
    let interval : seconds cfg.reload_sec ≡ pos (n * 1_000_000_000) =
      (small (omega (arith, k_n))).0 ∙ ap (λ (i : ℕ). pos (i * 1_000_000_000)) k_n in
    rw h (
      server_Ends w cfg (n * 1_000_000_000) interval (omega (arith, k_n)) _ refl,
      λ js c can. (
        can_serve w cfg (n * 1_000_000_000) interval (omega (arith, k_n)) js c can,
        new-Matched cfg.full_access cfg.read_access cfg.uid cfg.gid js can.0,
      ),
    )
  where
    pos-injective : (i j : ℕ) → pos i ≡ pos j → i ≡ j
    pos-injective i j q = cc
