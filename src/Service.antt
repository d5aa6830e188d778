-- ===== src/Service.antt =====
-- A call of a client on the whole server: the interceptors of cmd/server/main.go, which name the
-- client and catch a panic, and the handlers of pkg/server/server.go.
pub mod Spec
pub mod View
pub mod Refinement
mod Examples
use jobs.Prelude.{Text, Bool, List, [], ◌∷◌, Option, none, some}
use jobs.Job.{Sys, Outcome, returns, blocks, panics, OutputReader}
use jobs.Effects.{System}
use jobs.Server.Context.{background, store_auth_id, auth_id}
use jobs.Server.{
  JobServer, StopMode, Limits, Details, code_unauthenticated, code_internal, no_name_provided,
  internal_error, Reply, ok, status_error, panicked, waits, start, stop, remove, inspect, open_logs,
}

-- What the connection tells of the client: no peer, credentials that are not those of TLS, or the
-- chains that were verified, each a list of certificates with their DNS names.
pub data Peer : Type 0 where
  no_peer other_credentials : Peer
  verified : List (List (List Text)) → Peer

abbrev first_name : List (List (List Text)) → Option Text
first_name (((name ∷ names) ∷ certs) ∷ chains) = some name
first_name _ = none

-- clientID; the type assertion on the credentials may panic.
unfoldable pub client_id : Peer → Outcome (Option Text)
client_id no_peer = returns none
client_id other_credentials = panics
client_id (verified chains) = returns (first_name chains)

-- The deferred call that recovers.
abbrev pub recovered {ℓ} : {A : Type ℓ} → JobServer × Reply A → JobServer × Reply A
recovered (s, panicked) = (s, status_error code_internal internal_error)
recovered (s, ok a) = (s, ok a)
recovered (s, status_error c e) = (s, status_error c e)
recovered (s, waits) = (s, waits)

-- What the interceptors do with the name: the handler finds it in its context, of which no other
-- value matters.
abbrev pub intercepted {ℓ} :
    {A : Type ℓ}
    → Outcome (Option Text)
    → JobServer
    → (Option Text → JobServer × Reply A)
    → JobServer × Reply A
intercepted panics s handler = recovered (s, panicked)
intercepted blocks s handler = (s, waits)
intercepted (returns none) s handler = (s, status_error code_unauthenticated no_name_provided)
intercepted (returns (some name)) s handler =
    recovered (handler (auth_id (store_auth_id background name)))

-- interceptor and streamInterceptor
unfoldable pub intercept {ℓ} :
    {A : Type ℓ} → Peer → JobServer → (Option Text → JobServer × Reply A) → JobServer × Reply A
intercept peer s handler = intercepted (client_id peer) s handler

-- The unary calls, and Logs up to its loop.
pub data Request : Type 0 where
  start_job : Text → List Text → Option Limits → Request
  stop_job : Text → StopMode → Request
  remove_job inspect_job open_log : Text → Request

pub data Response : Type 0 where
  job_started : Text → Response
  done : Response
  job_details : Details → Response
  log_opened : OutputReader → Response

-- How the system answers during a call.
pub record Moment : Type 0 where
  pub host : System
  pub sys : Sys

abbrev pub respond {ℓ} :
    {A : Type ℓ} → (A → Response) → JobServer × Reply A → JobServer × Reply Response
respond f (s, ok a) = (s, ok (f a))
respond f (s, status_error c e) = (s, status_error c e)
respond f (s, panicked) = (s, panicked)
respond f (s, waits) = (s, waits)

unfoldable pub handle : Moment → JobServer → Option Text → Request → JobServer × Reply Response
handle m s cid (start_job cmd args limits) =
    respond job_started (start m.host s cid cmd args limits)
handle m s cid (stop_job id mode) = respond (λ _. done) (stop m.sys s cid id mode)
handle m s cid (remove_job id) = respond (λ _. done) (remove m.sys s cid id)
handle m s cid (inspect_job id) = respond job_details (s, inspect s cid id)
handle m s cid (open_log id) = respond log_opened (open_logs m.sys s cid id)

unfoldable pub serve : Moment → Peer → JobServer → Request → JobServer × Reply Response
unfolding intercept
serve m peer s r = intercept peer s (λ cid. handle m s cid r)

pub record Call : Type 0 where
  pub moment : Moment
  pub peer : Peer
  pub request : Request

-- Calls one after another, with their replies.
unfoldable pub serve_all : JobServer → List Call → JobServer × List (Reply Response)
serve_all s [] = (s, [])
serve_all s (c ∷ cs) =
    let (t, r) = serve c.moment c.peer s c.request in let (u, rs) = serve_all t cs in (u, r ∷ rs)
