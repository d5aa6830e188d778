-- ===== src/Service/Refinement/Calls.antt =====
-- One call of a client, through the interceptors, against the specification.
use jobs.Prelude.{Text, Option, none, some, ◌≡◌, ◌≢◌, refl, sym, arith}
use jobs.Job.{Outcome, returns, blocks, panics}
use jobs.Server
use jobs.Server.{JobServer, Reply, panicked, waits, created, new, finish_new, add_readers}
use jobs.Server.Matching.{Matched, start-Matched, stop-Matched, remove-Matched, open_logs-Matched}
use jobs.Service.{
  Peer, client_id, intercepted, recovered, done, job_started, job_details, log_opened, Request,
  start_job, stop_job, remove_job, inspect_job, open_log, Response, Moment, respond, handle, serve,
}
use jobs.Service.Spec.{View, Policy, spec_handle, spec_intercepted, spec_serve}
use jobs.Service.View.{view, policy}
use jobs.Service.Refinement.{Implements}
use jobs.Service.Refinement.Handlers.{stop-Implements, inspect-Implements, open_log-Implements}
use jobs.Service.Refinement.Changes.{IsFit, start-Implements, remove-Implements}

recovered-Implements :
    (s : JobServer) (impl : JobServer × Reply Response) (spec : View × Reply Response)
    → Implements s impl spec
    → spec.1 ≢ panicked
    → Implements s (recovered impl) spec
recovered-Implements s (t, panicked) spec (v, r, p) n = absurd (n (sym r))
recovered-Implements s (t, Reply.ok a) spec h n = h
recovered-Implements s (t, Reply.status_error c e) spec h n = h
recovered-Implements s (t, waits) spec h n = h

recovered-waits : (impl : JobServer × Reply Response) → (recovered impl).1 ≢ waits → impl.1 ≢ waits
recovered-waits (t, panicked) h e = cc
recovered-waits (t, Reply.ok a) h e = h e
recovered-waits (t, Reply.status_error c x) h e = h e
recovered-waits (t, waits) h e = h e

spec_handle-ne-panicked :
    (m : Moment) (p : Policy) (v : View) (cid : Text) (r : Request)
    → (spec_handle m p v cid r).1 ≢ panicked
unfolding spec_handle
spec_handle-ne-panicked m p v cid (start_job cmd args none) h = cc
spec_handle-ne-panicked m p v cid (start_job cmd args (some l)) h = ground arith
spec_handle-ne-panicked m p v cid (stop_job id mode) h = ground arith
spec_handle-ne-panicked m p v cid (remove_job id) h = ground arith
spec_handle-ne-panicked m p v cid (inspect_job id) h = ground arith
spec_handle-ne-panicked m p v cid (open_log id) h = ground arith

handle-Implements :
    (m : Moment) (s : JobServer) (cid : Text) (r : Request)
    → Matched s
    → IsFit m cid
    → (handle m s (some cid) r).1 ≢ waits
    → Implements s (recovered (handle m s (some cid) r)) (spec_handle m (policy s) (view s) cid r)
handle-Implements m s cid (start_job cmd args none) k fit w =
    unfold handle in unfold Server.start in unfold spec_handle in (refl, refl, refl)
handle-Implements m s cid (start_job cmd args (some l)) k fit w =
    recovered-Implements s _ _ (start-Implements m s cid cmd args l fit)
      (spec_handle-ne-panicked m _ _ cid _)
handle-Implements m s cid (stop_job id mode) k fit w =
    recovered-Implements s _ _ (stop-Implements m s cid id mode k)
      (spec_handle-ne-panicked m _ _ cid _)
handle-Implements m s cid (remove_job id) k fit w =
    recovered-Implements s _ _ (remove-Implements m s cid id k w)
      (spec_handle-ne-panicked m _ _ cid _)
handle-Implements m s cid (inspect_job id) k fit w =
    recovered-Implements s _ _ (inspect-Implements m s cid id k)
      (spec_handle-ne-panicked m _ _ cid _)
handle-Implements m s cid (open_log id) k fit w =
    recovered-Implements s _ _ (open_log-Implements m s cid id k)
      (spec_handle-ne-panicked m _ _ cid _)

-- The client that the peer names, if any, has more than blanks.
abbrev pub FitPeer : Moment → Peer → Type 0
FitPeer m peer = (cid : Text) → client_id peer ≡ returns (some cid) → IsFit m cid

named-Implements :
    (c : Outcome (Option Text)) (m : Moment) (s : JobServer) (r : Request)
    → Matched s
    → ((cid : Text) → c ≡ returns (some cid) → IsFit m cid)
    → (intercepted c s (λ n. handle m s n r)).1 ≢ waits
    → Implements s
        (intercepted c s (λ n. handle m s n r))
        (spec_intercepted c m (policy s) (view s) r)
named-Implements panics m s r k fit w = (refl, refl, refl)
named-Implements blocks m s r k fit w = (refl, refl, refl)
named-Implements (returns none) m s r k fit w = (refl, refl, refl)
named-Implements (returns (some cid)) m s r k fit w =
    handle-Implements m s cid r k (fit cid refl) (recovered-waits (handle m s (some cid) r) w)

pub serve-Implements :
    (m : Moment) (peer : Peer) (s : JobServer) (r : Request)
    → Matched s
    → FitPeer m peer
    → (serve m peer s r).1 ≢ waits
    → Implements s (serve m peer s r) (spec_serve m (policy s) peer (view s) r)
unfolding serve spec_serve
serve-Implements m peer s r k fit w = named-Implements (client_id peer) m s r k fit w

respond-Matched {ℓ} :
    {A : Type ℓ} (f : A → Response) (x : JobServer × Reply A)
    → Matched x.0
    → Matched (respond f x).0
respond-Matched f (s, Reply.ok a) h = h
respond-Matched f (s, Reply.status_error c e) h = h
respond-Matched f (s, panicked) h = h
respond-Matched f (s, waits) h = h

respond-waits {ℓ} :
    {A : Type ℓ} (f : A → Response) (x : JobServer × Reply A)
    → (respond f x).1 ≢ waits
    → x.1 ≢ waits
respond-waits f (s, Reply.ok a) h e = cc
respond-waits f (s, Reply.status_error c x) h e = cc
respond-waits f (s, panicked) h e = cc
respond-waits f (s, waits) h e = h refl

recovered-Matched : (x : JobServer × Reply Response) → Matched x.0 → Matched (recovered x).0
recovered-Matched (s, Reply.ok a) h = h
recovered-Matched (s, Reply.status_error c e) h = h
recovered-Matched (s, panicked) h = h
recovered-Matched (s, waits) h = h

handle-Matched :
    (m : Moment) (s : JobServer) (cid : Text) (r : Request)
    → Matched s
    → IsFit m cid
    → (handle m s (some cid) r).1 ≢ waits
    → Matched (handle m s (some cid) r).0
unfolding handle
handle-Matched m s cid (start_job cmd args l) k fit w =
    respond-Matched job_started (Server.start m.host s (some cid) cmd args l)
      (start-Matched m.host s cid cmd args l fit.named fit.id_trimmed fit.id_given k)
handle-Matched m s cid (stop_job id mode) k fit w =
    respond-Matched (λ u. done) (Server.stop m.sys s (some cid) id mode)
      (stop-Matched m.sys s (some cid) id mode k)
handle-Matched m s cid (remove_job id) k fit w =
    respond-Matched (λ u. done) (Server.remove m.sys s (some cid) id)
      (remove-Matched m.sys s (some cid) id
        (respond-waits (λ (u : Unit {0}). done) (Server.remove m.sys s (some cid) id) w) k)
handle-Matched m s cid (inspect_job id) k fit w =
    respond-Matched job_details (s, Server.inspect s (some cid) id) k
handle-Matched m s cid (open_log id) k fit w =
    respond-Matched log_opened (Server.open_logs m.sys s (some cid) id)
      (open_logs-Matched m.sys s (some cid) id k)

named-Matched :
    (c : Outcome (Option Text)) (m : Moment) (s : JobServer) (r : Request)
    → Matched s
    → ((cid : Text) → c ≡ returns (some cid) → IsFit m cid)
    → (intercepted c s (λ n. handle m s n r)).1 ≢ waits
    → Matched (intercepted c s (λ n. handle m s n r)).0
named-Matched panics m s r k fit w = k
named-Matched blocks m s r k fit w = k
named-Matched (returns none) m s r k fit w = k
named-Matched (returns (some cid)) m s r k fit w =
    recovered-Matched (handle m s (some cid) r)
      (handle-Matched m s cid r k (fit cid refl) (recovered-waits (handle m s (some cid) r) w))

pub serve-Matched :
    (m : Moment) (peer : Peer) (s : JobServer) (r : Request)
    → Matched s
    → FitPeer m peer
    → (serve m peer s r).1 ≢ waits
    → Matched (serve m peer s r).0
unfolding serve
serve-Matched m peer s r k fit w = named-Matched (client_id peer) m s r k fit w
