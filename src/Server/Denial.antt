-- ===== src/Server/Denial.antt =====
-- What a client learns that has no access.
use jobs.Prelude.{Text, lookup, false, List, Option, none, some, ◌≡◌, refl, sym, ap, ◌∙◌, arith}
use jobs.Acl.{check}
use jobs.Job.{Sys}
use jobs.Effects.{System}
use jobs.Server.{
  JobServer, StopMode, Limits, denied, unauthenticated, has_read_access, has_full_access, start,
  stop, remove, inspect, open_logs,
}

pub denied_all :
    (sys : Sys) (s : JobServer) (cid jid : Text) (mode : StopMode)
    → has_read_access s cid jid ≡ false
    → (stop sys s (some cid) jid mode ≡ (s, denied))
      × (remove sys s (some cid) jid ≡ (s, denied))
      × (inspect s (some cid) jid ≡ denied)
      × (open_logs sys s (some cid) jid ≡ (s, denied))
unfolding stop remove inspect open_logs check
denied_all sys s cid jid mode h = (ground arith, ground arith, ground arith, ground arith)

pub unowned-denied :
    (s : JobServer) (cid jid : Text)
    → lookup jid s.auth.owners ≡ none
    → has_read_access s cid jid ≡ false
unfolding has_read_access check
unowned-denied s cid jid h = ground arith

-- A client cannot tell the job of another client, which it may not read, from an id that nobody
-- owns: every call about the one and about the other gets the same reply and changes nothing.
pub strangers_see_nothing :
    (sys : Sys) (s : JobServer) (cid other unknown : Text) (mode : StopMode)
    → has_read_access s cid other ≡ false
    → lookup unknown s.auth.owners ≡ none
    → (stop sys s (some cid) other mode ≡ stop sys s (some cid) unknown mode)
      × (remove sys s (some cid) other ≡ remove sys s (some cid) unknown)
      × (inspect s (some cid) other ≡ inspect s (some cid) unknown)
      × (open_logs sys s (some cid) other ≡ open_logs sys s (some cid) unknown)
      × ((stop sys s (some cid) other mode).0 ≡ s)
      × ((remove sys s (some cid) other).0 ≡ s)
      × ((open_logs sys s (some cid) other).0 ≡ s)
strangers_see_nothing sys s cid other unknown mode h u =
    let (a, b, c, d) = denied_all sys s cid other mode h in
    let (a', b', c', d') = denied_all sys s cid unknown mode (unowned-denied s cid unknown u) in
    (
      a ∙ sym a',
      b ∙ sym b',
      c ∙ sym c',
      d ∙ sym d',
      ap (λ p. p.0) a,
      ap (λ p. p.0) b,
      ap (λ p. p.0) d,
    )

-- A client that can read a job and has no full access to it can see it and cannot touch it: its
-- Stop and Remove are refused as for an unknown job and change nothing.
pub reader_cannot_touch :
    (sys : Sys) (s : JobServer) (cid jid : Text) (mode : StopMode)
    → has_full_access s cid jid ≡ false
    → (stop sys s (some cid) jid mode ≡ (s, denied)) × (remove sys s (some cid) jid ≡ (s, denied))
unfolding stop remove
reader_cannot_touch sys s cid jid mode h = (ground arith, ground arith)

-- A call without a client id is refused, and changes nothing.
pub unauthenticated_refused :
    (sys : Sys) (host : System) (s : JobServer) (cmd jid : Text) (args : List Text)
    (limits : Option Limits) (mode : StopMode)
    → (start host s none cmd args limits ≡ (s, unauthenticated))
      × (stop sys s none jid mode ≡ (s, unauthenticated))
      × (remove sys s none jid ≡ (s, unauthenticated))
      × (inspect s none jid ≡ unauthenticated)
      × (open_logs sys s none jid ≡ (s, unauthenticated))
unfolding start stop remove inspect open_logs
unauthenticated_refused sys host s cmd jid args limits mode = (refl, refl, refl, refl, refl)
