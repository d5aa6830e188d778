-- ===== src/Service/Refinement/Runs.antt =====
-- Calls of clients on a new server, one after another, against the specification.
use mathlib.Core.Path.{fun_ext}
use jobs.Prelude.{
  Text, Bool, true, false, ◌||◌, Assoc, insert, lookup, lookup-insert, arith, List, [], ◌∷◌, All,
  Option, none, some, ◌≡◌, ◌≢◌, refl, sym, ap, ◌∙◌, ℤ,
}
use jobs.Acl
use jobs.Acl.{full_access, add_all, contains}
use jobs.Supervisor
use jobs.Flags.Numbers.{atoi}
use jobs.Server.{JobServer, Reply, waits, created, new, finish_new, add_readers}
use jobs.Server.Matching.{Matched}
use jobs.Server.Serving.{new-Matched}
use jobs.Service.{Call, Response, serve, serve_all}
use jobs.Service.Spec.{Policy, is_listed, configured_policy, spec_all}
use jobs.Service.View.{view, policy}
use jobs.Service.Refinement.Calls.{FitPeer, serve-Implements, serve-Matched}

-- No call is left waiting.
abbrev pub NoneWaits : List (Reply Response) → Type 0
NoneWaits = All (λ r. r ≢ waits)

abbrev pub Fits : List Call → Type 0
Fits = All (λ c. FitPeer c.moment c.peer)

serve_all-spec_all :
    (s : JobServer) (calls : List Call)
    → Matched s
    → Fits calls
    → NoneWaits (serve_all s calls).1
    → (view (serve_all s calls).0 ≡ (spec_all (policy s) (view s) calls).0)
      × ((serve_all s calls).1 ≡ (spec_all (policy s) (view s) calls).1)
unfolding serve_all spec_all
serve_all-spec_all s [] k f w = (refl, refl)
serve_all-spec_all s (c ∷ cs) k f w =
    let (v, r, p) = serve-Implements c.moment c.peer s c.request k f.0 w.0 in
    let (v', r') =
      serve_all-spec_all (serve c.moment c.peer s c.request).0 cs
        (serve-Matched c.moment c.peer s c.request k f.0 w.0) f.1 w.1 in
    rw (← v, ← r)
      (
        v' ∙ ap (λ (q : Policy). (spec_all q (view (serve c.moment c.peer s c.request).0) cs).0) p,
        ap (λ (l : List (Reply Response)). (serve c.moment c.peer s c.request).1 ∷ l)
            (r'
              ∙ ap (λ (q : Policy). (spec_all q (view (serve c.moment c.peer s c.request).0) cs).1)
                  p),
      )

contains-add_all_listed :
    (u : Text) (ids : List Text) (m : Assoc (Unit {0}))
    → contains u (add_all ids m) ≡ (is_listed u ids || contains u m)
unfolding add_all
contains-add_all_listed u [] m = refl
contains-add_all_listed u (w ∷ ws) m =
    ground (arith, contains-add_all_listed u ws (insert w tt m), lookup-insert w u tt m)

listed_only :
    (ids : List Text)
    → ◌≡◌ {A = Text → Bool} (λ u. contains u (add_all ids [])) (λ u. is_listed u ids)
unfolding lookup
listed_only ids = fun_ext (λ u. contains-add_all_listed u ids [] ∙ no_more (is_listed u ids))
  where
    no_more : (b : Bool) → (b || false) ≡ b
    no_more true = refl
    no_more false = refl

-- What a new server is to the specification: no job, and the policy of its configuration.
finish_new-view :
    (full read : List Text) (u g : Option ℤ) (s : JobServer)
    → finish_new (add_readers (Acl.add_super_users Acl.new full full_access) read) u g ≡ created s
    → (x y : ℤ) × (u ≡ some x)
      × (g ≡ some y)
      × (view s ≡ (λ id. none))
      × (policy s ≡ configured_policy full read x y)
unfolding Acl.new Acl.add_super_users Supervisor.new_supervisor lookup
finish_new-view full read none g s h = absurd (cc)
finish_new-view full read (some u) none s h = absurd (cc)
finish_new-view full read (some u) (some g) s h = (
  u,
  g,
  refl,
  refl,
  fun_ext (λ id. ground arith),
  sym (ap policy (created_injective _ s h)) ∙ λ i. record {
    full = listed_only full i;
    read = listed_only read i;
    ids = record { uid = u; gid = g };
  },
)
  where
    created_injective : (a b : JobServer) → created a ≡ created b → a ≡ b
    created_injective a b q = cc

-- The server refines its specification. Through any calls of any clients on a new server that
-- are not left waiting, where named clients have more than blanks in their names and new ids are
-- not empty and have no blanks at their ends: every reply, the refusals, errors and recovered panics
-- among them, is the one that the specification gives, which starts from no job at all and the
-- superusers and ids of the configuration; and the tables of the jobs and of the owners come to the
-- specification's one map.
pub serve_all-spec_all-new :
    (full read : List Text) (u g : Text) (s : JobServer) (calls : List Call)
    → new full read u g ≡ created s
    → Fits calls
    → NoneWaits (serve_all s calls).1
    → (x y : ℤ) × (atoi u ≡ some x)
      × (atoi g ≡ some y)
      × (view (serve_all s calls).0
          ≡ (spec_all (configured_policy full read x y) (λ id. none) calls).0)
      × ((serve_all s calls).1 ≡ (spec_all (configured_policy full read x y) (λ id. none) calls).1)
unfolding new
serve_all-spec_all-new full read u g s calls h f w =
    let (x, y, p, q, v, l) = finish_new-view full read (atoi u) (atoi g) s h in
    let (a, b) = serve_all-spec_all s calls (new-Matched full read u g s h) f w in
    (x, y, p, q, a ∙ λ i. (spec_all (l i) (v i) calls).0, b ∙ λ i. (spec_all (l i) (v i) calls).1)
