-- ===== src/Service/Refinement.antt =====
-- The handlers and interceptors meet the specification, call by call and in any run.
pub mod Handlers
pub mod Changes
pub mod Calls
pub mod Runs
use jobs.Prelude.{
  Text, lookup, Bool, true, false, Option, none, some, ◌≡◌, inl, inr, refl, sym, ap, subst, ◌∙◌,
  Option-cases, Bool-cases,
}
use jobs.Job
use jobs.Supervisor.{as_error}
use jobs.Server.{JobServer, Reply, denied, from_option}
use jobs.Server.Matching.{Matched}
use jobs.Service.{Response, done, respond}
use jobs.Service.Spec.{View, Entry, reply, allowed}
use jobs.Service.View.{view, policy, view-lookup}

-- A call on the server did to the view, and answered, what the specification says.
abbrev pub Implements : JobServer → JobServer × Reply Response → View × Reply Response → Type 0
Implements s impl spec = (view impl.0 ≡ spec.0) × (impl.1 ≡ spec.1) × (policy impl.0 ≡ policy s)

pub Implements-intro :
    (s t : JobServer) (w : View) (r : Reply Response) (impl : JobServer × Reply Response)
    (spec : View × Reply Response)
    → impl ≡ (t, r)
    → spec ≡ (w, r)
    → view t ≡ w
    → policy t ≡ policy s
    → Implements s impl spec
Implements-intro s t w r impl spec a b v p = (
  ap (λ (x : JobServer × Reply Response). view x.0) a
      ∙ v
      ∙ sym (ap (λ (x : View × Reply Response). x.0) b),
  ap (λ (x : JobServer × Reply Response). x.1) a ∙ sym (ap (λ (x : View × Reply Response). x.1) b),
  ap (λ (x : JobServer × Reply Response). policy x.0) a ∙ p,
)

pub respond-from_option :
    (s : JobServer) (e : Option Job.Error)
    → respond (λ (u : Unit {0}). done) (s, from_option (as_error e)) ≡ (s, reply e)
respond-from_option s none = refl
respond-from_option s (some e) = refl

allowed_no :
    (b : Bool) (v : View) (id : Text) (op : Job.Job → View × Reply Response)
    → b ≡ false
    → allowed b v id op ≡ (v, denied)
allowed_no b v id op h = rw h refl

allowed_yes :
    (b : Bool) (v : View) (id : Text) (op : Job.Job → View × Reply Response) (e : Entry)
    → b ≡ true
    → v id ≡ some e
    → allowed b v id op ≡ op e.job
allowed_yes b v id op e h g = rw (h, g) refl

-- A handler behind an access check meets a specification behind the same check.
pub gate :
    (s : JobServer) (id : Text) (b c : Bool) (op : Job.Job → View × Reply Response)
    (impl : JobServer × Reply Response)
    → Matched s
    → b ≡ c
    → (lookup id s.jobs.jobs ≡ none → b ≡ false)
    → (b ≡ false → impl ≡ (s, denied))
    → ((j : Job.Job) → lookup id s.jobs.jobs ≡ some j → b ≡ true → Implements s impl (op j))
    → Implements s impl (allowed c (view s) id op)
gate s id b c op impl m same blind denies works = elim (Option-cases (lookup id s.jobs.jobs)) [
  | inl missing ↦ refuse (blind missing)
  | inr (j, found) ↦ elim (Bool-cases b) [
    | inl yes_ ↦
        let (o, owned, e) = view-lookup s id j m found in
        subst (Implements s impl)
          (sym (allowed_yes c (view s) id op (record { owner = o; job = j }) (sym same ∙ yes_) e))
          (works j found yes_)
    | inr no_ ↦ refuse no_
  ]
]
  where
    refuse : b ≡ false → Implements s impl (allowed c (view s) id op)
    refuse h =
        Implements-intro s s (view s) denied impl (allowed c (view s) id op) (denies h)
          (allowed_no c (view s) id op (sym same ∙ h)) refl refl
