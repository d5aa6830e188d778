-- ===== src/Service/View.antt =====
-- The abstract view of the server's two tables, and what the changes of the tables do to it.
use mathlib.Core.Path.{fun_ext}
use jobs.Prelude.{
  Text, text_eq_iff, trim_space, lookup, insert, delete, lookup-insert, lookup-delete, [], none,
  some, ◌≡◌, ◌≢◌, arith, Option-cases, inl, inr,
}
use jobs.Acl
use jobs.Acl.{contains, check}
use jobs.Job.{Job}
use jobs.Supervisor.{JobSupervisor, add, update}
use jobs.Server.{JobServer, has_read_access, has_full_access}
use jobs.Server.Matching.{Matched}
use jobs.Service.Spec.{View, Policy, may_change, may_see, replace, change}

abbrev pub view : JobServer → View
view s id = elim (lookup id s.jobs.jobs) [
  | none ↦ none
  | some j ↦ elim (lookup id s.auth.owners) [
    | none ↦ none
    | some o ↦ some (record { owner = o; job = j })
  ]
]

abbrev pub policy : JobServer → Policy
policy s = record {
  full = λ u. contains u s.auth.super_users;
  read = λ u. contains u s.auth.super_read_users;
  ids = s.jobs.ids;
}

pub has_full_access-may_change :
    (s : JobServer) (cid id : Text)
    → Matched s
    → has_full_access s cid id ≡ may_change (policy s) (view s) cid id
unfolding has_full_access check
has_full_access-may_change s cid id m = ground (arith, m.owned id)

pub has_read_access-may_see :
    (s : JobServer) (cid id : Text)
    → Matched s
    → has_read_access s cid id ≡ may_see (policy s) (view s) cid id
unfolding has_read_access check
has_read_access-may_see s cid id m = ground (arith, m.owned id)

-- The entry of a job that the supervisor has.
pub view-lookup :
    (s : JobServer) (id : Text) (j : Job)
    → Matched s
    → lookup id s.jobs.jobs ≡ some j
    → (o : Text) × (lookup id s.auth.owners ≡ some o)
      × (view s id ≡ some (record { owner = o; job = j }))
view-lookup s id j m h = elim (Option-cases (lookup id s.auth.owners)) [
  | inl lost ↦ absurd (unowned ((m.owned id).1 lost))
  | inr (o, owned) ↦ (o, owned, ground arith)
]
  where
    unowned : lookup id s.jobs.jobs ≢ none
    unowned e = ground arith

pub view-update :
    (s : JobServer) (id : Text) (j k : Job)
    → Matched s
    → lookup id s.jobs.jobs ≡ some j
    → view (record s { jobs = update s.jobs id k }) ≡ change (view s) id k
view-update s id j k m h =
    let (o, owned, e) = view-lookup s id j m h in
    fun_ext (λ i. ground (arith, e, owned, lookup-insert id i k s.jobs.jobs, text_eq_iff id i))

pub view-delete :
    (s : JobServer) (id : Text)
    → view (record s {
      jobs = record (s.jobs) { jobs = delete id s.jobs.jobs };
      auth = (Acl.remove s.auth id).0;
    })
      ≡ replace (view s) id none
unfolding Acl.remove
view-delete s id = fun_ext (λ i.
    ground
      (arith, lookup-delete id i s.jobs.jobs, lookup-delete id i s.auth.owners, text_eq_iff id i))

-- A job that could not be cleaned up, put back under its own id.
pub view-returned :
    (s : JobServer) (id : Text) (j k : Job)
    → Matched s
    → lookup id s.jobs.jobs ≡ some j
    → k.id ≡ j.id
    → view (record s { jobs = record (s.jobs) { jobs = insert k.id k (delete id s.jobs.jobs) } })
      ≡ change (view s) id k
view-returned s id j k m h same =
    let (o, owned, e) = view-lookup s id j m h in
    fun_ext (λ i. ground (
      arith,
      e,
      owned,
      m.keyed id j h,
      lookup-insert k.id i k (delete id s.jobs.jobs),
      lookup-delete id i s.jobs.jobs,
      text_eq_iff id i,
      text_eq_iff k.id i,
    ))

pub view-add :
    (s : JobServer) (j : Job) (c : Text)
    → trim_space c ≢ []
    → trim_space j.id ≡ j.id
    → j.id ≢ []
    → view (record s { jobs = add s.jobs j; auth = (Acl.set_owner s.auth j.id c).0 })
      ≡ replace (view s) j.id (some (record { owner = trim_space c; job = j }))
unfolding add Acl.set_owner
view-add s j c b t n = fun_ext (λ i. ground (
  arith,
  lookup-insert j.id i j s.jobs.jobs,
  lookup-insert j.id i (trim_space c) s.auth.owners,
  text_eq_iff j.id i,
  text_eq_iff (trim_space c) [],
  text_eq_iff (trim_space j.id) [],
))

pub policy-remove :
    (s : JobServer) (id : Text) (t : JobSupervisor)
    → t.ids ≡ s.jobs.ids
    → policy (record s { jobs = t; auth = (Acl.remove s.auth id).0 }) ≡ policy s
unfolding Acl.remove
policy-remove s id t e = elim (Option-cases (lookup id s.auth.owners)) [
  | inl none_ ↦ ground arith
  | inr (o, some_) ↦ ground arith
]

pub policy-set_owner :
    (s : JobServer) (id c : Text) (t : JobSupervisor)
    → t.ids ≡ s.jobs.ids
    → policy (record s { jobs = t; auth = (Acl.set_owner s.auth id c).0 }) ≡ policy s
unfolding Acl.set_owner
policy-set_owner s id c t e = ground arith
