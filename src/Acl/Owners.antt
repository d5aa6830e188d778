-- ===== src/Acl/Owners.antt =====
-- How the calls that change the tables change the answers of `Check`.
use jobs.Prelude.{
  Text, text_eq, text_eq_iff, trim_space, lookup, lookup-insert, lookup-delete, true, false, List,
  none, some, ◌≡◌, ◌≢◌, refl, ◌↔◌, ◌⊎◌, inl, inr, arith, if◌then◌else◌,
}
use jobs.Acl.{
  AccessType, unknown, full_access, read_access, AccessRequest, AccessControl, add_super_users,
  contains, check, set_owner, remove,
}
use jobs.Acl.Access.{Allowed, check_iff, Listed, contains-add_all}

-- Someone owns the object.
abbrev pub IsOwned : AccessControl → Text → Type 0
IsOwned c o = (u : Text) × (lookup o c.owners ≡ some u)

-- A successful SetOwner makes the trimmed user the only owner of the trimmed object, whoever owned
-- it before: a request for that object passes exactly when its subject is the new owner, or is a
-- superuser, or asks for read access as a read superuser. Requests for other objects are answered
-- as before.
pub check-set_owner :
    (c : AccessControl) (o u : Text) (r : AccessRequest)
    → (set_owner c o u).1 ≡ none
    → (trim_space o ≢ r.object → check (set_owner c o u).0 r ≡ check c r)
      × (trim_space o ≡ r.object
          → (check (set_owner c o u).0 r ≡ true) ↔ (
              (trim_space u ≡ r.subject)
              ⊎ (contains r.subject c.super_users ≡ true)
              ⊎ ((r.action ≡ read_access) × (contains r.subject c.super_read_users ≡ true))))
unfolding set_owner check
check-set_owner c o u r h = (
  λ n. ground (
    arith,
    lookup-insert (trim_space o) r.object (trim_space u) c.owners,
    text_eq_iff (trim_space o) r.object,
  ),
  λ e. (
    λ p. ground (
      arith,
      lookup-insert (trim_space o) r.object (trim_space u) c.owners,
      text_eq_iff (trim_space o) r.object,
      text_eq_iff (trim_space u) r.subject,
    ),
    λ p. ground (
      arith,
      lookup-insert (trim_space o) r.object (trim_space u) c.owners,
      text_eq_iff (trim_space o) r.object,
      text_eq_iff (trim_space u) r.subject,
    ),
  ),
)

-- A successful Remove takes the object's owner away: nobody passes for that object any more,
-- superusers included, and every other request is answered as before.
pub check-remove :
    (c : AccessControl) (o : Text) (r : AccessRequest)
    → (remove c o).1 ≡ none
    → check (remove c o).0 r ≡ (if text_eq o r.object then false else check c r)
unfolding remove check
check-remove c o r h = ground (arith, lookup-delete o r.object c.owners)

-- A call that returns an error changes nothing.
pub error_unchanged :
    (c : AccessControl) (o u : Text) (ids : List Text) (t : AccessType)
    → ((set_owner c o u).1 ≢ none → (set_owner c o u).0 ≡ c)
      × ((remove c o).1 ≢ none → (remove c o).0 ≡ c)
      × ((add_super_users c ids t).1 ≢ none → (add_super_users c ids t).0 ≡ c)
unfolding set_owner remove add_super_users
error_unchanged c o u ids t = (λ h. ground arith, λ h. ground arith, λ h. ground arith)

full-gain :
    (c : AccessControl) (ids : List Text) (r : AccessRequest)
    → let c' = (add_super_users c ids full_access).0 in
      Allowed c' r → Allowed c r ⊎ (IsOwned c r.object × Listed r.subject ids)
unfolding add_super_users
full-gain c ids r (u, e, w) =
    let m = (contains-add_all r.subject ids c.super_users).0 in
    elim w [
      | inl own ↦ inl (u, e, inl own)
      | inr (inl super) ↦ elim (m super) [
        | inl new ↦ inr ((u, e), new)
        | inr old ↦ inl (u, e, inr (inl old))
      ]
      | inr (inr reader) ↦ inl (u, e, inr (inr reader))
    ]

read-gain :
    (c : AccessControl) (ids : List Text) (r : AccessRequest)
    → let c' = (add_super_users c ids read_access).0 in
      Allowed c' r
      → Allowed c r ⊎ (IsOwned c r.object × Listed r.subject ids × (r.action ≡ read_access))
unfolding add_super_users
read-gain c ids r (u, e, w) =
    let m = (contains-add_all r.subject ids c.super_read_users).0 in
    elim w [
      | inl own ↦ inl (u, e, inl own)
      | inr (inl super) ↦ inl (u, e, inr (inl super))
      | inr (inr (act, reader)) ↦ elim (m reader) [
        | inl new ↦ inr ((u, e), new, act)
        | inr old ↦ inl (u, e, inr (inr (act, old)))
      ]
    ]

full-keeps :
    (c : AccessControl) (ids : List Text) (r : AccessRequest)
    → Allowed c r ⊎ (IsOwned c r.object × Listed r.subject ids)
    → Allowed (add_super_users c ids full_access).0 r
unfolding add_super_users
full-keeps c ids r (inl (u, e, inl own)) = (u, e, inl own)
full-keeps c ids r (inl (u, e, inr (inl super))) =
    (u, e, inr (inl ((contains-add_all r.subject ids c.super_users).1 (inr super))))
full-keeps c ids r (inl (u, e, inr (inr reader))) = (u, e, inr (inr reader))
full-keeps c ids r (inr ((u, e), new)) =
    (u, e, inr (inl ((contains-add_all r.subject ids c.super_users).1 (inl new))))

read-keeps :
    (c : AccessControl) (ids : List Text) (r : AccessRequest)
    → Allowed c r ⊎ (IsOwned c r.object × Listed r.subject ids × (r.action ≡ read_access))
    → Allowed (add_super_users c ids read_access).0 r
unfolding add_super_users
read-keeps c ids r (inl (u, e, inl own)) = (u, e, inl own)
read-keeps c ids r (inl (u, e, inr (inl super))) = (u, e, inr (inl super))
read-keeps c ids r (inl (u, e, inr (inr (act, old)))) =
    (u, e, inr (inr (act, (contains-add_all r.subject ids c.super_read_users).1 (inr old))))
read-keeps c ids r (inr ((u, e), new, act)) =
    (u, e, inr (inr (act, (contains-add_all r.subject ids c.super_read_users).1 (inl new))))

-- A successful AddSuperUsers never takes access away, and gives exactly the listed users more:
-- every access to every owned object, or, in a read list, the read access to them.
pub check-add_super_users :
    (c : AccessControl) (ids : List Text) (t : AccessType) (r : AccessRequest)
    → (add_super_users c ids t).1 ≡ none
    → (check (add_super_users c ids t).0 r ≡ true) ↔ (
        (check c r ≡ true)
        ⊎ (IsOwned c r.object
            × Listed r.subject ids
            × ((t ≡ full_access) ⊎ (r.action ≡ read_access))))
check-add_super_users c ids full_access r h = (
  λ p. elim (full-gain c ids r ((check_iff _ r).0 p)) [
    | inl old ↦ inl ((check_iff c r).1 old)
    | inr (owned, new) ↦ inr (owned, new, inl refl)
  ],
  λ p. (check_iff _ r).1 (
      full-keeps c ids r (elim p [
        | inl old ↦ inl ((check_iff c r).0 old)
        | inr (owned, new, _) ↦ inr (owned, new)
      ])),
)
check-add_super_users c ids read_access r h = (
  λ p. elim (read-gain c ids r ((check_iff _ r).0 p)) [
    | inl old ↦ inl ((check_iff c r).1 old)
    | inr (owned, new, act) ↦ inr (owned, new, inr act)
  ],
  λ p. (check_iff _ r).1 (
      read-keeps c ids r (elim p [
        | inl old ↦ inl ((check_iff c r).0 old)
        | inr (owned, new, inl e) ↦ cc
        | inr (owned, new, inr act) ↦ inr (owned, new, act)
      ])),
)
check-add_super_users c ids unknown r h = absurd (failed h)
  where
    failed : (add_super_users c ids unknown).1 ≢ none
    failed e = unfold add_super_users in cc
