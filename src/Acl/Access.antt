-- ===== src/Acl/Access.antt =====
-- Who passes `Check`.
use jobs.Prelude.{
  Text, text_eq_iff, lookup, insert, lookup-insert, Assoc, true, List, [], ◌∷◌, Option, none, some,
  ◌≡◌, refl, ◌↔◌, ◌⊎◌, inr, arith,
}
use jobs.Acl.{read_access, AccessRequest, AccessControl, add_all, contains, check}

-- The rule of the access table, without the order of the tests.
abbrev pub Allowed : AccessControl → AccessRequest → Type 0
Allowed c r =
    (owner : Text) × (lookup r.object c.owners ≡ some owner)
    × ((owner ≡ r.subject)
        ⊎ (contains r.subject c.super_users ≡ true)
        ⊎ ((r.action ≡ read_access) × (contains r.subject c.super_read_users ≡ true)))

check-Allowed :
    (c : AccessControl) (r : AccessRequest) (o : Option Text)
    → lookup r.object c.owners ≡ o
    → check c r ≡ true
    → Allowed c r
unfolding check
check-Allowed c r none e h = ground arith
check-Allowed c r (some u) e h = (u, e, ground (arith, text_eq_iff u r.subject))

Allowed-check : (c : AccessControl) (r : AccessRequest) → Allowed c r → check c r ≡ true
unfolding check
Allowed-check c r (u, e, w) = ground (arith, text_eq_iff u r.subject)

-- A request passes exactly when the object has an owner, and the subject is that owner, or is a
-- superuser, or asks for read access and is a read superuser.
pub check_iff : (c : AccessControl) (r : AccessRequest) → (check c r ≡ true) ↔ Allowed c r
check_iff c r = (check-Allowed c r (lookup r.object c.owners) refl, Allowed-check c r)

-- The members of a set after the loop of AddSuperUsers.
abbrev pub Listed : Text → List Text → Type 0
Listed u [] = ⊥
Listed u (id ∷ ids) = (id ≡ u) ⊎ Listed u ids

contains-insert :
    (u id : Text) (m : Assoc (Unit {0}))
    → contains u (insert id tt m) ≡ true
    → (id ≡ u) ⊎ (contains u m ≡ true)
contains-insert u id m h = ground (arith, lookup-insert id u tt m, text_eq_iff id u)

contains-insert_old :
    (u id : Text) (m : Assoc (Unit {0}))
    → (id ≡ u) ⊎ (contains u m ≡ true)
    → contains u (insert id tt m) ≡ true
contains-insert_old u id m h = ground (arith, lookup-insert id u tt m, text_eq_iff id u)

pub contains-add_all :
    (u : Text) (ids : List Text) (m : Assoc (Unit {0}))
    → (contains u (add_all ids m) ≡ true) ↔ (Listed u ids ⊎ (contains u m ≡ true))
unfolding add_all
contains-add_all u [] m = (λ h. inr h, λ h. ground arith)
contains-add_all u (id ∷ ids) m =
    let ih = contains-add_all u ids (insert id tt m) in
    (
      λ h. ground (arith, ih.0 h, contains-insert u id m),
      λ h. ground (arith, ih.1, contains-insert_old u id m),
    )
