-- ===== src/Acl.antt =====
-- pkg/acl/acl.go: who may do what to which job. The two mutexes make each method atomic, so each
-- is one function of the tables. User and object ids are texts; a set is a map to the unit.
pub mod Access
pub mod Owners
mod Examples
use jobs.Prelude.{
  Text, text_eq, trim_space, lookup, insert, delete, Assoc, Bool, true, false, ◌||◌, List, [], ◌∷◌,
  Option, none, some, if◌then◌else◌,
}

pub data AccessType : Type 0 where
  unknown full_access read_access : AccessType

pub record AccessRequest : Type 0 where
  pub subject : Text
  pub object : Text
  pub action : AccessType

pub record AccessControl : Type 0 where
  pub super_users : Assoc (Unit {0})
  pub super_read_users : Assoc (Unit {0})
  pub owners : Assoc Text

pub data Error : Type 0 where
  unknown_access_type invalid_user invalid_object object_not_found : Error

unfoldable pub new : AccessControl
new = record { super_users = []; super_read_users = []; owners = [] }

-- The loop over `ids` of AddSuperUsers.
unfoldable pub add_all : List Text → Assoc (Unit {0}) → Assoc (Unit {0})
add_all [] m = m
add_all (id ∷ ids) m = add_all ids (insert id tt m)

unfoldable pub add_super_users :
    AccessControl → List Text → AccessType → AccessControl × Option Error
unfolding add_all
add_super_users c ids full_access = (record c { super_users = add_all ids c.super_users }, none)
add_super_users c ids read_access =
    (record c { super_read_users = add_all ids c.super_read_users }, none)
add_super_users c ids unknown = (c, some unknown_access_type)

unfoldable pub set_owner : AccessControl → Text → Text → AccessControl × Option Error
set_owner c o u =
    if text_eq (trim_space u) []
    then (c, some invalid_user)
    else (if text_eq (trim_space o) []
        then (c, some invalid_object)
        else (record c { owners = insert (trim_space o) (trim_space u) c.owners }, none))

unfoldable pub remove : AccessControl → Text → AccessControl × Option Error
remove c o = elim (lookup o c.owners) [
  | none ↦ (c, some object_not_found)
  | some _ ↦ (record c { owners = delete o c.owners }, none)
]

abbrev pub contains : Text → Assoc (Unit {0}) → Bool
contains u m = elim (lookup u m) [ none ↦ false | some _ ↦ true ]

abbrev is_read : AccessType → Bool
is_read read_access = true
is_read _ = false

unfoldable pub check : AccessControl → AccessRequest → Bool
check c r = elim (lookup r.object c.owners) [
  | none ↦ false
  | some u ↦
      if text_eq u r.subject
      then true
      else (if contains r.subject c.super_users
          then true
          else (if is_read r.action then contains r.subject c.super_read_users else false))
]
