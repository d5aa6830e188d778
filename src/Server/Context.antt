-- ===== src/Server/Context.antt =====
-- The context of a call, in which the interceptors leave the name of the client: StoreAuthID and
-- authID of pkg/server/server.go, over the part of package context that they use.
use jobs.Prelude.{Text, text_eq, Bool, true, false, Option, none, some, if◌then◌else◌, ◌≡◌, refl}

-- authKey is a value of struct{}, and all values of that type are equal.
pub data Key : Type 0 where
  empty_struct : Key
  other_key : Text → Key

pub data Value : Type 0 where
  a_string : Text → Value
  other_value : Value

pub data Context : Type 0 where
  background : Context
  with_value : Key → Value → Context → Context

abbrev same_key : Key → Key → Bool
same_key empty_struct empty_struct = true
same_key empty_struct (other_key n) = false
same_key (other_key n) empty_struct = false
same_key (other_key n) (other_key k) = text_eq n k

-- Context.Value: the last value that was stored under the key.
abbrev pub value : Context → Key → Option Value
value background k = none
value (with_value j v c) k = let older = value c k in if same_key j k then some v else older

abbrev pub auth_key : Key
auth_key = empty_struct

abbrev pub store_auth_id : Context → Text → Context
store_auth_id c id = with_value auth_key (a_string id) c

abbrev pub as_string : Option Value → Option Text
as_string none = none
as_string (some (a_string s)) = some s
as_string (some other_value) = none

abbrev pub auth_id : Context → Option Text
auth_id c = as_string (value c auth_key)

-- A name that was stored is found, also below other keys; another package's value under a key of
-- type struct{} hides it.
auth_id-store_auth_id :
    (c : Context) (id n : Text) (v : Value)
    → (auth_id (store_auth_id c id) ≡ some id)
      × (auth_id (with_value (other_key n) v (store_auth_id c id)) ≡ some id)
      × (auth_id (with_value empty_struct v (store_auth_id c id)) ≡ as_string (some v))
auth_id-store_auth_id c id n v = (refl, refl, refl)
