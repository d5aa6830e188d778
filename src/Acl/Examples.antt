-- ===== src/Acl/Examples.antt =====
-- Tests and instances, on a table with an owner, a superuser and a read superuser.
use jobs.Prelude.{Text, text, text_eq, lookup, true, ◌≡◌, ◌↔◌, refl}
use jobs.Acl.{AccessRequest, read_access, check}
use jobs.Acl.Access.{Allowed, check_iff}
use jobs.Fixtures.{access}

abbrev asks : Text → AccessRequest
asks u = record { subject = u; object = text "j1"; action = read_access }

reads : check access (asks (text "ringo")) ≡ true
unfolding check lookup text_eq
reads = refl

check_iff_example :
    (check access (asks (text "ringo")) ≡ true) ↔ Allowed access (asks (text "ringo"))
check_iff_example = check_iff access (asks (text "ringo"))
