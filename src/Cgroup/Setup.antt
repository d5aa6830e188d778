-- ===== src/Cgroup/Setup.antt =====
-- What setupCgroup leaves behind, and what it writes.
use jobs.Prelude.{
  Text, text, text_eq, ℕ, suc, pos, List, [], ◌∷◌, none, some, ◌≡◌, ◌≢◌, ◌⊎◌, inl, inr, refl, arith,
  Bool-cases, Option-cases,
}
use jobs.Job.{Job}
use jobs.Effects.{
  Effect, mkdir_all, remove, System, Failure, ok, err, numeral_value, numeral_value-decimal,
  format_int,
}
use jobs.Cgroup.{◌//◌, cgroup_name, find_cgroup_mount, make_outer, setup_inner, setup_cgroup, itoa}

-- A limit above zero is written as a numeral that reads back as the limit, any other as "max".
pub itoa_lem :
    (n : ℕ) → (numeral_value 0 (itoa (pos (suc n))) ≡ suc n) × (itoa (pos 0) ≡ text "max")
unfolding itoa format_int
itoa_lem n = (numeral_value-decimal (suc n), refl)

setup_inner_ok :
    (j k : Job) (s : System) (t u : List Effect)
    → setup_inner j s t ≡ (ok k, u)
    → k ≡ record j { cgroup_inner = j.cgroup_outer // text "inner" }
unfolding setup_inner
setup_inner_ok j k s t u h = ground arith

-- A successful setup changes nothing of the job but the two paths of its cgroup.
pub setup_cgroup_ok :
    (j k : Job) (s : System) (t u : List Effect)
    → setup_cgroup j s t ≡ (ok k, u)
    → k ≡ record j { cgroup_outer = k.cgroup_outer; cgroup_inner = k.cgroup_outer // text "inner" }
unfolding setup_cgroup make_outer
setup_cgroup_ok j k s t u h = elim (Bool-cases (text_eq j.cgroup_outer [])) [
  | inl none_given ↦ elim (Option-cases (find_cgroup_mount s.mounts)) [
    | inl unmounted ↦ ground arith
    | inr (d, mounted) ↦ ground (
      arith,
      setup_inner_ok (record j { cgroup_outer = d // cgroup_name j.id }) k s
          (mkdir_all (d // cgroup_name j.id) 0o600 ∷ t) u,
    )
  ]
  | inr given ↦ ground (arith, setup_inner_ok j k s t u)
]

-- The trace of the inner part, run after the outer directory was made.
abbrev failed_setup : Job → Text → System → List Effect → List Effect
failed_setup j d s t =
    (setup_inner (record j { cgroup_outer = d // cgroup_name j.id }) s
      (mkdir_all (d // cgroup_name j.id) 0o600 ∷ t)).1

-- Where the job brings no cgroup, a setup that fails leaves none: it made no directory, because
-- cgroup2 is not mounted or the directory could not be made, or its last act is to remove the
-- directory that it made.
pub setup_cgroup_error :
    (j : Job) (s : System) (t u : List Effect) (e : Failure)
    → j.cgroup_outer ≡ []
    → setup_cgroup j s t ≡ (err e, u)
    → ((find_cgroup_mount s.mounts ≡ none) × (u ≡ t))
      ⊎ ((d : Text) × (find_cgroup_mount s.mounts ≡ some d)
          × (((s.answer t (mkdir_all (d // cgroup_name j.id) 0o600) ≢ none)
                × (u ≡ mkdir_all (d // cgroup_name j.id) 0o600 ∷ t))
              ⊎ ((v : List Effect) × (u ≡ remove (d // cgroup_name j.id) ∷ v))))
unfolding setup_cgroup make_outer text_eq
setup_cgroup_error j s t u e o h = elim (Option-cases (find_cgroup_mount s.mounts)) [
  | inl unmounted ↦ inl (unmounted, ground arith)
  | inr (d, mounted) ↦ inr (
    d,
    mounted,
    elim (Option-cases (s.answer t (mkdir_all (d // cgroup_name j.id) 0o600))) [
      | inl made ↦ inr (failed_setup j d s t, ground arith)
      | inr (m, refused) ↦ inl (ground arith, ground arith)
    ],
  )
]
