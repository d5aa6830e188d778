-- ===== src/Cgroup/Process/Outcomes.antt =====
-- What SetupProc did, where it returns no error and where it returns one.
use jobs.Prelude.{Text, text, List, ◌∷◌, none, ◌≡◌, ◌≢◌, ◌⊎◌, inl, inr, refl, arith, Option-cases}
use jobs.Job.{ExecIdentity}
use jobs.Effects.{
  Effect, open_append, open_create, write_line, close_file, unmount_proc, mount_proc, set_gid,
  set_groups, set_uid, System, Result, ok, err, Failure, M, ◌>>◌, perform, format_int,
}
use jobs.Cgroup.{◌//◌, echo}
use jobs.Cgroup.Process.{remount_proc, add_pid_to_cgroup, setup_ids, setup_proc}

-- How the file of the processes was opened.
abbrev pub Opens : System → Text → List Effect → List Effect → Type 0
Opens s file t v =
    ((s.answer t (open_append file) ≡ none) × (v ≡ open_append file ∷ t))
    ⊎ ((s.answer t (open_append file) ≢ none)
        × (s.answer (open_append file ∷ t) (open_create file) ≡ none)
        × (v ≡ open_create file ∷ open_append file ∷ t))

echo_ok :
    (line file : Text) (s : System) (t u : List Effect)
    → echo line file s t ≡ (ok tt, u)
    → (v : List Effect) × Opens s file t v
      × (s.answer v (write_line file line) ≡ none)
      × (u ≡ close_file file ∷ write_line file line ∷ v)
unfolding echo
echo_ok line file s t u h = elim (Option-cases (s.answer t (open_append file))) [
  | inl opened ↦ (open_append file ∷ t, inl (opened, refl), ground arith, ground arith)
  | inr (m, closed) ↦ (
    open_create file ∷ open_append file ∷ t,
    inr (ground arith, ground arith, refl),
    ground arith,
    ground arith,
  )
]

-- After the calls of t, the group is set, the other groups are dropped and the user is set, each
-- without an error, and nothing else is called.
abbrev pub Drops : ExecIdentity → System → List Effect → List Effect → Type 0
Drops ids s t u =
    (s.answer t (set_gid ids.gid) ≡ none)
    × (s.answer (set_gid ids.gid ∷ t) set_groups ≡ none)
    × (s.answer (set_groups ∷ set_gid ids.gid ∷ t) (set_uid ids.uid) ≡ none)
    × (u ≡ set_uid ids.uid ∷ set_groups ∷ set_gid ids.gid ∷ t)

setup_ids_ok :
    (ids : ExecIdentity) (s : System) (t u : List Effect)
    → setup_ids ids s t ≡ (ok tt, u)
    → Drops ids s t u
unfolding setup_ids
setup_ids_ok ids s t u h = (ground arith, ground arith, ground arith, ground arith)

remount_proc_ok :
    (s : System) (t u : List Effect)
    → remount_proc s t ≡ (ok tt, u)
    → (s.answer t unmount_proc ≡ none)
      × (s.answer (unmount_proc ∷ t) mount_proc ≡ none)
      × (u ≡ mount_proc ∷ unmount_proc ∷ t)
unfolding remount_proc
remount_proc_ok s t u h = (ground arith, ground arith, ground arith)

add_pid_to_cgroup_ok :
    (cg : Text) (s : System) (t u : List Effect)
    → add_pid_to_cgroup cg s t ≡ (ok tt, u)
    → echo (format_int s.pid) (cg // text "cgroup.procs") s t ≡ (ok tt, u)
unfolding add_pid_to_cgroup
add_pid_to_cgroup_ok cg s t u h = go (echo (format_int s.pid) (cg // text "cgroup.procs") s t) refl
  where
    go :
        (r : Result (Unit {0}) × List Effect)
        → echo (format_int s.pid) (cg // text "cgroup.procs") s t ≡ r
        → echo (format_int s.pid) (cg // text "cgroup.procs") s t ≡ (ok tt, u)
    go (ok tt, w) e = ground arith
    go (err f, w) e = ground arith

-- A sequence that succeeds is two parts that succeed.
>>-ok :
    (m k : M (Unit {0})) (s : System) (t u : List Effect)
    → (m >> k) s t ≡ (ok tt, u)
    → (w : List Effect) × (m s t ≡ (ok tt, w)) × (k s w ≡ (ok tt, u))
>>-ok m k s t u h = go (m s t) refl
  where
    go :
        (r : Result (Unit {0}) × List Effect)
        → m s t ≡ r
        → (w : List Effect) × (m s t ≡ (ok tt, w)) × (k s w ≡ (ok tt, u))
    go (ok tt, w) e = (w, e, ground arith)
    go (err f, w) e = ground arith

-- Where SetupProc returns no error, the process has the new /proc, then its number was written to
-- the cgroup, while it still had the rights to do so, and last its group was set, its other groups
-- dropped and its user set, each of these calls without an error.
pub setup_proc_ok :
    (cg : Text) (ids : ExecIdentity) (s : System) (t u : List Effect)
    → setup_proc cg ids s t ≡ (ok tt, u)
    → let file = cg // text "cgroup.procs" in
      let line = format_int s.pid in
      (s.answer t unmount_proc ≡ none)
      × (s.answer (unmount_proc ∷ t) mount_proc ≡ none)
      × ((v : List Effect) × Opens s file (mount_proc ∷ unmount_proc ∷ t) v
          × (s.answer v (write_line file line) ≡ none)
          × Drops ids s (close_file file ∷ write_line file line ∷ v) u)
unfolding setup_proc
setup_proc_ok cg ids s t u h =
    let (a, p, q) = >>-ok remount_proc (add_pid_to_cgroup cg >> setup_ids ids) s t u h in
    let (b, p', q') = >>-ok (add_pid_to_cgroup cg) (setup_ids ids) s a u q in
    let (um, mo, ea) = remount_proc_ok s t a p in
    let (v, op, wr, eb) =
      echo_ok (format_int s.pid) (cg // text "cgroup.procs") s a b
        (add_pid_to_cgroup_ok cg s a b p') in
    let dropped = setup_ids_ok ids s b u q' in (um, mo, (v, rw ea at op, wr, rw eb at dropped))

-- The last call of a trace was refused, but for a Close after it.
abbrev EndsRefused : System → Text → List Effect → Type 0
EndsRefused s file u =
    (a : Effect) × (v : List Effect) × (s.answer v a ≢ none)
    × ((u ≡ a ∷ v) ⊎ (u ≡ close_file file ∷ a ∷ v))

perform_error :
    (a : Effect) (file : Text) (s : System) (t u : List Effect) (e : Failure)
    → perform a s t ≡ (err e, u)
    → EndsRefused s file u
perform_error a file s t u e h = (a, t, ground arith, inl (ground arith))

echo_error :
    (line file : Text) (s : System) (t u : List Effect) (e : Failure)
    → echo line file s t ≡ (err e, u)
    → EndsRefused s file u
unfolding echo
echo_error line file s t u e h = elim (Option-cases (s.answer t (open_append file))) [
  | inl opened ↦ (write_line file line, open_append file ∷ t, ground arith, inr (ground arith))
  | inr (m, closed) ↦ elim (Option-cases (s.answer (open_append file ∷ t) (open_create file))) [
    | inl made ↦ (
      write_line file line,
      open_create file ∷ open_append file ∷ t,
      ground arith,
      inr (ground arith),
    )
    | inr (n, refused) ↦ (open_create file, open_append file ∷ t, ground arith, inl (ground arith))
  ]
]

add_pid_to_cgroup_error :
    (cg : Text) (s : System) (t u : List Effect) (e : Failure)
    → add_pid_to_cgroup cg s t ≡ (err e, u)
    → EndsRefused s (cg // text "cgroup.procs") u
unfolding add_pid_to_cgroup
add_pid_to_cgroup_error cg s t u e h =
    go (echo (format_int s.pid) (cg // text "cgroup.procs") s t) refl
  where
    go :
        (r : Result (Unit {0}) × List Effect)
        → echo (format_int s.pid) (cg // text "cgroup.procs") s t ≡ r
        → EndsRefused s (cg // text "cgroup.procs") u
    go (ok tt, w) q = ground arith
    go (err f, w) q =
        echo_error (format_int s.pid) (cg // text "cgroup.procs") s t u f (ground arith)

-- A sequence that fails is a first part that fails, or a second one after the first.
>>-error :
    (m k : M (Unit {0})) (s : System) (t u : List Effect) (e : Failure)
    → (m >> k) s t ≡ (err e, u)
    → (m s t ≡ (err e, u)) ⊎ ((w : List Effect) × (k s w ≡ (err e, u)))
>>-error m k s t u e h = go (m s t) refl
  where
    go :
        (r : Result (Unit {0}) × List Effect)
        → m s t ≡ r
        → (m s t ≡ (err e, u)) ⊎ ((w : List Effect) × (k s w ≡ (err e, u)))
    go (ok tt, w) q = inr (w, ground arith)
    go (err f, w) q = inl (ground arith)

pair_error :
    (a : Effect) (k : M (Unit {0})) (file : Text) (s : System) (t u : List Effect) (e : Failure)
    → ((w : List Effect) → k s w ≡ (err e, u) → EndsRefused s file u)
    → (perform a >> k) s t ≡ (err e, u)
    → EndsRefused s file u
pair_error a k file s t u e after h = elim (>>-error (perform a) k s t u e h) [
  | inl first ↦ perform_error a file s t u e first
  | inr (w, second) ↦ after w second
]

setup_ids_error :
    (ids : ExecIdentity) (file : Text) (s : System) (t u : List Effect) (e : Failure)
    → setup_ids ids s t ≡ (err e, u)
    → EndsRefused s file u
unfolding setup_ids
setup_ids_error ids file s t u e h =
    pair_error (set_gid ids.gid) (perform set_groups >> perform (set_uid ids.uid)) file s t u e
      (λ w p.
        pair_error set_groups (perform (set_uid ids.uid)) file s w u e
          (λ x q. perform_error (set_uid ids.uid) file s x u e q) p)
      h

-- Where SetupProc returns an error, its last call was refused: nothing was called after that, but
-- for a Close of the file of the cgroup's processes.
pub setup_proc_error :
    (cg : Text) (ids : ExecIdentity) (s : System) (t u : List Effect) (e : Failure)
    → setup_proc cg ids s t ≡ (err e, u)
    → (a : Effect) × (v : List Effect) × (s.answer v a ≢ none)
      × ((u ≡ a ∷ v) ⊎ (u ≡ close_file (cg // text "cgroup.procs") ∷ a ∷ v))
unfolding setup_proc remount_proc
setup_proc_error cg ids s t u e h =
    let file = cg // text "cgroup.procs" in
    elim (>>-error remount_proc (add_pid_to_cgroup cg >> setup_ids ids) s t u e h) [
      | inl first ↦
          pair_error unmount_proc (perform mount_proc) file s t u e
            (λ w p. perform_error mount_proc file s w u e p) first
      | inr (w, rest) ↦ elim (>>-error (add_pid_to_cgroup cg) (setup_ids ids) s w u e rest) [
        | inl second ↦ add_pid_to_cgroup_error cg s w u e second
        | inr (x, third) ↦ setup_ids_error ids file s x u e third
      ]
    ]
