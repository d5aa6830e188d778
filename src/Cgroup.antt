-- ===== src/Cgroup.antt =====
-- pkg/job/cgroup.go: the cgroup of a job, made before its process starts. filepath.Join is written
-- for the clean paths that the program joins. A limit of CPU is a float32, kept as its bits, and the
-- text for cpu.max is the system's.
pub mod Setup
pub mod Process
mod Examples
use jobs.Prelude.{
  Text, text, text_eq, is_space, ℕ, zero, suc, ℤ, pos, negsuc, is_positive, ltb, Bool, true, false,
  ◌&&◌, List, [], ◌∷◌, ◌++◌, reverse, Option, none, some, if◌then◌else◌,
}
use jobs.Job.{Job}
use jobs.Effects.{
  Effect, mkdir_all, remove, open_append, open_create, write_line, close_file, run_lsblk, Failure,
  plain, wrapped, quoted, System, Result, ok, err, M, ◌>>=◌, ◌>>◌, pure, fail, perform, attempt,
  wrap, wrap_at, on_error, finally, format_int,
}

infixl 60 ◌//◌
abbrev pub ◌//◌ : Text → Text → Text
a // b = a ++ b'/' ∷ b

-- strings.Fields, with the word that is being read in reverse.
abbrev flush : Text → List Text → List Text
flush [] ws = ws
flush (c ∷ w) ws = reverse (c ∷ w) ∷ ws

unfoldable pub fields_from : Text → Text → List Text
fields_from w [] = flush w []
fields_from w (c ∷ s) =
    let next = fields_from [] s in
    let more = fields_from (c ∷ w) s in if is_space c then flush w next else more

unfoldable pub fields : Text → List Text
unfolding fields_from
fields s = fields_from [] s

-- A float32 above zero: not a NaN, the sign bit clear, not zero.
abbrev positive_float : ℕ → Bool
positive_float b = ltb 0 b && ltb b 0x7f80_0001

unfoldable pub itoa : ℤ → Text
itoa x = if is_positive x then format_int x else text "max"

unfoldable pub cgroup_name : Text → Text
cgroup_name id = text "job-" ++ id

-- echo: a second shot with O_CREATE where the file does not open; the error of Close is dropped.
unfoldable pub echo : Text → Text → M (Unit {0})
echo line file s t = elim (s.answer t (open_append file)) [
  | none ↦ written s (open_append file ∷ t)
  | some _ ↦ wrap_at failed file (perform (open_create file) >> written) s (open_append file ∷ t)
]
  where
    failed : Text
    failed = text "failed to update cgroup file"

    written : M (Unit {0})
    written = finally (close_file file) (wrap_at failed file (perform (write_line file line)))

-- The mount point that a line of /proc/mounts gives for cgroup2.
abbrev cgroup_mount : List Text → Option Text
cgroup_mount (device ∷ point ∷ kind ∷ more) =
    if text_eq kind (text "cgroup2") then some point else none
cgroup_mount _ = none

unfoldable pub scan_mounts : List Text → Option Text
scan_mounts [] = none
scan_mounts (l ∷ ls) =
    let rest = scan_mounts ls in elim (cgroup_mount (fields l)) [ some p ↦ some p | none ↦ rest ]

unfoldable pub find_cgroup_mount : Option (List Text) → Option Text
unfolding scan_mounts
find_cgroup_mount none = none
find_cgroup_mount (some ls) = scan_mounts ls

-- A line of lsblk: too short, or the device where its type is disk.
abbrev block_dev : List Text → Option (Option Text)
block_dev (name ∷ number ∷ rm ∷ size ∷ ro ∷ kind ∷ more) =
    some (if text_eq kind (text "disk") then some number else none)
block_dev _ = none

unfoldable pub scan_block_devs : List Text → Result (List Text)
scan_block_devs [] = ok []
scan_block_devs (l ∷ ls) =
    let rest = scan_block_devs ls in
    elim (block_dev (fields l)) [
      | none ↦ err (quoted (text "unexpected output of lsblk: ") l)
      | some none ↦ rest
      | some (some d) ↦ elim rest [ ok ds ↦ ok (d ∷ ds) | err e ↦ err e ]
    ]

unfoldable pub list_block_devs : M (List Text)
list_block_devs = wrap (text "failed to enlist block devices: ") (perform run_lsblk) >> scanned
  where
    scanned : M (List Text)
    scanned s t = elim (scan_block_devs s.lsblk) [
      | err e ↦ (err e, t)
      | ok ds ↦ elim s.lsblk_scan [
        | none ↦ (ok ds, t)
        | some e ↦ (err (wrapped (text "failed to scan block devices: ") (plain e)), t)
      ]
    ]

-- One line of io.max for each disk.
unfoldable pub limit_blocks : Text → Text → List Text → M (Unit {0})
limit_blocks file rate [] = pure tt
limit_blocks file rate (b ∷ bs) =
    wrap (text "failed to configure IO limits: ")
      (echo (b ++ text " rbps=" ++ rate ++ text " wbps=" ++ rate) file)
    >> limit_blocks file rate bs

unfoldable pub limit_io : Job → M (Unit {0})
limit_io j =
    if is_positive j.limits.max_disk_io_bytes
    then (wrap (text "failed to configure IO limits: ") list_block_devs >>= λ blocks.
        limit_blocks (j.cgroup_inner // text "io.max") (itoa j.limits.max_disk_io_bytes) blocks)
    else pure tt

unfoldable pub limit_ram : Job → M (Unit {0})
limit_ram j =
    if is_positive j.limits.max_ram_bytes
    then wrap (text "failed to configure RAM limits: ")
        (echo (itoa j.limits.max_ram_bytes) (j.cgroup_inner // text "memory.max"))
    else pure tt

unfoldable pub limit_cpu : Job → M (Unit {0})
limit_cpu j s t =
    if positive_float j.limits.cpu
    then wrap (text "failed to configure CPU limits: ")
        (echo (s.cpu_line j.limits.cpu) (j.cgroup_inner // text "cpu.max")) s t
    else (ok tt, t)

-- setupCgroup once the outer directory is there.
unfoldable pub setup_inner : Job → M Job
setup_inner j = do
  let k = record j { cgroup_inner = j.cgroup_outer // text "inner" }
  wrap (text "failed to create cgroup: ") (perform (mkdir_all k.cgroup_inner 0o700))
  wrap (text "failed to setup cgroup: ")
      (echo (text "+io +cpu +memory") (k.cgroup_outer // text "cgroup.subtree_control"))
  limit_io k
  limit_ram k
  limit_cpu k
  pure k

unfoldable pub make_outer : Job → M Job
make_outer j s t = elim (find_cgroup_mount s.mounts) [
  | none ↦ (err (plain (text "cgroup2 controller is not mounted")), t)
  | some d ↦
      (wrap (text "failed to create cgroup: ") (perform (mkdir_all (d // cgroup_name j.id) 0o600))
          >> pure (record j { cgroup_outer = d // cgroup_name j.id }))
        s t
]

-- setupCgroup: the deferred call removes the outer directory on an error, if this call made it.
unfoldable pub setup_cgroup : Job → M Job
setup_cgroup j =
    if text_eq j.cgroup_outer []
    then (make_outer j >>= λ k. on_error (remove k.cgroup_outer) (setup_inner k))
    else setup_inner j
