-- ===== src/Job/New/Failures.antt =====
-- What New returns, and what it leaves behind where it fails.
use jobs.Prelude.{Text, text, List, ◌∷◌, none, some, ◌≡◌, refl, arith}
use jobs.Job.{Job, active}
use jobs.Effects.{
  Effect, remove_all, create_file, close_file, make_pipe, close_read, start_process, System, plain,
  Result, ok, err,
}
use jobs.Cgroup.{◌//◌, setup_cgroup}
use jobs.Cgroup.Setup.{setup_cgroup_ok}
use jobs.Job.New.{JobOption, configured, cmd_args, init_job_dirs, launch, build, new}

-- The job with its directories.
abbrev pub placed : Job → Job
placed j = record j {
  job_dir = j.base_job_dir // j.id;
  work_dir = (j.base_job_dir // j.id) // text "workDir";
  out_file_path = ((j.base_job_dir // j.id) // text "out") // text "output";
}

init_job_dirs_ok :
    (j k : Job) (s : System) (t u : List Effect) → init_job_dirs j s t ≡ (ok k, u) → k ≡ placed j
unfolding init_job_dirs
init_job_dirs_ok j k s t u h = ground arith

launch_ok : (j k : Job) (s : System) (t u : List Effect) → launch j s t ≡ (ok k, u) → k ≡ j
unfolding launch
launch_ok j k s t u h = ground arith

build_ok :
    (j k : Job) (s : System) (t u : List Effect)
    → build j s t ≡ (ok k, u)
    → k ≡ record j { cgroup_outer = k.cgroup_outer; cgroup_inner = k.cgroup_outer // text "inner" }
unfolding build
build_ok j k s t u h = let v = create_file j.out_file_path ∷ t in go (setup_cgroup j s v) refl
  where
    go :
        (r : Result Job × List Effect)
        → setup_cgroup j s (create_file j.out_file_path ∷ t) ≡ r
        → k ≡ record j {
          cgroup_outer = k.cgroup_outer;
          cgroup_inner = k.cgroup_outer // text "inner";
        }
    go (ok m, w) e = ground (
      arith,
      launch_ok m k s w (launch m s w).1,
      setup_cgroup_ok j m s (create_file j.out_file_path ∷ t) w e,
    )
    go (err m, w) e = ground arith

-- A job that New returns is the one that its options describe, active, in its own directories below
-- the base directory, and with a cgroup that holds an inner one; nothing else of it is changed.
pub new_ok :
    (cmd : Text) (args : List Text) (opts : List JobOption) (s : System) (t u : List Effect)
    (k : Job)
    → new cmd args opts s t ≡ (ok k, u)
    → k ≡ record (placed (configured s cmd args opts)) {
      handler = active;
      cgroup_outer = k.cgroup_outer;
      cgroup_inner = k.cgroup_outer // text "inner";
    }
unfolding new
new_ok cmd args opts s t u k h = go (init_job_dirs (configured s cmd args opts) s t) refl
  where
    go :
        (r : Result Job × List Effect)
        → init_job_dirs (configured s cmd args opts) s t ≡ r
        → k ≡ record (placed (configured s cmd args opts)) {
          handler = active;
          cgroup_outer = k.cgroup_outer;
          cgroup_inner = k.cgroup_outer // text "inner";
        }
    go (ok j, w) e = ground (
      arith,
      init_job_dirs_ok (configured s cmd args opts) j s t w e,
      build_ok (record j { handler = active }) k s w u,
    )
    go (err m, w) e = ground arith

-- A job whose process does not start leaves its cgroup behind: after the cgroup was set up, all
-- that New does is to make the pipe, to try the start, and to undo the pipe's read end, the output
-- file and the directories. The directory of the cgroup is not removed, and the pipe's write end is
-- not closed.
pub build_start_fails :
    (j k : Job) (s : System) (t v : List Effect) (m : Text)
    → s.answer t (create_file j.out_file_path) ≡ none
    → setup_cgroup j s (create_file j.out_file_path ∷ t) ≡ (ok k, v)
    → s.answer v make_pipe ≡ none
    → s.answer (make_pipe ∷ v) (start_process k.shim_path (cmd_args k) k.work_dir) ≡ some m
    → build j s t ≡ (
      err (plain m),
      remove_all j.job_dir
          ∷ close_file j.out_file_path
          ∷ close_read
          ∷ start_process k.shim_path (cmd_args k) k.work_dir
          ∷ make_pipe
          ∷ v,
    )
unfolding build launch
build_start_fails j k s t v m c g p f = ground arith
