-- ===== src/Shim/Protocol.antt =====
-- New and its shim, on the two sides of the pipe.
use jobs.Prelude.{Text, text, text_eq, pos, List, [], ◌∷◌, none, ◌≡◌, ◌↔◌, refl, sym, ◌∙◌, arith}
use jobs.Job.{Job}
use jobs.Job.New.{cmd_args, launch}
use jobs.Effects.{Effect, make_pipe, close_write, read_pipe, start_process, System, Result, ok, err}
use jobs.Cgroup.Process.{setup_proc}
use jobs.Flags.Numbers.RoundTrip.{IsInt64}
use jobs.Flags.RoundTrip.{parse-cmd_args}
use jobs.Shim.{Host, Started, shim, begin, main_start}

-- What the parent reads from the pipe.
abbrev pub written : Started → Text
written (shim b) = b.message
written _ = []

-- The child of New is the shim of its job, with the job's command, arguments, cgroup and ids.
pub main_start-cmd_args :
    (h : Host) (j : Job) (argv0 : Text)
    → h.system.uid ≡ pos 0
    → IsInt64 j.ids.uid
    → IsInt64 j.ids.gid
    → main_start h argv0 (cmd_args j) ≡ shim (begin h argv0 j.command j.args j.cgroup_inner j.ids)
unfolding main_start text_eq
main_start-cmd_args h j argv0 r u g = ground (arith, parse-cmd_args j u g)

launch_reads :
    (j : Job) (s : System) (t : List Effect)
    → s.answer t make_pipe ≡ none
    → s.answer (make_pipe ∷ t) (start_process j.shim_path (cmd_args j) j.work_dir) ≡ none
    → s.answer
        (close_write ∷ start_process j.shim_path (cmd_args j) j.work_dir ∷ make_pipe ∷ t)
        read_pipe
      ≡ none
    → ((launch j s t).0 ≡ ok j) ↔ (s.child_message ≡ [])
unfolding launch
launch_reads j s t p q r = (λ e. ground arith, λ e. ground arith)

begin_writes :
    (h : Host) (command : Text) (args : List Text) (cgroup : Text) (j : Job)
    → ((begin h (text "/proc/self/exe") command args cgroup j.ids).message ≡ [])
      ↔ ((setup_proc cgroup j.ids h.system []).0 ≡ ok tt)
unfolding begin text_eq
begin_writes h command args cgroup j = go (setup_proc cgroup j.ids h.system []).0 refl
  where
    go :
        (r : Result (Unit {0}))
        → (setup_proc cgroup j.ids h.system []).0 ≡ r
        → ((begin h (text "/proc/self/exe") command args cgroup j.ids).message ≡ [])
          ↔ ((setup_proc cgroup j.ids h.system []).0 ≡ ok tt)
    go (ok tt) e = (λ p. e, λ p. ground arith)
    go (err f) e = (λ p. ground arith, λ p. ground arith)

-- New learns through the pipe how its shim fared. Where the job's shim is /proc/self/exe, its ids are
-- ints, the child is root, the process starts and the pipe is read, and what is read is what the child
-- wrote: New has its job exactly if SetupProc returned no error in the child, with the job's cgroup
-- and ids.
pub launch-setup_proc :
    (j : Job) (s : System) (t : List Effect) (h : Host)
    → j.shim_path ≡ text "/proc/self/exe"
    → IsInt64 j.ids.uid
    → IsInt64 j.ids.gid
    → h.system.uid ≡ pos 0
    → s.child_message ≡ written (main_start h j.shim_path (cmd_args j))
    → s.answer t make_pipe ≡ none
    → s.answer (make_pipe ∷ t) (start_process j.shim_path (cmd_args j) j.work_dir) ≡ none
    → s.answer
        (close_write ∷ start_process j.shim_path (cmd_args j) j.work_dir ∷ make_pipe ∷ t)
        read_pipe
      ≡ none
    → ((launch j s t).0 ≡ ok j) ↔ ((setup_proc j.cgroup_inner j.ids h.system []).0 ≡ ok tt)
launch-setup_proc j s t h path u g root message p q r =
    let reads = launch_reads j s t p q r in
    let writes = begin_writes h j.command j.args j.cgroup_inner j in
    let told : s.child_message
        ≡ (begin h (text "/proc/self/exe") j.command j.args j.cgroup_inner j.ids).message =
      message ∙ rw (main_start-cmd_args h j j.shim_path root u g, path) refl in
    (λ e. writes.0 (sym told ∙ reads.0 e), λ e. reads.1 (told ∙ writes.1 e))
