-- ===== src/Effects.antt =====
-- The system calls of pkg/job, as a trace. A call that may fail is an effect, which the system
-- answers; the trace is kept newest first. Calls whose error the code drops are performed too.
mod Decimal
unfoldable pub use Decimal.*
use jobs.Prelude.{Text, ℕ, ℤ, Bool, List, [], ◌∷◌, Option, none, some, if◌then◌else◌}

pub data Effect : Type 0 where
  mkdir_all : Text → ℕ → Effect
  remove_all remove : Text → Effect
  chown : Text → ℤ → ℤ → Effect
  create_file : Text → Effect
  open_append open_create : Text → Effect
  write_line : Text → Text → Effect
  close_file : Text → Effect
  make_pipe close_read close_write read_pipe : Effect
  -- the path of the binary, its arguments, its working directory
  start_process : Text → List Text → Text → Effect
  run_lsblk : Effect
  -- of the shim: the new /proc, its groups and its user
  unmount_proc mount_proc set_groups : Effect
  set_gid set_uid : ℤ → Effect

-- An error value: its text, or its text before another error, a quoted text, or both.
pub data Failure : Type 0 where
  plain : Text → Failure
  wrapped : Text → Failure → Failure
  quoted : Text → Text → Failure
  at_file : Text → Text → Failure → Failure

-- What lies outside the program: `none` is a nil error. The answer to a call may depend on the calls
-- before it.
pub record System : Type 0 where
  pub answer : List Effect → Effect → Option Text
  pub new_id : Text  -- xid.New().String()
  pub uid : ℤ
  pub gid : ℤ
  pub pid : ℤ  -- os.Getpid(), of the shim
  pub mounts : Option (List Text)  -- the lines of /proc/mounts, if it opens
  pub lsblk : List Text  -- the lines that lsblk prints
  pub lsblk_scan : Option Text  -- the scanner's error
  pub child_message : Text  -- what the shim writes to the pipe
  pub cpu_line : ℕ → Text  -- the text for cpu.max of a float32 limit

pub data Result {ℓ} (A : Type ℓ) : Type ℓ where
  ok : A → Result A
  err : Failure → Result A

abbrev pub M {ℓ} : Type ℓ → Type ℓ
M A = System → List Effect → Result A × List Effect

infixl 5 ◌>>=◌ ◌>>◌
abbrev pub ◌>>=◌ {ℓ κ} : {A : Type ℓ} {B : Type κ} → M A → (A → M B) → M B
◌>>=◌ m f s t = let (r, t') = m s t in elim r [ ok a ↦ f a s t' | err e ↦ (err e, t') ]

abbrev pub ◌>>◌ {ℓ} : {B : Type ℓ} → M (Unit {0}) → M B → M B
m >> k = m >>= λ _. k

abbrev pub pure {ℓ} : {A : Type ℓ} → A → M A
pure a s t = (ok a, t)

abbrev pub fail {ℓ} : {A : Type ℓ} → Failure → M A
fail e s t = (err e, t)

abbrev pub perform : Effect → M (Unit {0})
perform e s t = (elim (s.answer t e) [ none ↦ ok tt | some m ↦ err (plain m) ], e ∷ t)

-- A call whose error is dropped.
abbrev pub attempt : Effect → M (Unit {0})
attempt e s t = (ok tt, e ∷ t)

-- fmt.Errorf("...: %w", err)
abbrev pub wrap {ℓ} : {A : Type ℓ} → Text → M A → M A
wrap p m s t = let (r, t') = m s t in (elim r [ ok a ↦ ok a | err e ↦ err (wrapped p e) ], t')

abbrev pub wrap_at {ℓ} : {A : Type ℓ} → Text → Text → M A → M A
wrap_at p file m s t =
    let (r, t') = m s t in (elim r [ ok a ↦ ok a | err e ↦ err (at_file p file e) ], t')

-- A deferred call that runs only where the function returns an error.
abbrev pub on_error {ℓ} : {A : Type ℓ} → Effect → M A → M A
on_error e m s t = let (r, t') = m s t in elim r [ ok a ↦ (ok a, t') | err f ↦ (err f, e ∷ t') ]

-- A deferred call that always runs.
abbrev pub finally {ℓ} : {A : Type ℓ} → Effect → M A → M A
finally e m s t = let (r, t') = m s t in (r, e ∷ t')
