-- ===== src/Server/Follow.antt =====
-- The loop of the server's Logs (pkg/server/server.go) over the reader of a job's output
-- (pkg/job/logreader.go), while the process writes the output. Each round is given what the threads
-- around it show at that moment; the rounds are listed, and the loop ends or runs out of rounds.
pub mod Output
pub mod Delivery
mod Examples
use jobs.Prelude.{
  ℕ, zero, suc, ◌+◌, Bool, true, false, List, [], ◌∷◌, ◌++◌, Option, none, some, if◌then◌else◌,
  length, take, drop, text,
}
use jobs.Job.{OutputReader}

-- The error of outputReader.Read; `eof_job_done` is ErrEOFJobDone, which wraps io.EOF.
pub data ReadError : Type 0 where
  no_error eof eof_job_done failed : ReadError

-- errors.Is(err, io.EOF)
abbrev pub is_eof : ReadError → Bool
is_eof eof = true
is_eof eof_job_done = true
is_eof _ = false

-- errors.Is(err, job.ErrEOFJobDone)
abbrev pub is_job_done : ReadError → Bool
is_job_done eof_job_done = true
is_job_done _ = false

pub record Round : Type 0 where
  pub cancelled : Bool  -- at the start, the client is gone
  pub content : List ℕ  -- the file when it is read
  pub read_fails : Bool
  pub done : Bool  -- whether the channel is closed, looked at after the read
  pub send_fails : Bool

-- The result of f.Read and of the look at `done` after an io.EOF.
abbrev pub after_read : OutputReader → Bool → List ℕ → OutputReader × List ℕ × ReadError
after_read r done [] = (r, [], if done then eof_job_done else eof)
after_read r done (b ∷ bs) = (record r { offset = r.offset + length (b ∷ bs) }, b ∷ bs, no_error)

-- outputReader.Read with a buffer of `size` bytes.
unfoldable pub read : ℕ → Round → OutputReader → OutputReader × List ℕ × ReadError
read size o r =
    if o.read_fails
    then (r, [], failed)
    else after_read r o.done (take size (drop r.offset o.content))

-- How the handler ends.
pub data End : Type 0 where
  finished canceled : End  -- a nil error; codes.Canceled
  failed_get failed_send : End  -- codes.Internal
  panicked : End  -- the request has no options
  waiting : End  -- the rounds are used up

abbrev pub buffer_size : ℕ
buffer_size = 1024

-- What a round does after the read: it ends, or sends the data. The options of the request, a
-- pointer, are read only where nothing was read.
unfoldable pub judge : Option Bool → List ℕ → ReadError → Option End
judge none [] e = some panicked
judge (some follow) [] e =
    if follow
    then (if is_eof e then (if is_job_done e then some finished else none) else some failed_get)
    else some finished
judge options (b ∷ bs) e = none

-- The loop, with the data that the client has got.
unfoldable pub follow_loop : Option Bool → List Round → OutputReader → List ℕ → List ℕ × End
follow_loop options [] r out = (out, waiting)
follow_loop options (o ∷ os) r out =
    let (r', chunk, e) = read buffer_size o r in
    let rest = follow_loop options os r' (out ++ chunk) in
    if o.cancelled then (out, canceled) else elim (judge options chunk e) [
      | some end ↦ (out, end)
      | none ↦ if o.send_fails then (out, failed_send) else rest
    ]
