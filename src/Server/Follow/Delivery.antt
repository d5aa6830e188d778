-- ===== src/Server/Follow/Delivery.antt =====
-- What Logs promises its client, and where it falls short.
use mathlib.Core.List.{append_assoc, append-nil}
use jobs.Prelude.{
  some, Text, ℕ, zero, suc, ◌<◌, Bool, true, false, List, [], ◌∷◌, ◌++◌, ◌≡◌, refl, sym, ap, ◌∙◌,
  arith, length, length-append, take, drop, take-append-drop, length-drop-le, replicate,
}
use jobs.Job.{OutputReader}
use jobs.Server.Follow.{Round, finished, judge, buffer_size, follow_loop, after_read}
use jobs.Server.Follow.Output.{
  IsPrefix, Grows, last_content, Ended, loop-IsGood, read_works, round_ends, round_sends,
}

-- The reader that Job.Logs returns.
abbrev pub fresh_reader : Text → OutputReader
fresh_reader p = record { path = p; offset = 0 }

-- While the output only grows, whatever ends the loop, and wherever it stands, what a client of
-- Logs has got is a prefix of the output. If the handler returned without an error, the client has
-- all that the file held at some round's read, and in follow mode the channel was closed when that
-- round looked at it; or, without follow mode only, a read failed in some round and the error was
-- dropped.
pub logs_deliver_prefix :
    (follow : Bool) (os : List Round) (path : Text)
    → Grows [] os
    → let result = follow_loop (some follow) os (fresh_reader path) [] in
      IsPrefix result.0 (last_content [] os) × (result.1 ≡ finished → Ended follow result.0 os)
logs_deliver_prefix follow os path g =
    loop-IsGood follow [] os (fresh_reader path) [] g (refl, ([], refl))

-- The process has ended, the file is whole, and nothing fails.
abbrev pub steady : List ℕ → Round
steady c = record {
  cancelled = false;
  content = c;
  read_fails = false;
  done = true;
  send_fails = false;
}

-- When the process has ended and nothing fails, the loop ends: with one round more than the bytes
-- that the client still misses, it has sent the whole output and returned without an error, in
-- either mode.
pub steady_completes :
    (follow : Bool) (n : ℕ) (c out m : List ℕ) (r : OutputReader)
    → r.offset ≡ length out
    → c ≡ out ++ m
    → length m < n
    → follow_loop (some follow) (replicate n (steady c)) r out ≡ (c, finished)
unfolding judge
steady_completes follow zero c out m r e f h = absurd (omega arith)
steady_completes true (suc n) c out [] r e f h =
    round_ends true (steady c) _ r r out [] _ (read_works buffer_size (steady c) r out [] refl e f)
      finished refl refl
    ∙ ap (λ (l : List ℕ). (l, finished)) (sym (f ∙ append-nil out))
steady_completes false (suc n) c out [] r e f h =
    round_ends false (steady c) _ r r out [] _ (read_works buffer_size (steady c) r out [] refl e f)
      finished refl refl
    ∙ ap (λ (l : List ℕ). (l, finished)) (sym (f ∙ append-nil out))
steady_completes follow (suc n) c out (b ∷ bs) r e f h =
    round_sends follow (steady c) _ r _ out (take buffer_size (b ∷ bs)) _
      (read_works buffer_size (steady c) r out (b ∷ bs) refl e f) refl refl
    ∙ steady_completes follow n c (out ++ take buffer_size (b ∷ bs)) (drop buffer_size (b ∷ bs))
        (after_read r true (take buffer_size (b ∷ bs))).0
        (omega (arith, length-append out (take buffer_size (b ∷ bs))))
        (f
          ∙ ap (λ (l : List ℕ). out ++ l) (sym (take-append-drop buffer_size (b ∷ bs)))
          ∙ sym (append_assoc out (take buffer_size (b ∷ bs)) (drop buffer_size (b ∷ bs))))
        (omega (arith, length-drop-le 1023 bs))
