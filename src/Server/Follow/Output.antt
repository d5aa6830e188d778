-- ===== src/Server/Follow/Output.antt =====
-- What a client of Logs gets, against what the process wrote.
use mathlib.Core.List.{append_assoc, append-nil}
use jobs.Prelude.{
  ℕ, Bool, true, false, List, [], ◌∷◌, ◌++◌, none, some, ◌≡◌, ◌⊎◌, inl, inr, refl, sym, subst, ap,
  ◌∙◌, arith, length, length-append, take, drop, take-append-drop, drop-append, Bool-cases,
  if◌then◌else◌,
}
use jobs.Job.{OutputReader}
use jobs.Server.Follow.{
  Round, ReadError, End, finished, canceled, failed_send, failed_get, failed, read, after_read,
  judge, buffer_size, follow_loop,
}

abbrev pub IsPrefix : List ℕ → List ℕ → Type 0
IsPrefix xs ys = (zs : List ℕ) × (ys ≡ xs ++ zs)

IsPrefix-trans : (xs ys zs : List ℕ) → IsPrefix xs ys → IsPrefix ys zs → IsPrefix xs zs
IsPrefix-trans xs ys zs (a, e) (b, f) =
    (a ++ b, f ∙ ap (λ (l : List ℕ). l ++ b) e ∙ append_assoc xs a b)

-- The file only grows, from round to round.
abbrev pub Grows : List ℕ → List Round → Type 0
Grows c [] = Unit
Grows c (o ∷ os) = IsPrefix c o.content × Grows o.content os

abbrev pub last_content : List ℕ → List Round → List ℕ
last_content c [] = c
last_content c (o ∷ os) = last_content o.content os

last_content-Grows : (c : List ℕ) (os : List Round) → Grows c os → IsPrefix c (last_content c os)
last_content-Grows c [] g = ([], sym (append-nil _))
last_content-Grows c (o ∷ os) g =
    IsPrefix-trans c o.content _ g.0 (last_content-Grows o.content os g.1)

-- What the client has is what the reader has passed.
abbrev pub InStep : OutputReader → List ℕ → List ℕ → Type 0
InStep r out c = (r.offset ≡ length out) × IsPrefix out c

ahead : (out m : List ℕ) (r : OutputReader) → r.offset ≡ length out → drop r.offset (out ++ m) ≡ m
ahead out m r e = rw e (drop-append out m)

read_failed :
    (size : ℕ) (o : Round) (r : OutputReader)
    → o.read_fails ≡ true
    → read size o r ≡ (r, [], failed)
unfolding read
read_failed size o r h = ground arith

pub read_works :
    (size : ℕ) (o : Round) (r : OutputReader) (out m : List ℕ)
    → o.read_fails ≡ false
    → r.offset ≡ length out
    → o.content ≡ out ++ m
    → read size o r ≡ after_read r o.done (take size m)
unfolding read
read_works size o r out m h e f = rw (h, f, ahead out m r e)

-- What one round of the loop comes to, by the result of its read.
module _ (follow : Bool) (o : Round) (os : List Round) (r r' : OutputReader) (out chunk : List ℕ)
    (e : ReadError) (reads : read buffer_size o r ≡ (r', chunk, e)) where
  round_cancelled : o.cancelled ≡ true → follow_loop (some follow) (o ∷ os) r out ≡ (out, canceled)
  unfolding follow_loop
  round_cancelled h = ground arith

  pub round_ends :
      (end : End)
      → o.cancelled ≡ false
      → judge (some follow) chunk e ≡ some end
      → follow_loop (some follow) (o ∷ os) r out ≡ (out, end)
  unfolding follow_loop
  round_ends end h j = rw (reads, h, j)

  pub round_sends :
      o.cancelled ≡ false
      → judge (some follow) chunk e ≡ none
      → follow_loop (some follow) (o ∷ os) r out ≡ (
          if o.send_fails
          then (out, failed_send)
          else follow_loop (some follow) os r' (out ++ chunk))
  unfolding follow_loop
  round_sends h j = simp (h, reads, j)

-- How a finished handler ends: in some round it read to the end of the file, and in follow mode the
-- channel was then closed; or, without follow mode, the read failed.
abbrev pub Ended : Bool → List ℕ → List Round → Type 0
Ended follow out [] = ⊥
Ended follow out (o ∷ os) =
    ((o.read_fails ≡ true) × (follow ≡ false))
    ⊎ ((o.read_fails ≡ false) × (o.content ≡ out) × (follow ≡ true → o.done ≡ true))
    ⊎ Ended follow out os

abbrev pub IsGood : Bool → List ℕ → List Round → List ℕ × End → Type 0
IsGood follow c os r = IsPrefix r.0 (last_content c os) × (r.1 ≡ finished → Ended follow r.0 os)

-- A handler that ends in a round, with a prefix of what the file then held.
ends-IsGood :
    (follow : Bool) (c : List ℕ) (o : Round) (os : List Round) (out : List ℕ) (end : End)
    → Grows c (o ∷ os)
    → IsPrefix out o.content
    → (end ≡ finished → Ended follow out (o ∷ os))
    → IsGood follow c (o ∷ os) (out, end)
ends-IsGood follow c o os out end g p f =
    (IsPrefix-trans out o.content _ p (last_content-Grows o.content os g.1), f)

IsGood-eq :
    (follow : Bool) (c : List ℕ) (os : List Round) {x y : List ℕ × End}
    → x ≡ y
    → IsGood follow c os y
    → IsGood follow c os x
IsGood-eq follow c os e g = subst (IsGood follow c os) (sym e) g

-- A handler that goes on to the next round, or fails to send.
sends-IsGood :
    (follow : Bool) (c : List ℕ) (o : Round) (os : List Round) (r : OutputReader)
    (out chunk : List ℕ)
    → Grows c (o ∷ os)
    → IsPrefix out o.content
    → IsGood follow o.content os (follow_loop (some follow) os r (out ++ chunk))
    → IsGood follow c
        (o ∷ os)
        (if o.send_fails then (out, failed_send) else follow_loop (some follow) os r (out ++ chunk))
sends-IsGood follow c o os r out chunk g p ih = elim (Bool-cases o.send_fails) [
  | inl bad ↦
      IsGood-eq follow c (o ∷ os) (rw bad) (ends-IsGood follow c o os out failed_send g p (λ h. cc))
  | inr good ↦
      IsGood-eq follow c (o ∷ os) {y = follow_loop (some follow) os r (out ++ chunk)} (rw good)
        (ih.0, λ h. inr (inr (ih.1 h)))
]

-- A round whose read worked, by what the file holds beyond what the client has.
works-IsGood :
    (follow : Bool) (c : List ℕ) (o : Round) (os : List Round) (r : OutputReader) (out m : List ℕ)
    → Grows c (o ∷ os)
    → o.cancelled ≡ false
    → o.read_fails ≡ false
    → r.offset ≡ length out
    → o.content ≡ out ++ m
    → ((r' : OutputReader) (out' : List ℕ)
        → InStep r' out' o.content
        → IsGood follow o.content os (follow_loop (some follow) os r' out'))
    → IsGood follow c (o ∷ os) (follow_loop (some follow) (o ∷ os) r out)
unfolding judge
works-IsGood false c o os r out [] g x h e f ih =
    IsGood-eq false c (o ∷ os)
      (round_ends false o os r r out [] _ (read_works buffer_size o r out [] h e f) finished x refl)
      (ends-IsGood false c o os out finished g ([], f)
        (λ _. inr (inl (h, f ∙ append-nil out, λ p. cc))))
works-IsGood true c o os r out [] g x h e f ih = elim (Bool-cases o.done) [
  | inl d ↦
      IsGood-eq true c (o ∷ os)
        (round_ends true o os r r out [] _ (read_works buffer_size o r out [] h e f) finished x
          (rw d))
        (ends-IsGood true c o os out finished g ([], f)
          (λ _. inr (inl (h, f ∙ append-nil out, λ p. d))))
  | inr d ↦
      IsGood-eq true c (o ∷ os)
        (round_sends true o os r r out [] _ (read_works buffer_size o r out [] h e f) x (rw d))
        (sends-IsGood true c o os r out [] g ([], f)
          (ih r (out ++ []) (rw (append-nil out) (e, ([], f)))))
]
works-IsGood follow c o os r out (b ∷ bs) g x h e f ih =
    IsGood-eq follow c (o ∷ os)
      (round_sends follow o os r _ out chunk _ (read_works buffer_size o r out (b ∷ bs) h e f) x
        refl)
      (sends-IsGood follow c o os _ out chunk g (b ∷ bs, f)
        (ih _ (out ++ chunk) (
          omega (arith, length-append out chunk),
          (
            drop buffer_size (b ∷ bs),
            f
                ∙ ap (λ (l : List ℕ). out ++ l) (sym (take-append-drop buffer_size (b ∷ bs)))
                ∙ sym (append_assoc out chunk (drop buffer_size (b ∷ bs))),
          ),
        )))
  where
    chunk : List ℕ
    chunk = take buffer_size (b ∷ bs)

round-IsGood :
    (follow : Bool) (c : List ℕ) (o : Round) (os : List Round) (r : OutputReader) (out m : List ℕ)
    → Grows c (o ∷ os)
    → r.offset ≡ length out
    → o.content ≡ out ++ m
    → ((r' : OutputReader) (out' : List ℕ)
        → InStep r' out' o.content
        → IsGood follow o.content os (follow_loop (some follow) os r' out'))
    → IsGood follow c (o ∷ os) (follow_loop (some follow) (o ∷ os) r out)
unfolding judge
round-IsGood follow c o os r out m g e f ih = elim (Bool-cases o.cancelled) [
  | inl x ↦
      IsGood-eq follow c (o ∷ os) (round_cancelled follow o os r _ out _ _ refl x)
        (ends-IsGood follow c o os out canceled g (m, f) (λ h. cc))
  | inr x ↦ elim (Bool-cases o.read_fails) [
    | inl bad ↦ elim (Bool-cases follow) [
      | inl t ↦
          IsGood-eq follow c (o ∷ os)
            (round_ends follow o os r r out [] failed (read_failed buffer_size o r bad) failed_get x
              (rw t))
            (ends-IsGood follow c o os out failed_get g (m, f) (λ h. cc))
      | inr t ↦
          IsGood-eq follow c (o ∷ os)
            (round_ends follow o os r r out [] failed (read_failed buffer_size o r bad) finished x
              (rw t))
            (ends-IsGood follow c o os out finished g (m, f) (λ h. inl (bad, t)))
    ]
    | inr h ↦ works-IsGood follow c o os r out m g x h e f ih
  ]
]

pub loop-IsGood :
    (follow : Bool) (c : List ℕ) (os : List Round) (r : OutputReader) (out : List ℕ)
    → Grows c os
    → InStep r out c
    → IsGood follow c os (follow_loop (some follow) os r out)
loop-IsGood follow c [] r out g (e, p) = unfold follow_loop in (p, λ h. cc)
loop-IsGood follow c (o ∷ os) r out g (e, p) =
    let (m, f) = IsPrefix-trans out c o.content p g.0 in
    round-IsGood follow c o os r out m g e f
      (λ r' out' k. loop-IsGood follow o.content os r' out' g.1 k)
