-- ===== src/Server/Follow/Examples.antt =====
-- Tests and instances, on a short output.
use jobs.Prelude.{some, text, replicate, [], ◌∷◌, List, true, false, ◌≡◌, refl, arith}
use jobs.Server.Follow.{Round, finished, read, judge, follow_loop}
use jobs.Server.Follow.Output.{IsPrefix, Grows, last_content, Ended}
use jobs.Server.Follow.Delivery.{fresh_reader, logs_deliver_prefix, steady, steady_completes}

-- A byte is there, then two, then the process has ended.
abbrev early : Round
early = record (steady (text "a")) { done = false }

abbrev rounds : List Round
rounds = early ∷ steady (text "ab") ∷ steady (text "ab") ∷ []

follows : follow_loop (some true) rounds (fresh_reader (text "out")) [] ≡ (text "ab", finished)
unfolding follow_loop read judge
follows = refl

growing : Grows [] rounds
growing = ((text "a", refl), ((text "b", refl), (([], refl), tt)))

logs_deliver_prefix_example :
    let result = follow_loop (some true) rounds (fresh_reader (text "out")) [] in
    IsPrefix result.0 (last_content [] rounds) × (result.1 ≡ finished → Ended true result.0 rounds)
logs_deliver_prefix_example = logs_deliver_prefix true rounds (text "out") growing

-- The reader stands past "a" when it reads the end of the file; "b" is written and the process ends
-- before it looks at the channel.
loses_late_bytes :
    follow_loop
      (some true)
      (steady (text "a") ∷ steady (text "ab") ∷ [])
      (record { path = text "out"; offset = 1 })
      (text "a")
    ≡ (text "a", finished)
unfolding follow_loop read judge
loses_late_bytes = refl

steady_completes_example :
    follow_loop (some true) (replicate 3 (steady (text "ab"))) (fresh_reader (text "out")) []
    ≡ (text "ab", finished)
steady_completes_example =
    steady_completes true 3 (text "ab") [] (text "ab") (fresh_reader (text "out")) refl refl
      (omega arith)
