-- ===== src/Examples/Streams.antt =====
-- A stream with ten bytes of credit.
use weregopher.Base.{ℕ, ◌+◌, ◌≡◌, refl, List, [], ◌∷◌}
use weregopher.Session.Stream.{StreamCredit, grant, consume, StreamOp, grants, consumes, step, run}
use weregopher.Session.Stream.Accounting.{total_granted, total_sent, total_chunks, run-accounts}

abbrev stream : StreamCredit
stream = record { available = 10; next_sequence = 1 }

abbrev after_chunk : StreamCredit
after_chunk = record { available = 6; next_sequence = 2 }

abbrev mixed : List StreamOp
mixed = consumes 1 4 ∷ consumes 1 4 ∷ grants 3 ∷ consumes 2 9 ∷ []

mixed_ends : run stream mixed ≡ record { available = 0; next_sequence = 3 }
unfolding run step grant consume
mixed_ends = refl

run-accounts_example :
    (10 + total_granted stream mixed ≡ (run stream mixed).available + total_sent stream mixed)
    × ((run stream mixed).next_sequence ≡ 1 + total_chunks stream mixed)
run-accounts_example = run-accounts stream mixed

abbrev one : ℕ
one = 1
