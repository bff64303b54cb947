-- ===== src/Pipe/Tests.antt =====
-- Runs of pipe mode on concrete bytes.
use quiczilla.Prelude.{
  ◌≡◌, refl, true, false, some, List, [], ◌∷◌, ◌++◌, arith, replicate, length, ◌≤◌,
}
use quiczilla.Prelude.Bytes.{Bytes}
use quiczilla.Pipe.{
  Move, read, write_chunk, write_error, shutdown, recv, start, step, run, run_pipe, Pipe,
}
use quiczilla.Peer.Signals.{Prefix}
use quiczilla.Pipe.Order.{run-Prefix}
use quiczilla.Pipe.Completes.{turns, turns-results, results}

abbrev reversed : Bytes → Bytes
reversed [] = []
reversed (x ∷ xs) = reversed xs ++ (x ∷ [])

abbrev question : Bytes
question = 104 ∷ 105 ∷ []

abbrev answer : Bytes
answer = 7 ∷ 8 ∷ 9 ∷ []

abbrev some_moves : List Move
some_moves = read 1 ∷ write_chunk ∷ recv 4 ∷ []

abbrev one_way : Pipe
one_way = run (some_moves ++ turns (replicate 16 (2, 1))) (start (some question) true true false)

abbrev other_way : Pipe
other_way = run (turns (replicate 22 (1, 1))) (start (some answer) true false true)

-- A write that fails: the hash has the chunk, and the count does not.
abbrev broken : Pipe
broken =
    run (read 1 ∷ write_chunk ∷ read 1 ∷ write_error 0 ∷ shutdown true ∷ [])
      (start (some question) true true true)

broken_hash : broken.sender.hasher ≡ some question
unfolding run step
broken_hash = refl

broken_count : broken.sender.bytes_sent ≡ 1
unfolding run step
broken_count = refl

broken_fin : broken.fin ≡ true
unfolding run step
broken_fin = refl

run-Prefix_example :
    (Prefix broken.receiver.flushed broken.receiver.output
      × (Prefix broken.receiver.output broken.sender.written
          × Prefix broken.sender.written question))
    × ((broken.sender.bytes_sent ≤ length broken.sender.written)
        × (broken.receiver.bytes_received ≤ length broken.receiver.output))
run-Prefix_example =
    run-Prefix (some question) true true true
      (read 1 ∷ write_chunk ∷ read 1 ∷ write_error 0 ∷ shutdown true ∷ [])

turns-results_example :
    ((one_way.receiver.flushed ≡ question) × (other_way.receiver.flushed ≡ answer))
    × ((run_pipe reversed one_way.sender other_way.receiver
          ≡ some (results reversed true question answer))
        × (run_pipe reversed other_way.sender one_way.receiver
            ≡ some (results reversed false answer question)))
turns-results_example =
    turns-results reversed question answer true false some_moves [] (replicate 16 (2, 1))
      (replicate 22 (1, 1)) refl refl (omega arith) (omega arith)
