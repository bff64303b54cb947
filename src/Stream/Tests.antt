-- ===== src/Stream/Tests.antt =====
-- A run of a stream: a reader waits, bytes arrive and wake it, a write is taken and then waited for,
-- the reader takes three bytes, and the write completes and wakes the writer.
use quiczilla.Prelude.{[], ◌∷◌, ◌++◌, Option, none, some, arith, List, false}
use quiczilla.Prelude.Bytes.{Bytes}
use quiczilla.Stream.{msquic_stream_callback, poll_read, poll_write, poll_flush, accepted, new}
use quiczilla.Stream.Flow.{
  World, arrives, completes, reads, writes, flushes, Reach, here, next, one, start,
}

abbrev hello : Bytes
hello = 104 ∷ 101 ∷ 108 ∷ 108 ∷ 111 ∷ []

abbrev buffers : List (Option Bytes)
buffers = some hello ∷ none ∷ some (33 ∷ []) ∷ []

-- The state after the run.
abbrev end : World
end = record {
  shared = record {
    recv_buf = 108 ∷ 111 ∷ 33 ∷ [];
    recv_waker = none;
    send_waker = none;
    is_closed_read = false;
    is_closed_write = false;
    in_flight_bytes = 0;
    error = none;
  };
  arrived = hello ++ (33 ∷ []);
  consumed = 104 ∷ 101 ∷ 108 ∷ [];
  outstanding = [];
  reader = none;
  writer = none;
}

run : Reach start end
unfolding new msquic_stream_callback poll_write poll_read poll_flush
run =
    next
      (next
        (next
          (next (next (next here (reads 2 3)) (arrives buffers))
            (writes accepted 1 hello (omega arith)))
          (flushes 4))
        (reads 2 3))
      (completes (some 5) [] (one [] [] 5))
