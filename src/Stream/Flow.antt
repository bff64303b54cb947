-- ===== src/Stream/Flow.antt =====
-- Every order of the steps of a stream: the callback of core/src/msquic/stream.rs and the polls of
-- its reader and its writer, with the bytes that pass and the tasks that sleep.
use quiczilla.Prelude.{
  ℕ, suc, ◌+◌, ◌^◌, ◌<◌, ◌≡◌, Bool, Option, none, some, List, [], ◌∷◌, ◌++◌, ok, length,
}
use quiczilla.Prelude.Bytes.{Bytes}
use quiczilla.Stream.Sleep.{asleep, still, ReaderSleeps, WriterSleeps}
use quiczilla.Stream.{
  StreamShared, new, StreamEvent, receive, send_complete, gather, msquic_stream_callback, Poll,
  ready, poll_read, poll_write, poll_flush, poll_shutdown, StreamSend, max_in_flight_bytes,
}

-- The stream with its surroundings: what MsQuic has delivered and the reader has got, the lengths of
-- the chunks that MsQuic holds, and the wakers of the reader and the writer while these sleep.
pub record World : Type 0 where
  pub shared : StreamShared
  pub arrived : Bytes
  pub consumed : Bytes
  pub outstanding : List ℕ
  pub reader : Option ℕ
  pub writer : Option ℕ

abbrev pub sum : List ℕ → ℕ
sum [] = 0
sum (n ∷ ns) = n + sum ns

-- What a poll gave the reader, and the chunk that a write handed over.
abbrev pub got : Poll Bytes → Bytes
got (ready (ok bytes)) = bytes
got _ = []

abbrev pub chunk : Bytes → Poll ℕ → List ℕ
chunk buf (ready (ok (suc n))) = length buf ∷ []
chunk buf _ = []

-- MsQuic completes each chunk once, and gives no other.
pub data Completes : Option ℕ → List ℕ → List ℕ → Type 0 where
  nothing : (ns : List ℕ) → Completes none ns ns
  one :
      (before after : List ℕ) (n : ℕ) → Completes (some n) (before ++ (n ∷ after)) (before ++ after)

-- An event: the callback changes what is shared, and who is woken does not sleep any more.
abbrev pub on_event : StreamEvent → World → World
on_event e w = record w {
  shared = (msquic_stream_callback e w.shared).0;
  reader = still w.reader (msquic_stream_callback e w.shared).1;
  writer = still w.writer (msquic_stream_callback e w.shared).1;
}

-- What the callback and the two tasks may do, in any order.
pub data Step (w : World) : World → Type 0 where
  arrives :
      (buffers : List (Option Bytes))
      → Step w (record (on_event (receive buffers) w) { arrived = w.arrived ++ gather buffers })
  completes :
      (c : Option ℕ) (rest : List ℕ)
      → Completes c w.outstanding rest
      → Step w (record (on_event (send_complete c) w) { outstanding = rest })
  other :
      (e : StreamEvent)
      → ((b : List (Option Bytes)) → e ≡ receive b → ⊥)
      → ((c : Option ℕ) → e ≡ send_complete c → ⊥)
      → Step w (on_event e w)
  reads :
      (waker capacity : ℕ)
      → Step w (record w {
        shared = (poll_read waker capacity w.shared).0;
        consumed = w.consumed ++ got (poll_read waker capacity w.shared).1;
        reader = asleep waker (poll_read waker capacity w.shared).1;
      })
  writes :
      (api : StreamSend) (waker : ℕ) (buf : Bytes)
      → length buf < 2 ^ 32
      → Step w (record w {
        shared = (poll_write api waker buf w.shared).0;
        outstanding = w.outstanding ++ chunk buf (poll_write api waker buf w.shared).1;
        writer = asleep waker (poll_write api waker buf w.shared).1;
      })
  flushes :
      (waker : ℕ)
      → Step w (record w {
        shared = (poll_flush waker w.shared).0;
        writer = asleep waker (poll_flush waker w.shared).1;
      })
  shuts :
      (api : Bool) (waker : ℕ)
      → Step w (record w {
        shared = (poll_shutdown api waker w.shared).0;
        writer = asleep waker (poll_shutdown api waker w.shared).1;
      })

pub data Reach (w : World) : World → Type 0 where
  here : Reach w w
  next : {u v : World} → Reach w u → Step u v → Reach w v

pub record IsSound (w : World) : Type 0 where
  pub order : w.consumed ++ w.shared.recv_buf ≡ w.arrived
  pub flight : w.shared.in_flight_bytes ≡ sum w.outstanding
  pub bound : w.shared.in_flight_bytes < max_in_flight_bytes + 2 ^ 32
  pub reader : ReaderSleeps w.reader w.shared
  pub writer : WriterSleeps w.writer w.shared

abbrev pub start : World
start = record {
  shared = new;
  arrived = [];
  consumed = [];
  outstanding = [];
  reader = none;
  writer = none;
}
