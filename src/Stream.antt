-- ===== src/Stream.antt =====
-- core/src/msquic/stream.rs: the state that a stream shares with MsQuic's callback, the callback, and
-- the polls of tokio's AsyncRead and AsyncWrite. A waker is a number. Each operation runs under the
-- mutex and is one step. MsQuic's own answers are arguments.
pub mod Sleep
pub mod Flow
mod Tests
use quiczilla.Prelude.{
  ℕ, ◌+◌, ◌-◌, ◌%◌, ◌^◌, Bool, true, false, not, Option, none, some, List, [], ◌∷◌, ◌++◌, Result,
  ok, err, ltb, leb, ◌==◌, if◌then◌else◌, length, take, drop, min,
}
use quiczilla.Prelude.Bytes.{Bytes}

pub data IoError : Type 0 where
  peer_aborted_receive peer_aborted_send broken_pipe : IoError
  api_unavailable stream_send_missing stream_send_failed : IoError

pub record StreamShared : Type 0 where
  pub recv_buf : Bytes
  pub recv_waker : Option ℕ
  pub send_waker : Option ℕ
  pub is_closed_read : Bool
  pub is_closed_write : Bool
  pub in_flight_bytes : ℕ
  pub error : Option IoError

-- `MsQuicStream::new`
unfoldable pub new : StreamShared
new = record {
  recv_buf = [];
  recv_waker = none;
  send_waker = none;
  is_closed_read = false;
  is_closed_write = false;
  in_flight_bytes = 0;
  error = none;
}

-- A buffer of a RECEIVE event is a pointer, which may be null. A SEND_COMPLETE event gives back the
-- length of the chunk whose context it carries, if the context is not null.
pub data StreamEvent : Type 0 where
  receive : (buffers : List (Option Bytes)) → StreamEvent
  send_complete : (chunk : Option ℕ) → StreamEvent
  peer_send_shutdown peer_receive_aborted peer_send_aborted shutdown_complete : StreamEvent
  other_event : StreamEvent

-- The bytes that the loop over the buffers appends.
pub gather : List (Option Bytes) → Bytes
gather [] = []
gather (none ∷ buffers) = gather buffers
gather (some bytes ∷ buffers) = bytes ++ gather buffers

abbrev pub take_waker : Option ℕ → List ℕ
take_waker none = []
take_waker (some w) = w ∷ []

abbrev pub freed : Option ℕ → ℕ
freed none = 0
freed (some n) = n

-- The new state, and the wakers that are woken in their order.
unfoldable pub msquic_stream_callback : StreamEvent → StreamShared → StreamShared × List ℕ
unfolding gather
msquic_stream_callback (receive buffers) s = (
  record s { recv_buf = s.recv_buf ++ gather buffers; recv_waker = none },
  take_waker s.recv_waker,
)
msquic_stream_callback (send_complete chunk) s = (
  record s { in_flight_bytes = s.in_flight_bytes - freed chunk; send_waker = none },
  take_waker s.send_waker,
)
msquic_stream_callback peer_send_shutdown s =
    (record s { is_closed_read = true; recv_waker = none }, take_waker s.recv_waker)
msquic_stream_callback peer_receive_aborted s = (
  record s { is_closed_write = true; error = some peer_aborted_receive; send_waker = none },
  take_waker s.send_waker,
)
msquic_stream_callback peer_send_aborted s = (
  record s { is_closed_read = true; error = some peer_aborted_send; recv_waker = none },
  take_waker s.recv_waker,
)
msquic_stream_callback shutdown_complete s = (
  record s { is_closed_read = true; is_closed_write = true; recv_waker = none; send_waker = none },
  take_waker s.recv_waker ++ take_waker s.send_waker,
)
msquic_stream_callback other_event s = (s, [])

pub data Poll {ℓ} (A : Type ℓ) : Type ℓ where
  pending : Poll A
  ready : Result IoError A → Poll A

-- `poll_read` with room for `capacity` bytes. The result is what is put into the buffer: no byte of
-- a buffer with room is the end of the stream.
unfoldable pub poll_read : (waker capacity : ℕ) → StreamShared → StreamShared × Poll Bytes
poll_read waker capacity s = elim s.error [
  | some e ↦ (s, ready (err e))
  | none ↦
      let to_read = min capacity (length s.recv_buf) in
      if not (length s.recv_buf == 0)
      then (record s { recv_buf = drop to_read s.recv_buf }, ready (ok (take to_read s.recv_buf)))
      else if s.is_closed_read
      then (s, ready (ok []))
      else (record s { recv_waker = some waker }, pending)
]

abbrev pub max_in_flight_bytes : ℕ
max_in_flight_bytes = 16777216

-- MsQuic's part of a write: its table may be missing, its `StreamSend` too, and its status tells
-- whether it took the buffer.
pub data StreamSend : Type 0 where
  no_api no_function rejected accepted : StreamSend

-- The call of `StreamSend`, with the low 32 bits of the length.
pub hand_over : StreamSend → Bytes → StreamShared → StreamShared × Poll ℕ
hand_over no_api buf s = (s, ready (err api_unavailable))
hand_over no_function buf s = (s, ready (err stream_send_missing))
hand_over rejected buf s =
    let len = length buf % 2 ^ 32 in
    (record s { in_flight_bytes = s.in_flight_bytes + len - len }, ready (err stream_send_failed))
hand_over accepted buf s =
    let len = length buf % 2 ^ 32 in
    (record s { in_flight_bytes = s.in_flight_bytes + len }, ready (ok len))

unfoldable pub poll_write : StreamSend → (waker : ℕ) → Bytes → StreamShared → StreamShared × Poll ℕ
unfolding hand_over
poll_write stream_send waker buf s = elim s.error [
  | some e ↦ (s, ready (err e))
  | none ↦
      if s.is_closed_write
      then (s, ready (err broken_pipe))
      else if leb max_in_flight_bytes s.in_flight_bytes
      then (record s { send_waker = some waker }, pending)
      else if length buf == 0
      then (s, ready (ok 0))
      else hand_over stream_send buf s
]

unfoldable pub poll_flush : (waker : ℕ) → StreamShared → StreamShared × Poll (Unit {0})
poll_flush waker s =
    if ltb 0 s.in_flight_bytes
    then (record s { send_waker = some waker }, pending)
    else (s, ready (ok tt))

-- `StreamShutdown` is called where the table has it; its status is not looked at.
unfoldable pub poll_shutdown :
    (api : Bool) → (waker : ℕ) → StreamShared → StreamShared × Poll (Unit {0})
poll_shutdown api waker s =
    if ltb 0 s.in_flight_bytes
    then (record s { send_waker = some waker }, pending)
    else if s.is_closed_write
    then (s, ready (ok tt))
    else if api
    then (record s { is_closed_write = true }, ready (ok tt))
    else (s, ready (err api_unavailable))
