-- ===== src/Control/Frames.antt =====
-- `send_control_message` and `read_control_message` of core/src/peer.rs: a length of four bytes,
-- then the text. A stream is the bytes that have still to arrive before its end.
pub mod Reading
pub mod Branches
use mathlib.Core.Option
use quiczilla.Prelude.{
  ℕ, zero, suc, ◌%◌, ◌^◌, Option, none, some, ◌++◌, Result, ok, err, ◌>>=◌, ◌>>◌, bail_if, ok_or,
  not, ltb, ◌==◌, if◌then◌else◌, length, List, [], ◌∷◌,
}
use quiczilla.Prelude.Bytes.{Bytes, be_bytes, from_be, read_exact}
use quiczilla.Prelude.Utf8.{is_utf8}

abbrev pub max_control_message_bytes : ℕ
max_control_message_bytes = 65536

pub data FrameError : Type 0 where
  message_too_long : ℕ → FrameError
  unexpected_eof not_utf8 : FrameError

-- The bytes that are written. `bytes.len() as u32` keeps the low 32 bits.
unfoldable pub send_control_message : Bytes → Bytes
send_control_message msg = be_bytes 4 (length msg % 2 ^ 32) ++ msg

-- What `read_exact` filled is returned as text.
take_body : Option (Bytes × Bytes) → Result FrameError (Option Bytes × Bytes)
take_body none = err unexpected_eof
take_body (some (buf, rest)) = if is_utf8 buf then ok (some buf, rest) else err not_utf8

-- The part of `read_control_message` behind the length.
read_body : ℕ → Bytes → Result FrameError (Option Bytes × Bytes)
unfolding take_body
read_body len stream =
    if ltb max_control_message_bytes len
    then err (message_too_long len)
    else if len == 0
    then ok (some [], stream)
    else take_body (read_exact len stream)

-- The message and the rest of the stream. `none` is the end of the stream, also inside a length.
pub read_control_message : Bytes → Result FrameError (Option Bytes × Bytes)
unfolding read_body
read_control_message stream = elim (read_exact 4 stream) [
  | none ↦ ok (none, [])
  | some (len_buf, rest) ↦ read_body (from_be 0 len_buf) rest
]

-- The coordination loop's reads: messages until the end of the stream or an error. `none` is fuel.
pub read_messages : ℕ → Bytes → Option (List Bytes × Option FrameError)
unfolding read_control_message
read_messages zero stream = none
read_messages (suc fuel) stream = elim (read_control_message stream) [
  | err e ↦ some ([], some e)
  | ok (none, rest) ↦ some ([], none)
  | ok (some msg, rest) ↦ Option.map (λ r. (msg ∷ r.0, r.1)) (read_messages fuel rest)
]

-- Messages that are sent one after another.
pub send_messages : List Bytes → Bytes
unfolding send_control_message
send_messages [] = []
send_messages (msg ∷ msgs) = send_control_message msg ++ send_messages msgs
