-- ===== src/Control/Frames/Reading.antt =====
-- What `read_control_message` of core/src/peer.rs makes of what `send_control_message` wrote.
use quiczilla.Prelude.{
  ℕ, zero, suc, ◌^◌, ◌≤◌, ◌<◌, ◌≡◌, refl, ◌∙◌, none, some, true, List, [], ◌∷◌, ◌++◌, ok, arith,
  length, All,
}
use mathlib.Core.List.{append_assoc}
use native.Mathlib.Nat.{mod-eq_of_lt}
use quiczilla.Prelude.Bytes.{
  Bytes, be_bytes, read_exact, from_be-be_bytes, length-be_bytes, read_exact-append,
}
use quiczilla.Prelude.Utf8.{is_utf8}
use quiczilla.Control.Frames.{
  max_control_message_bytes, send_control_message, read_body, read_control_message, read_messages,
  send_messages,
}

-- A text that the receiver takes: UTF-8, as every `str` is, and not over the limit.
pub record IsSendable (msg : Bytes) : Type 0 where
  pub short : length msg ≤ max_control_message_bytes
  pub utf8 : is_utf8 msg ≡ true

read_body-ok :
    (msg rest : Bytes) → IsSendable msg → read_body (length msg) (msg ++ rest) ≡ ok (some msg, rest)
unfolding read_body
read_body-ok [] rest h = refl
read_body-ok (b ∷ msg) rest h =
    ground (arith, read_exact-append (length (b ∷ msg)) (b ∷ msg) rest refl)

read_header :
    (n : ℕ) (rest : Bytes)
    → n < 2 ^ 32
    → read_control_message (be_bytes 4 n ++ rest) ≡ read_body n rest
unfolding read_control_message
read_header n rest h =
    rw (read_exact-append 4 (be_bytes 4 n) rest (length-be_bytes 4 n), read_control_message)
      (rw (from_be-be_bytes 4 n h))

-- A text of at most 64 KiB that is UTF-8 is read back from the stream on which it was sent, and
-- exactly what follows it is left.
pub read-send :
    (msg rest : Bytes)
    → IsSendable msg
    → read_control_message (send_control_message msg ++ rest) ≡ ok (some msg, rest)
unfolding send_control_message
read-send msg rest h = rw append_assoc (
    rw (mod-eq_of_lt (fits h))
      (read_header (length msg) (msg ++ rest) (fits h) ∙ read_body-ok msg rest h))
  where
    fits : IsSendable msg → length msg < 2 ^ 32
    fits h = omega arith

-- UTF-8 texts of at most 64 KiB that are sent one after another are read back in their order, up to
-- the end of the stream and without an error, within fuel of one more than their number.
pub read_messages-send_messages :
    (msgs : List Bytes) (fuel : ℕ)
    → All IsSendable msgs
    → length msgs < fuel
    → read_messages fuel (send_messages msgs) ≡ some (msgs, none)
unfolding read_messages send_messages
read_messages-send_messages msgs zero h f = elim f [ ]
read_messages-send_messages [] (suc fuel) h f = unfold read_exact in refl
read_messages-send_messages (msg ∷ msgs) (suc fuel) (hm, h) f =
    rw (read-send msg (send_messages msgs) hm, read_messages)
      (rw (read_messages-send_messages msgs fuel h (omega arith)))
