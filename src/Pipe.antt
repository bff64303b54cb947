-- ===== src/Pipe.antt =====
-- Pipe mode: core/src/pipe.rs. The send task of `run_pipe` in one process and the receive task in the
-- other, with the stream between them, as the steps of the two loops and of their surroundings.
pub mod Parts
pub mod SendOrder
pub mod RecvOrder
pub mod Order
pub mod Whole
pub mod Work
pub mod Completes
mod Tests
use quiczilla.Prelude.{
  ℕ, zero, suc, ◌+◌, Bool, true, false, ◌&&◌, ◌||◌, not, Option, none, some, List, [], ◌∷◌, ◌++◌,
  ◌==◌, if◌then◌else◌, length, take, drop, min, max,
}
use quiczilla.Prelude.Bytes.{Bytes}
use quiczilla.Directory.Copy.{update}

abbrev pub pipe_buffer_size : ℕ
pipe_buffer_size = 131072

-- Where a task stands: at its `select!`, at `write_all`, behind its loop, or at its end.
pub data Place : Type 0 where
  at_select : Place
  at_write : (chunk : Bytes) → Place
  behind_loop : Place
  closed : Place

-- `unread` is what the input has still to give, `hasher` what the hasher was fed, and `written` what
-- went to the stream.
pub record Sender : Type 0 where
  pub unread : Bytes
  pub hasher : Option Bytes
  pub bytes_sent : ℕ
  pub written : Bytes
  pub place : Place
  pub is_cancelled : Bool

-- `output` is what the writer was given, and `flushed` what of it was flushed.
pub record Receiver : Type 0 where
  pub hasher : Option Bytes
  pub bytes_received : ℕ
  pub output : Bytes
  pub flushed : Bytes
  pub place : Place
  pub is_cancelled : Bool

-- The stream carries `in_flight`, and its end once `fin` is set.
pub record Pipe : Type 0 where
  pub sender : Sender
  pub in_flight : Bytes
  pub fin : Bool
  pub receiver : Receiver

-- The steps of the send task, of the receive task, and of the two tokens. A write that fails has
-- written a part of the chunk.
pub data Move : Type 0 where
  read : (size : ℕ) → Move
  read_error see_cancel write_chunk : Move
  write_error : (already : ℕ) → Move
  shutdown : (is_ok : Bool) → Move
  recv : (size : ℕ) → Move
  recv_error see_cancel_recv store : Move
  store_error : (already : ℕ) → Move
  flush cancel cancel_recv : Move

abbrev pub read_len : ℕ → ℕ
read_len size = max 1 (min size pipe_buffer_size)

abbrev new_hasher : Bool → Option Bytes
new_hasher compute_hash = if compute_hash then some [] else none

-- The send task at its start: without an input there is no loop.
abbrev pub send_task : Option Bytes → (compute_hash : Bool) → Sender
send_task none compute_hash = record {
  unread = [];
  hasher = new_hasher compute_hash;
  bytes_sent = 0;
  written = [];
  place = behind_loop;
  is_cancelled = false;
}
send_task (some input) compute_hash = record {
  unread = input;
  hasher = new_hasher compute_hash;
  bytes_sent = 0;
  written = [];
  place = at_select;
  is_cancelled = false;
}

-- The receive task at its start: without an output there is neither a loop nor a flush.
abbrev recv_task : (has_output compute_hash : Bool) → Receiver
recv_task has_output compute_hash = record {
  hasher = new_hasher compute_hash;
  bytes_received = 0;
  output = [];
  flushed = [];
  place = if has_output then at_select else closed;
  is_cancelled = false;
}

abbrev pub start : Option Bytes → (has_output compute_sent compute_received : Bool) → Pipe
start input has_output compute_sent compute_received = record {
  sender = send_task input compute_sent;
  in_flight = [];
  fin = false;
  receiver = recv_task has_output compute_received;
}

-- A round of the send loop. The token goes before the input, and an empty read is its end.
pub on_read : Place → ℕ → Sender → Sender
on_read at_select size s =
    let n = read_len size in
    if s.is_cancelled || (length s.unread == 0)
    then record s { place = behind_loop }
    else record s {
      unread = drop n s.unread;
      hasher = update s.hasher (take n s.unread);
      place = at_write (take n s.unread);
    }
on_read _ size s = s

-- The input fails, and the loop ends.
pub on_read_error : Place → Sender → Sender
on_read_error at_select s = record s { place = behind_loop }
on_read_error _ s = s

pub on_see_cancel : Place → Sender → Sender
on_see_cancel at_select s = if s.is_cancelled then record s { place = behind_loop } else s
on_see_cancel _ s = s

-- `send_stream.write_all(..)` and the count.
pub on_write : Place → Pipe → Pipe
on_write (at_write chunk) p = record p {
  sender = record p.sender {
    written = p.sender.written ++ chunk;
    bytes_sent = p.sender.bytes_sent + length chunk;
    place = at_select;
  };
  in_flight = p.in_flight ++ chunk;
}
on_write _ p = p

pub on_write_error : Place → ℕ → Pipe → Pipe
on_write_error (at_write chunk) already p = record p {
  sender = record p.sender {
    written = p.sender.written ++ take already chunk;
    place = behind_loop;
  };
  in_flight = p.in_flight ++ take already chunk;
}
on_write_error _ already p = p

-- `send_stream.shutdown()`, whose failure is only logged.
pub on_shutdown : Place → Bool → Pipe → Pipe
on_shutdown behind_loop is_ok p = record p {
  sender = record p.sender { place = closed };
  fin = p.fin || is_ok;
}
on_shutdown _ is_ok p = p

-- A round of the receive loop: an empty read is the end of the stream, and is flushed at once.
pub on_recv : Place → ℕ → Pipe → Pipe
on_recv at_select size p =
    let n = read_len size in
    if p.receiver.is_cancelled
    then record p { receiver = record p.receiver { place = behind_loop } }
    else if length p.in_flight == 0
    then (if p.fin
        then record p {
          receiver = record p.receiver { flushed = p.receiver.output; place = behind_loop };
        }
        else p)
    else record p {
      in_flight = drop n p.in_flight;
      receiver = record p.receiver {
        hasher = update p.receiver.hasher (take n p.in_flight);
        place = at_write (take n p.in_flight);
      };
    }
on_recv _ size p = p

pub on_recv_error : Place → Receiver → Receiver
on_recv_error at_select r = record r { place = behind_loop }
on_recv_error _ r = r

pub on_see_cancel_recv : Place → Receiver → Receiver
on_see_cancel_recv at_select r = if r.is_cancelled then record r { place = behind_loop } else r
on_see_cancel_recv _ r = r

-- `writer.write_all(..)` and the count.
pub on_store : Place → Receiver → Receiver
on_store (at_write chunk) r = record r {
  output = r.output ++ chunk;
  bytes_received = r.bytes_received + length chunk;
  place = at_select;
}
on_store _ r = r

pub on_store_error : Place → ℕ → Receiver → Receiver
on_store_error (at_write chunk) already r = record r {
  output = r.output ++ take already chunk;
  place = behind_loop;
}
on_store_error _ already r = r

-- The flush behind the loop.
pub on_flush : Place → Receiver → Receiver
on_flush behind_loop r = record r { flushed = r.output; place = closed }
on_flush _ r = r

unfoldable pub step : Move → Pipe → Pipe
unfolding on_read on_read_error on_see_cancel on_write on_write_error on_shutdown on_recv
    on_recv_error on_see_cancel_recv on_store on_store_error on_flush
step (read size) p = record p { sender = on_read p.sender.place size p.sender }
step read_error p = record p { sender = on_read_error p.sender.place p.sender }
step see_cancel p = record p { sender = on_see_cancel p.sender.place p.sender }
step write_chunk p = on_write p.sender.place p
step (write_error already) p = on_write_error p.sender.place already p
step (shutdown is_ok) p = on_shutdown p.sender.place is_ok p
step (recv size) p = on_recv p.receiver.place size p
step recv_error p = record p { receiver = on_recv_error p.receiver.place p.receiver }
step see_cancel_recv p = record p { receiver = on_see_cancel_recv p.receiver.place p.receiver }
step store p = record p { receiver = on_store p.receiver.place p.receiver }
step (store_error already) p = record p {
  receiver = on_store_error p.receiver.place already p.receiver;
}
step flush p = record p { receiver = on_flush p.receiver.place p.receiver }
step cancel p = record p { sender = record p.sender { is_cancelled = true } }
step cancel_recv p = record p { receiver = record p.receiver { is_cancelled = true } }

unfoldable pub run : List Move → Pipe → Pipe
run [] p = p
run (m ∷ moves) p = run moves (step m p)

-- `PipeResult`, and what `run_pipe` gives once its two tasks have ended.
pub record PipeResult : Type 0 where
  pub bytes_sent : ℕ
  pub bytes_received : ℕ
  pub sent_hash : Option Bytes
  pub received_hash : Option Bytes

abbrev pub digest : (Bytes → Bytes) → Option Bytes → Option Bytes
digest sha256_hex none = none
digest sha256_hex (some taken) = some (sha256_hex taken)

abbrev join : (Bytes → Bytes) → Place → Place → Sender → Receiver → Option PipeResult
join sha256_hex closed closed s r = some (record {
  bytes_sent = s.bytes_sent;
  bytes_received = r.bytes_received;
  sent_hash = digest sha256_hex s.hasher;
  received_hash = digest sha256_hex r.hasher;
})
join sha256_hex _ _ s r = none

abbrev pub run_pipe : (Bytes → Bytes) → Sender → Receiver → Option PipeResult
run_pipe sha256_hex s r = join sha256_hex s.place r.place s r
