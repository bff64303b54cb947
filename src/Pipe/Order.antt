-- ===== src/Pipe/Order.antt =====
-- What a pipe keeps through errors and cancellations.
use quiczilla.Prelude.{
  ℕ, ◌≤◌, ◌≡◌, refl, ap, ◌∙◌, Bool, true, false, Option, none, some, List, [], ◌∷◌, ◌++◌, arith,
  length, take, if◌then◌else◌, length-append,
}
use mathlib.Core.List.{append-nil}
use quiczilla.Prelude.Bytes.{Bytes}
use quiczilla.Peer.Signals.{Prefix}
use quiczilla.Pipe.{
  Place, at_select, at_write, behind_loop, closed, Sender, Pipe, Move, read, read_error, see_cancel,
  write_chunk, write_error, shutdown, recv, recv_error, see_cancel_recv, store, store_error, flush,
  cancel, cancel_recv, start, send_task, on_read_error, on_see_cancel, on_write, on_write_error,
  on_shutdown, step, run,
}
use quiczilla.Pipe.Parts.{held}
use quiczilla.Pipe.Whole.{on_read-written, on_recv-sender}
use quiczilla.Pipe.SendOrder.{
  Prefix-take, Prefix-chunk, longer, IsSendOrder, on_read-IsSendOrder, on_read_error-IsSendOrder,
  on_see_cancel-IsSendOrder,
}
use quiczilla.Pipe.RecvOrder.{
  IsRecvOrder, grow-IsRecvOrder, on_store-IsRecvOrder, on_store_error-IsRecvOrder,
  on_recv_error-IsRecvOrder, on_see_cancel_recv-IsRecvOrder, on_flush-IsRecvOrder,
  on_recv-IsRecvOrder,
}

pub record IsOrdered (input : Bytes) (p : Pipe) : Type 0 where
  pub sends : IsSendOrder input p.sender
  pub receives : IsRecvOrder p.sender.written p.in_flight p.receiver

on_read_error-written : (place : Place) (s : Sender) → (on_read_error place s).written ≡ s.written
unfolding on_read_error
on_read_error-written at_select s = refl
on_read_error-written _ s = refl

on_see_cancel-written : (place : Place) (s : Sender) → (on_see_cancel place s).written ≡ s.written
unfolding on_see_cancel
on_see_cancel-written at_select s = ground arith
on_see_cancel-written _ s = refl

send_task-written : (input : Option Bytes) (b : Bool) → (send_task input b).written ≡ []
send_task-written none b = refl
send_task-written (some input) b = refl

module _ (input : Bytes) where
  on_write-IsOrdered :
      (place : Place) (p : Pipe)
      → p.sender.place ≡ place
      → IsOrdered input p
      → IsOrdered input (on_write place p)
  unfolding on_write
  on_write-IsOrdered (at_write chunk) p e h =
      let s = p.sender in
      let split = rw e at (h.sends.parts) refl in
      record {
        sends = record {
          parts = λ o. ap (λ z. z ++ s.unread) (append-nil (s.written ++ chunk)) ∙ split;
          ordered = Prefix-chunk s.written chunk s.unread input split;
          counted =
              longer s.bytes_sent (length chunk) s.written chunk h.sends.counted (omega arith);
        };
        receives = grow-IsRecvOrder s.written p.in_flight chunk p.receiver h.receives;
      }
  on_write-IsOrdered _ p e h = h

  on_write_error-IsOrdered :
      (place : Place) (already : ℕ) (p : Pipe)
      → p.sender.place ≡ place
      → IsOrdered input p
      → IsOrdered input (on_write_error place already p)
  unfolding on_write_error
  on_write_error-IsOrdered (at_write chunk) n p e h =
      let s = p.sender in
      let split = rw e at (h.sends.parts) refl in
      record {
        sends = record {
          parts = λ o. cc;
          ordered = Prefix-take n s.written chunk s.unread input split;
          counted = omega (arith, h.sends.counted, length-append s.written (take n chunk));
        };
        receives = grow-IsRecvOrder s.written p.in_flight (take n chunk) p.receiver h.receives;
      }
  on_write_error-IsOrdered _ n p e h = h

  on_shutdown-IsOrdered :
      (place : Place) (is_ok : Bool) (p : Pipe)
      → IsOrdered input p
      → IsOrdered input (on_shutdown place is_ok p)
  unfolding on_shutdown
  on_shutdown-IsOrdered behind_loop is_ok p h = record {
    sends = record { parts = λ o. cc; ordered = h.sends.ordered; counted = h.sends.counted };
    receives = h.receives;
  }
  on_shutdown-IsOrdered _ is_ok p h = h

  step-IsOrdered : (m : Move) (p : Pipe) → IsOrdered input p → IsOrdered input (step m p)
  unfolding step
  step-IsOrdered (read size) p h = record {
    sends = on_read-IsSendOrder input p.sender.place size p.sender refl h.sends;
    receives = rw (on_read-written p.sender.place size p.sender) h.receives;
  }
  step-IsOrdered read_error p h = record {
    sends = on_read_error-IsSendOrder input p.sender.place p.sender h.sends;
    receives = rw (on_read_error-written p.sender.place p.sender) h.receives;
  }
  step-IsOrdered see_cancel p h = record {
    sends = on_see_cancel-IsSendOrder input p.sender.place p.sender h.sends;
    receives = rw (on_see_cancel-written p.sender.place p.sender) h.receives;
  }
  step-IsOrdered write_chunk p h = on_write-IsOrdered p.sender.place p refl h
  step-IsOrdered (write_error n) p h = on_write_error-IsOrdered p.sender.place n p refl h
  step-IsOrdered (shutdown is_ok) p h = on_shutdown-IsOrdered p.sender.place is_ok p h
  step-IsOrdered (recv size) p h = record {
    sends = rw (on_recv-sender p.receiver.place size p) h.sends;
    receives =
        rw (on_recv-sender p.receiver.place size p)
          (on_recv-IsRecvOrder p.sender.written p.receiver.place size p refl h.receives);
  }
  step-IsOrdered recv_error p h = record {
    sends = h.sends;
    receives =
        on_recv_error-IsRecvOrder p.sender.written p.receiver.place p.in_flight p.receiver
          h.receives;
  }
  step-IsOrdered see_cancel_recv p h = record {
    sends = h.sends;
    receives =
        on_see_cancel_recv-IsRecvOrder p.sender.written p.receiver.place p.in_flight p.receiver
          h.receives;
  }
  step-IsOrdered store p h = record {
    sends = h.sends;
    receives =
        on_store-IsRecvOrder p.sender.written p.receiver.place p.in_flight p.receiver refl
          h.receives;
  }
  step-IsOrdered (store_error n) p h = record {
    sends = h.sends;
    receives =
        on_store_error-IsRecvOrder p.sender.written p.receiver.place n p.in_flight p.receiver refl
          h.receives;
  }
  step-IsOrdered flush p h = record {
    sends = h.sends;
    receives =
        on_flush-IsRecvOrder p.sender.written p.receiver.place p.in_flight p.receiver h.receives;
  }
  step-IsOrdered cancel p h = record {
    sends = record { parts = h.sends.parts; ordered = h.sends.ordered; counted = h.sends.counted };
    receives = h.receives;
  }
  step-IsOrdered cancel_recv p h = record {
    sends = h.sends;
    receives = record {
      parts = h.receives.parts;
      ordered = h.receives.ordered;
      counted = h.receives.counted;
      flushed = h.receives.flushed;
    };
  }

  run-IsOrdered : (moves : List Move) (p : Pipe) → IsOrdered input p → IsOrdered input (run moves p)
  unfolding run
  run-IsOrdered [] p h = h
  run-IsOrdered (m ∷ moves) p h = run-IsOrdered moves (step m p) (step-IsOrdered m p h)

-- What an input holds, and none holds nothing.
abbrev pub given : Option Bytes → Bytes
given none = []
given (some input) = input

start-IsSendOrder :
    (input : Option Bytes) (b : Bool) → IsSendOrder (given input) (send_task input b)
start-IsSendOrder none b = record { parts = λ o. cc; ordered = ([], refl); counted = omega arith }
start-IsSendOrder (some input) b = record {
  parts = λ o. refl;
  ordered = (input, refl);
  counted = omega arith;
}

held_first : (has_output : Bool) → held (if has_output then at_select else closed) ++ [] ≡ []
held_first true = refl
held_first false = refl

start-IsOrdered :
    (input : Option Bytes) (has_output b c : Bool)
    → IsOrdered (given input) (start input has_output b c)
start-IsOrdered input has_output b c = record {
  sends = start-IsSendOrder input b;
  receives = rw (send_task-written input b) (record {
    parts = λ o. held_first has_output;
    ordered = ([], refl);
    counted = omega arith;
    flushed = ([], refl);
  });
}

-- After any steps, with any errors and cancellations in them: what is flushed is a beginning of the
-- output, the output of what went to the stream, and that of the input; and neither side counts more
-- bytes than it has passed on.
pub run-Prefix :
    (input : Option Bytes) (has_output compute_sent compute_received : Bool) (moves : List Move)
    → let p = run moves (start input has_output compute_sent compute_received) in
      (Prefix p.receiver.flushed p.receiver.output
        × (Prefix p.receiver.output p.sender.written × Prefix p.sender.written (given input)))
      × ((p.sender.bytes_sent ≤ length p.sender.written)
          × (p.receiver.bytes_received ≤ length p.receiver.output))
run-Prefix input has_output b c moves =
    let h =
      run-IsOrdered (given input) moves (start input has_output b c)
        (start-IsOrdered input has_output b c) in
    (
      (h.receives.flushed, (h.receives.ordered, h.sends.ordered)),
      (h.sends.counted, h.receives.counted),
    )
