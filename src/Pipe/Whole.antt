-- ===== src/Pipe/Whole.antt =====
-- A pipe none of whose reads and writes fails keeps its input whole.
use quiczilla.Prelude.{
  ℕ, ◌≡◌, refl, sym, ap, ◌∙◌, Bool, true, false, List, [], ◌∷◌, ◌++◌, arith, length, if_holds, ◌==◌,
}
use mathlib.Core.List.{append-nil}
use quiczilla.Prelude.Bytes.{Bytes}
use quiczilla.Pipe.{
  Place, at_select, at_write, behind_loop, closed, Sender, Pipe, Move, read, read_error, on_read,
  see_cancel, write_chunk, write_error, shutdown, recv, recv_error, see_cancel_recv, store,
  store_error, flush, cancel, cancel_recv, on_recv, step, run,
}
use quiczilla.Pipe.Parts.{is_clean, are_clean, is_over, fed, IsWhole, on_read-IsSending}
use quiczilla.Pipe.Parts.Steps.{
  on_write-IsWhole, on_shutdown-IsWhole, on_store-IsReceiving, on_flush-IsReceiving,
  on_recv-IsReceiving,
}

pub on_recv-sender :
    (place : Place) (size : ℕ) (p : Pipe) → (on_recv place size p).sender ≡ p.sender
unfolding on_recv
on_recv-sender at_select size p =
    let same : Pipe → Type 0 = λ q. q.sender ≡ p.sender in
    if_holds same p.receiver.is_cancelled _ _ (λ _. refl)
      (λ _.
        if_holds same (length p.in_flight == 0) _ _
          (λ _. if_holds same p.fin _ _ (λ _. refl) (λ _. refl)) (λ _. refl))
on_recv-sender (at_write chunk) size p = refl
on_recv-sender behind_loop size p = refl
on_recv-sender closed size p = refl

pub on_recv-fin : (place : Place) (size : ℕ) (p : Pipe) → (on_recv place size p).fin ≡ p.fin
unfolding on_recv
on_recv-fin at_select size p =
    let same : Pipe → Type 0 = λ q. q.fin ≡ p.fin in
    if_holds same p.receiver.is_cancelled _ _ (λ _. refl)
      (λ _.
        if_holds same (length p.in_flight == 0) _ _
          (λ _. if_holds same p.fin _ _ (λ _. refl) (λ _. refl)) (λ _. refl))
on_recv-fin (at_write chunk) size p = refl
on_recv-fin behind_loop size p = refl
on_recv-fin closed size p = refl

pub on_read-written :
    (place : Place) (size : ℕ) (s : Sender) → (on_read place size s).written ≡ s.written
unfolding on_read
on_read-written at_select size s = ground arith
on_read-written _ size s = refl

module _ (b c : Bool) (input : Bytes) where
  on_recv-IsWhole :
      (size : ℕ) (p : Pipe)
      → IsWhole b c input p
      → IsWhole b c input (on_recv p.receiver.place size p)
  on_recv-IsWhole size p h = record {
    sends =
        rw (on_recv-sender p.receiver.place size p, on_recv-fin p.receiver.place size p) h.sends;
    receives =
        rw (on_recv-sender p.receiver.place size p)
          (on_recv-IsReceiving c p.sender.written p.receiver.place size p refl h.receives);
  }

  step-IsWhole :
      (m : Move) (p : Pipe) → is_clean m ≡ true → IsWhole b c input p → IsWhole b c input (step m p)
  unfolding step
  step-IsWhole (read size) p e h = record {
    sends = on_read-IsSending b input p.sender.place size p.fin p.sender refl h.sends;
    receives = rw (on_read-written p.sender.place size p.sender) h.receives;
  }
  step-IsWhole write_chunk p e h = on_write-IsWhole b c input p.sender.place p refl h
  step-IsWhole (shutdown true) p e h = on_shutdown-IsWhole b c input p.sender.place p refl h
  step-IsWhole (recv size) p e h = on_recv-IsWhole size p h
  step-IsWhole store p e h = record {
    sends = h.sends;
    receives =
        on_store-IsReceiving c p.sender.written p.receiver.place p.in_flight p.fin p.receiver refl
          h.receives;
  }
  step-IsWhole flush p e h = record {
    sends = h.sends;
    receives =
        on_flush-IsReceiving c p.sender.written p.receiver.place p.in_flight p.fin p.receiver refl
          h.receives;
  }
  step-IsWhole (shutdown false) p e h = cc
  step-IsWhole read_error p e h = cc
  step-IsWhole see_cancel p e h = cc
  step-IsWhole (write_error n) p e h = cc
  step-IsWhole recv_error p e h = cc
  step-IsWhole see_cancel_recv p e h = cc
  step-IsWhole (store_error n) p e h = cc
  step-IsWhole cancel p e h = cc
  step-IsWhole cancel_recv p e h = cc

  pub run-IsWhole :
      (moves : List Move) (p : Pipe)
      → are_clean moves ≡ true
      → IsWhole b c input p
      → IsWhole b c input (run moves p)
  unfolding run
  run-IsWhole [] p e h = h
  run-IsWhole (m ∷ moves) p e h =
      run-IsWhole moves (step m p) (ground arith) (step-IsWhole m p (ground arith) h)

  -- The input has arrived.
  pub record HasArrived (p : Pipe) : Type 0 where
    pub sent : p.sender.bytes_sent ≡ length input
    pub sent_hash : p.sender.hasher ≡ fed b input
    pub received : p.receiver.bytes_received ≡ length input
    pub received_hash : p.receiver.hasher ≡ fed c input
    pub saved : p.receiver.flushed ≡ input

  pub IsWhole-HasArrived :
      (p : Pipe)
      → p.sender.place ≡ closed
      → p.receiver.place ≡ closed
      → IsWhole b c input p
      → HasArrived p
  IsWhole-HasArrived p e f h =
      let s = h.sends in
      let r = h.receives in
      let unread : p.sender.unread ≡ [] = s.ended (ap is_over e) in
      let in_flight : p.in_flight ≡ [] = (r.ended (ap is_over f)).0 in
      let written : p.sender.written ≡ input =
        sym (append-nil p.sender.written)
        ∙ sym (append-nil (p.sender.written ++ []))
        ∙ rw (e, unread) at (s.split) in
      let output : p.receiver.output ≡ input =
        sym (append-nil p.receiver.output)
        ∙ sym (append-nil (p.receiver.output ++ []))
        ∙ rw (f, in_flight) at (r.split)
        ∙ written in
      record {
        sent = s.counted ∙ ap length written;
        sent_hash = rw e at (s.hashed) ∙ ap (fed b) (append-nil p.sender.written ∙ written);
        received = r.counted ∙ ap length output;
        received_hash = rw f at (r.hashed) ∙ ap (fed c) (append-nil p.receiver.output ∙ output);
        saved = r.saved f ∙ output;
      }
