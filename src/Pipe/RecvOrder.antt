-- ===== src/Pipe/RecvOrder.antt =====
-- The receive task through errors and cancellations: what it gives to its output is in order.
use quiczilla.Prelude.{
  ℕ, ◌≤◌, ◌≡◌, refl, sym, ap, ◌∙◌, false, ◌++◌, arith, length, take, if_holds, ◌==◌, length-append,
}
use mathlib.Core.List.{append_assoc, append-nil}
use quiczilla.Prelude.Bytes.{Bytes}
use quiczilla.Peer.Signals.{Prefix}
use quiczilla.Pipe.{
  Place, at_select, at_write, behind_loop, Receiver, Pipe, read_len, on_recv, on_recv_error,
  on_see_cancel_recv, on_store, on_store_error, on_flush,
}
use quiczilla.Pipe.Parts.{held, is_over, taken-split}
use quiczilla.Pipe.SendOrder.{Prefix-refl, Prefix-append, Prefix-take, Prefix-chunk, longer}

-- Its parts are kept while its loop runs.
pub record IsRecvOrder (written in_flight : Bytes) (r : Receiver) : Type 0 where
  pub parts : is_over r.place ≡ false → (r.output ++ held r.place) ++ in_flight ≡ written
  pub ordered : Prefix r.output written
  pub counted : r.bytes_received ≤ length r.output
  pub flushed : Prefix r.flushed r.output

leaves-IsRecvOrder :
    (written in_flight : Bytes) (r : Receiver)
    → IsRecvOrder written in_flight r
    → IsRecvOrder written in_flight (record r { place = behind_loop })
leaves-IsRecvOrder written in_flight r h = record {
  parts = λ o. cc;
  ordered = h.ordered;
  counted = h.counted;
  flushed = h.flushed;
}

pub grow-IsRecvOrder :
    (written in_flight x : Bytes) (r : Receiver)
    → IsRecvOrder written in_flight r
    → IsRecvOrder (written ++ x) (in_flight ++ x) r
grow-IsRecvOrder written in_flight x r h = record {
  parts =
      λ o. sym (append_assoc (r.output ++ held r.place) in_flight x) ∙ ap (λ z. z ++ x) (h.parts o);
  ordered = Prefix-append r.output written x h.ordered;
  counted = h.counted;
  flushed = h.flushed;
}

module _ (written : Bytes) where
  pub on_store-IsRecvOrder :
      (place : Place) (in_flight : Bytes) (r : Receiver)
      → r.place ≡ place
      → IsRecvOrder written in_flight r
      → IsRecvOrder written in_flight (on_store place r)
  unfolding on_store
  on_store-IsRecvOrder (at_write chunk) in_flight r e h =
      let split = rw e at (h.parts) refl in
      record {
        parts = λ o. ap (λ z. z ++ in_flight) (append-nil (r.output ++ chunk)) ∙ split;
        ordered = Prefix-chunk r.output chunk in_flight written split;
        counted = longer r.bytes_received (length chunk) r.output chunk h.counted (omega arith);
        flushed = Prefix-append r.flushed r.output chunk h.flushed;
      }
  on_store-IsRecvOrder _ in_flight r e h = h

  pub on_store_error-IsRecvOrder :
      (place : Place) (already : ℕ) (in_flight : Bytes) (r : Receiver)
      → r.place ≡ place
      → IsRecvOrder written in_flight r
      → IsRecvOrder written in_flight (on_store_error place already r)
  unfolding on_store_error
  on_store_error-IsRecvOrder (at_write chunk) n in_flight r e h = record {
    parts = λ o. cc;
    ordered = Prefix-take n r.output chunk in_flight written (rw e at (h.parts) refl);
    counted = omega (arith, h.counted, length-append r.output (take n chunk));
    flushed = Prefix-append r.flushed r.output (take n chunk) h.flushed;
  }
  on_store_error-IsRecvOrder _ n in_flight r e h = h

  pub on_recv_error-IsRecvOrder :
      (place : Place) (in_flight : Bytes) (r : Receiver)
      → IsRecvOrder written in_flight r
      → IsRecvOrder written in_flight (on_recv_error place r)
  unfolding on_recv_error
  on_recv_error-IsRecvOrder at_select in_flight r h = leaves-IsRecvOrder written in_flight r h
  on_recv_error-IsRecvOrder _ in_flight r h = h

  pub on_see_cancel_recv-IsRecvOrder :
      (place : Place) (in_flight : Bytes) (r : Receiver)
      → IsRecvOrder written in_flight r
      → IsRecvOrder written in_flight (on_see_cancel_recv place r)
  unfolding on_see_cancel_recv
  on_see_cancel_recv-IsRecvOrder at_select in_flight r h =
      if_holds (IsRecvOrder written in_flight) r.is_cancelled _ _
        (λ q. leaves-IsRecvOrder written in_flight r h) (λ q. h)
  on_see_cancel_recv-IsRecvOrder _ in_flight r h = h

  pub on_flush-IsRecvOrder :
      (place : Place) (in_flight : Bytes) (r : Receiver)
      → IsRecvOrder written in_flight r
      → IsRecvOrder written in_flight (on_flush place r)
  unfolding on_flush
  on_flush-IsRecvOrder behind_loop in_flight r h = record {
    parts = λ o. cc;
    ordered = h.ordered;
    counted = h.counted;
    flushed = Prefix-refl r.output;
  }
  on_flush-IsRecvOrder _ in_flight r h = h

  abbrev Receives : Pipe → Type 0
  Receives p = IsRecvOrder written p.in_flight p.receiver

  pub on_recv-IsRecvOrder :
      (place : Place) (size : ℕ) (p : Pipe)
      → p.receiver.place ≡ place
      → Receives p
      → Receives (on_recv place size p)
  unfolding on_recv
  on_recv-IsRecvOrder at_select size p e h =
      let r = p.receiver in
      if_holds Receives r.is_cancelled _ _ (λ q. leaves-IsRecvOrder written p.in_flight r h)
        (λ q.
          if_holds Receives (length p.in_flight == 0) _ _
            (λ i.
              if_holds Receives p.fin _ _
                (λ f. record {
                  parts = λ o. cc;
                  ordered = h.ordered;
                  counted = h.counted;
                  flushed = Prefix-refl r.output;
                })
                (λ f. h))
            (λ i. record {
              parts = λ o.
                  taken-split r.output p.in_flight written (read_len size) (rw e at (h.parts) refl);
              ordered = h.ordered;
              counted = h.counted;
              flushed = h.flushed;
            }))
  on_recv-IsRecvOrder _ size p e h = h
