-- ===== src/Pipe/Parts/Steps.antt =====
-- The steps of a pipe without an error keep the parts of its input.
use quiczilla.Prelude.{
  ℕ, ◌+◌, ◌≡◌, refl, sym, ap, ◌∙◌, Bool, true, ◌||◌, ◌++◌, arith, length, take, if_holds, ◌==◌,
  length-append,
}
use mathlib.Core.List.{append_assoc, append-nil}
use quiczilla.Prelude.Bytes.{Bytes}
use quiczilla.Directory.Copy.{update}
use quiczilla.Peer.Signals.{length-nil}
use quiczilla.Pipe.{
  Place, at_select, at_write, behind_loop, closed, Receiver, Pipe, read_len, on_write, on_shutdown,
  on_recv, on_store, on_flush,
}
use quiczilla.Pipe.Parts.{
  held, is_over, fed, IsReceiving, IsWhole, not_closed, not_closed_write, taken-split, fed-held,
}

module _ (b c : Bool) (input : Bytes) where
  pub on_write-IsWhole :
      (place : Place) (p : Pipe)
      → p.sender.place ≡ place
      → IsWhole b c input p
      → IsWhole b c input (on_write place p)
  unfolding on_write
  on_write-IsWhole (at_write chunk) p e h =
      let s = h.sends in
      let r = h.receives in
      record {
        sends = record {
          split =
              ap (λ z. z ++ p.sender.unread) (append-nil (p.sender.written ++ chunk))
              ∙ rw e at (s.split);
          counted =
              ap (λ n. n + length chunk) s.counted ∙ sym (length-append p.sender.written chunk);
          hashed = rw e at (s.hashed) ∙ ap (fed b) (sym (append-nil (p.sender.written ++ chunk)));
          ended = λ o. cc;
          ends = λ o. absurd (cc (rw e at (s.ends o)));
          finished = λ o. not_closed o;
          awake = s.awake;
        };
        receives = record {
          split =
              sym (append_assoc (p.receiver.output ++ held p.receiver.place) p.in_flight chunk)
              ∙ ap (λ z. z ++ chunk) r.split;
          counted = r.counted;
          hashed = r.hashed;
          ended = λ o. absurd (cc (rw e at (s.ends (r.ended o).1)));
          saved = r.saved;
          awake = r.awake;
        };
      }
  on_write-IsWhole at_select p e h = h
  on_write-IsWhole behind_loop p e h = h
  on_write-IsWhole closed p e h = h

  pub on_shutdown-IsWhole :
      (place : Place) (p : Pipe)
      → p.sender.place ≡ place
      → IsWhole b c input p
      → IsWhole b c input (on_shutdown place true p)
  unfolding on_shutdown
  on_shutdown-IsWhole behind_loop p e h =
      let s = h.sends in
      let r = h.receives in
      let set : (p.fin || true) ≡ true = ground arith in
      record {
        sends = record {
          split = rw e at (s.split);
          counted = s.counted;
          hashed = rw e at (s.hashed);
          ended = λ o. s.ended (ap is_over e);
          ends = λ o. refl;
          finished = λ o. set;
          awake = s.awake;
        };
        receives = record {
          split = r.split;
          counted = r.counted;
          hashed = r.hashed;
          ended = λ o. ((r.ended o).0, set);
          saved = r.saved;
          awake = r.awake;
        };
      }
  on_shutdown-IsWhole at_select p e h = h
  on_shutdown-IsWhole (at_write chunk) p e h = h
  on_shutdown-IsWhole closed p e h = h

module _ (c : Bool) (written : Bytes) where
  pub on_store-IsReceiving :
      (place : Place) (in_flight : Bytes) (fin : Bool) (r : Receiver)
      → r.place ≡ place
      → IsReceiving c written in_flight fin r
      → IsReceiving c written in_flight fin (on_store place r)
  unfolding on_store
  on_store-IsReceiving (at_write chunk) in_flight fin r e h = record {
    split = ap (λ z. z ++ in_flight) (append-nil (r.output ++ chunk)) ∙ rw e at (h.split);
    counted = ap (λ n. n + length chunk) h.counted ∙ sym (length-append r.output chunk);
    hashed = rw e at (h.hashed) ∙ ap (fed c) (sym (append-nil (r.output ++ chunk)));
    ended = λ o. cc;
    saved = λ o. not_closed o;
    awake = h.awake;
  }
  on_store-IsReceiving at_select in_flight fin r e h = h
  on_store-IsReceiving behind_loop in_flight fin r e h = h
  on_store-IsReceiving closed in_flight fin r e h = h

  pub on_flush-IsReceiving :
      (place : Place) (in_flight : Bytes) (fin : Bool) (r : Receiver)
      → r.place ≡ place
      → IsReceiving c written in_flight fin r
      → IsReceiving c written in_flight fin (on_flush place r)
  unfolding on_flush
  on_flush-IsReceiving behind_loop in_flight fin r e h = record {
    split = rw e at (h.split);
    counted = h.counted;
    hashed = rw e at (h.hashed);
    ended = λ o. h.ended (ap is_over e);
    saved = λ o. refl;
    awake = h.awake;
  }
  on_flush-IsReceiving at_select in_flight fin r e h = h
  on_flush-IsReceiving (at_write chunk) in_flight fin r e h = h
  on_flush-IsReceiving closed in_flight fin r e h = h

  abbrev Receives : Pipe → Type 0
  Receives p = IsReceiving c written p.in_flight p.fin p.receiver

  pub on_recv-IsReceiving :
      (place : Place) (size : ℕ) (p : Pipe)
      → p.receiver.place ≡ place
      → IsReceiving c written p.in_flight p.fin p.receiver
      → IsReceiving c written
          (on_recv place size p).in_flight
          (on_recv place size p).fin
          (on_recv place size p).receiver
  unfolding on_recv
  on_recv-IsReceiving at_select size p e h =
      if_holds Receives p.receiver.is_cancelled _ _ (λ q. absurd (ground (arith, q, h.awake)))
        (λ q.
          if_holds Receives (length p.in_flight == 0) _ _
            (λ i.
              if_holds Receives p.fin _ _
                (λ f. record {
                  split = rw e at (h.split);
                  counted = h.counted;
                  hashed = rw e at (h.hashed);
                  ended = λ o. (length-nil p.in_flight i, f);
                  saved = λ o. refl;
                  awake = h.awake;
                })
                (λ f. h))
            (λ i. record {
              split =
                  taken-split p.receiver.output p.in_flight written (read_len size)
                    (rw e at (h.split));
              counted = h.counted;
              hashed =
                  ap (λ z. update z (take (read_len size) p.in_flight)) (rw e at (h.hashed))
                  ∙ fed-held c p.receiver.output (take (read_len size) p.in_flight);
              ended = λ o. cc;
              saved = λ o. not_closed_write o;
              awake = h.awake;
            }))
  on_recv-IsReceiving (at_write chunk) size p e h = h
  on_recv-IsReceiving behind_loop size p e h = h
  on_recv-IsReceiving closed size p e h = h
