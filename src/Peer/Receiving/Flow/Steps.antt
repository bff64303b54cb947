-- ===== src/Peer/Receiving/Flow/Steps.antt =====
-- Every step of a receiver keeps the flow of the bytes, and it begins with the receiver.
use quiczilla.Prelude.{◌≡◌, refl, sym, ap, ◌∙◌, Bool, true, List, [], ◌∷◌, ◌++◌, arith}
use mathlib.Core.List.{append_assoc, append-nil}
use quiczilla.Prelude.Bytes.{Bytes}
use quiczilla.Peer.Signals.{Signals, concat}
use quiczilla.Peer.Accept.{RecvTask}
use quiczilla.Peer.Receiving.{
  Receipt, Move, test_loop, look_at_pause, read, push, read_error, store, flush_error, store_error,
  arrive, finish_stream, set_pause, close_pause, cancel, ready, step, run,
}
use quiczilla.Peer.Receiving.Flow.{holds, IsFlow}
use quiczilla.Peer.Receiving.Flow.Tasks.{
  on_loop-IsFlow, on_pause-IsFlow, on_read-IsFlow, on_read_error-IsFlow, on_push-IsFlow,
  on_store-IsFlow, on_store_error-IsFlow, on_flush_error-IsFlow,
}

append_last : (a b c d e : Bytes) → a ++ (b ++ (c ++ (d ++ e))) ≡ (a ++ (b ++ (c ++ d))) ++ e
append_last a b c d e = sym (
    append_assoc a _ e
    ∙ ap (λ z. a ++ z) (append_assoc b _ e ∙ ap (λ z. b ++ z) (append_assoc c d e)))

-- What a step delivers on the stream.
abbrev pub delivers : Move → Bytes
delivers (arrive bytes) = bytes
delivers _ = []

abbrev pub all_delivered : List Move → Bytes
all_delivered [] = []
all_delivered (m ∷ moves) = delivers m ++ all_delivered moves

module _ (sha256_hex : Bytes → Bytes) where
  arrive-IsFlow :
      (delivered bytes : Bytes) (r : Receipt)
      → IsFlow sha256_hex delivered r
      → IsFlow sha256_hex (delivered ++ bytes) (record r { incoming = r.incoming ++ bytes })
  arrive-IsFlow delivered bytes r h = record {
    order = λ g.
        append_last r.stored (concat r.channel) (holds r.net) r.incoming bytes
        ∙ ap (λ z. z ++ bytes) (h.order g);
    begun =
        (h.begun.0 ++ bytes, sym (append_assoc r.stored _ bytes) ∙ ap (λ z. z ++ bytes) h.begun.1);
    drained = h.drained;
    hashed = h.hashed;
    count = h.count;
    fits = h.fits;
    room = h.room;
  }

  signals-IsFlow :
      (delivered : Bytes) (s : Signals) (f : Bool) (r : Receipt)
      → IsFlow sha256_hex delivered r
      → IsFlow sha256_hex delivered (record r { signals = s; is_finished = f })
  signals-IsFlow delivered s f r h = record {
    order = h.order;
    begun = h.begun;
    drained = h.drained;
    hashed = h.hashed;
    count = h.count;
    fits = h.fits;
    room = h.room;
  }

  no_more :
      (delivered : Bytes) (r : Receipt)
      → IsFlow sha256_hex delivered r
      → IsFlow sha256_hex (delivered ++ []) r
  no_more delivered r h = rw append-nil h

  step-IsFlow :
      (m : Move) (delivered : Bytes) (r : Receipt)
      → IsFlow sha256_hex delivered r
      → IsFlow sha256_hex (delivered ++ delivers m) (step sha256_hex m r)
  unfolding step
  step-IsFlow test_loop d r h = no_more d _ (on_loop-IsFlow sha256_hex d r.net r refl h)
  step-IsFlow look_at_pause d r h = no_more d _ (on_pause-IsFlow sha256_hex d r.net r refl h)
  step-IsFlow (read size) d r h = no_more d _ (on_read-IsFlow sha256_hex d r.net size r refl h)
  step-IsFlow (push reports) d r h =
      no_more d _ (on_push-IsFlow sha256_hex d r.net reports r refl h)
  step-IsFlow read_error d r h = no_more d _ (on_read_error-IsFlow sha256_hex d r.net r refl h)
  step-IsFlow store d r h =
      no_more d _ (on_store-IsFlow sha256_hex d r.disk_writer r.channel r refl refl h)
  step-IsFlow flush_error d r h =
      no_more d _ (on_flush_error-IsFlow sha256_hex d r.disk_writer r.channel r refl h)
  step-IsFlow (store_error already) d r h =
      no_more d _ (on_store_error-IsFlow sha256_hex d already r.disk_writer r.channel r refl refl h)
  step-IsFlow (arrive bytes) d r h = arrive-IsFlow d bytes r h
  step-IsFlow finish_stream d r h = no_more d _ (signals-IsFlow d r.signals true r h)
  step-IsFlow (set_pause b) d r h = no_more d _ (signals-IsFlow d _ r.is_finished r h)
  step-IsFlow close_pause d r h = no_more d _ (signals-IsFlow d _ r.is_finished r h)
  step-IsFlow cancel d r h = no_more d _ (signals-IsFlow d _ r.is_finished r h)

  pub run-IsFlow :
      (moves : List Move) (delivered : Bytes) (r : Receipt)
      → IsFlow sha256_hex delivered r
      → IsFlow sha256_hex (delivered ++ all_delivered moves) (run sha256_hex moves r)
  unfolding run
  run-IsFlow [] d r h = no_more d r h
  run-IsFlow (m ∷ moves) d r h =
      rw (sym (append_assoc d (delivers m) (all_delivered moves)))
        (run-IsFlow moves (d ++ delivers m) (step sha256_hex m r) (step-IsFlow m d r h))

  pub ready-IsFlow :
      (task : RecvTask) (base : Bytes) (signals : Signals) (incoming : Bytes) (is_finished : Bool)
      → IsFlow sha256_hex incoming (ready task base signals incoming is_finished)
  ready-IsFlow task base signals incoming is_finished = record {
    order = λ g. refl;
    begun = (incoming, refl);
    drained = λ i k. absurd (ground arith);
    hashed = λ g. ground arith;
    count = λ g. omega arith;
    fits = omega arith;
    room = omega arith;
  }
