-- ===== src/Peer/Sending/Flow/Steps.antt =====
-- Every step of a sender keeps the flow of the bytes.
use quiczilla.Prelude.{
  ℕ, ◌≡◌, refl, sym, ap, ◌∙◌, Bool, true, false, List, [], ◌∷◌, ◌++◌, arith, length-append, take,
  drop, take-append-drop, if_holds,
}
use mathlib.Core.List.{append_assoc}
use quiczilla.Prelude.Bytes.{Bytes}
use quiczilla.Peer.Signals.{Signals, concat}
use quiczilla.Peer.Sending.{
  Writer, at_recv, at_pause, at_changed, at_write, ended, Transfer, Move, is_over, gave_up, step,
  run, read, read_error, push, take_chunk, look_at_pause, write, write_error, see_cancelled,
  set_pause, close_pause, cancel, on_take, on_pause, on_write, on_write_error,
}
use quiczilla.Peer.Sending.Flow.{writer_holds, behind, no_chunk}
use quiczilla.Peer.Sending.Flow.Reading.{
  Keeps, on_read-IsFlow, on_read_error-IsFlow, on_push-IsFlow,
}

module _ (sha256_hex : Bytes → Bytes) (source : Bytes) (offset : ℕ) where
  writer_moves :
      (w w' : Writer) (s : Signals) (t : Transfer)
      → t.writer ≡ w
      → writer_holds w' ≡ writer_holds w
      → gave_up w ≡ false
      → (w' ≡ ended true → ⊥)
      → (Keeps sha256_hex source offset) t
      → (Keeps sha256_hex source offset) (record t { writer = w'; signals = s })
  writer_moves w w' s t e same g no_end h = record {
    order = λ k. rw same (rw e at (h.order (ap gave_up e ∙ g)));
    begun = h.begun;
    drained = λ w. absurd (no_end w);
    hashed = h.hashed;
    over = h.over;
    count = λ k. h.count (ap gave_up e ∙ g);
    room = h.room;
  }

  on_pause-IsFlow :
      (w : Writer) (t : Transfer)
      → t.writer ≡ w
      → (Keeps sha256_hex source offset) t
      → (Keeps sha256_hex source offset) (on_pause sha256_hex w t)
  unfolding on_pause
  on_pause-IsFlow (at_pause c) t e h =
      writer_moves (at_pause c) _ t.signals t e (ground arith) refl (λ k. ground arith) h
  on_pause-IsFlow (at_changed c) t e h =
      if_holds (Keeps sha256_hex source offset) t.signals.unseen _ _
        (λ u. writer_moves (at_changed c) _ _ t e refl refl (λ k. ground arith) h)
        (λ u.
          if_holds (Keeps sha256_hex source offset) t.signals.is_closed _ _
            (λ k. writer_moves (at_changed c) _ t.signals t e refl refl (λ k. ground arith) h)
            (λ k. h))
  on_pause-IsFlow (at_write c) t e h = h
  on_pause-IsFlow at_recv t e h = h
  on_pause-IsFlow (ended b) t e h = h

  on_take-IsFlow :
      (w : Writer) (chunks : List Bytes) (t : Transfer)
      → t.writer ≡ w
      → t.channel ≡ chunks
      → (Keeps sha256_hex source offset) t
      → (Keeps sha256_hex source offset) (on_take sha256_hex w chunks t)
  unfolding on_take
  on_take-IsFlow at_recv [] t e c h =
      if_holds (Keeps sha256_hex source offset) (is_over t.reader) _ _
        (λ o. record {
          order = λ k. rw e at (h.order (ap gave_up e));
          begun = h.begun;
          drained = λ w. (c, o);
          hashed = h.hashed;
          over = h.over;
          count = λ k. h.count (ap gave_up e);
          room = h.room;
        })
        (λ o. h)
  on_take-IsFlow at_recv (x ∷ chunks) t e c h = record {
    order = λ k.
        ap (λ z. t.written ++ z) (sym (append_assoc x (concat chunks) _))
        ∙ rw e at (rw c at (h.order (ap gave_up e)));
    begun = h.begun;
    drained = λ w. absurd (ground arith);
    hashed = h.hashed;
    over = h.over;
    count = λ k. h.count (ap gave_up e);
    room = ground (arith, rw c at h.room);
  }
  on_take-IsFlow (at_pause x) chunks t e c h = h
  on_take-IsFlow (at_changed x) chunks t e c h = h
  on_take-IsFlow (at_write x) chunks t e c h = h
  on_take-IsFlow (ended b) chunks t e c h = h

  on_write-IsFlow :
      (reports : Bool) (w : Writer) (t : Transfer)
      → t.writer ≡ w
      → (Keeps sha256_hex source offset) t
      → (Keeps sha256_hex source offset) (on_write sha256_hex reports w t)
  unfolding on_write
  on_write-IsFlow reports (at_write c) t e h = record {
    order = λ k.
        append_assoc t.written c _
        ∙ ap (λ z. t.written ++ (c ++ (z ++ behind t))) (no_chunk t.signals.is_cancelled)
        ∙ rw e at (h.order (ap gave_up e));
    begun = (_, append_assoc t.written c _ ∙ rw e at (h.order (ap gave_up e)));
    drained = λ w. absurd (ground arith);
    hashed = h.hashed;
    over = h.over;
    count = λ k. omega (arith, h.count (ap gave_up e), length-append t.written c);
    room = h.room;
  }
  on_write-IsFlow reports at_recv t e h = h
  on_write-IsFlow reports (at_pause c) t e h = h
  on_write-IsFlow reports (at_changed c) t e h = h
  on_write-IsFlow reports (ended b) t e h = h

  on_write_error-IsFlow :
      (already : ℕ) (w : Writer) (t : Transfer)
      → t.writer ≡ w
      → (Keeps sha256_hex source offset) t
      → (Keeps sha256_hex source offset) (on_write_error sha256_hex already w t)
  unfolding on_write_error
  on_write_error-IsFlow already (at_write c) t e h = record {
    order = λ k. absurd (ground arith);
    begun = (
      drop already c ++ _,
      append_assoc t.written (take already c) _
          ∙ ap (λ z. t.written ++ z)
              (sym (append_assoc (take already c) (drop already c) _)
                ∙ ap (λ z. z ++ behind t) (take-append-drop already c))
          ∙ rw e at (h.order (ap gave_up e)),
    );
    drained = λ w. absurd (ground arith);
    hashed = h.hashed;
    over = h.over;
    count = λ k. absurd (ground arith);
    room = h.room;
  }
  on_write_error-IsFlow already at_recv t e h = h
  on_write_error-IsFlow already (at_pause c) t e h = h
  on_write_error-IsFlow already (at_changed c) t e h = h
  on_write_error-IsFlow already (ended b) t e h = h

  signals_change :
      (s : Signals) (t : Transfer)
      → (Keeps sha256_hex source offset) t
      → (Keeps sha256_hex source offset) (record t { signals = s })
  signals_change s t h = record {
    order = h.order;
    begun = h.begun;
    drained = h.drained;
    hashed = h.hashed;
    over = h.over;
    count = h.count;
    room = h.room;
  }

  pub step-IsFlow :
      (m : Move) (t : Transfer)
      → (Keeps sha256_hex source offset) t
      → (Keeps sha256_hex source offset) (step sha256_hex m t)
  unfolding step
  step-IsFlow (read size) t h = on_read-IsFlow sha256_hex source offset t.reader size t refl h
  step-IsFlow read_error t h = on_read_error-IsFlow sha256_hex source offset t.reader t refl h
  step-IsFlow push t h = on_push-IsFlow sha256_hex source offset t.reader t refl h
  step-IsFlow take_chunk t h = on_take-IsFlow t.writer t.channel t refl refl h
  step-IsFlow look_at_pause t h = on_pause-IsFlow t.writer t refl h
  step-IsFlow (write reports) t h = on_write-IsFlow reports t.writer t refl h
  step-IsFlow (write_error already) t h = on_write_error-IsFlow already t.writer t refl h
  step-IsFlow (see_cancelled already) t h =
      if_holds (Keeps sha256_hex source offset) t.signals.is_cancelled _ _
        (λ c. on_write_error-IsFlow already t.writer t refl h) (λ c. h)
  step-IsFlow (set_pause b) t h = signals_change _ t h
  step-IsFlow close_pause t h = signals_change _ t h
  step-IsFlow cancel t h = signals_change _ t h

  pub run-IsFlow :
      (moves : List Move) (t : Transfer)
      → (Keeps sha256_hex source offset) t
      → (Keeps sha256_hex source offset) (run sha256_hex moves t)
  unfolding run
  run-IsFlow [] t h = h
  run-IsFlow (m ∷ moves) t h = run-IsFlow moves _ (step-IsFlow m t h)
