-- ===== src/Peer/Sending/Ends/Progress.antt =====
-- The own steps of a sender lessen its work, or leave it as it is.
use quiczilla.Prelude.{
  ◌⊎◌, inl, inr, ℕ, ◌<◌, ◌≡◌, refl, ap, ◌∙◌, Bool, List, [], ◌∷◌, arith, length, if_holds,
  length-append, length-drop, ltb, ◌==◌,
}
use quiczilla.Prelude.Bytes.{Bytes}
use quiczilla.Peer.Signals.{channel_capacity}
use quiczilla.Peer.Sending.{
  Reader, at_read, at_send, finished, reader_failed, Writer, at_recv, at_pause, at_changed,
  at_write, ended, Transfer, Move, is_over, gave_up, read_len, step, run, on_read, on_push, on_take,
  on_pause, on_write,
}
use quiczilla.Peer.Sending.Ends.{
  reading, pushing, taking, looking, writing, reader_work, writer_work, work, Works, Own, Owns,
  Stuck, Progress,
}

module _ (sha256_hex : Bytes → Bytes) where
  read-Progress :
      (r : Reader) (size : ℕ) (t : Transfer)
      → t.reader ≡ r
      → Works t
      → Progress t (on_read sha256_hex r size t)
  unfolding on_read
  read-Progress at_read size t e h =
      if_holds (Progress t) t.signals.is_cancelled _ _ (λ c. absurd (ground (arith, h.lives)))
        (λ c.
          if_holds (Progress t) (length t.unread == 0) _ _
            (λ z. (
              record {
                runs = h.runs;
                lives = h.lives;
                writes = h.writes;
                reads = refl;
                awake = h.awake;
              },
              inr (ground (arith, ap reader_work e)),
            ))
            (λ z. (
              record {
                runs = h.runs;
                lives = h.lives;
                writes = h.writes;
                reads = refl;
                awake = h.awake;
              },
              inr (ground (arith, ap reader_work e, length-drop (read_len size) t.unread)),
            )))
  read-Progress (at_send c) size t e h = (h, inl refl)
  read-Progress (finished c) size t e h = (h, inl refl)
  read-Progress reader_failed size t e h = (h, inl refl)

  push-Progress :
      (r : Reader) (t : Transfer) → t.reader ≡ r → Works t → Progress t (on_push sha256_hex r t)
  unfolding on_push
  push-Progress (at_send c) t e h =
      if_holds (Progress t) (gave_up t.writer) _ _ (λ g. absurd (ground (arith, h.writes)))
        (λ g.
          if_holds (Progress t) (ltb (length t.channel) channel_capacity) _ _
            (λ z. (
              record {
                runs = h.runs;
                lives = h.lives;
                writes = h.writes;
                reads = refl;
                awake = h.awake;
              },
              inr (ground (arith, ap reader_work e, length-append t.channel (c ∷ []))),
            ))
            (λ z. (h, inl refl)))
  push-Progress at_read t e h = (h, inl refl)
  push-Progress (finished c) t e h = (h, inl refl)
  push-Progress reader_failed t e h = (h, inl refl)

  take-Progress :
      (w : Writer) (channel : List Bytes) (t : Transfer)
      → t.writer ≡ w
      → t.channel ≡ channel
      → Works t
      → Progress t (on_take sha256_hex w channel t)
  unfolding on_take
  take-Progress at_recv [] t e c h =
      if_holds (Progress t) (is_over t.reader) _ _
        (λ z. (
          record { runs = h.runs; lives = h.lives; writes = refl; reads = h.reads; awake = tt },
          inr (ground (arith, ap writer_work e)),
        ))
        (λ z. (h, inl refl))
  take-Progress at_recv (x ∷ channel) t e c h = (
    record { runs = h.runs; lives = h.lives; writes = refl; reads = h.reads; awake = tt },
    inr (ground (arith, ap writer_work e, ap length c)),
  )
  take-Progress (at_pause x) channel t e c h = (h, inl refl)
  take-Progress (at_changed x) channel t e c h = (h, inl refl)
  take-Progress (at_write x) channel t e c h = (h, inl refl)
  take-Progress (ended b) channel t e c h = (h, inl refl)

  look-Progress :
      (w : Writer) (t : Transfer) → t.writer ≡ w → Works t → Progress t (on_pause sha256_hex w t)
  unfolding on_pause
  look-Progress (at_pause c) t e h = (
    record {
      runs = h.runs;
      lives = h.lives;
      writes = ground arith;
      reads = h.reads;
      awake = ground (arith, h.runs);
    },
    inr (ground (arith, h.runs, ap writer_work e)),
  )
  look-Progress (at_changed c) t e h =
      if_holds (Progress t) t.signals.unseen _ _
        (λ z. (
          record { runs = h.runs; lives = h.lives; writes = refl; reads = h.reads; awake = tt },
          inr (ground (arith, ap writer_work e)),
        ))
        (λ z. absurd (ground (arith, h.runs, rw e at h.awake)))
  look-Progress at_recv t e h = (h, inl refl)
  look-Progress (at_write c) t e h = (h, inl refl)
  look-Progress (ended c) t e h = (h, inl refl)

  write-Progress :
      (b : Bool) (w : Writer) (t : Transfer)
      → t.writer ≡ w
      → Works t
      → Progress t (on_write sha256_hex b w t)
  unfolding on_write
  write-Progress b (at_write c) t e h = (
    record {
      runs = h.runs;
      lives = h.lives;
      writes = ground (arith, h.lives);
      reads = h.reads;
      awake = ground (arith);
    },
    inr (ground (arith, h.lives, ap writer_work e)),
  )
  write-Progress b at_recv t e h = (h, inl refl)
  write-Progress b (at_pause c) t e h = (h, inl refl)
  write-Progress b (at_changed c) t e h = (h, inl refl)
  write-Progress b (ended c) t e h = (h, inl refl)

  step-Progress : {m : Move} (o : Own m) (t : Transfer) → Works t → Progress t (step sha256_hex m t)
  unfolding step
  step-Progress (reading size) t h = read-Progress t.reader size t refl h
  step-Progress pushing t h = push-Progress t.reader t refl h
  step-Progress taking t h = take-Progress t.writer t.channel t refl refl h
  step-Progress looking t h = look-Progress t.writer t refl h
  step-Progress (writing b) t h = write-Progress b t.writer t refl h

  pub run-Progress :
      (moves : List Move) (t : Transfer)
      → Owns moves
      → Works t
      → Works (run sha256_hex moves t)
        × ((Stuck sha256_hex moves t × (run sha256_hex moves t ≡ t))
            ⊎ (work (run sha256_hex moves t) < work t))
  unfolding run
  run-Progress [] t o h = (h, inl (tt, refl))
  run-Progress (m ∷ moves) t (o, os) h =
      let t' = step sha256_hex m t in
      let (h', p) = step-Progress o t h in
      let (h'', q) = run-Progress moves t' os h' in
      (
        h'',
        elim p [
          | inl same ↦ elim q [
            | inl (stuck, rest) ↦ inl ((same, rw same at stuck), rest ∙ same)
            | inr less ↦ inr (omega (arith, ap work same))
          ]
          | inr less ↦ elim q [
            | inl (stuck, rest) ↦ inr (omega (arith, ap work rest))
            | inr more ↦ inr (omega arith)
          ]
        ],
      )
