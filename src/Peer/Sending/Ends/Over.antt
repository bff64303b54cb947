-- ===== src/Peer/Sending/Ends/Over.antt =====
-- A sender that nothing holds up is over after enough turns.
use quiczilla.Prelude.{
  ◌⊎◌, inl, inr, ℕ, ◌≤◌, ◌≡◌, refl, ap, ◌∙◌, Bool, true, false, List, [], ◌∷◌, ◌++◌, arith, length,
}
use quiczilla.Prelude.Bytes.{Bytes}
use quiczilla.Peer.Sending.{
  Reader, at_read, at_send, finished, reader_failed, Writer, at_recv, at_pause, at_changed,
  at_write, ended, Transfer, Move, is_over, step, run, on_read, on_push, on_take, on_pause,
  on_write,
}
use quiczilla.Peer.Sending.Ends.{
  reading, pushing, taking, looking, writing, reader_work, writer_work, work, is_looking, Works,
  Own, Owns, Stuck, turn, turns, turn-Owns, turns-Owns, no_work,
}
use quiczilla.Peer.Sending.Ends.Progress.{run-Progress}

module _ (sha256_hex : Bytes → Bytes) where
  look_moves :
      (w : Writer) (t : Transfer)
      → t.writer ≡ w
      → Works t
      → on_pause sha256_hex w t ≡ t
      → is_looking w ≡ false
  unfolding on_pause
  look_moves (at_pause c) t e h k =
      ground (arith, ap (λ (x : Transfer). writer_work x.writer) k, ap writer_work e)
  look_moves (at_changed c) t e h k = ground (
    arith,
    ap (λ (x : Transfer). writer_work x.writer) k,
    ap writer_work e,
    h.runs,
    rw e at h.awake,
  )
  look_moves at_recv t e h k = refl
  look_moves (at_write c) t e h k = refl
  look_moves (ended b) t e h k = refl

  write_moves :
      (w : Writer) (t : Transfer)
      → t.writer ≡ w
      → on_write sha256_hex true w t ≡ t
      → is_looking w ≡ false
      → (w ≡ at_recv) ⊎ ((b : Bool) × (w ≡ ended b))
  unfolding on_write
  write_moves (at_pause c) t e k l = absurd (ground arith)
  write_moves (at_changed c) t e k l = absurd (ground arith)
  write_moves (at_write c) t e k l =
      absurd (ground (arith, ap (λ (x : Transfer). writer_work x.writer) k, ap writer_work e))
  write_moves at_recv t e k l = inl refl
  write_moves (ended b) t e k l = inr (b, refl)

  take_moves :
      (w : Writer) (channel : List Bytes) (t : Transfer)
      → t.writer ≡ w
      → t.channel ≡ channel
      → on_take sha256_hex w channel t ≡ t
      → w ≡ at_recv
      → (channel ≡ []) × (is_over t.reader ≡ false)
  unfolding on_take
  take_moves at_recv [] t e c k l =
      (refl, ground (arith, ap (λ (x : Transfer). writer_work x.writer) k, ap writer_work e))
  take_moves at_recv (x ∷ channel) t e c k l =
      absurd (ground (arith, ap (λ (x : Transfer). writer_work x.writer) k, ap writer_work e))
  take_moves (at_pause x) channel t e c k l = absurd (ground arith)
  take_moves (at_changed x) channel t e c k l = absurd (ground arith)
  take_moves (at_write x) channel t e c k l = absurd (ground arith)
  take_moves (ended b) channel t e c k l = absurd (ground arith)

  read_moves :
      (r : Reader) (size : ℕ) (t : Transfer)
      → t.reader ≡ r
      → on_read sha256_hex r size t ≡ t
      → reader_work r ≡ 2
      → ⊥
  unfolding on_read
  read_moves at_read size t e k w =
      ground (arith, ap (λ (x : Transfer). reader_work x.reader) k, ap reader_work e)
  read_moves (at_send c) size t e k w = absurd (omega arith)
  read_moves (finished c) size t e k w = absurd (omega arith)
  read_moves reader_failed size t e k w = absurd (omega arith)

  push_moves :
      (r : Reader) (t : Transfer)
      → t.reader ≡ r
      → t.channel ≡ []
      → on_push sha256_hex r t ≡ t
      → reader_work r ≡ 9
      → ⊥
  unfolding on_push
  push_moves (at_send c) t e n k w =
      ground (arith, ap (λ (x : Transfer). reader_work x.reader) k, ap reader_work e, ap length n)
  push_moves at_read t e n k w = absurd (omega arith)
  push_moves (finished c) t e n k w = absurd (omega arith)
  push_moves reader_failed t e n k w = absurd (omega arith)

  over_unless : (r : Reader) → (reader_work r ≡ 2 → ⊥) → (reader_work r ≡ 9 → ⊥) → is_over r ≡ true
  over_unless at_read h k = absurd (h refl)
  over_unless (at_send c) h k = absurd (k refl)
  over_unless (finished c) h k = refl
  over_unless reader_failed h k = refl

  -- In a state that a turn does not change, the writer has ended.
  Stuck-ended :
      (size : ℕ) (t : Transfer) → Works t → Stuck sha256_hex (turn size) t → t.writer ≡ ended true
  unfolding step
  Stuck-ended size t h (reads, (pushes, (takes, (looks, (writes, u))))) =
      elim (write_moves t.writer t refl writes (look_moves t.writer t refl h looks)) [
        | inl waits ↦
            let (empty, running) = take_moves t.writer t.channel t refl refl takes waits in
            absurd (
              ground (
                arith,
                over_unless t.reader (read_moves t.reader size t refl reads)
                    (push_moves t.reader t refl empty pushes),
              ))
        | inr (true, e) ↦ e
        | inr (false, e) ↦ absurd (ground (arith, h.writes))
      ]

  run_append-writer :
      (xs ys : List Move) (t : Transfer)
      → (run sha256_hex ys (run sha256_hex xs t)).writer ≡ ended true
      → (run sha256_hex (xs ++ ys) t).writer ≡ ended true
  unfolding run
  run_append-writer [] ys t e = e
  run_append-writer (x ∷ xs) ys t e = run_append-writer xs ys _ e

  pub read-writer :
      (r : Reader) (size : ℕ) (t : Transfer) → (on_read sha256_hex r size t).writer ≡ t.writer
  unfolding on_read
  read-writer at_read size t = ground arith
  read-writer _ size t = refl

  pub push-writer : (r : Reader) (t : Transfer) → (on_push sha256_hex r t).writer ≡ t.writer
  unfolding on_push
  push-writer (at_send c) t = ground arith
  push-writer _ t = refl

  own_ended :
      {m : Move} (o : Own m) (t : Transfer)
      → t.writer ≡ ended true
      → (step sha256_hex m t).writer ≡ ended true
  unfolding step on_take on_pause on_write
  own_ended (reading size) t e = read-writer t.reader size t ∙ e
  own_ended pushing t e = push-writer t.reader t ∙ e
  own_ended taking t e = ap (λ w. (on_take sha256_hex w t.channel t).writer) e ∙ e
  own_ended looking t e = ap (λ w. (on_pause sha256_hex w t).writer) e ∙ e
  own_ended (writing b) t e = ap (λ w. (on_write sha256_hex b w t).writer) e ∙ e

  Owns-ended :
      (moves : List Move) (t : Transfer)
      → Owns moves
      → t.writer ≡ ended true
      → (run sha256_hex moves t).writer ≡ ended true
  unfolding run
  Owns-ended [] t o e = e
  Owns-ended (m ∷ moves) t (o, os) e = Owns-ended moves _ os (own_ended o t e)

  -- As many turns as there is work to do end the writer.
  pub turns_end :
      (sizes : List ℕ) (t : Transfer)
      → Works t
      → work t ≤ length sizes
      → (run sha256_hex (turns sizes) t).writer ≡ ended true
  turns_end [] t h less = unfold run in no_work t.writer (omega arith) h.writes
  turns_end (size ∷ sizes) t h less =
      let (h', p) = run-Progress sha256_hex (turn size) t (turn-Owns size) h in
      let t' = run sha256_hex (turn size) t in
      run_append-writer (turn size) (turns sizes) t (elim p [
        | inl (stuck, same) ↦
            Owns-ended (turns sizes) t' (turns-Owns sizes)
              (ap (λ (x : Transfer). x.writer) same ∙ Stuck-ended size t h stuck)
        | inr fewer ↦ turns_end sizes t' h' (omega arith)
      ])
