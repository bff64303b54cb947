-- ===== src/Peer/Sending/Completes.antt =====
-- Sending completes: the steps of a sender that is not held up lead to the announcement of the end.
use quiczilla.Prelude.{
  inl, inr, ℕ, ◌≤◌, ◌≡◌, refl, Bool, true, false, some, List, [], ◌∷◌, ◌++◌, ok, arith, length,
  drop, if_holds,
}
use quiczilla.Prelude.Bytes.{Bytes}
use quiczilla.Paths.{Text, components}
use quiczilla.Peer.Disk.{Disk, file}
use quiczilla.Peer.Signals.{Signals}
use quiczilla.Peer.Sending.{
  Reader, at_read, at_send, finished, reader_failed, Writer, at_recv, at_pause, at_changed,
  at_write, ended, SendAnswers, Transfer, Move, is_over, gave_up, begin, step, run, read,
  read_error, push, take_chunk, look_at_pause, write, write_error, see_cancelled, set_pause,
  close_pause, cancel, on_read, on_read_error, on_push, on_take, on_pause, on_write, on_write_error,
  conclude,
}
use quiczilla.Peer.Sending.Flow.{IsFlow}
use quiczilla.Peer.Sending.Flow.Steps.{run-IsFlow}
use quiczilla.Peer.Sending.Sent.{announced, begin-ok, opened-IsFlow, conclude-announced}
use quiczilla.Peer.Sending.Ends.{work, Awake, Works, is_failed, turns, turns-Owns}
use quiczilla.Peer.Sending.Ends.Progress.{run-Progress}
use quiczilla.Peer.Sending.Ends.Over.{turns_end, read-writer, push-writer}

abbrev IsAwake : Transfer → Type 0
IsAwake t = Awake t.writer t.signals

no_messages {ℓ} : {A : Type ℓ} {x : A} {xs : List A} → ◌≡◌ {A = List A} (x ∷ xs) [] → ⊥
no_messages e = cc

module _ (sha256_hex : Bytes → Bytes) where
  on_read-signals :
      (r : Reader) (size : ℕ) (t : Transfer) → (on_read sha256_hex r size t).signals ≡ t.signals
  unfolding on_read
  on_read-signals at_read size t = ground arith
  on_read-signals _ size t = refl

  on_push-signals : (r : Reader) (t : Transfer) → (on_push sha256_hex r t).signals ≡ t.signals
  unfolding on_push
  on_push-signals (at_send c) t = ground arith
  on_push-signals _ t = refl

  on_take-Awake :
      (w : Writer) (channel : List Bytes) (t : Transfer)
      → IsAwake t
      → IsAwake (on_take sha256_hex w channel t)
  unfolding on_take
  on_take-Awake at_recv [] t h = if_holds IsAwake (is_over t.reader) _ _ (λ o. tt) (λ o. h)
  on_take-Awake at_recv (c ∷ channel) t h = tt
  on_take-Awake (at_pause c) channel t h = h
  on_take-Awake (at_changed c) channel t h = h
  on_take-Awake (at_write c) channel t h = h
  on_take-Awake (ended b) channel t h = h

  on_pause-Awake : (w : Writer) (t : Transfer) → IsAwake t → IsAwake (on_pause sha256_hex w t)
  unfolding on_pause
  on_pause-Awake (at_pause c) t h = ground arith
  on_pause-Awake (at_changed c) t h =
      if_holds IsAwake t.signals.unseen _ _ (λ u. tt)
        (λ u. if_holds IsAwake t.signals.is_closed _ _ (λ c. tt) (λ c. h))
  on_pause-Awake at_recv t h = h
  on_pause-Awake (at_write c) t h = h
  on_pause-Awake (ended b) t h = h

  on_write-Awake :
      (reports : Bool) (w : Writer) (t : Transfer)
      → IsAwake t
      → IsAwake (on_write sha256_hex reports w t)
  unfolding on_write
  on_write-Awake reports (at_write c) t h = ground arith
  on_write-Awake reports at_recv t h = h
  on_write-Awake reports (at_pause c) t h = h
  on_write-Awake reports (at_changed c) t h = h
  on_write-Awake reports (ended b) t h = h

  on_write_error-Awake :
      (already : ℕ) (w : Writer) (t : Transfer)
      → IsAwake t
      → IsAwake (on_write_error sha256_hex already w t)
  unfolding on_write_error
  on_write_error-Awake already (at_write c) t h = tt
  on_write_error-Awake already at_recv t h = h
  on_write_error-Awake already (at_pause c) t h = h
  on_write_error-Awake already (at_changed c) t h = h
  on_write_error-Awake already (ended b) t h = h

  set_pause-Awake : (w : Writer) (s : Signals) → s.unseen ≡ true → Awake w s
  set_pause-Awake (at_changed c) s e = inl e
  set_pause-Awake at_recv s e = tt
  set_pause-Awake (at_pause c) s e = tt
  set_pause-Awake (at_write c) s e = tt
  set_pause-Awake (ended b) s e = tt

  same_Awake :
      (w : Writer) (s s' : Signals)
      → s'.unseen ≡ s.unseen
      → s'.paused ≡ s.paused
      → Awake w s
      → Awake w s'
  same_Awake (at_changed c) s s' e f h = ground arith
  same_Awake at_recv s s' e f h = tt
  same_Awake (at_pause c) s s' e f h = tt
  same_Awake (at_write c) s s' e f h = tt
  same_Awake (ended b) s s' e f h = tt

  moved_Awake :
      (t t' : Transfer) → t'.writer ≡ t.writer → t'.signals ≡ t.signals → IsAwake t → IsAwake t'
  moved_Awake t t' e f h = rw (e, f) h

  on_read_error-Awake :
      (r : Reader) (t : Transfer) → IsAwake t → IsAwake (on_read_error sha256_hex r t)
  unfolding on_read_error
  on_read_error-Awake at_read t h = h
  on_read_error-Awake (at_send c) t h = h
  on_read_error-Awake (finished c) t h = h
  on_read_error-Awake reader_failed t h = h

  step-Awake : (m : Move) (t : Transfer) → IsAwake t → IsAwake (step sha256_hex m t)
  unfolding step
  step-Awake (read size) t h =
      moved_Awake t (on_read sha256_hex t.reader size t) (read-writer sha256_hex t.reader size t)
        (on_read-signals t.reader size t) h
  step-Awake read_error t h = on_read_error-Awake t.reader t h
  step-Awake push t h =
      moved_Awake t (on_push sha256_hex t.reader t) (push-writer sha256_hex t.reader t)
        (on_push-signals t.reader t) h
  step-Awake take_chunk t h = on_take-Awake t.writer t.channel t h
  step-Awake look_at_pause t h = on_pause-Awake t.writer t h
  step-Awake (write reports) t h = on_write-Awake reports t.writer t h
  step-Awake (write_error already) t h = on_write_error-Awake already t.writer t h
  step-Awake (see_cancelled already) t h =
      if_holds IsAwake t.signals.is_cancelled _ _ (λ c. on_write_error-Awake already t.writer t h)
        (λ c. h)
  step-Awake (set_pause b) t h = set_pause-Awake t.writer _ refl
  step-Awake close_pause t h = same_Awake t.writer t.signals _ refl refl h
  step-Awake cancel t h = same_Awake t.writer t.signals _ refl refl h

  run-Awake : (moves : List Move) (t : Transfer) → IsAwake t → IsAwake (run sha256_hex moves t)
  unfolding run
  run-Awake [] t h = h
  run-Awake (m ∷ moves) t h = run-Awake moves _ (step-Awake m t h)

  run_append :
      (xs ys : List Move) (t : Transfer)
      → run sha256_hex (xs ++ ys) t ≡ run sha256_hex ys (run sha256_hex xs t)
  unfolding run
  run_append [] ys t = refl
  run_append (x ∷ xs) ys t = run_append xs ys _

  -- A writer that has ended well, of a reader that has not failed, concludes with two messages.
  concludes :
      (r : Reader) (t : Transfer)
      → t.writer ≡ ended true
      → t.reader ≡ r
      → is_over r ≡ true
      → is_failed r ≡ false
      → conclude t ≡ []
      → ⊥
  unfolding conclude
  concludes (finished i) t e f o n k = no_messages (rw f at (rw e at k))
  concludes reader_failed t e f o n k = absurd (ground arith)
  concludes at_read t e f o n k = absurd (ground arith)
  concludes (at_send c) t e f o n k = absurd (ground arith)

  turned :
      (moves : List Move) (sizes : List ℕ) (t : Transfer)
      → Works (run sha256_hex moves t)
      → work (run sha256_hex moves t) ≤ length sizes
      → Works (run sha256_hex (moves ++ turns sizes) t)
        × ((run sha256_hex (moves ++ turns sizes) t).writer ≡ ended true)
  turned moves sizes t works less =
      let t' = run sha256_hex moves t in
      rw (run_append moves (turns sizes) t) (
        (run-Progress sha256_hex (turns sizes) t' (turns-Owns sizes) works).0,
        turns_end sha256_hex sizes t' works less,
      )

  begin-Awake :
      (answers : SendAnswers) (disk : Disk) (path : Text) (checksum : Bool) (offset : ℕ)
      (signals : Signals) (content : Bytes) (t : Transfer)
      → disk (components path) ≡ some (file content)
      → begin sha256_hex answers disk path checksum offset signals ≡ ok t
      → IsAwake t
  begin-Awake answers disk path checksum offset signals content t found e =
      rw (begin-ok sha256_hex answers disk path checksum offset signals content t found e) tt

  -- Whatever order of steps came before: if the transfer is neither paused nor cancelled, its writer
  -- has not given up and its reader has not failed, then as many turns of the two tasks as there is
  -- work, with reads of any sizes, put the whole file from the offset on into the stream and announce
  -- its end: with the size, or zero if that was not to be had, and with the hash of the whole file, or
  -- NONE without checksums and where a resumed file cannot be read again.
  pub turns-announced :
      (answers : SendAnswers) (disk : Disk) (path : Text) (checksum : Bool) (offset : ℕ)
      (signals : Signals) (content : Bytes) (t : Transfer) (moves : List Move) (sizes : List ℕ)
      → disk (components path) ≡ some (file content)
      → begin sha256_hex answers disk path checksum offset signals ≡ ok t
      → (run sha256_hex moves t).signals.paused ≡ false
      → (run sha256_hex moves t).signals.is_cancelled ≡ false
      → gave_up (run sha256_hex moves t).writer ≡ false
      → is_failed (run sha256_hex moves t).reader ≡ false
      → work (run sha256_hex moves t) ≤ length sizes
      → let t' = run sha256_hex (moves ++ turns sizes) t in
        (conclude t' ≡ announced sha256_hex answers content checksum offset)
        × (t'.written ≡ drop offset content)
  turns-announced answers disk path checksum offset signals content t moves sizes found e p c g f
        less =
      let works : Works (run sha256_hex moves t) = record {
        runs = p;
        lives = c;
        writes = g;
        reads = f;
        awake =
            run-Awake moves t
              (begin-Awake answers disk path checksum offset signals content t found e);
      } in
      let t' = run sha256_hex (moves ++ turns sizes) t in
      let (works', done) = turned moves sizes t works less in
      let flow : IsFlow sha256_hex (drop offset content) offset t' =
        run-IsFlow sha256_hex (drop offset content) offset (moves ++ turns sizes) t (
          rw (begin-ok sha256_hex answers disk path checksum offset signals content t found e)
            (opened-IsFlow sha256_hex answers content checksum offset signals)) in
      elim (conclude-announced sha256_hex answers disk path checksum offset signals content t
        (moves ++ turns sizes) found e) [
          | inl silent ↦
              absurd (concludes t'.reader t' done refl (flow.drained done).1 works'.reads silent)
          | inr sent ↦ sent
        ]
