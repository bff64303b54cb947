-- ===== src/Peer/Sending/Sent.antt =====
-- What a sender that reports the end of a file has sent.
use quiczilla.Prelude.{
  ◌⊎◌, inl, inr, ℕ, zero, suc, ◌+◌, ◌≡◌, refl, sym, ap, ◌&&◌, ◌||◌, ◌∙◌, Bool, true, false, Option,
  none, some, List, [], ◌∷◌, ◌++◌, ok, arith, length, take, drop, if◌then◌else◌, ltb, ◌==◌,
}
use mathlib.Core.List.{append-nil}
use quiczilla.Prelude.Bytes.{Bytes, codes}
use quiczilla.Paths.{Text, components}
use quiczilla.Control.Text.{file_sent}
use quiczilla.Peer.Disk.{Disk, file}
use quiczilla.Peer.Coordinator.{Effect, emit, control, transfer_progress}
use quiczilla.Peer.Accept.Offsets.{OptionAll}
use quiczilla.Peer.Signals.{Signals, digest, is_some, update-is_some}
use quiczilla.Peer.Sending.{
  Reader, at_read, at_send, finished, reader_failed, Writer, at_recv, at_pause, at_changed,
  at_write, ended, Transfer, Move, gave_up, begin, run, conclude, conclude_with, SendAnswers,
  opened, or_inline, on_read, on_push, on_write_error, step, read, read_error, push, take_chunk,
  look_at_pause, write, write_error, see_cancelled, read_len,
}
use quiczilla.Peer.Sending.Flow.{IsFlow, Finished}
use quiczilla.Peer.Sending.Flow.Steps.{run-IsFlow}

-- The messages of a transfer that sent `content` from `offset` on.
abbrev pub announced : (Bytes → Bytes) → SendAnswers → Bytes → (checksum : Bool) → ℕ → List Effect
announced sha256_hex answers content checksum offset =
    emit (
      transfer_progress (record {
        bytes_transferred = offset + length (drop offset content);
        total_bytes = if answers.has_metadata then length content else 0;
        is_completed = true;
      }))
    ∷ control (
        file_sent (
          if checksum && ((offset == 0) || answers.rereads)
          then sha256_hex content
          else codes "NONE"))
    ∷ []

-- What no step changes: the size, the hash of the whole file, and whether there is a hasher.
abbrev settings : Transfer → ℕ × Option Bytes × Bool
settings t = (t.total_bytes, t.full_hash, is_some t.hasher)

module _ (sha256_hex : Bytes → Bytes) where
  on_read-settings :
      (r : Reader) (size : ℕ) (t : Transfer) → settings (on_read sha256_hex r size t) ≡ settings t
  unfolding on_read
  on_read-settings at_read size t =
      ground (arith, update-is_some t.hasher (take (read_len size) t.unread))
  on_read-settings _ size t = refl

  on_push-settings : (r : Reader) (t : Transfer) → settings (on_push sha256_hex r t) ≡ settings t
  unfolding on_push
  on_push-settings (at_send chunk) t = ground arith
  on_push-settings _ t = refl

  on_write_error-settings :
      (already : ℕ) (w : Writer) (t : Transfer)
      → settings (on_write_error sha256_hex already w t) ≡ settings t
  unfolding on_write_error
  on_write_error-settings already (at_write c) t = refl
  on_write_error-settings already _ t = refl

  step-settings : (m : Move) (t : Transfer) → settings (step sha256_hex m t) ≡ settings t
  unfolding step
  step-settings (read size) t = on_read-settings t.reader size t
  step-settings read_error t = ground arith
  step-settings push t = on_push-settings t.reader t
  step-settings take_chunk t = ground arith
  step-settings look_at_pause t = ground arith
  step-settings (write reports) t = ground arith
  step-settings (write_error already) t = on_write_error-settings already t.writer t
  step-settings (see_cancelled already) t =
      ground (arith, on_write_error-settings already t.writer t)
  step-settings _ t = refl

  run-settings : (moves : List Move) (t : Transfer) → settings (run sha256_hex moves t) ≡ settings t
  unfolding run
  run-settings [] t = refl
  run-settings (m ∷ moves) t = run-settings moves _ ∙ step-settings m t

  pub opened-IsFlow :
      (answers : SendAnswers) (content : Bytes) (checksum : Bool) (offset : ℕ) (signals : Signals)
      → IsFlow sha256_hex
          (drop offset content)
          offset
          (opened sha256_hex answers (file content) checksum offset signals)
  opened-IsFlow answers content checksum offset signals = record {
    order = λ g. refl;
    begun = (_, refl);
    drained = λ w. absurd (ground arith);
    hashed = ground arith;
    over = tt;
    count = λ g. omega arith;
    room = omega arith;
  }

  pub begin-ok :
      (answers : SendAnswers) (disk : Disk) (path : Text) (checksum : Bool) (offset : ℕ)
      (signals : Signals) (content : Bytes) (t : Transfer)
      → disk (components path) ≡ some (file content)
      → begin sha256_hex answers disk path checksum offset signals ≡ ok t
      → t ≡ opened sha256_hex answers (file content) checksum offset signals
  unfolding begin
  begin-ok answers disk path checksum offset signals content t found e =
      ground (arith, rw found at e)

  -- The hash in the message of the end, of what the two hashers have.
  hash_sent :
      (content inline : Bytes) (checksum rereads : Bool) (offset : ℕ) (hasher full : Option Bytes)
      → full ≡ (
          if checksum && ltb 0 offset
          then some (if rereads then sha256_hex content else codes "NONE")
          else none)
      → is_some hasher ≡ (checksum && (offset == 0))
      → OptionAll (λ h. h ++ [] ≡ drop offset content) hasher
      → inline ≡ digest sha256_hex hasher
      → or_inline full inline
        ≡ (if checksum && ((offset == 0) || rereads) then sha256_hex content else codes "NONE")
  hash_sent content inline false b offset none none f i h e = e
  hash_sent content inline true b zero none none f i h e = absurd (ground arith)
  hash_sent content inline true b zero (some a) none f i h e =
      e ∙ ap sha256_hex (sym (append-nil a) ∙ h)
  hash_sent content inline true b (suc offset) hasher none f i h e = absurd (ground arith)
  hash_sent content inline true b (suc offset) hasher (some a) f i h e = ground arith
  hash_sent content inline true b zero hasher (some a) f i h e = absurd (ground arith)
  hash_sent content inline false b offset hasher (some a) f i h e = absurd (ground arith)
  hash_sent content inline false b offset (some a) none f i h e = absurd (ground arith)

  announced-path :
      {n n' total total' : ℕ} {hash hash' : Bytes}
      → n ≡ n'
      → total ≡ total'
      → hash ≡ hash'
      → ◌≡◌ {A = List Effect}
          (emit (
              transfer_progress
                (record { bytes_transferred = n; total_bytes = total; is_completed = true }))
            ∷ control (file_sent hash)
            ∷ [])
          (emit (
              transfer_progress
                (record { bytes_transferred = n'; total_bytes = total'; is_completed = true }))
            ∷ control (file_sent hash')
            ∷ [])
  announced-path a b c = cc

  over_finished :
      (inline : Bytes) (t : Transfer)
      → t.reader ≡ finished inline
      → Finished sha256_hex t.reader t.hasher t.unread
      → (t.unread ≡ []) × (inline ≡ digest sha256_hex t.hasher)
  over_finished inline t f h = rw f at h

  abbrev IsAnnounced : SendAnswers → Bytes → Bool → ℕ → List Effect → Bytes → Type 0
  IsAnnounced answers content checksum offset effects written =
      (effects ≡ [])
      ⊎ ((effects ≡ announced sha256_hex answers content checksum offset)
          × (written ≡ drop offset content))

  conclude_with-IsAnnounced :
      (w : Writer) (r : Reader) (answers : SendAnswers) (content : Bytes) (checksum : Bool)
      (offset : ℕ) (signals : Signals) (t : Transfer)
      → t.writer ≡ w
      → t.reader ≡ r
      → settings t ≡ settings (opened sha256_hex answers (file content) checksum offset signals)
      → IsFlow sha256_hex (drop offset content) offset t
      → IsAnnounced answers content checksum offset (conclude_with w r t) t.written
  conclude_with-IsAnnounced (ended true) (finished inline) answers content checksum offset signals t
        e f s h =
      let none_left = (h.drained e).0 in
      let (all_read, digested) = over_finished inline t f h.over in
      let sent : t.written ≡ drop offset content =
        sym (append-nil t.written)
        ∙ rw all_read at (rw f at (rw none_left at (rw e at (h.order (ap gave_up e))))) in
      inr (
        announced-path (h.count (ap gave_up e) ∙ ap (λ z. offset + length z) sent)
            (ap (λ (z : ℕ × Option Bytes × Bool). z.0) s)
            (hash_sent content inline checksum answers.rereads offset t.hasher t.full_hash
              (ap (λ (z : ℕ × Option Bytes × Bool). z.1) s)
              (ap (λ (z : ℕ × Option Bytes × Bool). z.2) s ∙ ground arith) (rw all_read at h.hashed)
              digested),
        sent,
      )
  conclude_with-IsAnnounced (ended true) at_read answers content checksum offset signals t e f s h =
      inl refl
  conclude_with-IsAnnounced (ended true) (at_send c) answers content checksum offset signals t e f s
        h =
      inl refl
  conclude_with-IsAnnounced (ended true) reader_failed answers content checksum offset signals t e f
        s h =
      inl refl
  conclude_with-IsAnnounced (ended false) r answers content checksum offset signals t e f s h =
      inl refl
  conclude_with-IsAnnounced at_recv r answers content checksum offset signals t e f s h = inl refl
  conclude_with-IsAnnounced (at_pause c) r answers content checksum offset signals t e f s h =
      inl refl
  conclude_with-IsAnnounced (at_changed c) r answers content checksum offset signals t e f s h =
      inl refl
  conclude_with-IsAnnounced (at_write c) r answers content checksum offset signals t e f s h =
      inl refl

  -- A file is opened, and then its reader, its writer, pauses, errors and a cancellation take steps
  -- in any order. If the task announces the end of the file, then the stream got exactly the contents
  -- from the offset on, the last report counts them and has the size, or zero if that was not to be
  -- had, and the hash is that of the whole file, or NONE without checksums and where a resumed file
  -- cannot be read again. Otherwise it says nothing.
  pub conclude-announced :
      (answers : SendAnswers) (disk : Disk) (path : Text) (checksum : Bool) (offset : ℕ)
      (signals : Signals) (content : Bytes) (t : Transfer) (moves : List Move)
      → disk (components path) ≡ some (file content)
      → begin sha256_hex answers disk path checksum offset signals ≡ ok t
      → let t' = run sha256_hex moves t in
        (conclude t' ≡ [])
        ⊎ ((conclude t' ≡ announced sha256_hex answers content checksum offset)
            × (t'.written ≡ drop offset content))
  unfolding conclude
  conclude-announced answers disk path checksum offset signals content t moves found e =
      let start = begin-ok answers disk path checksum offset signals content t found e in
      let t' = run sha256_hex moves t in
      conclude_with-IsAnnounced t'.writer t'.reader answers content checksum offset signals t' refl
        refl (run-settings moves t ∙ ap settings start)
        (run-IsFlow sha256_hex (drop offset content) offset moves t
          (rw start (opened-IsFlow answers content checksum offset signals)))
