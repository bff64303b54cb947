-- ===== src/Peer/Sending.antt =====
-- The file send task of core/src/peer.rs (section 3 of `run_peer`): one transfer from the trigger on,
-- as the steps of its disk reader (3a) and its stream writer (3b) and of their surroundings.
pub mod Flow
pub mod Sent
pub mod Ends
pub mod Completes
use quiczilla.Prelude.{
  ℕ, ◌+◌, ◌^◌, Bool, true, false, ◌&&◌, Option, none, some, List, [], ◌∷◌, ◌++◌, ltb, leb, ◌==◌,
  if◌then◌else◌, length, take, drop, min, max, Result, ok, err,
}
use quiczilla.Prelude.Bytes.{Bytes, codes}
use quiczilla.Paths.{Text, components}
use quiczilla.Control.Text.{file_sent}
use quiczilla.Directory.Copy.{update}
use quiczilla.Peer.Disk.{Disk, Node, file, directory, node_len}
use quiczilla.Peer.Accept.{file_chunk_size}
use quiczilla.Peer.Coordinator.{Effect, emit, control, disconnected, transfer_progress}
use quiczilla.Peer.Signals.{Signals, must_wait, channel_capacity, digest, report}

-- Where task 3a stands.
pub data Reader : Type 0 where
  at_read : Reader
  at_send : (chunk : Bytes) → Reader
  finished : (inline_hash : Bytes) → Reader
  reader_failed : Reader

-- Where task 3b stands: at `chunk_rx.recv()`, at the test of the pause, at `changed()`, at
-- `write_all`, or behind its loop.
pub data Writer : Type 0 where
  at_recv : Writer
  at_pause at_changed at_write : (chunk : Bytes) → Writer
  ended : (send_success : Bool) → Writer

-- `unread` is what the file has still to give, `hasher` what the hasher was fed, and `written` what
-- went to the stream.
pub record Transfer : Type 0 where
  pub unread : Bytes
  pub hasher : Option Bytes
  pub reader : Reader
  pub channel : List Bytes
  pub writer : Writer
  pub written : Bytes
  pub bytes_transferred : ℕ
  pub total_bytes : ℕ
  pub full_hash : Option Bytes
  pub signals : Signals
  pub effects : List Effect

-- The steps of the two tasks, and what happens around them.
pub data Move : Type 0 where
  read : (size : ℕ) → Move
  read_error : Move
  push take_chunk look_at_pause : Move
  write : (reports : Bool) → Move
  write_error see_cancelled : (already : ℕ) → Move
  set_pause : Bool → Move
  close_pause cancel : Move

abbrev pub is_over : Reader → Bool
is_over (finished h) = true
is_over reader_failed = true
is_over _ = false

-- The writer has left its loop early, and its end of the channel is gone.
abbrev pub gave_up : Writer → Bool
gave_up (ended false) = true
gave_up _ = false

abbrev pub read_len : ℕ → ℕ
read_len size = max 1 (min size file_chunk_size)

-- What the system answers at the start of a transfer: the text of an error, whether `metadata` gives
-- the size, and whether the file can be read again for the hash of the whole.
pub record SendAnswers : Type 0 where
  pub os_error : Text
  pub has_metadata : Bool
  pub rereads : Bool

module _ (sha256_hex : Bytes → Bytes) where
  -- The state behind `File::open`, `metadata` and `seek`. A directory can be opened, and its first
  -- read fails.
  abbrev pub opened : SendAnswers → Node → (checksum : Bool) → (offset : ℕ) → Signals → Transfer
  opened answers node checksum offset signals = record {
    unread = elim node [ file bytes ↦ drop offset bytes | directory n ↦ [] ];
    hasher = if checksum && (offset == 0) then some [] else none;
    reader = elim node [ file bytes ↦ at_read | directory n ↦ reader_failed ];
    channel = [];
    writer = at_recv;
    written = [];
    bytes_transferred = offset;
    total_bytes = if answers.has_metadata then node_len (some node) else 0;
    full_hash =
        if checksum && ltb 0 offset
        then some (elim node [
          | file bytes ↦ if answers.rereads then sha256_hex bytes else codes "NONE"
          | directory n ↦ codes "NONE"
        ])
        else none;
    signals = signals;
    effects = [];
  }

  -- A seek fails beyond the largest i64.
  abbrev open_node :
      SendAnswers
      → Option Node
      → (checksum : Bool) → (offset : ℕ) → Signals
      → Result (List Effect) Transfer
  open_node answers none checksum offset signals =
      err (emit (disconnected (codes "Failed to open file to send: " ++ answers.os_error)) ∷ [])
  open_node answers (some node) checksum offset signals =
      if leb (2 ^ 63) offset
      then err (
          emit (disconnected (codes "Failed to seek file for resumption: " ++ answers.os_error))
          ∷ [])
      else ok (opened answers node checksum offset signals)

  -- A trigger (path, checksum, resume_offset).
  unfoldable pub begin :
      SendAnswers
      → Disk
      → (path : Text) → (checksum : Bool) → (resume_offset : ℕ) → Signals
      → Result (List Effect) Transfer
  begin answers disk path checksum resume_offset signals =
      open_node answers (disk (components path)) checksum resume_offset signals

  -- Task 3a, from the test of the token on: a read gives up to a chunk, and nothing at the end only.
  pub on_read : Reader → ℕ → Transfer → Transfer
  on_read at_read size t =
      let n = read_len size in
      if t.signals.is_cancelled
      then record t { reader = reader_failed }
      else if length t.unread == 0
      then record t { reader = finished (digest sha256_hex t.hasher) }
      else record t {
        unread = drop n t.unread;
        hasher = update t.hasher (take n t.unread);
        reader = at_send (take n t.unread);
      }
  on_read _ size t = t

  pub on_read_error : Reader → Transfer → Transfer
  on_read_error at_read t = record t { reader = reader_failed }
  on_read_error _ t = t

  -- `chunk_tx.send(..)` waits for room.
  pub on_push : Reader → Transfer → Transfer
  on_push (at_send chunk) t =
      if gave_up t.writer
      then record t { reader = reader_failed }
      else if ltb (length t.channel) channel_capacity
      then record t { channel = t.channel ++ (chunk ∷ []); reader = at_read }
      else t
  on_push _ t = t

  -- `chunk_rx.recv()`: nothing more once the reader is over.
  pub on_take : Writer → List Bytes → Transfer → Transfer
  on_take at_recv [] t = if is_over t.reader then record t { writer = ended true } else t
  on_take at_recv (chunk ∷ chunks) t = record t { channel = chunks; writer = at_pause chunk }
  on_take _ chunks t = t

  -- A cancelled transfer clears `send_success` here, writes the chunk, and ends behind the write.
  pub on_pause : Writer → Transfer → Transfer
  on_pause (at_pause chunk) t = record t {
    writer = if must_wait t.signals then at_changed chunk else at_write chunk;
  }
  on_pause (at_changed chunk) t =
      if t.signals.unseen
      then record t { signals = record t.signals { unseen = false }; writer = at_pause chunk }
      else if t.signals.is_closed
      then record t { writer = at_write chunk }
      else t
  on_pause _ t = t

  -- `write_all`, the count, the report if it is time, and the test of the token.
  pub on_write : Bool → Writer → Transfer → Transfer
  on_write reports (at_write chunk) t =
      let transferred = t.bytes_transferred + length chunk in
      record t {
        written = t.written ++ chunk;
        bytes_transferred = transferred;
        effects = t.effects ++ report reports transferred t.total_bytes;
        writer = if t.signals.is_cancelled then ended false else at_recv;
      }
  on_write reports _ t = t

  -- A write that fails, or that loses against the token, has written a part of the chunk.
  pub on_write_error : ℕ → Writer → Transfer → Transfer
  on_write_error already (at_write chunk) t = record t {
    written = t.written ++ take already chunk;
    writer = ended false;
  }
  on_write_error already _ t = t

  unfoldable pub step : Move → Transfer → Transfer
  unfolding on_read on_read_error on_push on_take on_pause on_write on_write_error
  step (read size) t = on_read t.reader size t
  step read_error t = on_read_error t.reader t
  step push t = on_push t.reader t
  step take_chunk t = on_take t.writer t.channel t
  step look_at_pause t = on_pause t.writer t
  step (write reports) t = on_write reports t.writer t
  step (write_error already) t = on_write_error already t.writer t
  step (see_cancelled already) t =
      if t.signals.is_cancelled then on_write_error already t.writer t else t
  step (set_pause b) t = record t { signals = record t.signals { paused = b; unseen = true } }
  step close_pause t = record t { signals = record t.signals { is_closed = true } }
  step cancel t = record t { signals = record t.signals { is_cancelled = true } }

  unfoldable pub run : List Move → Transfer → Transfer
  run [] t = t
  run (m ∷ moves) t = run moves (step m t)

-- Behind the loop: the reader is joined, and its failure is only logged.
abbrev pub or_inline : Option Bytes → Bytes → Bytes
or_inline none inline_hash = inline_hash
or_inline (some h) inline_hash = h

abbrev pub conclude_with : Writer → Reader → Transfer → List Effect
conclude_with (ended true) (finished inline_hash) t =
    emit (
      transfer_progress (record {
        bytes_transferred = t.bytes_transferred;
        total_bytes = t.total_bytes;
        is_completed = true;
      }))
    ∷ control (file_sent (or_inline t.full_hash inline_hash))
    ∷ []
conclude_with _ _ t = []

unfoldable pub conclude : Transfer → List Effect
conclude t = conclude_with t.writer t.reader t
