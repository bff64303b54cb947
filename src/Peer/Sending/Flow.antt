-- ===== src/Peer/Sending/Flow.antt =====
-- Sending a file: in every order of the steps the bytes go to the stream in order, counted, and the
-- channel keeps its capacity.
pub mod Reading
pub mod Steps
use quiczilla.Prelude.{
  ℕ, ◌+◌, ◌≤◌, ◌≡◌, refl, sym, ap, ◌∙◌, Bool, true, false, Option, none, some, List, [], ◌∷◌, ◌++◌,
  arith, length, length-append, take, drop, take-append-drop, if◌then◌else◌, if_holds, ltb, ◌==◌,
}
use mathlib.Core.List.{append_assoc, append-nil}
use quiczilla.Prelude.Bytes.{Bytes}
use quiczilla.Directory.Copy.{update}
use quiczilla.Peer.Signals.{
  Signals, channel_capacity, concat, concat-append, Prefix, length-nil, digest,
}
use quiczilla.Peer.Accept.Offsets.{OptionAll}
use quiczilla.Peer.Sending.{
  Reader, at_read, at_send, finished, reader_failed, Writer, at_recv, at_pause, at_changed,
  at_write, ended, Transfer, Move, is_over, gave_up, read_len, step, run, read, read_error, push,
  take_chunk, look_at_pause, write, write_error, see_cancelled, set_pause, close_pause, cancel,
  on_read, on_read_error, on_push, on_take, on_pause, on_write, on_write_error,
}

-- The chunk in the reader's hands, and in the writer's.
abbrev pub reader_holds : Reader → Bytes
reader_holds (at_send chunk) = chunk
reader_holds _ = []

abbrev pub writer_holds : Writer → Bytes
writer_holds (at_pause chunk) = chunk
writer_holds (at_changed chunk) = chunk
writer_holds (at_write chunk) = chunk
writer_holds _ = []

-- What has still to be written, in its order.
abbrev pub to_come : Writer → List Bytes → Reader → Bytes → Bytes
to_come w channel r unread = writer_holds w ++ (concat channel ++ (reader_holds r ++ unread))

-- The same without the writer's chunk.
abbrev pub behind : Transfer → Bytes
behind t = concat t.channel ++ (reader_holds t.reader ++ t.unread)

-- A reader that has finished has read everything, and its hash is that of what it was fed.
abbrev pub Finished : (Bytes → Bytes) → Reader → Option Bytes → Bytes → Type 0
Finished sha256_hex (finished h) hasher unread = (unread ≡ []) × (h ≡ digest sha256_hex hasher)
Finished sha256_hex _ hasher unread = Unit

pub record IsFlow (sha256_hex : Bytes → Bytes) (source : Bytes) (offset : ℕ) (t : Transfer)
    : Type 0 where
  pub order :
      gave_up t.writer ≡ false → t.written ++ to_come t.writer t.channel t.reader t.unread ≡ source
  pub begun : Prefix t.written source
  pub drained : t.writer ≡ ended true → (t.channel ≡ []) × (is_over t.reader ≡ true)
  pub hashed : OptionAll (λ h. h ++ t.unread ≡ source) t.hasher
  pub over : Finished sha256_hex t.reader t.hasher t.unread
  pub count : gave_up t.writer ≡ false → t.bytes_transferred ≡ offset + length t.written
  pub room : length t.channel ≤ channel_capacity

pub update-OptionAll :
    (o : Option Bytes) (n : ℕ) (unread source : Bytes)
    → OptionAll (λ h. h ++ unread ≡ source) o
    → OptionAll (λ h. h ++ drop n unread ≡ source) (update o (take n unread))
update-OptionAll none n unread source h = tt
update-OptionAll (some a) n unread source h =
    append_assoc a _ _ ∙ ap (λ t. a ++ t) (take-append-drop n unread) ∙ h

-- A chunk goes from the reader's hands to the end of the channel.
pub to_come-push :
    (w : Writer) (channel : List Bytes) (c unread : Bytes)
    → to_come w (channel ++ (c ∷ [])) at_read unread ≡ to_come w channel (at_send c) unread
to_come-push w channel c unread =
    ap (λ t. writer_holds w ++ t) (rw (concat-append, append_assoc, append-nil))

pub no_chunk : (b : Bool) → writer_holds (if b then ended false else at_recv) ≡ []
no_chunk b = ground arith
