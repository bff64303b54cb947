-- ===== src/Peer/Receiving/Flow.antt =====
-- Receiving a file: in every order of the steps the bytes of the stream come to the file in order, no
-- more of them than the offer said, counted, and the channel keeps its capacity.
pub mod Tasks
pub mod Steps
use quiczilla.Prelude.{
  ℕ, ◌+◌, ◌≤◌, ◌<◌, ◌≡◌, refl, sym, ap, ◌∙◌, Bool, true, false, not, Option, none, some, List, [],
  ◌∷◌, ◌++◌, arith, length, length-append, length-take, take, drop, take-append-drop, if◌then◌else◌,
  if_holds, ltb, ◌==◌, max,
}
use mathlib.Core.List.{append_assoc, append-nil}
use quiczilla.Prelude.Bytes.{Bytes}
use quiczilla.Directory.Copy.{update}
use quiczilla.Peer.Signals.{Signals, channel_capacity, concat, concat-append, Prefix, digest}
use quiczilla.Peer.Accept.{RecvTask}
use quiczilla.Peer.Accept.Offsets.{OptionAll}
use quiczilla.Peer.Receiving.{
  Net, at_loop, at_pause, at_changed, at_read, at_send, ended, DiskWriter, at_recv, finished,
  writer_failed, Receipt, Move, test_loop, look_at_pause, read, push, read_error, store,
  flush_error, store_error, arrive, finish_stream, set_pause, close_pause, cancel, is_over,
  has_ended, ready, read_len, on_loop, on_pause, on_read, on_read_error, on_push, on_store,
  on_store_error, on_flush_error, step, run,
}

abbrev pub holds : Net → Bytes
holds (at_send chunk) = chunk
holds _ = []

abbrev pub is_failed : DiskWriter → Bool
is_failed writer_failed = true
is_failed _ = false

-- What was read or has arrived and is not stored, in its order.
abbrev pub to_come : List Bytes → Net → Bytes → Bytes
to_come channel net incoming = concat channel ++ (holds net ++ incoming)

-- Inside the loop there is something missing, and a chunk is no more than that. A reader that ended
-- well has everything.
abbrev pub Fits : Net → ℕ → ℕ → ℕ → Type 0
Fits at_loop total size offset = total ≤ max size offset
Fits (at_send chunk) total size offset = total + length chunk ≤ size
Fits (ended true) total size offset = (size ≤ total) × (total ≤ max size offset)
Fits (ended false) total size offset = total ≤ max size offset
Fits _ total size offset = total < size

pub record IsFlow (sha256_hex : Bytes → Bytes) (delivered : Bytes) (r : Receipt) : Type 0 where
  pub order :
      is_failed r.disk_writer ≡ false → r.stored ++ to_come r.channel r.net r.incoming ≡ delivered
  pub begun : Prefix r.stored delivered
  pub drained :
      (h : Bytes)
      → r.disk_writer ≡ finished h
      → (r.channel ≡ []) × (has_ended r.net ≡ true) × (h ≡ digest sha256_hex r.hasher)
  pub hashed : is_failed r.disk_writer ≡ false → OptionAll (λ h. h ≡ r.stored) r.hasher
  pub count :
      is_failed r.disk_writer ≡ false
      → r.total_received ≡ r.task.resume_offset + length r.stored + length (concat r.channel)
  pub fits : Fits r.net r.total_received r.task.file_size r.task.resume_offset
  pub room : length r.channel ≤ channel_capacity

pub over_failed :
    (w : DiskWriter) → is_over w ≡ true → ((h : Bytes) → w ≡ finished h → ⊥) → is_failed w ≡ true
over_failed (finished h) o k = absurd (k h refl)
over_failed writer_failed o k = refl
over_failed at_recv o k = absurd (ground arith)

pub to_come-push :
    (channel : List Bytes) (c : Bytes) (net : Net) (incoming : Bytes)
    → holds net ≡ []
    → to_come (channel ++ (c ∷ [])) net incoming ≡ to_come channel (at_send c) incoming
to_come-push channel c net incoming e = rw (e, concat-append, append_assoc, append-nil)

pub update-stored :
    (o : Option Bytes) (stored x : Bytes)
    → OptionAll (λ h. h ≡ stored) o
    → OptionAll (λ h. h ≡ stored ++ x) (update o x)
update-stored none stored x h = tt
update-stored (some a) stored x h = ap (λ z. z ++ x) h

pub concat-push :
    (channel : List Bytes) (c : Bytes)
    → length (concat (channel ++ (c ∷ []))) ≡ length (concat channel) + length c
concat-push channel c =
    ap length (concat-append channel (c ∷ []))
    ∙ length-append (concat channel) (c ++ [])
    ∙ ap (λ x. length (concat channel) + length x) (append-nil c)
