-- ===== src/Peer/Receiving.antt =====
-- The file receive task of core/src/peer.rs (section 4 of `run_peer`): one task of the coordination
-- loop, as the steps of its stream reader (4b) and its disk writer (4a) and of their surroundings.
pub mod Conclude
pub mod Agreement
pub mod Flow
pub mod Received
pub mod Whole
pub mod Untouched
use quiczilla.Prelude.{
  ℕ, ◌+◌, ◌-◌, ◌^◌, Bool, true, false, not, ◌&&◌, ◌||◌, Option, none, some, List, [], ◌∷◌, ◌++◌,
  ltb, leb, ◌==◌, if◌then◌else◌, length, take, drop, min, max, map,
}
use quiczilla.Prelude.Bytes.{Bytes, codes, eq_bytes}
use quiczilla.Paths.{PathBuf, normal, root_dir}
use quiczilla.Control.Text.{received_file_ok, received_file_failed}
use quiczilla.Directory.Copy.{update}
use quiczilla.Peer.Disk
use quiczilla.Peer.Disk.{Disk, Node, file, directory, create_dir_all, rename, write_at}
use quiczilla.Peer.Accept.{RecvTask, file_chunk_size, get_part_path}
use quiczilla.Peer.Coordinator.{
  Effect, emit, control, transfer_progress, transfer_complete, FileTransferStatus, completed,
  hash_failed, etc,
}
use quiczilla.Peer.Signals.{Signals, must_wait, channel_capacity, digest, report}

-- Where task 4b stands: at the test of its loop, at the test of the pause, at `changed()`, at `read`,
-- at `chunk_tx.send(..)`, or behind its loop.
pub data Net : Type 0 where
  at_loop at_pause at_changed at_read : Net
  at_send : (chunk : Bytes) → Net
  ended : (recv_success : Bool) → Net

-- Where task 4a stands.
pub data DiskWriter : Type 0 where
  at_recv : DiskWriter
  finished : (inline_hash : Bytes) → DiskWriter
  writer_failed : DiskWriter

-- `incoming` is what has arrived on the stream and was not read, `base` the file as it was opened, and
-- `stored` what was written behind the seek.
pub record Receipt : Type 0 where
  pub task : RecvTask
  pub incoming : Bytes
  pub is_finished : Bool
  pub net : Net
  pub total_received : ℕ
  pub channel : List Bytes
  pub disk_writer : DiskWriter
  pub hasher : Option Bytes
  pub base : Bytes
  pub stored : Bytes
  pub signals : Signals
  pub effects : List Effect

pub data Move : Type 0 where
  test_loop look_at_pause : Move
  read : (size : ℕ) → Move
  push : (reports : Bool) → Move
  read_error store flush_error : Move
  store_error : (already : ℕ) → Move
  arrive : Bytes → Move
  finish_stream : Move
  set_pause : Bool → Move
  close_pause cancel : Move

abbrev pub is_over : DiskWriter → Bool
is_over (finished h) = true
is_over writer_failed = true
is_over at_recv = false

abbrev pub has_ended : Net → Bool
has_ended (ended b) = true
has_ended _ = false

-- What a task that gives up tells the peer and the user.
abbrev pub failed : FileTransferStatus → List Effect
failed status = control received_file_failed ∷ emit (transfer_complete status) ∷ []

-- `path.parent()`, where a path of a root has none.
unfoldable pub parent : PathBuf → PathBuf
parent [] = []
parent (c ∷ []) = elim c [ root_dir ↦ root_dir ∷ [] | _ ↦ [] ]
parent (c ∷ d ∷ p) = c ∷ parent (d ∷ p)

abbrev pub target_write_path : RecvTask → PathBuf
target_write_path task = if task.use_part then get_part_path task.dest_path else task.dest_path

-- The contents of the file once it is open: `OpenOptions` without truncation or `File::create`. A seek
-- fails beyond the largest i64.
abbrev pub opened : (resume_offset : ℕ) → Option Node → Option Bytes
opened offset (some (directory n)) = none
opened offset none = if leb (2 ^ 63) offset then none else some []
opened offset (some (file bytes)) =
    if leb (2 ^ 63) offset then none else if ltb 0 offset then some bytes else some []

abbrev pub ready : RecvTask → Bytes → Signals → (incoming : Bytes) → (is_finished : Bool) → Receipt
ready task base signals incoming is_finished = record {
  task = task;
  incoming = incoming;
  is_finished = is_finished;
  net = at_loop;
  total_received = task.resume_offset;
  channel = [];
  disk_writer = at_recv;
  hasher = if task.checksum && (task.resume_offset == 0) then some [] else none;
  base = base;
  stored = [];
  signals = signals;
  effects = [];
}

abbrev pub begin_with :
    (is_made : Bool)
    → Option Bytes
    → Disk
    → RecvTask
    → Signals
    → (incoming : Bytes) → (is_finished : Bool) → Disk × Option Receipt
begin_with true (some base) made task signals incoming is_finished =
    (made, some (ready task base signals incoming is_finished))
begin_with _ _ made task signals incoming is_finished = (made, none)

-- The disk with the directories, and the open file; a failure ends the task.
unfoldable pub begin :
    (dir_len : ℕ)
    → Disk
    → RecvTask
    → Signals
    → (incoming : Bytes) → (is_finished : Bool) → Disk × Option Receipt
begin dir_len disk task signals incoming is_finished =
    let (made, is_made) = create_dir_all dir_len [] (parent task.dest_path) disk in
    begin_with is_made (opened task.resume_offset (made (target_write_path task))) made task signals
      incoming is_finished

-- The test `total_received < file_size`.
pub on_loop : Net → Receipt → Receipt
on_loop at_loop r = record r {
  net = if ltb r.total_received r.task.file_size then at_pause else ended true;
}
on_loop _ r = r

-- A cancelled transfer clears `recv_success` here, and ends behind the next read.
pub on_pause : Net → Receipt → Receipt
on_pause at_pause r = record r { net = if must_wait r.signals then at_changed else at_read }
on_pause at_changed r =
    if r.signals.unseen
    then record r { signals = record r.signals { unseen = false }; net = at_pause }
    else if r.signals.is_closed
    then record r { net = at_read }
    else r
on_pause _ r = r

abbrev pub read_len : Receipt → ℕ → ℕ
read_len r size = max 1 (min size (min (r.task.file_size - r.total_received) file_chunk_size))

-- A read takes what has arrived, up to what is missing and to a chunk. No byte is the end of the stream.
pub on_read : Net → ℕ → Receipt → Receipt
on_read at_read size r =
    let n = read_len r size in
    if not (length r.incoming == 0)
    then record r { incoming = drop n r.incoming; net = at_send (take n r.incoming) }
    else if r.is_finished
    then record r { net = ended false }
    else r
on_read _ size r = r

pub on_read_error : Net → Receipt → Receipt
on_read_error at_read r = record r { net = ended false }
on_read_error _ r = r

-- `chunk_tx.send(..)`, the count, the report if it is time, and the test of the token.
pub on_push : Net → Bool → Receipt → Receipt
on_push (at_send chunk) reports r =
    let total = r.total_received + length chunk in
    if is_over r.disk_writer
    then record r { net = ended false }
    else if ltb (length r.channel) channel_capacity
    then record r {
      channel = r.channel ++ (chunk ∷ []);
      total_received = total;
      effects = r.effects ++ report reports total r.task.file_size;
      net = if r.signals.is_cancelled then ended false else at_loop;
    }
    else r
on_push _ reports r = r

module _ (sha256_hex : Bytes → Bytes) where
  -- Task 4a: a chunk is hashed and written. Behind the last one the file is flushed.
  pub on_store : DiskWriter → List Bytes → Receipt → Receipt
  on_store at_recv [] r =
      if has_ended r.net
      then record r { disk_writer = finished (digest sha256_hex r.hasher) }
      else r
  on_store at_recv (chunk ∷ chunks) r =
      if r.signals.is_cancelled
      then record r { disk_writer = writer_failed }
      else record r { channel = chunks; hasher = update r.hasher chunk; stored = r.stored ++ chunk }
  on_store _ chunks r = r

  -- A write that fails has stored a part of its chunk.
  pub on_store_error : ℕ → DiskWriter → List Bytes → Receipt → Receipt
  on_store_error already at_recv (chunk ∷ chunks) r = record r {
    disk_writer = writer_failed;
    stored = r.stored ++ take already chunk;
  }
  on_store_error already _ chunks r = r

  pub on_flush_error : DiskWriter → List Bytes → Receipt → Receipt
  on_flush_error at_recv [] r =
      if has_ended r.net then record r { disk_writer = writer_failed } else r
  on_flush_error _ chunks r = r

  unfoldable pub step : Move → Receipt → Receipt
  unfolding on_loop on_pause on_read on_read_error on_push on_store on_store_error on_flush_error
  step test_loop r = on_loop r.net r
  step look_at_pause r = on_pause r.net r
  step (read size) r = on_read r.net size r
  step read_error r = on_read_error r.net r
  step (push reports) r = on_push r.net reports r
  step store r = on_store r.disk_writer r.channel r
  step (store_error already) r = on_store_error already r.disk_writer r.channel r
  step flush_error r = on_flush_error r.disk_writer r.channel r
  step (arrive bytes) r = record r { incoming = r.incoming ++ bytes }
  step finish_stream r = record r { is_finished = true }
  step (set_pause b) r = record r { signals = record r.signals { paused = b; unseen = true } }
  step close_pause r = record r { signals = record r.signals { is_closed = true } }
  step cancel r = record r { signals = record r.signals { is_cancelled = true } }

  unfoldable pub run : List Move → Receipt → Receipt
  run [] r = r
  run (m ∷ moves) r = run moves (step m r)

-- The file as it stands at the target.
abbrev pub contents : Receipt → Bytes
contents r = write_at r.task.resume_offset r.stored r.base
