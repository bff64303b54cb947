-- ===== src/Peer/Coordinator.antt =====
-- The main coordination loop of core/src/peer.rs (section 5 of `run_peer`): its variables, and the
-- handlers of a control message and of a command.
pub mod Offers
pub mod Resume
use quiczilla.Prelude.{
  ℕ, ◌≡◌, Bool, true, false, Option, none, some, List, [], ◌∷◌, ◌++◌, ltb, if◌then◌else◌,
}
use quiczilla.Prelude.Bytes.{Bytes, eq_bytes}
use quiczilla.Paths.{Text, PathBuf, components, file_name, or_default}
use quiczilla.Control.Text.{
  ControlMessage, metadata, ready, resume_ready, resume_ok, restart_from_zero, pause, resume,
  rejected_unwanted, rejected_already_receiving, rejected_already_sending, file_sent,
  received_file_ok, received_file_failed,
}
use quiczilla.Peer.Disk.{Disk, node_exists, node_len, create, compute_prefix_hash}
use quiczilla.Peer.Accept.{RecvTask, Accepted, handle_accept, resume_fingerprint_size}

pub data FileTransferStatus : Type 0 where
  cancelled completed hash_failed etc : FileTransferStatus
  status_already_sending status_already_receiving status_unwanted : FileTransferStatus

-- Of a progress report the counts are kept: speeds, times and the percentage are left out.
pub record ProgressInfo : Type 0 where
  pub bytes_transferred : ℕ
  pub total_bytes : ℕ
  pub is_completed : Bool

-- `Connected` is sent before the loop.
pub data PeerEvent : Type 0 where
  disconnected : (reason : Text) → PeerEvent
  transfer_progress : ProgressInfo → PeerEvent
  file_offered : (name : Text) (size : ℕ) (resumable checksum : Bool) → PeerEvent
  transfer_paused transfer_resumed : PeerEvent
  transfer_complete : FileTransferStatus → PeerEvent
  transfer_initiation_changed : Bool → PeerEvent

pub data PeerCommand : Type 0 where
  send_file : (path : Text) (checksum resumable : Bool) → PeerCommand
  accept_file : (save_dir : Text) (checksum resumable : Bool) → PeerCommand
  reject_file pause_transfer resume_transfer disconnect : PeerCommand

-- What a step sends on the channels: events, control messages, and the triggers of the tasks that
-- send and receive files.
pub data Effect : Type 0 where
  emit : PeerEvent → Effect
  control : ControlMessage → Effect
  start_sending : (path : Text) (checksum : Bool) (offset : ℕ) → Effect
  start_receiving : RecvTask → Effect
  expected_hash : Bytes → Effect

-- The variables of the loop. `paused` is the watch channel, `is_cancelled` the token, `stopped` a
-- `break`.
pub record Coordinator : Type 0 where
  pub disk : Disk
  pub pending_send_path : Option (Text × Bool × Bool)
  pub offered_file_name : Option Text
  pub offered_file_size : Option ℕ
  pub offered_resume : Bool
  pub pending_accept : Option (Text × Bool × Bool)
  pub pending_resume_recv : Option RecvTask
  pub current_part_path : Option PathBuf
  pub paused : Bool
  pub is_cancelled : Bool
  pub stopped : Bool

abbrev pub start_receiving_if : Option RecvTask → List Effect
start_receiving_if none = []
start_receiving_if (some task) = start_receiving task ∷ []

-- `handle_accept` writes back into the loop's variables and channels.
abbrev pub write_back : Coordinator → Accepted → Coordinator × List Effect
write_back s a = (
  record s {
    disk = a.disk;
    current_part_path = a.current_part_path;
    pending_resume_recv = a.pending_resume_recv;
  },
  start_receiving_if a.recv_file_trigger ++ (control a.control ∷ []),
)

abbrev pub eq_hash : Option Bytes → Option Bytes → Bool
eq_hash none none = true
eq_hash (some a) (some b) = eq_bytes a b
eq_hash _ _ = false

abbrev pub create_if : Option PathBuf → Disk → Disk
create_if none disk = disk
create_if (some path) disk = create disk path

abbrev pub before : List Effect → Coordinator × List Effect → Coordinator × List Effect
before effects (s, more) = (s, effects ++ more)

module _ (sha256_hex : Bytes → Bytes) where
  pub accept :
      Coordinator
      → (save_dir : Text) → (checksum resumable : Bool) → (name : Text) → (size : ℕ)
      → Coordinator × List Effect
  accept s save_dir checksum resumable name size = write_back s (
      handle_accept sha256_hex s.disk save_dir checksum resumable name size s.offered_resume
        s.pending_resume_recv)

  -- `ControlMessage::Metadata`
  pub on_metadata : Option (Text × Bool × Bool) → Coordinator → Text → ℕ → Coordinator × List Effect
  on_metadata none s name size =
      (record s { offered_file_name = some name; offered_file_size = some size }, [])
  on_metadata (some (save_dir, checksum, resumable)) s name size =
      accept
        (record s { offered_file_name = none; offered_file_size = none; pending_accept = none })
        save_dir checksum resumable name size

  -- `ControlMessage::ResumeReady`, with the pending send.
  pub on_resume_ready :
      Option (Text × Bool × Bool) → Coordinator → ℕ → Option Bytes → Coordinator × List Effect
  on_resume_ready none s offset prefix_hash = (s, [])
  on_resume_ready (some (path, checksum, resumable)) s offset prefix_hash =
      let taken = record s { pending_send_path = none } in
      let local_hash =
        compute_prefix_hash sha256_hex s.disk (components path) resume_fingerprint_size in
      if ltb 0 offset
      then (if eq_hash local_hash prefix_hash
          then (taken, control resume_ok ∷ start_sending path checksum offset ∷ [])
          else (
            record s { pending_send_path = some (path, checksum, false) },
            control restart_from_zero ∷ [],
          ))
      else (taken, start_sending path checksum 0 ∷ [])

  pub on_ready : Option (Text × Bool × Bool) → Coordinator → Coordinator × List Effect
  on_ready none s = (s, [])
  on_ready (some (path, checksum, resumable)) s =
      (record s { pending_send_path = none }, start_sending path checksum 0 ∷ [])

  pub on_restart : Option RecvTask → Coordinator → Coordinator × List Effect
  on_restart none s = (s, [])
  on_restart (some task) s = (
    record s { disk = create_if s.current_part_path s.disk; pending_resume_recv = none },
    start_receiving (record task { resume_offset = 0 }) ∷ control ready ∷ [],
  )

  -- A parsed control message.
  unfoldable pub handle_message : ControlMessage → Coordinator → Coordinator × List Effect
  unfolding on_metadata on_resume_ready on_ready on_restart
  handle_message (metadata name size resumable checksum) s =
      before
        (emit (transfer_initiation_changed true)
          ∷ emit (file_offered name size resumable checksum)
          ∷ [])
        (on_metadata s.pending_accept (record s { offered_resume = resumable }) name size)
  handle_message ready s = on_ready s.pending_send_path s
  handle_message (resume_ready offset prefix_hash) s =
      on_resume_ready s.pending_send_path s offset prefix_hash
  handle_message resume_ok s =
      (record s { pending_resume_recv = none }, start_receiving_if s.pending_resume_recv)
  handle_message restart_from_zero s = on_restart s.pending_resume_recv s
  handle_message pause s = (record s { paused = true }, emit transfer_paused ∷ [])
  handle_message resume s = (record s { paused = false }, emit transfer_resumed ∷ [])
  handle_message rejected_unwanted s = (s, emit (transfer_complete status_unwanted) ∷ [])
  handle_message rejected_already_receiving s =
      (s, emit (transfer_complete status_already_receiving) ∷ [])
  handle_message rejected_already_sending s =
      (s, emit (transfer_complete status_already_sending) ∷ [])
  handle_message (file_sent hash) s = (s, expected_hash hash ∷ [])
  handle_message received_file_ok s = (s, emit (transfer_complete completed) ∷ [])
  handle_message received_file_failed s =
      (record s { is_cancelled = true }, emit (transfer_complete hash_failed) ∷ [])

  -- `PeerCommand::AcceptFile`: both `take`s are made, whatever they find.
  pub on_accept :
      Option Text → Option ℕ → Coordinator → Text → Bool → Bool → Coordinator × List Effect
  on_accept (some name) (some size) s save_dir checksum resumable =
      accept (record s { offered_file_name = none; offered_file_size = none }) save_dir checksum
        resumable name size
  on_accept _ _ s save_dir checksum resumable = (
    record s {
      offered_file_name = none;
      offered_file_size = none;
      pending_accept = some (save_dir, checksum, resumable);
    },
    [],
  )

  -- `PeerCommand::SendFile`, with the node that the path names. A missing file is only logged.
  pub on_send_file : Bool → ℕ → Coordinator → Text → Bool → Bool → Coordinator × List Effect
  on_send_file false size s path checksum resumable = (s, [])
  on_send_file true size s path checksum resumable = (
    record s { pending_send_path = some (path, checksum, resumable) },
    emit (transfer_initiation_changed true)
        ∷ control (metadata (or_default (file_name (components path))) size resumable checksum)
        ∷ [],
  )

  unfoldable pub handle_command : PeerCommand → Coordinator → Coordinator × List Effect
  unfolding on_accept on_send_file
  handle_command (send_file path checksum resumable) s =
      let node = s.disk (components path) in
      on_send_file (node_exists node) (node_len node) s path checksum resumable
  handle_command (accept_file save_dir checksum resumable) s =
      on_accept s.offered_file_name s.offered_file_size s save_dir checksum resumable
  handle_command reject_file s = (
    record s { offered_file_name = none; offered_file_size = none },
    control rejected_unwanted ∷ [],
  )
  handle_command pause_transfer s =
      (record s { paused = true }, control pause ∷ emit transfer_paused ∷ [])
  handle_command resume_transfer s =
      (record s { paused = false }, control resume ∷ emit transfer_resumed ∷ [])
  handle_command disconnect s = (record s { stopped = true }, [])

-- What the loop waits for.
pub data Input : Type 0 where
  message : ControlMessage → Input
  command : PeerCommand → Input

module _ (sha256_hex : Bytes → Bytes) where
  unfoldable pub handle : Input → Coordinator → Coordinator × List Effect
  handle (message m) s = handle_message sha256_hex m s
  handle (command c) s = handle_command sha256_hex c s

  -- The loop over what arrives, until a `break`; the effects in their order.
  unfoldable pub run_loop : List Input → Coordinator → Coordinator × List Effect
  unfolding handle
  run_loop [] s = (s, [])
  run_loop (i ∷ inputs) s =
      let (s', effects) = handle i s in
      let rest = before effects (run_loop inputs s') in if s.stopped then (s, []) else rest
