-- ===== src/Worker/Offers.antt =====
-- What the worker does with the events of its peer: the loop over `event_rx` in
-- `handle_incoming_connection` of worker/src/main.rs.
pub mod Refusal
use quiczilla.Prelude.{
  ℕ, ◌≡◌, Bool, true, false, not, ◌&&◌, ◌||◌, Option, none, some, if◌then◌else◌,
}
use quiczilla.Paths.{Text, PathBuf, components, file_name, join}
use quiczilla.Peer.Disk.{Disk, node_exists}
use quiczilla.Peer.Coordinator.{
  PeerEvent, disconnected, transfer_progress, file_offered, transfer_paused, transfer_resumed,
  transfer_complete, transfer_initiation_changed, PeerCommand, accept_file, reject_file,
}
use quiczilla.Worker.Arguments.{ConflictPolicy, overwrite, refuse}

-- A command for the peer, the next event, the end of the session, or the error that there is no name.
pub data Reaction : Type 0 where
  commands : PeerCommand → Reaction
  goes_on cancels no_file_name : Reaction

abbrev pub refuses : ConflictPolicy → Bool
refuses refuse = true
refuses overwrite = false

module _ (policy : ConflictPolicy) (verify resume : Bool) (save_dir : Text) (disk : Disk) where
  abbrev pub on_offer : Option Text → (offered_resume offered_checksum : Bool) → Reaction
  on_offer none offered_resume offered_checksum = no_file_name
  on_offer (some safe_name) offered_resume offered_checksum =
      let destination = join (components save_dir) safe_name in
      let resume_requested = resume || offered_resume in
      if refuses policy && (node_exists (disk destination) && not resume_requested)
      then commands reject_file
      else commands (accept_file save_dir (verify || offered_checksum) resume_requested)

  unfoldable pub on_event : PeerEvent → Reaction
  on_event (file_offered name size offered_resume offered_checksum) =
      on_offer (file_name (components name)) offered_resume offered_checksum
  on_event (transfer_progress p) = goes_on
  on_event transfer_paused = goes_on
  on_event transfer_resumed = goes_on
  on_event (transfer_complete status) = cancels
  on_event (disconnected reason) = cancels
  on_event (transfer_initiation_changed initiated) = goes_on
