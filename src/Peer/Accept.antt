-- ===== src/Peer/Accept.antt =====
-- `handle_accept` of core/src/peer.rs, and `get_part_path` of core/src/types.rs.
pub mod Offsets
pub mod Destination
use quiczilla.Prelude.{
  ℕ, ◌+◌, ◌*◌, ◌/◌, ◌%◌, ◌≤◌, ◌<◌, ◌≡◌, Bool, true, false, ◌&&◌, ◌||◌, Option, none, some, List, [],
  ◌∷◌, ◌++◌, ltb, leb, ◌==◌, if◌then◌else◌,
}
use quiczilla.Prelude.Bytes.{Bytes, codes}
use quiczilla.Paths.{
  Text, PathBuf, is_control, trim_matches, components, file_name, join, with_file_name, or_default,
}
use quiczilla.Control.Text.{ControlMessage, ready, resume_ready}
use quiczilla.Peer.Disk.{Disk, node_exists, node_len, set_len, compute_prefix_hash}

abbrev pub file_chunk_size : ℕ
file_chunk_size = 2097152

abbrev pub resume_threshold_bytes : ℕ
resume_threshold_bytes = 20971520

abbrev pub resume_fingerprint_size : ℕ
resume_fingerprint_size = 65536

-- `get_part_path(path)`
unfoldable pub get_part_path : PathBuf → PathBuf
get_part_path path = with_file_name path (or_default (file_name path) ++ codes ".quic-part")

-- (dest_path, file_size, checksum, resume_offset, use_part)
pub record RecvTask : Type 0 where
  pub dest_path : PathBuf
  pub file_size : ℕ
  pub checksum : Bool
  pub resume_offset : ℕ
  pub use_part : Bool

-- What `handle_accept` writes through its references and channels.
pub record Accepted : Type 0 where
  pub disk : Disk
  pub current_part_path : Option PathBuf
  pub pending_resume_recv : Option RecvTask
  pub recv_file_trigger : Option RecvTask
  pub control : ControlMessage

abbrev pub clean : Text → Text
clean s = trim_matches (λ c. is_control c || c == 0) s

abbrev pub safe_name_of : Text → Text
safe_name_of offered_name = or_default (file_name (components (clean offered_name)))

unfoldable pub dest_path_of : (save_dir offered_name : Text) → PathBuf
dest_path_of save_dir offered_name = join (components (clean save_dir)) (safe_name_of offered_name)

abbrev pub aligned : (existing_len size : ℕ) → ℕ
aligned existing_len size =
    let offset = existing_len / file_chunk_size * file_chunk_size in
    if ltb size offset then 0 else offset

-- The branch that starts from zero, with a part file.
abbrev pub fresh : Disk → PathBuf → ℕ → Bool → Option PathBuf → Option RecvTask → Accepted
fresh disk dest_path size checksum part pending = record {
  disk = disk;
  current_part_path = part;
  pending_resume_recv = pending;
  recv_file_trigger = some (record {
    dest_path = dest_path;
    file_size = size;
    checksum = checksum;
    resume_offset = 0;
    use_part = elim part [ none ↦ false | some p ↦ true ];
  });
  control = ready;
}

module _ (sha256_hex : Bytes → Bytes) where
  -- The branches that ask the sender to go on from `offset`.
  abbrev pub ask : Disk → PathBuf → PathBuf → PathBuf → ℕ → Bool → ℕ → Bool → Accepted
  ask disk hashed part_path dest_path size checksum offset use_part = record {
    disk = disk;
    current_part_path = some part_path;
    pending_resume_recv = some (record {
      dest_path = dest_path;
      file_size = size;
      checksum = checksum;
      resume_offset = offset;
      use_part = use_part;
    });
    recv_file_trigger = none;
    control =
        resume_ready offset (compute_prefix_hash sha256_hex disk hashed resume_fingerprint_size);
  }

  -- From `should_resume` on.
  unfoldable pub accept_resumed : Disk → PathBuf → ℕ → Bool → Option RecvTask → Accepted
  accept_resumed disk dest_path size checksum pending =
      let part_path = get_part_path dest_path in
      let offset = aligned (node_len (disk part_path)) size in
      if node_exists (disk part_path)
      then (if ltb 0 offset
          then ask (set_len disk part_path offset) part_path part_path dest_path size checksum
              offset true
          else fresh disk dest_path size checksum (some part_path) pending)
      else if node_exists (disk dest_path) && (node_len (disk dest_path) == size)
      then ask disk dest_path part_path dest_path size checksum size false
      else fresh disk dest_path size checksum (some part_path) pending

  unfoldable pub handle_accept :
      Disk
      → (save_dir : Text) → (checksum resume : Bool) → (offered_name : Text) → (size : ℕ)
      → (offered_resume : Bool) → (pending_resume_recv : Option RecvTask) → Accepted
  handle_accept disk save_dir checksum resume offered_name size offered_resume pending =
      let dest_path = dest_path_of save_dir offered_name in
      if leb resume_threshold_bytes size
      then (if offered_resume && resume
          then accept_resumed disk dest_path size checksum pending
          else fresh disk dest_path size checksum (some (get_part_path dest_path)) pending)
      else fresh disk dest_path size checksum none pending
