-- ===== src/Peer/Accept/Offsets.antt =====
-- The offsets that `handle_accept` starts at or asks for.
use quiczilla.Prelude.{ℕ, ◌%◌, ◌≤◌, ◌≡◌, ◌⊎◌, Bool, false, Option, none, some, arith}
use quiczilla.Prelude.Bytes.{Bytes}
use quiczilla.Paths.{Text, PathBuf}
use quiczilla.Peer.Disk.{Disk, node_len}
use quiczilla.Peer.Accept.{
  RecvTask, file_chunk_size, aligned, handle_accept, accept_resumed, dest_path_of, get_part_path,
}

-- The offset lies in the file, and in a part file at a whole number of chunks.
pub record IsResumable (t : RecvTask) : Type 0 where
  pub within : t.resume_offset ≤ t.file_size
  pub whole_chunks : (t.use_part ≡ false) ⊎ (t.resume_offset % file_chunk_size ≡ 0)

abbrev pub OptionAll : {A : Type 0} → (A → Type 0) → Option A → Type 0
OptionAll P none = Unit
OptionAll P (some a) = P a

aligned_bounds :
    (existing size : ℕ)
    → (aligned existing size ≤ size) × (aligned existing size % file_chunk_size ≡ 0)
aligned_bounds existing size = ground arith

module _ (sha256_hex : Bytes → Bytes) where
  pub accept_resumed-IsResumable :
      (disk : Disk) (dest : PathBuf) (size : ℕ) (checksum : Bool) (pending : Option RecvTask)
      → OptionAll IsResumable pending
      → OptionAll IsResumable
          (accept_resumed sha256_hex disk dest size checksum pending).pending_resume_recv
        × OptionAll IsResumable
            (accept_resumed sha256_hex disk dest size checksum pending).recv_file_trigger
  unfolding accept_resumed
  accept_resumed-IsResumable disk dest size checksum pending h =
      ground (arith, aligned_bounds (node_len (disk (get_part_path dest))) size)

  pub handle_accept-IsResumable :
      (disk : Disk) (dir : Text) (checksum r : Bool) (name : Text) (size : ℕ) (o : Bool)
      (pending : Option RecvTask)
      → OptionAll IsResumable pending
      → OptionAll IsResumable
          (handle_accept sha256_hex disk dir checksum r name size o pending).pending_resume_recv
        × OptionAll IsResumable
            (handle_accept sha256_hex disk dir checksum r name size o pending).recv_file_trigger
  unfolding handle_accept
  handle_accept-IsResumable disk dir checksum r name size o pending h =
      ground
        (arith, accept_resumed-IsResumable disk (dest_path_of dir name) size checksum pending h)
