-- ===== src/Peer/Receiving/Conclude.antt =====
-- The end of a task of the file receive task of core/src/peer.rs: the comparison of the hashes, the move
-- of the part file, and what the peer and the user are told.
use quiczilla.Prelude.{
  Bool, true, false, ◌&&◌, ◌||◌, Option, none, some, List, [], ◌∷◌, ltb, if◌then◌else◌,
}
use quiczilla.Prelude.Bytes.{Bytes, codes, eq_bytes}
use quiczilla.Cert.{eq_ignore_ascii_case}
use quiczilla.Control.Text.{received_file_ok}
use quiczilla.Peer.Disk
use quiczilla.Peer.Disk.{Disk, file, rename}
use quiczilla.Peer.Coordinator.{
  Effect, emit, control, transfer_progress, transfer_complete, completed, hash_failed, etc,
}
use quiczilla.Peer.Receiving.{
  Net, ended, DiskWriter, finished, Receipt, contents, target_write_path, failed,
}

-- `stopped` is the `break` that ends the task for good.
pub record Outcome : Type 0 where
  pub disk : Disk
  pub effects : List Effect
  pub stopped : Bool

unfoldable pub hash_ok : (expected actual : Bytes) → Bool
hash_ok expected actual =
    eq_bytes expected (codes "NONE")
    || (eq_bytes expected (codes "SKIP")
        || (eq_bytes actual (codes "NONE") || eq_ignore_ascii_case actual expected))

-- The disk with the file as it was received.
abbrev pub placed : Disk → Receipt → Disk
placed disk r = Disk.update disk (target_write_path r.task) (some (file (contents r)))

abbrev pub last_report : Receipt → Effect
last_report r = emit (
    transfer_progress (record {
      bytes_transferred = r.total_received;
      total_bytes = r.task.file_size;
      is_completed = true;
    }))

abbrev pub accepted : Receipt → Disk → Outcome
accepted r disk = record {
  disk = disk;
  effects = last_report r ∷ control received_file_ok ∷ emit (transfer_complete completed) ∷ [];
  stopped = false;
}

abbrev pub refused : Receipt → Disk → Outcome
refused r disk = record {
  disk = disk;
  effects = last_report r ∷ failed hash_failed;
  stopped = true;
}

abbrev pub moved : Receipt → Disk × Bool → Outcome
moved r (disk, true) = accepted r disk
moved r (disk, false) = refused r disk

abbrev pub gives_up : Disk → Outcome
gives_up disk = record { disk = disk; effects = failed etc; stopped = true }

-- Both hashes are there.
unfoldable pub compare_hashes : Disk → Receipt → (actual expected : Bytes) → Outcome
compare_hashes disk r actual expected =
    if hash_ok expected actual
    then (if r.task.use_part
        then moved r (rename (target_write_path r.task) r.task.dest_path disk)
        else accepted r disk)
    else refused r disk

-- `hash_rx.recv()`, where a closed channel ends nothing.
abbrev pub await_hash : Option Bytes → Disk → Receipt → (actual : Bytes) → Outcome
await_hash none disk r actual = record { disk = disk; effects = []; stopped = false }
await_hash (some expected) disk r actual = compare_hashes disk r actual expected

module _ (sha256_hex : Bytes → Bytes) where
  -- The file is read again where the hasher has not seen all of it.
  abbrev pub actual_hash : (rereads : Bool) → Receipt → (inline_hash : Bytes) → Bytes
  actual_hash rereads r inline_hash =
      if r.task.checksum && ltb 0 r.task.resume_offset
      then (if rereads then sha256_hex (contents r) else codes "NONE")
      else inline_hash

  abbrev pub conclude_with :
      Net → DiskWriter → (rereads : Bool) → Option Bytes → Disk → Receipt → Outcome
  conclude_with (ended true) (finished inline_hash) rereads expected disk r =
      await_hash expected disk r (actual_hash rereads r inline_hash)
  conclude_with _ _ rereads expected disk r = gives_up disk

  -- Behind the loops, when both have ended. `rereads`: whether the hash of the file on the disk could
  -- be computed.
  unfoldable pub conclude : (rereads : Bool) → Option Bytes → Disk → Receipt → Outcome
  conclude rereads expected disk r =
      conclude_with r.net r.disk_writer rereads expected (placed disk r) r
