-- ===== src/Directory.antt =====
-- core/src/directory.rs: a directory as one stream of frames. A `str` is its UTF-8 bytes.
pub mod Names
pub mod Wire
pub mod Ack
pub mod Copy
pub mod Send
pub mod Action
pub mod Disk
pub mod Receive
mod Tests
use quiczilla.Prelude.{ℕ}
use quiczilla.Prelude.Bytes.{Bytes}

abbrev pub frame_start : ℕ
frame_start = 0x11

abbrev pub frame_directory : ℕ
frame_directory = 0x12

abbrev pub frame_pack_start : ℕ
frame_pack_start = 0x13

abbrev pub frame_file : ℕ
frame_file = 0x14

abbrev pub frame_pack_end : ℕ
frame_pack_end = 0x15

abbrev pub frame_end : ℕ
frame_end = 0x16

abbrev pub ack_ok : ℕ
ack_ok = 0x21

abbrev pub ack_error : ℕ
ack_error = 0x22

abbrev pub max_path_bytes : ℕ
max_path_bytes = 32768

abbrev pub max_ack_error_bytes : ℕ
max_ack_error_bytes = 4096

pub data StorageProfile : Type 0 where
  hdd auto nvme : StorageProfile

unfoldable pub pack_target_bytes : StorageProfile → ℕ
pack_target_bytes hdd = 16777216
pack_target_bytes auto = 33554432
pack_target_bytes nvme = 67108864

pub record DirectoryTransferStats : Type 0 where
  pub files : ℕ
  pub directories : ℕ
  pub bytes : ℕ
  pub packs : ℕ

-- What the transfer bails with. `unexpected_eof` and `io_error` are errors of the stream and of the
-- file system; `out_of_fuel` is no error of the program.
pub data DirectoryError : Type 0 where
  invalid_path relative_segment not_relative unsafe_component : DirectoryError
  path_length_invalid path_not_utf8 : DirectoryError
  not_started root_not_one_component unknown_frame totals_mismatch : DirectoryError
  destination_symlink component_not_directory root_not_directory replaces_symlink no_name :
      DirectoryError
  ended_inside_file checksum_mismatch source_changed source_not_directory source_has_no_name :
      DirectoryError
  ack_oversized ack_invalid : DirectoryError
  rejected : Bytes → DirectoryError
  unexpected_eof io_error out_of_fuel : DirectoryError
