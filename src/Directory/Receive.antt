-- ===== src/Directory/Receive.antt =====
-- `receive_directory` of core/src/directory.rs, on a disk.
pub mod Sound
pub mod Steps
pub mod Inside
pub mod Ends
pub mod Total
pub mod Local
pub mod Content
pub mod Delivery
use quiczilla.Prelude.{
  ℕ, zero, suc, ◌+◌, ◌%◌, ◌^◌, Bool, true, false, ◌&&◌, ◌||◌, not, Option, none, some, List, [],
  ◌∷◌, ◌++◌, Result, ok, err, ok_or, ltb, leb, ◌==◌, if◌then◌else◌, length, take, get_elem?,
}
use quiczilla.Prelude.Bytes.{Bytes, codes, eq_bytes}
use quiczilla.Paths.{PathBuf, Component, normal, segments, components, file_name, join}
use quiczilla.Directory.{
  frame_start, frame_directory, frame_pack_start, frame_file, frame_pack_end, frame_end,
  DirectoryTransferStats, DirectoryError, not_started, root_not_one_component, unknown_frame,
  totals_mismatch, replaces_symlink, no_name, ended_inside_file, checksum_mismatch, out_of_fuel,
}
use quiczilla.Directory.Names.{validate_relative_path, safe_child}
use quiczilla.Directory.Wire.{read_u8, read_bytes, read_uint, read_path}
use quiczilla.Directory.Copy.{Copied, copy}
use quiczilla.Directory.Action.{Action, ◌>>=◌, ◌>>◌, return, fail, reading, pure, on_disk, stop_if}
use quiczilla.Directory.Send.{add64, new_hasher}
use quiczilla.Directory.Disk.{
  Disk, Node, file, symlink, put, make_directories, create_root, create_file, rename,
}

abbrev pub add_directory : DirectoryTransferStats → DirectoryTransferStats
add_directory stats = record stats { directories = add64 stats.directories 1 }

abbrev pub add_pack : DirectoryTransferStats → DirectoryTransferStats
add_pack stats = record stats { packs = add64 stats.packs 1 }

abbrev pub add_file : ℕ → DirectoryTransferStats → DirectoryTransferStats
add_file size stats = record stats { files = add64 stats.files 1; bytes = add64 stats.bytes size }

-- `create_safe_directory(root, Some(relative))`
pub create_safe_directory : PathBuf → Bytes → Action Disk PathBuf
create_safe_directory root relative = do
  pure (validate_relative_path relative)
  on_disk (make_directories root (components relative))

-- `Path::new(relative).parent()` as text, of a path without empty segments.
unfoldable pub parent_segments : List Bytes → Bytes
parent_segments [] = []
parent_segments (seg ∷ []) = []
parent_segments (seg ∷ last ∷ []) = seg
parent_segments (seg ∷ s ∷ t ∷ segs) = seg ++ (b'/' ∷ parent_segments (s ∷ t ∷ segs))

abbrev pub parent_relative : Bytes → Bytes
parent_relative relative = parent_segments (segments relative)

abbrev pub receive_parent : PathBuf → Bytes → Action Disk PathBuf
receive_parent root [] = return root
receive_parent root (c ∷ path) = create_safe_directory root (c ∷ path)

-- `s.is_char_boundary(i)`
abbrev pub is_char_boundary : Bytes → ℕ → Bool
is_char_boundary s i = elim (get_elem? s i) [
  | none ↦ i == length s
  | some b ↦ (i == 0) || not (leb 0x80 b && ltb b 0xC0)
]

-- The loop that lowers `limit`.
unfoldable pub floor_boundary : Bytes → ℕ → ℕ
floor_boundary s zero = 0
floor_boundary s (suc limit) =
    let lower = floor_boundary s limit in
    if is_char_boundary s (suc limit) then suc limit else lower

abbrev pub stem : Bytes → Bytes
stem name = if leb (length name) 240 then name else take (floor_boundary name 240) name

-- `format!(".{stem}.quic-part")`
unfoldable pub part_name : Bytes → Bytes
part_name name = b'.' ∷ (stem name ++ codes ".quic-part")

abbrev pub is_symlink : Option Node → Bool
is_symlink (some (symlink target)) = true
is_symlink _ = false

abbrev pub totals_differ : DirectoryTransferStats → (files directories bytes : ℕ) → Bool
totals_differ stats files directories bytes =
    not (files == stats.files)
    || (not (directories == stats.directories) || not (bytes == stats.bytes))

-- Is there a link at this path?
abbrev pub look_at : PathBuf → Disk → Disk × Result DirectoryError Bool
look_at path disk = (disk, ok (is_symlink (disk path)))

pub data Next : Type 0 where
  more finished : DirectoryTransferStats → Next

pub receive_subdirectory : PathBuf → DirectoryTransferStats → Action Disk Next
receive_subdirectory root stats = do
  relative ← reading read_path
  path ← create_safe_directory root relative
  return (more (add_directory stats))

pub receive_pack : DirectoryTransferStats → Action Disk Next
receive_pack stats = do ignored ← reading (read_bytes 8); return (more (add_pack stats))

module _ (sha256 : Bytes → Bytes) (read_size : ℕ → ℕ) where
  -- The loop that fills the file, whose contents are on the disk also if the stream ends early.
  pub receive_contents :
      (path : PathBuf) → (size : ℕ) → (checksum : Bool) → Action Disk (Option Bytes)
  receive_contents path size checksum disk s =
      let copied = copy read_size size (new_hasher checksum) size s in
      (
        put disk path (some (file copied.written)),
        if ltb 0 copied.remaining then err ended_inside_file else ok (copied.hasher, copied.rest),
      )

  -- `remove_file(partial)`, and the error.
  abbrev pub discard : (partial : PathBuf) → Action Disk (Unit {0})
  discard partial disk s = (put disk partial none, err checksum_mismatch)

  -- The digest behind a file.
  pub check_digest : (partial : PathBuf) → Option Bytes → Action Disk (Unit {0})
  check_digest partial none = return tt
  check_digest partial (some taken) = do
    expected ← reading (read_bytes 32)
    if eq_bytes (sha256 taken) expected then return tt else discard partial

  -- From `File::create` on.
  pub store_file :
      (partial destination : PathBuf)
      → (size : ℕ) → (checksum : Bool) → DirectoryTransferStats
      → Action Disk Next
  store_file partial destination size checksum stats = do
    opened ← on_disk (create_file partial)
    hasher ← receive_contents opened size checksum
    check_digest partial hasher
    on_disk (rename partial destination)
    return (more (add_file size stats))

  -- From `safe_child` on.
  pub place_file :
      PathBuf
      → (relative : Bytes) → (size : ℕ) → (checksum : Bool) → DirectoryTransferStats
      → Action Disk Next
  place_file root relative size checksum stats = do
    destination ← pure (safe_child root relative)
    parent ← receive_parent root (parent_relative relative)
    name ← pure (ok_or (file_name destination) no_name)
    link ← on_disk (look_at destination)
    stop_if link replaces_symlink
    store_file (join parent (part_name name)) destination size checksum stats

  pub receive_file : PathBuf → DirectoryTransferStats → Action Disk Next
  receive_file root stats = do
    relative ← reading read_path
    size ← reading (read_uint 8)
    flag ← reading read_u8
    place_file root relative size (not (flag == 0)) stats

  pub receive_end : DirectoryTransferStats → Action Disk Next
  receive_end stats = do
    files ← reading (read_uint 8)
    directories ← reading (read_uint 8)
    bytes ← reading (read_uint 8)
    stop_if (totals_differ stats files directories bytes) totals_mismatch
    return (finished stats)

  pub receive_frame : PathBuf → DirectoryTransferStats → (kind : ℕ) → Action Disk Next
  receive_frame root stats kind =
      if kind == frame_directory
      then receive_subdirectory root stats
      else if kind == frame_pack_start
      then receive_pack stats
      else if kind == frame_pack_end
      then return (more stats)
      else if kind == frame_file
      then receive_file root stats
      else if kind == frame_end
      then receive_end stats
      else fail unknown_frame

  -- After a frame: the next round of the loop, or the return.
  abbrev pub go_on :
      (DirectoryTransferStats → Action Disk DirectoryTransferStats)
      → Next
      → Action Disk DirectoryTransferStats
  go_on loop (more stats) = loop stats
  go_on loop (finished stats) = return stats

  -- The loop over the frames, on fuel: a frame is one byte at least.
  pub receive_frames :
      (fuel : ℕ) → PathBuf → DirectoryTransferStats → Action Disk DirectoryTransferStats
  receive_frames zero root stats = fail out_of_fuel
  receive_frames (suc fuel) root stats = do
    kind ← reading read_u8
    next ← receive_frame root stats kind
    go_on (receive_frames fuel root) next

  unfoldable pub receive_directory :
      (fuel : ℕ) → (destination_base : PathBuf) → Action Disk DirectoryTransferStats
  unfolding receive_frames
  receive_directory fuel base = do
    kind ← reading read_u8
    stop_if (not (kind == frame_start)) not_started
    root_name ← reading read_path
    stop_if (not (length (components root_name) == 1)) root_not_one_component
    root ← pure (safe_child base root_name)
    root ← on_disk (create_root root)
    receive_frames fuel root (record { files = 0; directories = 1; bytes = 0; packs = 0 })
