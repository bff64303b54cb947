-- ===== src/Directory/Receive/Total.antt =====
-- Receiving a directory ends: a frame takes at least one byte of the stream.
use quiczilla.Prelude.{
  ℕ, zero, suc, ◌-◌, ◌≤◌, ◌<◌, ◌≢◌, Bool, true, false, not, ◌==◌, ltb, Option, none, some, [], ◌∷◌,
  Result, ok, err, ok_or, arith, length, length-drop, drop, take, if◌then◌else◌,
}
use quiczilla.Prelude.Bytes.{Bytes, eq_bytes}
use quiczilla.Paths.{PathBuf, file_name, join}
use quiczilla.Directory.{
  DirectoryError, out_of_fuel, DirectoryTransferStats, no_name, replaces_symlink, totals_mismatch,
  frame_directory, frame_pack_start, frame_pack_end, frame_file, frame_end, ended_inside_file,
}
use quiczilla.Directory.Names.{safe_child}
use quiczilla.Directory.Wire.{read_u8, read_bytes, read_uint, read_path}
use quiczilla.Directory.Send.{new_hasher}
use quiczilla.Directory.Copy.{copy_lem, update}
use quiczilla.Directory.Action.{Action, return, reading, pure, on_disk, stop_if, continue}
use quiczilla.Directory.Disk.{Disk, create_file, resolve, max_links, rename}
use quiczilla.Directory.Receive.{
  Next, more, finished, create_safe_directory, receive_parent, parent_relative, part_name,
  receive_contents, discard, totals_differ, check_digest, look_at, add_file, add_directory,
  add_pack, receive_subdirectory, receive_pack, store_file, place_file, receive_file, receive_end,
  receive_frame, go_on, receive_frames,
}
use quiczilla.Directory.Receive.Ends.{
  Ran, RanAll, Uses, Ends, Ends-bind, Ends-return, Ends-reading, Ends-pure, Ends-on_disk, Ends-if,
  Ends-stop_if, Uses-read_u8, Uses-read_bytes, Uses-read_uint, RanAll-safe_child, Uses-read_path,
  RanAll-open_resolved, RanAll-move, Ends-create_safe_directory, RanAll-ne,
}

Ends-receive_parent : (root : PathBuf) (path : Bytes) → Ends (receive_parent root path)
Ends-receive_parent root [] = Ends-return root
Ends-receive_parent root (c ∷ path) = Ends-create_safe_directory root (c ∷ path)

RanAll-ok_or : {A : Type 0} (o : Option A) (e : DirectoryError) → Ran e → RanAll (ok_or o e)
RanAll-ok_or none e h = h
RanAll-ok_or (some a) e h = tt

Ends-receive_subdirectory :
    (root : PathBuf) (stats : DirectoryTransferStats) → Ends (receive_subdirectory root stats)
unfolding receive_subdirectory
Ends-receive_subdirectory root stats =
    Ends-bind (reading read_path) _ (Ends-reading read_path Uses-read_path) λ relative.
      Ends-bind (create_safe_directory root relative) (λ _. return (more (add_directory stats)))
        (Ends-create_safe_directory root relative) λ _. Ends-return (more (add_directory stats))

Ends-receive_pack : (stats : DirectoryTransferStats) → Ends (receive_pack stats)
unfolding receive_pack
Ends-receive_pack stats =
    Ends-bind (reading (read_bytes 8)) (λ _. return (more (add_pack stats)))
      (Ends-reading (read_bytes 8) (Uses-read_bytes 8)) λ _. Ends-return (more (add_pack stats))

module _ (sha256 : Bytes → Bytes) (read_size : ℕ → ℕ) where
  Ends-receive_contents :
      (path : PathBuf) (size : ℕ) (checksum : Bool)
      → Ends (receive_contents sha256 read_size path size checksum)
  unfolding receive_contents
  Ends-receive_contents path size checksum = record {
    run = λ disk s. rw (copy_lem read_size size (new_hasher checksum) size s (omega arith)) (
        short (ltb 0 (size - length s)) (drop size s) (length s)
          (update (new_hasher checksum) (take size s)) (omega (arith, length-drop size s)));
  }
    where
      short :
          (b : Bool) (rest : Bytes) (n : ℕ) (hasher : Option Bytes)
          → length rest ≤ n
          → Uses n (if b then err ended_inside_file else ok (hasher, rest))
      short true rest n hasher h = tt
      short false rest n hasher h = h

  Ends-check_digest :
      (partial : PathBuf) (hasher : Option Bytes)
      → Ends (check_digest sha256 read_size partial hasher)
  unfolding check_digest
  Ends-check_digest partial none = Ends-return tt
  Ends-check_digest partial (some taken) =
      Ends-bind (reading (read_bytes 32)) _ (Ends-reading (read_bytes 32) (Uses-read_bytes 32))
        λ expected.
          Ends-if (eq_bytes (sha256 taken) expected) (Ends-return tt) (Ends-discard partial)
    where
      Ends-discard : (partial : PathBuf) → Ends (discard sha256 read_size partial)
      Ends-discard partial = record { run = λ disk s. tt }

  Ends-store_file :
      (partial destination : PathBuf) (size : ℕ) (checksum : Bool) (stats : DirectoryTransferStats)
      → Ends (store_file sha256 read_size partial destination size checksum stats)
  unfolding store_file create_file rename
  Ends-store_file partial destination size checksum stats =
      Ends-bind (on_disk (create_file partial)) _
        (Ends-on_disk (create_file partial)
          λ disk. RanAll-open_resolved disk (resolve max_links disk partial))
        λ opened.
          Ends-bind (receive_contents sha256 read_size opened size checksum) _
            (Ends-receive_contents opened size checksum)
            λ hasher.
              Ends-bind (check_digest sha256 read_size partial hasher) _
                (Ends-check_digest partial hasher)
                λ _.
                  Ends-bind (on_disk (rename partial destination))
                    (λ _. return (more (add_file size stats)))
                    (Ends-on_disk (rename partial destination)
                      λ disk. RanAll-move partial destination disk (disk destination))
                    λ _. Ends-return (more (add_file size stats))

  Ends-place_file :
      (root : PathBuf) (relative : Bytes) (size : ℕ) (checksum : Bool)
      (stats : DirectoryTransferStats)
      → Ends (place_file sha256 read_size root relative size checksum stats)
  unfolding place_file
  Ends-place_file root relative size checksum stats =
      Ends-bind (pure (safe_child root relative)) _
        (Ends-pure (safe_child root relative) (RanAll-safe_child root relative))
        λ destination.
          Ends-bind (receive_parent root (parent_relative relative)) _
            (Ends-receive_parent root (parent_relative relative))
            λ parent.
              Ends-bind (pure (ok_or (file_name destination) no_name)) _
                (Ends-pure (ok_or (file_name destination) no_name)
                  (RanAll-ok_or (file_name destination) no_name tt))
                λ name.
                  Ends-bind (on_disk (look_at destination)) _
                    (Ends-on_disk (look_at destination) λ disk. tt)
                    λ link.
                      Ends-bind (stop_if link replaces_symlink)
                        (λ _.
                          store_file sha256 read_size (join parent (part_name name)) destination
                            size checksum stats)
                        (Ends-stop_if link replaces_symlink tt)
                        λ _.
                          Ends-store_file (join parent (part_name name)) destination size checksum
                            stats

  Ends-receive_file :
      (root : PathBuf) (stats : DirectoryTransferStats)
      → Ends (receive_file sha256 read_size root stats)
  unfolding receive_file
  Ends-receive_file root stats =
      Ends-bind (reading read_path) _ (Ends-reading read_path Uses-read_path) λ relative.
        Ends-bind (reading (read_uint 8)) _ (Ends-reading (read_uint 8) (Uses-read_uint 8)) λ size.
          Ends-bind (reading read_u8)
            (λ flag. place_file sha256 read_size root relative size (not (flag == 0)) stats)
            (Ends-reading read_u8 Uses-read_u8)
            λ flag. Ends-place_file root relative size (not (flag == 0)) stats

  Ends-receive_end : (stats : DirectoryTransferStats) → Ends (receive_end sha256 read_size stats)
  unfolding receive_end
  Ends-receive_end stats =
      let eight = Ends-reading (read_uint 8) (Uses-read_uint 8) in
      Ends-bind (reading (read_uint 8)) _ eight λ files.
        Ends-bind (reading (read_uint 8)) _ eight λ directories.
          Ends-bind (reading (read_uint 8)) _ eight λ bytes.
            Ends-bind (stop_if (totals_differ stats files directories bytes) totals_mismatch)
              (λ _. return (finished stats))
              (Ends-stop_if (totals_differ stats files directories bytes) totals_mismatch tt)
              λ _. Ends-return (finished stats)

  Ends-receive_frame :
      (root : PathBuf) (stats : DirectoryTransferStats) (kind : ℕ)
      → Ends (receive_frame sha256 read_size root stats kind)
  unfolding receive_frame
  Ends-receive_frame root stats kind =
      Ends-if (kind == frame_directory) (Ends-receive_subdirectory root stats) (
        Ends-if (kind == frame_pack_start) (Ends-receive_pack stats) (
          Ends-if (kind == frame_pack_end) (Ends-return (more stats)) (
            Ends-if (kind == frame_file) (Ends-receive_file root stats) (
              Ends-if (kind == frame_end) (Ends-receive_end stats)
                (record { run = λ disk s. tt })))))

  RanAll-go_on :
      (loop : DirectoryTransferStats → Action Disk DirectoryTransferStats) (n : ℕ)
      (r : Disk × Result DirectoryError (Next × Bytes))
      → Uses n r.1
      → ((stats : DirectoryTransferStats) (disk : Disk) (rest : Bytes)
          → length rest ≤ n
          → RanAll (loop stats disk rest).1)
      → RanAll (continue (go_on sha256 read_size loop) r).1
  RanAll-go_on loop n (disk, ok (more stats, rest)) u h = h stats disk rest u
  RanAll-go_on loop n (disk, ok (finished stats, rest)) u h = tt
  RanAll-go_on loop n (disk, err e) u h = u

  RanAll-receive_frames :
      (fuel : ℕ) (root : PathBuf) (stats : DirectoryTransferStats) (disk : Disk) (s : Bytes)
      → length s < fuel
      → RanAll (receive_frames sha256 read_size fuel root stats disk s).1
  unfolding receive_frames read_u8
  RanAll-receive_frames zero root stats disk s h = absurd (omega arith)
  RanAll-receive_frames (suc fuel) root stats disk [] h = tt
  RanAll-receive_frames (suc fuel) root stats disk (kind ∷ s) h =
      RanAll-go_on (receive_frames sha256 read_size fuel root) (length s)
        (receive_frame sha256 read_size root stats kind disk s)
        ((Ends-receive_frame root stats kind).run disk s)
        λ stats' disk' rest u. RanAll-receive_frames fuel root stats' disk' rest (omega arith)

  -- Whatever frames arrive and whatever stands on the disk, the receiver's loop ends: fuel for one
  -- round more than there are bytes in the stream is enough.
  pub receive_frames_total :
      (fuel : ℕ) (root : PathBuf) (stats : DirectoryTransferStats) (disk : Disk) (s : Bytes)
      → length s < fuel
      → (receive_frames sha256 read_size fuel root stats disk s).1 ≢ err out_of_fuel
  receive_frames_total fuel root stats disk s h =
      RanAll-ne (receive_frames sha256 read_size fuel root stats disk s).1
        (RanAll-receive_frames fuel root stats disk s h)
