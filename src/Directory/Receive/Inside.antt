-- ===== src/Directory/Receive/Inside.antt =====
-- What receiving a directory changes on the disk.
use quiczilla.Prelude.{
  ℕ, zero, suc, ◌≡◌, ap, sym, ◌∙◌, inl, inr, Bool, not, ◌==◌, Option, none, some, List, [], ◌∷◌,
  ◌++◌, Result, ok, err, ok_or, All, map, Option-cases, Result-cases,
}
use mathlib.Core.List.{append_assoc}
use quiczilla.Prelude.Bytes.{Bytes, eq_bytes}
use quiczilla.Paths.{normal, PathBuf, split_slash, join, file_name}
use quiczilla.Paths.Names.{IsPlain, IsName, split-IsPlain, join-name}
use quiczilla.Directory.{
  DirectoryError, DirectoryTransferStats, no_name, replaces_symlink, totals_mismatch,
  frame_directory, frame_pack_start, frame_pack_end, frame_file, frame_end, unknown_frame,
}
use quiczilla.Directory.Names.{safe_child}
use quiczilla.Directory.Names.Valid.{safe_child-below}
use quiczilla.Directory.Wire.{read_path, read_u8, read_uint, read_bytes}
use quiczilla.Directory.Action.{Action, return, reading, pure, on_disk, stop_if}
use quiczilla.Directory.Disk.{Disk, create_file, rename}
use quiczilla.Directory.Receive.{
  Next, more, finished, create_safe_directory, receive_parent, parent_relative, part_name,
  receive_contents, discard, totals_differ, check_digest, look_at, add_file, add_directory,
  add_pack, receive_subdirectory, receive_pack, store_file, place_file, receive_file, receive_end,
  receive_frame, go_on, receive_frames,
}
use quiczilla.Directory.Receive.Sound.{
  Below, AtOrBelow, NoLinks, OkAll, Keeps, Keeps-refl, put-Keeps, Sound, Sound-on_disk, Sound-bind,
  Below-snoc,
}
use quiczilla.Directory.Receive.Steps.{
  Any, part_name-IsName, file_name-IsPlain, Sound-return, Sound-fail, Sound-Any, Sound-stop_if,
  Sound-if, Sound-pure, Sound-create_safe_directory, Sound-receive_parent, create_file-Keeps,
  rename-Keeps,
}

module _ (root : PathBuf) where
  module _ (sha256 : Bytes → Bytes) (read_size : ℕ → ℕ) where
    Sound-receive_contents :
        (path : PathBuf) (size : ℕ) (checksum : Bool)
        → Below root path
        → Sound root Any (receive_contents sha256 read_size path size checksum)
    unfolding receive_contents
    Sound-receive_contents path size checksum below = record {
      run = λ disk s nl. (put-Keeps root disk path _ below (λ l. cc l.1) nl, OkAll-Any _);
    }
      where
        OkAll-Any : {A : Type 0} (r : Result DirectoryError (A × Bytes)) → OkAll (λ p. Any p.0) r
        OkAll-Any (ok a) = tt
        OkAll-Any (err e) = tt

    Sound-discard :
        (partial : PathBuf) → Below root partial → Sound root Any (discard sha256 read_size partial)
    Sound-discard partial below = record {
      run = λ disk s nl. (put-Keeps root disk partial none below (λ l. cc l.1) nl, tt);
    }

    Sound-check_digest :
        (partial : PathBuf) (hasher : Option Bytes)
        → Below root partial
        → Sound root Any (check_digest sha256 read_size partial hasher)
    unfolding check_digest
    Sound-check_digest partial none below = Sound-return root Any tt tt
    Sound-check_digest partial (some taken) below =
        Sound-bind root Any Any _ _ (Sound-Any root (read_bytes 32)) λ expected _.
          Sound-if root (eq_bytes (sha256 taken) expected) (Sound-return root Any tt tt)
            (Sound-discard partial below)

    -- The names that a received path leads to.
    Destination : PathBuf → Type 0
    Destination q =
        (seg : Bytes) × (segs : List Bytes) × IsPlain seg
        × All IsPlain segs
        × (q ≡ root ++ map normal (seg ∷ segs))

    OkAll-safe_child : (relative : Bytes) → OkAll Destination (safe_child root relative)
    unfolding Destination
    OkAll-safe_child relative = elim (Result-cases (safe_child root relative)) [
      | inl (path, e) ↦ rw e (
        (split_slash relative).0,
        (split_slash relative).1,
        (split-IsPlain relative).0,
        (split-IsPlain relative).1,
        (safe_child-below root path relative e).1,
      )
      | inr (x, e) ↦ rw e tt
    ]

    Destination-file_name :
        (q : PathBuf)
        → Destination q
        → OkAll IsPlain (ok_or {E = DirectoryError} (file_name q) no_name)
    unfolding Destination
    Destination-file_name q (seg, segs, h, hs, e) = elim (Option-cases (file_name q)) [
      | inl n ↦ rw n tt
      | inr (name, n) ↦ rw n (file_name-IsPlain root seg segs name h hs (ap file_name (sym e) ∙ n))
    ]

    Below-join :
        (parent : PathBuf) (name : Bytes)
        → AtOrBelow root parent
        → IsName name
        → Below root (join parent name)
    Below-join parent name (x, e) h =
        Below-snoc root x name _
          (join-name parent name h ∙ ap (λ t. t ++ (normal name ∷ [])) e ∙ append_assoc root x _)

    Sound-store_file :
        (partial destination : PathBuf) (size : ℕ) (checksum : Bool)
        (stats : DirectoryTransferStats)
        → Below root partial
        → Below root destination
        → Sound root Any (store_file sha256 read_size partial destination size checksum stats)
    unfolding store_file
    Sound-store_file partial destination size checksum stats below at =
        Sound-bind root (Below root) Any (on_disk (create_file partial)) _
          (Sound-on_disk root (Below root) (create_file partial)
            λ disk nl. create_file-Keeps root partial disk below nl)
          λ opened inside.
            Sound-bind root Any Any (receive_contents sha256 read_size opened size checksum) _
              (Sound-receive_contents opened size checksum inside)
              λ hasher _.
                Sound-bind root Any Any (check_digest sha256 read_size partial hasher) _
                  (Sound-check_digest partial hasher below)
                  λ _ _.
                    Sound-bind root Any Any (on_disk (rename partial destination))
                      (λ _. return (more (add_file size stats)))
                      (Sound-on_disk root Any (rename partial destination)
                        λ disk nl. rename-Keeps root partial destination disk below at nl)
                      λ _ _. Sound-return root Any (more (add_file size stats)) tt

    Sound-place_file :
        (relative : Bytes) (size : ℕ) (checksum : Bool) (stats : DirectoryTransferStats)
        → Sound root Any (place_file sha256 read_size root relative size checksum stats)
    unfolding place_file Destination
    Sound-place_file relative size checksum stats =
        Sound-bind root Destination Any (pure (safe_child root relative)) _
          (Sound-pure root Destination (safe_child root relative) (OkAll-safe_child relative))
          λ destination at.
            Sound-bind root (AtOrBelow root) Any (receive_parent root (parent_relative relative)) _
              (Sound-receive_parent root (parent_relative relative))
              λ parent above.
                Sound-bind root IsPlain Any (pure (ok_or (file_name destination) no_name)) _
                  (Sound-pure root IsPlain (ok_or (file_name destination) no_name)
                    (Destination-file_name destination at))
                  λ name plain.
                    Sound-bind root Any Any (on_disk (look_at destination)) _
                      (Sound-on_disk root Any (look_at destination)
                        λ disk nl. (Keeps-refl root disk nl, tt))
                      λ link _.
                        Sound-bind root Any Any (stop_if link replaces_symlink)
                          (λ _.
                            store_file sha256 read_size (join parent (part_name name)) destination
                              size checksum stats)
                          (Sound-stop_if root link replaces_symlink)
                          λ _ _.
                            Sound-store_file (join parent (part_name name)) destination size
                              checksum stats
                              (Below-join parent (part_name name) above
                                (part_name-IsName name plain))
                              (normal at.0, map normal at.1, at.4)

    Sound-receive_file :
        (stats : DirectoryTransferStats) → Sound root Any (receive_file sha256 read_size root stats)
    unfolding receive_file
    Sound-receive_file stats =
        Sound-bind root Any Any (reading read_path) _ (Sound-Any root read_path) λ relative _.
          Sound-bind root Any Any (reading (read_uint 8)) _ (Sound-Any root (read_uint 8)) λ size _.
            Sound-bind root Any Any (reading read_u8)
              (λ flag. place_file sha256 read_size root relative size (not (flag == 0)) stats)
              (Sound-Any root read_u8)
              λ flag _. Sound-place_file relative size (not (flag == 0)) stats

    Sound-receive_end :
        (stats : DirectoryTransferStats) → Sound root Any (receive_end sha256 read_size stats)
    unfolding receive_end
    Sound-receive_end stats =
        Sound-bind root Any Any (reading (read_uint 8)) _ (Sound-Any root (read_uint 8)) λ files _.
          Sound-bind root Any Any (reading (read_uint 8)) _ (Sound-Any root (read_uint 8))
            λ directories _.
              Sound-bind root Any Any (reading (read_uint 8)) _ (Sound-Any root (read_uint 8))
                λ bytes _.
                  Sound-bind root Any Any
                    (stop_if (totals_differ stats files directories bytes) totals_mismatch)
                    (λ _. return (finished stats))
                    (Sound-stop_if root (totals_differ stats files directories bytes)
                      totals_mismatch)
                    λ _ _. Sound-return root Any (finished stats) tt

    Sound-receive_subdirectory :
        (stats : DirectoryTransferStats) → Sound root Any (receive_subdirectory root stats)
    unfolding receive_subdirectory
    Sound-receive_subdirectory stats =
        Sound-bind root Any Any (reading read_path) _ (Sound-Any root read_path) λ relative _.
          Sound-bind root (AtOrBelow root) Any (create_safe_directory root relative)
            (λ _. return (more (add_directory stats))) (Sound-create_safe_directory root relative)
            λ _ _. Sound-return root Any (more (add_directory stats)) tt

    Sound-receive_pack : (stats : DirectoryTransferStats) → Sound root Any (receive_pack stats)
    unfolding receive_pack
    Sound-receive_pack stats =
        Sound-bind root Any Any (reading (read_bytes 8)) (λ _. return (more (add_pack stats)))
          (Sound-Any root (read_bytes 8)) λ _ _. Sound-return root Any (more (add_pack stats)) tt

    Sound-receive_frame :
        (stats : DirectoryTransferStats) (kind : ℕ)
        → Sound root Any (receive_frame sha256 read_size root stats kind)
    unfolding receive_frame
    Sound-receive_frame stats kind =
        Sound-if root (kind == frame_directory) (Sound-receive_subdirectory stats) (
          Sound-if root (kind == frame_pack_start) (Sound-receive_pack stats) (
            Sound-if root (kind == frame_pack_end) (Sound-return root Any (more stats) tt) (
              Sound-if root (kind == frame_file) (Sound-receive_file stats) (
                Sound-if root (kind == frame_end) (Sound-receive_end stats)
                  (Sound-fail root unknown_frame)))))

    Sound-go_on :
        (loop : DirectoryTransferStats → Action Disk DirectoryTransferStats)
        → ((stats : DirectoryTransferStats) → Sound root Any (loop stats))
        → (next : Next) → Sound root Any (go_on sha256 read_size loop next)
    Sound-go_on loop h (more stats) = h stats
    Sound-go_on loop h (finished stats) = Sound-return root Any stats tt

    Sound-receive_frames :
        (fuel : ℕ) (stats : DirectoryTransferStats)
        → Sound root Any (receive_frames sha256 read_size fuel root stats)
    unfolding receive_frames
    Sound-receive_frames zero stats = record { run = λ disk s nl. (Keeps-refl root disk nl, tt) }
    Sound-receive_frames (suc fuel) stats =
        Sound-bind root Any Any (reading read_u8) _ (Sound-Any root read_u8) λ kind _.
          Sound-bind root Any Any (receive_frame sha256 read_size root stats kind)
            (go_on sha256 read_size (receive_frames sha256 read_size fuel root))
            (Sound-receive_frame stats kind)
            λ next _.
              Sound-go_on (receive_frames sha256 read_size fuel root) (Sound-receive_frames fuel)
                next

    -- From a disk without symbolic links at the root and below it, whatever frames arrive and
    -- wherever they end: what does not lie below the root stays as it was, and no link appears.
    pub receive_frames-Keeps :
        (fuel : ℕ) (stats : DirectoryTransferStats) (disk : Disk) (s : Bytes)
        → NoLinks root disk
        → Keeps root disk (receive_frames sha256 read_size fuel root stats disk s).0
    receive_frames-Keeps fuel stats disk s nl = ((Sound-receive_frames fuel stats).run disk s nl).0
