-- ===== src/Peer/Receiving/Untouched.antt =====
-- A receiver that does not report success leaves the destination alone, where it writes a part file.
use quiczilla.Prelude.{
  ℕ, ◌≡◌, refl, ◌∙◌, Bool, true, false, Option, none, some, [], ◌∷◌, ◌++◌, arith, if_holds,
}
use quiczilla.Prelude.Bytes.{Bytes, codes, eq_bytes}
use quiczilla.Paths.{
  normal, root_dir, cur_dir, parent_dir, PathBuf, eq_path, file_name, with_file_name, or_default,
}
use quiczilla.Peer.Disk.{Disk, Node, file, directory, rename, move}
use quiczilla.Peer.Accept.{RecvTask, get_part_path}
use quiczilla.Peer.Receiving.{
  Net, at_loop, at_pause, at_changed, at_read, at_send, ended, DiskWriter, at_recv, finished,
  writer_failed, Receipt, target_write_path,
}
use quiczilla.Peer.Receiving.Conclude.{
  Outcome, hash_ok, placed, moved, compare_hashes, conclude, conclude_with,
}
use quiczilla.Peer.Receiving.Received.{says_ok}

-- A name is not itself with something behind it.
eq_bytes-longer : (s : Bytes) (c : ℕ) (suffix : Bytes) → eq_bytes (s ++ (c ∷ suffix)) s ≡ false
eq_bytes-longer [] c suffix = refl
eq_bytes-longer (x ∷ s) c suffix = ground (arith, eq_bytes-longer s c suffix)

part_path-other :
    (path : PathBuf) (c : ℕ) (suffix : Bytes)
    → eq_path (with_file_name path (or_default (file_name path) ++ (c ∷ suffix))) path ≡ false
unfolding with_file_name file_name
part_path-other [] c suffix = refl
part_path-other (normal s ∷ []) c suffix = ground (arith, eq_bytes-longer s c suffix)
part_path-other (root_dir ∷ []) c suffix = refl
part_path-other (cur_dir ∷ []) c suffix = refl
part_path-other (parent_dir ∷ []) c suffix = refl
part_path-other (a ∷ d ∷ path) c suffix = ground (arith, part_path-other (d ∷ path) c suffix)

target-other :
    (task : RecvTask)
    → task.use_part ≡ true
    → eq_path (target_write_path task) task.dest_path ≡ false
unfolding get_part_path
target-other task e = ground (arith, part_path-other task.dest_path b'.' (codes "quic-part"))

placed-other :
    (disk : Disk) (r : Receipt)
    → r.task.use_part ≡ true
    → placed disk r r.task.dest_path ≡ disk r.task.dest_path
placed-other disk r e = ground (arith, target-other r.task e)

module _ (sha256_hex : Bytes → Bytes) where
  moved-other :
      (r : Receipt) (disk : Disk) (node : Option Node)
      → says_ok (moved r (move (target_write_path r.task) r.task.dest_path disk node)).effects
        ≡ false
      → (moved r (move (target_write_path r.task) r.task.dest_path disk node)).disk r.task.dest_path
        ≡ disk r.task.dest_path
  moved-other r disk (some (directory n)) e = refl
  moved-other r disk none e = absurd (ground arith)
  moved-other r disk (some (file b)) e = absurd (ground arith)

  compare_hashes-other :
      (r : Receipt) (disk : Disk) (actual expected : Bytes)
      → r.task.use_part ≡ true
      → says_ok (compare_hashes disk r actual expected).effects ≡ false
      → (compare_hashes disk r actual expected).disk r.task.dest_path ≡ disk r.task.dest_path
  unfolding compare_hashes rename
  compare_hashes-other r disk actual expected part =
      if_holds Same (hash_ok expected actual) _ _
        (λ same.
          if_holds Same r.task.use_part _ _ (λ p. moved-other r disk (disk r.task.dest_path))
            (λ whole. absurd (ground arith)))
        (λ other silent. refl)
    where
      Same : Outcome → Type 0
      Same o = says_ok o.effects ≡ false → o.disk r.task.dest_path ≡ disk r.task.dest_path

  conclude_with-other :
      (net : Net) (w : DiskWriter) (rereads : Bool) (expected : Option Bytes) (disk : Disk)
      (r : Receipt)
      → r.task.use_part ≡ true
      → says_ok (conclude_with sha256_hex net w rereads expected disk r).effects ≡ false
      → (conclude_with sha256_hex net w rereads expected disk r).disk r.task.dest_path
        ≡ disk r.task.dest_path
  conclude_with-other (ended true) (finished i) rereads (some h) disk r part e =
      compare_hashes-other r disk _ h part e
  conclude_with-other (ended true) (finished i) rereads none disk r part e = refl
  conclude_with-other (ended true) at_recv rereads expected disk r part e = refl
  conclude_with-other (ended true) writer_failed rereads expected disk r part e = refl
  conclude_with-other (ended false) w rereads expected disk r part e = refl
  conclude_with-other at_loop w rereads expected disk r part e = refl
  conclude_with-other at_pause w rereads expected disk r part e = refl
  conclude_with-other at_changed w rereads expected disk r part e = refl
  conclude_with-other at_read w rereads expected disk r part e = refl
  conclude_with-other (at_send c) w rereads expected disk r part e = refl

  -- However a task that writes a part file ends: unless it says that the file was received, the
  -- destination holds what it held before.
  pub conclude-untouched :
      (rereads : Bool) (expected : Option Bytes) (disk : Disk) (r : Receipt)
      → r.task.use_part ≡ true
      → says_ok (conclude sha256_hex rereads expected disk r).effects ≡ false
      → (conclude sha256_hex rereads expected disk r).disk r.task.dest_path ≡ disk r.task.dest_path
  unfolding conclude
  conclude-untouched rereads expected disk r part silent =
      conclude_with-other r.net r.disk_writer rereads expected (placed disk r) r part silent
      ∙ placed-other disk r part
