-- ===== src/Directory/Receive/Content.antt =====
-- A file from the sender to the receiver of core/src/directory.rs: the frame of `send_directory`, and
-- what `receive_directory` does with it.
use quiczilla.Prelude.{
  ◌⊎◌, ℕ, zero, suc, ◌-◌, ◌<◌, ◌^◌, ◌≡◌, refl, ap, ◌∙◌, Bool, true, false, Option, none, some, [],
  ◌∷◌, ◌++◌, Result, ok, err, ok_or, arith, length, take, drop, length-append, take-append,
  Option-cases, inl, inr, ◌==◌, not,
}
use quiczilla.Prelude.Bytes.{Bytes, be_bytes, eq_bytes_iff}
use quiczilla.Prelude.Utf8.{is_utf8}
use quiczilla.Paths.{PathBuf, file_name, join}
use quiczilla.Peer.Receiving.Received.{eq_path_self}
use quiczilla.Directory.{
  DirectoryTransferStats, DirectoryError, no_name, io_error, replaces_symlink,
}
use quiczilla.Directory.Names.{safe_child}
use quiczilla.Directory.Wire.{read_u8, write_path}
use quiczilla.Directory.Wire.RoundTrip.{read_path-write_path, read_uint-be_bytes, read_bytes-append}
use quiczilla.Directory.Copy.{copy_lem, update}
use quiczilla.Directory.Action.{continue, ◌>>=◌, ◌>>◌, return, on_disk, pure, stop_if}
use quiczilla.Directory.Disk.{
  Disk, Node, file, directory, symlink, put, resolve, max_links, create_file, rename,
}
use quiczilla.Directory.Send.{new_hasher, digest, of_bool}
use quiczilla.Directory.Receive.{
  Next, more, add_file, is_symlink, receive_contents, check_digest, store_file, place_file,
  receive_file, receive_parent, parent_relative, part_name, look_at,
}
use quiczilla.Directory.Receive.Local.{HasNoLinks, IsLocal, IsEntered, receive_parent-IsEntered}

-- The file is at its destination, and counted, and what follows it on the stream is left; or there was
-- an error of the path or of the disk.
abbrev pub IsPlaced :
    PathBuf
    → Bytes
    → DirectoryTransferStats
    → Bytes
    → Disk × Result DirectoryError (Next × Bytes)
    → Type 0
IsPlaced destination content stats rest (disk, ok (next, s)) =
    (disk destination ≡ some (file content)) × ((next ≡ more stats) × (s ≡ rest))
IsPlaced destination content stats rest (disk, err e) = IsLocal e

put-same : (disk : Disk) (path : PathBuf) (new : Option Node) → put disk path new path ≡ new
unfolding put
put-same disk path new = rw (eq_path_self path) refl

-- What the hasher of a file has taken in the end.
abbrev pub hashed : Bool → Bytes → Option Bytes
hashed true content = some content
hashed false content = none

pub update-new_hasher :
    (c : Bool) (content : Bytes) → update (new_hasher c) content ≡ hashed c content
update-new_hasher true content = refl
update-new_hasher false content = refl

drop_exactly : (n : ℕ) (xs ys : Bytes) → n ≡ length xs → drop n (xs ++ ys) ≡ ys
drop_exactly zero [] ys e = refl
drop_exactly zero (x ∷ xs) ys e = absurd (omega arith)
drop_exactly (suc n) [] ys e = absurd (omega arith)
drop_exactly (suc n) (x ∷ xs) ys e = drop_exactly n xs ys (omega arith)

module _ (sha256 : Bytes → Bytes) (read_size : ℕ → ℕ) where
  receive_contents-append :
      (path : PathBuf) (c : Bool) (disk : Disk) (content tail : Bytes)
      → receive_contents sha256 read_size path (length content) c disk (content ++ tail)
        ≡ (put disk path (some (file content)), ok (hashed c content, tail))
  unfolding receive_contents
  receive_contents-append path c disk content tail =
      let fed =
        copy_lem read_size (length content) (new_hasher c) (length content) (content ++ tail)
          (omega arith) in
      let taken : take (length content) (content ++ tail) ≡ content =
        take-append (length content) content tail refl in
      let hash : update (new_hasher c) (take (length content) (content ++ tail))
          ≡ hashed c content =
        ap (update (new_hasher c)) taken ∙ update-new_hasher c content in
      let left : length content - length (content ++ tail) ≡ 0 =
        omega (arith, length-append content tail) in
      rw fed (
        rw taken (
          rw (drop_exactly (length content) content tail refl)
            (rw left (rw (update-new_hasher c content) refl))))

  check_digest-append :
      (partial : PathBuf) (c : Bool) (disk : Disk) (content tail : Bytes)
      → ((x : Bytes) → length (sha256 x) ≡ 32)
      → check_digest sha256 read_size partial
          (hashed c content)
          disk
          (digest sha256 read_size (hashed c content) ++ tail)
        ≡ (disk, ok (tt, tail))
  unfolding check_digest
  check_digest-append partial false disk content tail h = refl
  check_digest-append partial true disk content tail h =
      rw (read_bytes-append 32 (sha256 content) tail (h content))
        (rw ((eq_bytes_iff (sha256 content) (sha256 content)).1 refl) refl)

  -- A file that is created where no link stands.
  resolve_plain :
      (disk : Disk) (path : PathBuf)
      → is_symlink (disk path) ≡ false
      → resolve max_links disk path ≡ some path
  unfolding resolve
  resolve_plain disk path h = elim (Option-cases (disk path)) [
    | inl e ↦ rw (e, resolve) refl
    | inr (file b, e) ↦ rw (e, resolve) refl
    | inr (directory, e) ↦ rw (e, resolve) refl
    | inr (symlink target, e) ↦ absurd (ground (arith, rw e at h))
  ]

  -- The disk with the file that is opened, or the error.
  IsOpened : PathBuf → Disk × Result DirectoryError PathBuf → Type 0
  IsOpened path r =
      ((disk : Disk) × (r ≡ (disk, ok path))) ⊎ ((disk : Disk) × (r ≡ (disk, err io_error)))

  create_file-IsOpened :
      (path : PathBuf) (disk : Disk)
      → is_symlink (disk path) ≡ false
      → IsOpened path (create_file path disk)
  unfolding create_file IsOpened
  create_file-IsOpened path disk h =
      rw (resolve_plain disk path h) (elim (Option-cases (disk path)) [
        | inl e ↦ rw e (inl (_, refl))
        | inr (file b, e) ↦ rw e (inl (_, refl))
        | inr (directory, e) ↦ rw e (inr (_, refl))
        | inr (symlink target, e) ↦ rw e (inl (_, refl))
      ])

  rename-IsPlaced :
      (partial destination : PathBuf) (disk : Disk) (content rest : Bytes)
      (stats : DirectoryTransferStats)
      → disk partial ≡ some (file content)
      → IsPlaced destination content stats rest
          ((on_disk (rename partial destination) >> return (more stats)) disk rest)
  unfolding rename
  rename-IsPlaced partial destination disk content rest stats h =
      elim (Option-cases (disk destination)) [
        | inr (directory, e) ↦ rw e tt
        | inl e ↦
            rw e (put-same (put disk partial none) destination (disk partial) ∙ h, (refl, refl))
        | inr (file b, e) ↦
            rw e (put-same (put disk partial none) destination (disk partial) ∙ h, (refl, refl))
        | inr (symlink t, e) ↦
            rw e (put-same (put disk partial none) destination (disk partial) ∙ h, (refl, refl))
      ]

  store_file-IsPlaced :
      (partial destination : PathBuf) (c : Bool) (stats : DirectoryTransferStats) (disk : Disk)
      (content rest : Bytes)
      → ((x : Bytes) → length (sha256 x) ≡ 32)
      → is_symlink (disk partial) ≡ false
      → IsPlaced destination content (add_file (length content) stats) rest (
          store_file sha256 read_size partial destination
            (length content)
            c
            stats
            disk
            (content ++ (digest sha256 read_size (hashed c content) ++ rest)))
  unfolding store_file IsOpened
  store_file-IsPlaced partial destination c stats disk content rest long plain =
      elim (create_file-IsOpened partial disk plain) [
        | inr (disk1, e) ↦ rw e tt
        | inl (disk1, e) ↦
            let tail = digest sha256 read_size (hashed c content) ++ rest in
            let disk2 = put disk1 partial (some (file content)) in
            rw e (
              rw (receive_contents-append partial c disk1 content tail) (
                rw (check_digest-append partial c disk2 content rest long) (
                  rename-IsPlaced partial destination disk2 content rest
                    (add_file (length content) stats)
                    (put-same disk1 partial (some (file content))))))
      ]

  -- `file_name` of the destination, and no link there.
  named-IsPlaced :
      (parent destination : PathBuf) (c : Bool) (stats : DirectoryTransferStats) (disk : Disk)
      (content rest : Bytes)
      → ((x : Bytes) → length (sha256 x) ≡ 32)
      → HasNoLinks disk
      → IsPlaced destination content (add_file (length content) stats) rest (
          (pure (ok_or (file_name destination) no_name) >>= λ name.
          on_disk (look_at destination) >>= λ link.
          stop_if link replaces_symlink
          >> store_file sha256 read_size
              (join parent (part_name name))
              destination
              (length content)
              c
              stats)
            disk
            (content ++ (digest sha256 read_size (hashed c content) ++ rest)))
  named-IsPlaced parent destination c stats disk content rest long plain =
      elim (Option-cases (file_name destination)) [
        | inl e ↦ rw e tt
        | inr (name, e) ↦ rw e (
            rw (plain destination) (
              store_file-IsPlaced (join parent (part_name name)) destination c stats disk content
                rest long (plain (join parent (part_name name)))))
      ]

  entered-IsPlaced :
      (r : Disk × Result DirectoryError (PathBuf × Bytes)) (destination : PathBuf) (c : Bool)
      (stats : DirectoryTransferStats) (content rest : Bytes)
      → ((x : Bytes) → length (sha256 x) ≡ 32)
      → IsEntered (content ++ (digest sha256 read_size (hashed c content) ++ rest)) r
      → IsPlaced destination content (add_file (length content) stats) rest (
          continue
            (λ parent. pure (ok_or (file_name destination) no_name) >>= λ name.
              on_disk (look_at destination) >>= λ link.
              stop_if link replaces_symlink
              >> store_file sha256 read_size
                  (join parent (part_name name))
                  destination
                  (length content)
                  c
                  stats)
            r)
  entered-IsPlaced (disk, ok (parent, s)) destination c stats content rest long (plain, same) =
      rw same (named-IsPlaced parent destination c stats disk content rest long plain)
  entered-IsPlaced (disk, err e) destination c stats content rest long h = h

  place_file-IsPlaced :
      (root destination : PathBuf) (relative : Bytes) (c : Bool) (stats : DirectoryTransferStats)
      (disk : Disk) (content rest : Bytes)
      → ((x : Bytes) → length (sha256 x) ≡ 32)
      → HasNoLinks disk
      → safe_child root relative ≡ ok destination
      → IsPlaced destination content (add_file (length content) stats) rest (
          place_file sha256 read_size root relative
            (length content)
            c
            stats
            disk
            (content ++ (digest sha256 read_size (hashed c content) ++ rest)))
  unfolding place_file
  place_file-IsPlaced root destination relative c stats disk content rest long plain e =
      let s = content ++ (digest sha256 read_size (hashed c content) ++ rest) in
      rw e (
        entered-IsPlaced (receive_parent root (parent_relative relative) disk s) destination c stats
          content rest long (receive_parent-IsEntered root (parent_relative relative) disk s plain))

  flag_back : (c : Bool) → not (of_bool c == 0) ≡ c
  flag_back true = refl
  flag_back false = refl

  pub receive_file-IsPlaced :
      (root destination : PathBuf) (relative path : Bytes) (c : Bool)
      (stats : DirectoryTransferStats) (disk : Disk) (content rest : Bytes)
      → ((x : Bytes) → length (sha256 x) ≡ 32)
      → HasNoLinks disk
      → safe_child root relative ≡ ok destination
      → is_utf8 relative ≡ true
      → write_path relative ≡ ok path
      → length content < 2 ^ 64
      → IsPlaced destination content (add_file (length content) stats) rest (
          receive_file sha256 read_size root stats disk (
            path
            ++ (be_bytes 8 (length content)
                ++ (of_bool c
                    ∷ (content ++ (digest sha256 read_size (hashed c content) ++ rest))))))
  unfolding receive_file read_u8
  receive_file-IsPlaced root destination relative path c stats disk content rest long plain e u w
        fits =
      let body = of_bool c ∷ (content ++ (digest sha256 read_size (hashed c content) ++ rest)) in
      rw (read_path-write_path relative path (be_bytes 8 (length content) ++ body) u w) (
        rw (read_uint-be_bytes 8 (length content) body (omega arith)) (
          rw (flag_back c)
            (place_file-IsPlaced root destination relative c stats disk content rest long plain e)))
