-- ===== src/Directory/Send.antt =====
-- `send_directory` of core/src/directory.rs, on the tree that its calls of the file system find. A
-- sender's result is the bytes that it writes; what it writes before an error is left out.
pub mod Walk
use quiczilla.Prelude.{
  ℕ, zero, suc, ◌+◌, ◌-◌, ◌%◌, ◌^◌, Bool, true, false, ◌&&◌, not, Option, none, some, List, [], ◌∷◌,
  ◌++◌, map, Result, ok, err, ◌>>=◌, ◌>>◌, bail_if, ltb, ◌==◌, if◌then◌else◌, min,
}
use quiczilla.Prelude.Bytes.{Bytes, be_bytes}
use quiczilla.Prelude.Utf8.{is_utf8}
use quiczilla.Directory.{
  StorageProfile, pack_target_bytes, DirectoryTransferStats, DirectoryError, path_not_utf8,
  source_changed, source_not_directory, source_has_no_name, io_error, out_of_fuel, frame_start,
  frame_directory, frame_file, frame_pack_end, frame_end,
}
use quiczilla.Directory.Names.{validate_relative_path}
use quiczilla.Directory.Wire.{write_path, write_pack_start}
use quiczilla.Directory.Copy.{Copied, copy}

-- What stands behind a name. A file has the length that `metadata` tells and the contents that the
-- reads find; `unreadable` is an entry for which a call fails.
mutual
  pub data Node : Type 0 where
    directory : Entries → Node
    file : (len : ℕ) (contents : Bytes) → Node
    symlink special unreadable : Node

  -- What an iterator has still to return, in the order of `read_dir`.
  pub data Entries : Type 0 where
    done failing : Entries
    entry : (name : Bytes) → Node → Entries → Entries

-- `value.replace('\\', "/")`
abbrev pub replace_backslash : Bytes → Bytes
replace_backslash value = map (λ c. if c == b'\\' then b'/' else c) value

unfoldable pub path_to_wire : Bytes → Result DirectoryError Bytes
path_to_wire path = do
  bail_if (not (is_utf8 path)) path_not_utf8
  validate_relative_path (replace_backslash path)
  ok (replace_backslash path)

-- The path below the source: the one of the directory, and then the name.
abbrev pub below : Bytes → Bytes → Bytes
below [] name = name
below (c ∷ prefix) name = c ∷ (prefix ++ (b'/' ∷ name))

-- The variables of the walk.
pub record Tally : Type 0 where
  pub stats : DirectoryTransferStats
  pub pack_bytes : ℕ
  pub pack_number : ℕ

-- `u64` additions, which wrap in a release build.
abbrev pub add64 : ℕ → ℕ → ℕ
add64 a b = (a + b) % 2 ^ 64

abbrev pub count_directory : Tally → Tally
count_directory t = record t {
  stats = record t.stats { directories = add64 t.stats.directories 1 };
}

abbrev pub count_file : ℕ → Tally → Tally
count_file size t = record t {
  stats = record t.stats { files = add64 t.stats.files 1; bytes = add64 t.stats.bytes size };
  pack_bytes = add64 t.pack_bytes size;
}

-- `pack_bytes > 0 && pack_bytes.saturating_add(file_size) > target`
abbrev pub starts_pack : (target size : ℕ) → Tally → Bool
starts_pack target size t =
    ltb 0 t.pack_bytes && ltb target (min (t.pack_bytes + size) (2 ^ 64 - 1))

abbrev pub next_pack : Tally → Tally
next_pack t = record t {
  stats = record t.stats { packs = add64 t.stats.packs 1 };
  pack_bytes = 0;
  pack_number = add64 t.pack_number 1;
}

abbrev pub of_bool : Bool → ℕ
of_bool true = 1
of_bool false = 0

abbrev pub new_hasher : Bool → Option Bytes
new_hasher true = some []
new_hasher false = none

module _ (sha256 : Bytes → Bytes) (read_size : ℕ → ℕ) where
  abbrev pub digest : Option Bytes → Bytes
  digest none = []
  digest (some taken) = sha256 taken

  -- The frame of a file, and the pack that it may begin.
  unfoldable pub send_file :
      (target : ℕ)
      → (checksum : Bool) → Tally
      → (relative : Bytes) → (len : ℕ) → (contents : Bytes) → Result DirectoryError (Bytes × Tally)
  send_file target checksum t relative len contents =
      let pack = starts_pack target len t in
      let t' = if pack then next_pack t else t in
      let mark = if pack then frame_pack_end ∷ write_pack_start t'.pack_number else [] in
      let copy = copy read_size len (new_hasher checksum) len contents in
      do
        path ← write_path relative
        bail_if (ltb 0 copy.remaining) source_changed
        ok (
          mark
              ++ (frame_file
                  ∷ (path
                      ++ (be_bytes 8 len
                          ++ (of_bool checksum ∷ (copy.written ++ digest copy.hasher))))),
          count_file len t',
        )

  abbrev pub before :
      Bytes → Result DirectoryError (Bytes × Tally) → Result DirectoryError (Bytes × Tally)
  before bytes (ok (more, t)) = ok (bytes ++ more, t)
  before bytes (err e) = err e

  -- The loop over the stack of open iterators, each with its directory's path, on fuel.
  unfoldable pub walk :
      (target : ℕ)
      → (checksum : Bool) → (fuel : ℕ) → Tally
      → List (Bytes × Entries)
      → Result DirectoryError (Bytes × Tally)
  walk target checksum fuel t [] = ok ([], t)
  walk target checksum zero t (_ ∷ _) = err out_of_fuel
  walk target checksum (suc fuel) t ((prefix, done) ∷ stack) = walk target checksum fuel t stack
  walk target checksum (suc fuel) t ((prefix, failing) ∷ stack) = err io_error
  walk target checksum (suc fuel) t ((prefix, entry name unreadable rest) ∷ stack) = err io_error
  walk target checksum (suc fuel) t ((prefix, entry name symlink rest) ∷ stack) =
      walk target checksum fuel t ((prefix, rest) ∷ stack)
  walk target checksum (suc fuel) t ((prefix, entry name special rest) ∷ stack) = do
    relative ← path_to_wire (below prefix name)
    walk target checksum fuel t ((prefix, rest) ∷ stack)
  walk target checksum (suc fuel) t ((prefix, entry name (directory entries) rest) ∷ stack) = do
    relative ← path_to_wire (below prefix name)
    path ← write_path relative
    before (frame_directory ∷ path) (
        walk target checksum fuel (count_directory t)
          ((below prefix name, entries) ∷ (prefix, rest) ∷ stack))
  walk target checksum (suc fuel) t ((prefix, entry name (file len contents) rest) ∷ stack) = do
    relative ← path_to_wire (below prefix name)
    (bytes, t) ← send_file target checksum t relative len contents
    before bytes (walk target checksum fuel t ((prefix, rest) ∷ stack))

  abbrev pub start : Tally
  start = record {
    stats = record { files = 0; directories = 1; bytes = 0; packs = 1 };
    pack_bytes = 0;
    pack_number = 0;
  }

  abbrev pub totals : DirectoryTransferStats → Bytes
  totals stats = be_bytes 8 stats.files ++ (be_bytes 8 stats.directories ++ be_bytes 8 stats.bytes)

  -- `source` is the resolved source with the last name of its path.
  unfoldable pub send_directory :
      (fuel : ℕ)
      → StorageProfile
      → Bool
      → Option Bytes
      → Node
      → Result DirectoryError (Bytes × DirectoryTransferStats)
  send_directory fuel profile checksum (some name) (directory entries) = do
    root_name ← path_to_wire name
    path ← write_path root_name
    (frames, t) ← walk (pack_target_bytes profile) checksum fuel start (([], entries) ∷ [])
    ok (
      (frame_start ∷ (path ++ write_pack_start 0))
          ++ (frames ++ (frame_pack_end ∷ frame_end ∷ totals t.stats)),
      t.stats,
    )
  send_directory fuel profile checksum none (directory entries) = err source_has_no_name
  send_directory fuel profile checksum name unreadable = err io_error
  send_directory fuel profile checksum name _ = err source_not_directory
