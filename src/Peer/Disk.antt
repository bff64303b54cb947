-- ===== src/Peer/Disk.antt =====
-- The files that the coordination loop looks at and changes: `exists`, `metadata`, `set_len`,
-- `File::create`, and the fingerprint of types.rs. SHA-256 in hexadecimal is the argument `sha256_hex`.
use quiczilla.Prelude.{
  ℕ, Bool, true, false, Option, none, some, [], if◌then◌else◌, length, take, drop, replicate, ◌∷◌,
  ◌++◌, ◌-◌, ◌+◌,
}
use quiczilla.Prelude.Bytes.{Bytes}
use quiczilla.Paths.{PathBuf, normal, eq_path}

-- The length of a directory is what the file system says.
pub data Node : Type 0 where
  file : Bytes → Node
  directory : ℕ → Node

abbrev pub Disk : Type 0
Disk = PathBuf → Option Node

-- `path.exists()`
abbrev pub node_exists : Option Node → Bool
node_exists none = false
node_exists (some n) = true

-- `std::fs::metadata(path).map(|m| m.len()).unwrap_or(0)`
abbrev pub node_len : Option Node → ℕ
node_len none = 0
node_len (some (file bytes)) = length bytes
node_len (some (directory n)) = n

-- A file is cut, or filled up with zeros.
abbrev pub resize : ℕ → Bytes → Bytes
resize n bytes = take n bytes ++ replicate (n - length bytes) 0

-- `set_len` on a file opened for writing; a directory cannot be opened so.
abbrev pub set_len_node : ℕ → Option Node → Option Node
set_len_node n none = none
set_len_node n (some (file bytes)) = some (file (resize n bytes))
set_len_node n (some (directory k)) = some (directory k)

abbrev pub update : Disk → PathBuf → Option Node → Disk
update disk path node q = if eq_path path q then node else disk q

unfoldable pub set_len : Disk → PathBuf → ℕ → Disk
set_len disk path n = update disk path (set_len_node n (disk path))

-- `File::create(path)`, whose failure is ignored.
abbrev create_node : Option Node → Option Node
create_node (some (directory k)) = some (directory k)
create_node _ = some (file [])

unfoldable pub create : Disk → PathBuf → Disk
create disk path = update disk path (create_node (disk path))

abbrev hash_node : (Bytes → Bytes) → ℕ → Option Node → Option Bytes
hash_node sha256_hex n (some (file bytes)) = some (sha256_hex (take n bytes))
hash_node sha256_hex n _ = none

-- `create_dir_all(path)` from the prefix on that is looked at: what is there must be a directory. The
-- file system chooses the length of a new one.
unfoldable pub create_dir_all : (dir_len : ℕ) → PathBuf → PathBuf → Disk → Disk × Bool
create_dir_all dir_len prefix [] disk = (disk, true)
create_dir_all dir_len prefix (normal name ∷ p) disk =
    let path = prefix ++ (normal name ∷ []) in
    let made = create_dir_all dir_len path p (update disk path (some (directory dir_len))) in
    let found = create_dir_all dir_len path p disk in
    elim (disk path) [
      | none ↦ made
      | some (directory n) ↦ found
      | some (file bytes) ↦ (disk, false)
    ]
create_dir_all dir_len prefix (c ∷ p) disk = create_dir_all dir_len (prefix ++ (c ∷ [])) p disk

-- `rename(from, to)`, where a file does not replace a directory.
abbrev pub move : PathBuf → PathBuf → Disk → Option Node → Disk × Bool
move from to disk (some (directory n)) = (disk, false)
move from to disk _ = (update (update disk from none) to (disk from), true)

unfoldable pub rename : PathBuf → PathBuf → Disk → Disk × Bool
rename from to disk = move from to disk (disk to)

-- A file after `written` was written at `position`; what lies beyond stays. Writing nothing does not
-- fill a file up.
unfoldable pub write_at : (position : ℕ) → (written : Bytes) → Bytes → Bytes
write_at position [] bytes = bytes
write_at position (b ∷ written) bytes =
    resize position bytes ++ ((b ∷ written) ++ drop (position + length (b ∷ written)) bytes)

-- `compute_prefix_hash(path, max_bytes).await.ok()`, where one read of a file fills the buffer or
-- reaches the end.
unfoldable pub compute_prefix_hash : (Bytes → Bytes) → Disk → PathBuf → ℕ → Option Bytes
compute_prefix_hash sha256_hex disk path max_bytes = hash_node sha256_hex max_bytes (disk path)
