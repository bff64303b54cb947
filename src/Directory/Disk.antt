-- ===== src/Directory/Disk.antt =====
-- The file system as receive_directory of core/src/directory.rs uses it: at each path what
-- `symlink_metadata` finds there. A call fails here only for what stands on the disk.
use quiczilla.Prelude.{
  ℕ, zero, suc, Bool, true, false, Option, none, some, List, [], ◌∷◌, ◌++◌, Result, ok, err,
  if◌then◌else◌,
}
use quiczilla.Prelude.Bytes.{Bytes}
use quiczilla.Paths.{Component, normal, PathBuf, eq_path}
use quiczilla.Directory.{
  DirectoryError, destination_symlink, component_not_directory, root_not_directory, io_error,
}

-- The target of a link is given from the root.
pub data Node : Type 0 where
  file : Bytes → Node
  directory : Node
  symlink : (target : PathBuf) → Node

abbrev pub Disk : Type 0
Disk = PathBuf → Option Node

unfoldable pub put : Disk → PathBuf → Option Node → Disk
put disk path node q = if eq_path path q then node else disk q

-- Following links, at most as many as Linux follows.
unfoldable pub resolve : ℕ → Disk → PathBuf → Option PathBuf
resolve zero disk path = none
resolve (suc n) disk path = elim (disk path) [
  | some (symlink target) ↦ resolve n disk target
  | _ ↦ some path
]

abbrev pub max_links : ℕ
max_links = 40

abbrev pub is_dir : Disk → Option PathBuf → Bool
is_dir disk none = false
is_dir disk (some path) = elim (disk path) [ some directory ↦ true | _ ↦ false ]

-- The loop of create_safe_directory over the components of a relative path.
unfoldable pub make_directories :
    PathBuf → List Component → Disk → Disk × Result DirectoryError PathBuf
make_directories current [] disk = (disk, ok current)
make_directories current (normal name ∷ p) disk =
    let path = current ++ (normal name ∷ []) in
    let made = make_directories path p (put disk path (some directory)) in
    let found = make_directories path p disk in
    elim (disk path) [
      | none ↦ made
      | some directory ↦ found
      | some (symlink target) ↦ (disk, err destination_symlink)
      | some (file bytes) ↦ (disk, err component_not_directory)
    ]
make_directories current (_ ∷ p) disk = make_directories current p disk

-- `create_dir_all`, from the prefix that is there on.
unfoldable pub create_dir_all : PathBuf → PathBuf → Disk → Disk × Result DirectoryError (Unit {0})
create_dir_all prefix [] disk = (disk, ok tt)
create_dir_all prefix (normal name ∷ p) disk =
    let path = prefix ++ (normal name ∷ []) in
    let made = create_dir_all path p (put disk path (some directory)) in
    let found = create_dir_all path p disk in
    elim (disk path) [
      | none ↦ made
      | some node ↦
          if is_dir disk (resolve max_links disk path) then found else (disk, err io_error)
    ]
create_dir_all prefix (c ∷ p) disk = create_dir_all (prefix ++ (c ∷ [])) p disk

-- The check of the root behind create_dir_all. Only what stands at `normal` names is looked up.
abbrev check_root :
    PathBuf → Disk × Result DirectoryError (Unit {0}) → Disk × Result DirectoryError PathBuf
check_root root (disk, err e) = (disk, err e)
check_root root (disk, ok _) = elim (disk root) [
  | some directory ↦ (disk, ok root)
  | _ ↦ (disk, err root_not_directory)
]

unfoldable pub create_root : PathBuf → Disk → Disk × Result DirectoryError PathBuf
create_root root disk = check_root root (create_dir_all [] root disk)

abbrev pub open_file : Disk → PathBuf → Option Node → Disk × Result DirectoryError PathBuf
open_file disk path (some directory) = (disk, err io_error)
open_file disk path _ = (put disk path (some (file [])), ok path)

abbrev pub open_resolved : Disk → Option PathBuf → Disk × Result DirectoryError PathBuf
open_resolved disk none = (disk, err io_error)
open_resolved disk (some path) = open_file disk path (disk path)

-- `File::create(path)`: the file that is opened, which is where a link leads.
unfoldable pub create_file : PathBuf → Disk → Disk × Result DirectoryError PathBuf
create_file path disk = open_resolved disk (resolve max_links disk path)

-- `rename(from, to)`, where a file does not replace a directory.
abbrev pub move : PathBuf → PathBuf → Disk → Option Node → Disk × Result DirectoryError (Unit {0})
move from to disk (some directory) = (disk, err io_error)
move from to disk _ = (put (put disk from none) to (disk from), ok tt)

unfoldable pub rename : PathBuf → PathBuf → Disk → Disk × Result DirectoryError (Unit {0})
rename from to disk = move from to disk (disk to)
