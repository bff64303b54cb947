-- ===== src/Directory/Receive/Local.antt =====
-- The errors of a path and of the disk, and the way into the directory of a file, where no link stands.
use quiczilla.Prelude.{
  ◌≡◌, refl, Bool, true, false, some, List, [], ◌∷◌, ◌++◌, Result, ok, err, Option-cases,
  Result-cases, inl, inr, if_holds, bail_if, any, ◌>>◌,
}
use quiczilla.Prelude.Bytes.{Bytes}
use quiczilla.Paths.{
  PathBuf, Component, normal, root_dir, cur_dir, parent_dir, segments, components, eq_path,
}
use quiczilla.Directory.{
  DirectoryError, no_name, io_error, destination_symlink, component_not_directory, invalid_path,
  relative_segment, not_relative, unsafe_component,
}
use quiczilla.Directory.Names.{
  is_invalid, is_relative, no_relative_path, is_unsafe, validate_relative_path,
}
use quiczilla.Directory.Action.{with_rest}
use quiczilla.Directory.Disk.{Disk, file, directory, symlink, put, make_directories}
use quiczilla.Directory.Receive.{is_symlink, receive_parent, create_safe_directory}

abbrev pub HasNoLinks : Disk → Type 0
HasNoLinks disk = (path : PathBuf) → is_symlink (disk path) ≡ false

-- An error of a path or of the disk, and not of what came over the stream.
abbrev pub IsLocal : DirectoryError → Type 0
IsLocal invalid_path = Unit
IsLocal relative_segment = Unit
IsLocal not_relative = Unit
IsLocal unsafe_component = Unit
IsLocal destination_symlink = Unit
IsLocal component_not_directory = Unit
IsLocal no_name = Unit
IsLocal io_error = Unit
IsLocal e = ⊥

-- Going into the directory of a file.
abbrev IsChecked : Result DirectoryError (Unit {0}) → Type 0
IsChecked (ok a) = Unit
IsChecked (err e) = IsLocal e

checks-IsChecked :
    (a b c d : Bool)
    → IsChecked (do
      bail_if a invalid_path
      bail_if b relative_segment
      bail_if c not_relative
      bail_if d unsafe_component
      ok tt)
checks-IsChecked true b c d = tt
checks-IsChecked false true c d = tt
checks-IsChecked false false true d = tt
checks-IsChecked false false false true = tt
checks-IsChecked false false false false = tt

validate-IsChecked : (value : Bytes) → IsChecked (validate_relative_path value)
unfolding validate_relative_path
validate-IsChecked value =
    checks-IsChecked (is_invalid value) (any is_relative (segments value))
      (no_relative_path (components value)) (any is_unsafe (components value))

put-HasNoLinks :
    (disk : Disk) (path : PathBuf) → HasNoLinks disk → HasNoLinks (put disk path (some directory))
unfolding put
put-HasNoLinks disk path h q =
    if_holds (λ o. is_symlink o ≡ false) (eq_path path q) _ _ (λ e. refl) (λ e. h q)

abbrev IsMade : Disk × Result DirectoryError PathBuf → Type 0
IsMade (disk, ok path) = HasNoLinks disk
IsMade (disk, err e) = IsLocal e

make_directories-IsMade :
    (current : PathBuf) (p : List Component) (disk : Disk)
    → HasNoLinks disk
    → IsMade (make_directories current p disk)
unfolding make_directories
make_directories-IsMade current [] disk h = h
make_directories-IsMade current (normal name ∷ p) disk h =
    let path = current ++ (normal name ∷ []) in
    elim (Option-cases (disk path)) [
      | inl e ↦
          rw (e, make_directories)
            (make_directories-IsMade path p (put disk path (some directory))
              (put-HasNoLinks disk path h))
      | inr (directory, e) ↦ rw (e, make_directories) (make_directories-IsMade path p disk h)
      | inr (symlink target, e) ↦ rw (e, make_directories) tt
      | inr (file bytes, e) ↦ rw (e, make_directories) tt
    ]
make_directories-IsMade current (root_dir ∷ p) disk h = make_directories-IsMade current p disk h
make_directories-IsMade current (cur_dir ∷ p) disk h = make_directories-IsMade current p disk h
make_directories-IsMade current (parent_dir ∷ p) disk h = make_directories-IsMade current p disk h

abbrev pub IsEntered : Bytes → Disk × Result DirectoryError (PathBuf × Bytes) → Type 0
IsEntered s (disk, ok (path, s')) = HasNoLinks disk × (s' ≡ s)
IsEntered s (disk, err e) = IsLocal e

entered :
    (s : Bytes) (r : Disk × Result DirectoryError PathBuf)
    → IsMade r
    → IsEntered s (r.0, with_rest s r.1)
entered s (disk, ok path) h = (h, refl)
entered s (disk, err e) h = h

pub receive_parent-IsEntered :
    (root : PathBuf) (relative : Bytes) (disk : Disk) (s : Bytes)
    → HasNoLinks disk
    → IsEntered s (receive_parent root relative disk s)
unfolding create_safe_directory
receive_parent-IsEntered root [] disk s h = (h, refl)
receive_parent-IsEntered root (c ∷ relative) disk s h =
    elim (Result-cases (validate_relative_path (c ∷ relative))) [
      | inl (a, e) ↦ rw e (
          entered s (make_directories root (components (c ∷ relative)) disk)
            (make_directories-IsMade root (components (c ∷ relative)) disk h))
      | inr (x, e) ↦ rw e (rw e at (validate-IsChecked (c ∷ relative)))
    ]
