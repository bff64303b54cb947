-- ===== src/Directory/Names.antt =====
-- `validate_relative_path` and `safe_child` of core/src/directory.rs.
pub mod Valid
use quiczilla.Prelude.{
  ℕ, Bool, true, false, ◌||◌, ◌&&◌, List, [], ◌∷◌, ◌++◌, Result, ok, err, ◌>>=◌, ◌>>◌, bail_if, ltb,
  leb, ◌==◌, if◌then◌else◌, length, any,
}
use quiczilla.Prelude.Bytes.{Bytes, codes, eq_bytes}
use quiczilla.Paths.{
  Component, root_dir, cur_dir, parent_dir, normal, PathBuf, segments, components,
}
use quiczilla.Directory.{
  max_path_bytes, DirectoryError, invalid_path, relative_segment, not_relative, unsafe_component,
}

-- `name.chars().any(char::is_control)` on UTF-8: U+0080 to U+009F are the byte 0xC2 and the next.
unfoldable pub has_control : Bytes → Bool
has_control [] = false
has_control (b ∷ []) = ltb b 0x20 || (b == 0x7F)
has_control (b ∷ c ∷ s) =
    let rest = has_control (c ∷ s) in
    ltb b 0x20 || ((b == 0x7F) || (((b == 0xC2) && (leb 0x80 c && ltb c 0xA0)) || rest))

abbrev pub starts_with : ℕ → Bytes → Bool
starts_with c [] = false
starts_with c (d ∷ s) = c == d

-- `segment.is_empty() || segment == "." || segment == ".."`
abbrev pub is_relative : Bytes → Bool
is_relative segment =
    eq_bytes segment [] || (eq_bytes segment (codes ".") || eq_bytes segment (codes ".."))

-- `path.is_absolute() || path.has_root() || path.components().count() == 0`
abbrev pub no_relative_path : PathBuf → Bool
no_relative_path [] = true
no_relative_path (root_dir ∷ p) = true
no_relative_path (_ ∷ p) = false

abbrev pub is_unsafe : Component → Bool
is_unsafe (normal name) =
    eq_bytes name (codes ".") || (eq_bytes name (codes "..") || has_control name)
is_unsafe _ = true

abbrev pub has_bad_byte : Bytes → Bool
has_bad_byte value = any (λ c. c == 0) value || any (λ c. c == b'\\') value

abbrev pub is_invalid : Bytes → Bool
is_invalid value =
    (length value == 0)
    || (ltb max_path_bytes (length value)
        || (has_bad_byte value || (starts_with b'~' value || starts_with b'$' value)))

unfoldable pub validate_relative_path : Bytes → Result DirectoryError (Unit {0})
validate_relative_path value = do
  bail_if (is_invalid value) invalid_path
  bail_if (any is_relative (segments value)) relative_segment
  bail_if (no_relative_path (components value)) not_relative
  bail_if (any is_unsafe (components value)) unsafe_component
  ok tt

-- The loop over the components that pushes the names.
unfoldable pub push_names : PathBuf → List Component → PathBuf
push_names output [] = output
push_names output (normal name ∷ p) = push_names (output ++ (normal name ∷ [])) p
push_names output (_ ∷ p) = push_names output p

unfoldable pub safe_child : PathBuf → Bytes → Result DirectoryError PathBuf
safe_child root relative = do
  validate_relative_path relative
  ok (push_names root (components relative))
