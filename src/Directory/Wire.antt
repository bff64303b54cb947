-- ===== src/Directory/Wire.antt =====
-- The integers and paths of core/src/directory.rs on the stream. A reader takes the bytes that have
-- still to arrive and returns what is left; a writer returns the bytes that it writes.
pub mod RoundTrip
use quiczilla.Prelude.{
  ℕ, ◌%◌, ◌^◌, ◌||◌, not, [], ◌∷◌, ◌++◌, Result, ok, err, ◌>>=◌, ◌>>◌, bail_if, ok_or, ltb, ◌==◌,
  length,
}
use quiczilla.Prelude.Bytes.{Bytes, be_bytes, from_be, read_exact}
use quiczilla.Prelude.Utf8.{is_utf8}
use quiczilla.Directory.{
  max_path_bytes, frame_pack_start, DirectoryError, unexpected_eof, path_length_invalid,
  path_not_utf8,
}
use quiczilla.Directory.Names.{validate_relative_path}

unfoldable pub read_u8 : Bytes → Result DirectoryError (ℕ × Bytes)
read_u8 [] = err unexpected_eof
read_u8 (b ∷ s) = ok (b, s)

-- `read_exact` into a buffer of `n` bytes.
unfoldable pub read_bytes : ℕ → Bytes → Result DirectoryError (Bytes × Bytes)
read_bytes n s = ok_or (read_exact n s) unexpected_eof

-- An integer of `w` bytes.
unfoldable pub read_uint : ℕ → Bytes → Result DirectoryError (ℕ × Bytes)
read_uint w s = do (bytes, rest) ← read_bytes w s; ok (from_be 0 bytes, rest)

unfoldable pub read_u32 : Bytes → Result DirectoryError (ℕ × Bytes)
read_u32 s = read_uint 4 s

unfoldable pub write_u32 : ℕ → Bytes
write_u32 value = be_bytes 4 value

unfoldable pub write_path : Bytes → Result DirectoryError Bytes
write_path value = do validate_relative_path value; ok (write_u32 (length value % 2 ^ 32) ++ value)

unfoldable pub read_path : Bytes → Result DirectoryError (Bytes × Bytes)
read_path s = do
  (len, s) ← read_u32 s
  bail_if ((len == 0) || ltb max_path_bytes len) path_length_invalid
  (value, s) ← read_bytes len s
  bail_if (not (is_utf8 value)) path_not_utf8
  validate_relative_path value
  ok (value, s)

unfoldable pub write_pack_start : ℕ → Bytes
write_pack_start pack = frame_pack_start ∷ be_bytes 8 pack
