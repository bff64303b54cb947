-- ===== src/Directory/Ack.antt =====
-- `write_directory_ack` and `read_directory_ack` of core/src/directory.rs. The result of a receiver
-- is its statistics or the text of its error.
use quiczilla.Prelude.{
  ◌≤◌, ◌<◌, ◌^◌, ◌≡◌, ap, ◌∙◌, ◌∷◌, ◌++◌, Result, ok, err, ◌>>=◌, ◌>>◌, bail_if, ltb, ◌==◌,
  if◌then◌else◌, length, take, length-take, take-min, min, arith,
}
use quiczilla.Prelude.Bytes.{Bytes, be_bytes}
use quiczilla.Directory.{
  ack_ok, ack_error, max_ack_error_bytes, DirectoryTransferStats, DirectoryError, ack_oversized,
  ack_invalid, rejected,
}
use quiczilla.Directory.Wire.{read_u8, read_bytes, read_uint, read_u32, write_u32}
use quiczilla.Directory.Wire.RoundTrip.{
  read_bytes-end, read_uint-be_bytes, read_uint-end, read_u32-write_u32,
}

unfoldable pub write_directory_ack : Result Bytes DirectoryTransferStats → Bytes
write_directory_ack (ok stats) = ack_ok ∷ (be_bytes 8 stats.files ++ be_bytes 8 stats.bytes)
write_directory_ack (err message) =
    let bytes = take (min (length message) max_ack_error_bytes) message in
    ack_error ∷ (write_u32 (length bytes) ++ bytes)

read_ok : Bytes → Result DirectoryError DirectoryTransferStats
read_ok s = do
  (files, s) ← read_uint 8 s
  (bytes, s) ← read_uint 8 s
  ok (record { files = files; directories = 0; bytes = bytes; packs = 0 })

-- With the standard library's `String::from_utf8_lossy`.
read_error :
    (from_utf8_lossy : Bytes → Bytes) → Bytes → Result DirectoryError DirectoryTransferStats
read_error from_utf8_lossy s = do
  (len, s) ← read_u32 s
  bail_if (ltb max_ack_error_bytes len) ack_oversized
  (bytes, s) ← read_bytes len s
  err (rejected (from_utf8_lossy bytes))

unfoldable pub read_directory_ack :
    (from_utf8_lossy : Bytes → Bytes) → Bytes → Result DirectoryError DirectoryTransferStats
unfolding read_ok read_error
read_directory_ack from_utf8_lossy s = do
  (kind, s) ← read_u8 s
  if kind == ack_ok
      then read_ok s
      else if kind == ack_error
      then read_error from_utf8_lossy s
      else err ack_invalid

-- What the sender learns of a receiver's result.
abbrev pub reported :
    (from_utf8_lossy : Bytes → Bytes)
    → Result Bytes DirectoryTransferStats
    → Result DirectoryError DirectoryTransferStats
reported from_utf8_lossy (ok stats) =
    ok (record { files = stats.files; directories = 0; bytes = stats.bytes; packs = 0 })
reported from_utf8_lossy (err message) =
    err (rejected (from_utf8_lossy (take max_ack_error_bytes message)))

abbrev pub HasU64Totals : Result Bytes DirectoryTransferStats → Type 0
HasU64Totals (ok stats) = (stats.files < 2 ^ 64) × (stats.bytes < 2 ^ 64)
HasU64Totals (err message) = Unit

read_ok-be_bytes :
    (lossy : Bytes → Bytes) (stats : DirectoryTransferStats)
    → stats.files < 2 ^ 64
    → stats.bytes < 2 ^ 64
    → read_ok (be_bytes 8 stats.files ++ be_bytes 8 stats.bytes) ≡ reported lossy (ok stats)
unfolding read_ok
read_ok-be_bytes lossy stats f b =
    rw (read_uint-be_bytes 8 stats.files (be_bytes 8 stats.bytes) f)
      (rw (read_uint-end 8 stats.bytes b))

read_error-write_u32 :
    (lossy : Bytes → Bytes) (bytes : Bytes)
    → length bytes ≤ max_ack_error_bytes
    → read_error lossy (write_u32 (length bytes) ++ bytes) ≡ err (rejected (lossy bytes))
unfolding read_error
read_error-write_u32 lossy bytes h =
    rw (read_u32-write_u32 (length bytes) bytes (omega arith))
      (ground (arith, read_bytes-end bytes))

-- The acknowledgement of every result is read back: the numbers of files and bytes of a transfer
-- that succeeded, where they fit in 64 bits, and of an error the text that
-- `from_utf8_lossy` makes of the first 4 KiB of its bytes, which may end inside a character.
pub read_directory_ack-write :
    (from_utf8_lossy : Bytes → Bytes) (result : Result Bytes DirectoryTransferStats)
    → HasU64Totals result
    → read_directory_ack from_utf8_lossy (write_directory_ack result)
      ≡ reported from_utf8_lossy result
unfolding read_directory_ack write_directory_ack read_u8
read_directory_ack-write lossy (ok stats) h = read_ok-be_bytes lossy stats h.0 h.1
read_directory_ack-write lossy (err message) h =
    read_error-write_u32 lossy _
      (omega (arith, length-take (min (length message) max_ack_error_bytes) message))
    ∙ ap (λ t. err (rejected (lossy t))) (take-min max_ack_error_bytes message)
