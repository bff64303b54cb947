-- ===== src/Directory/Receive/Delivery.antt =====
-- A file from the sender to the receiver of core/src/directory.rs.
use quiczilla.Prelude.{
  ◌⊎◌, ℕ, ◌-◌, ◌<◌, ◌^◌, ◌≡◌, refl, sym, ap, ◌∙◌, Bool, true, false, [], ◌∷◌, ◌++◌, ok, arith,
  length, take, length-take, Result-cases, Bool-cases, inl, inr, if◌then◌else◌, ltb, ok_inj,
}
use mathlib.Core.Path.{subst}
use mathlib.Core.List.{append_assoc}
use quiczilla.Prelude.Bytes.{Bytes, be_bytes}
use quiczilla.Prelude.Utf8.{is_utf8}
use quiczilla.Paths.{PathBuf}
use quiczilla.Directory.{DirectoryTransferStats, frame_file, frame_pack_end}
use quiczilla.Directory.Names.{safe_child}
use quiczilla.Directory.Wire.{write_path, write_pack_start}
use quiczilla.Directory.Copy.{copy_lem}
use quiczilla.Directory.Disk.{Disk}
use quiczilla.Directory.Send.{new_hasher, digest, of_bool, send_file, Tally, starts_pack, next_pack}
use quiczilla.Directory.Receive.{receive_file, add_file}
use quiczilla.Directory.Receive.Local.{HasNoLinks}
use quiczilla.Directory.Receive.Content.{IsPlaced, hashed, update-new_hasher, receive_file-IsPlaced}

-- What stands before a frame: nothing, or the end of a pack and the start of the next.
abbrev pub IsMark : Bytes → Type 0
IsMark mark = (mark ≡ []) ⊎ ((pack : ℕ) × (mark ≡ frame_pack_end ∷ write_pack_start pack))

pack_bounds :
    (b : Bool) (pack : ℕ) → IsMark (if b then frame_pack_end ∷ write_pack_start pack else [])
pack_bounds true pack = inr (pack, refl)
pack_bounds false pack = inl refl

body_assoc :
    (path size content tail rest : Bytes) (flag : ℕ)
    → (path ++ (size ++ (flag ∷ (content ++ tail)))) ++ rest
      ≡ path ++ (size ++ (flag ∷ (content ++ (tail ++ rest))))
body_assoc path size content tail rest flag =
    append_assoc path _ rest
    ∙ ap (λ z. path ++ z)
        (append_assoc size (flag ∷ (content ++ tail)) rest
          ∙ ap (λ z. size ++ (flag ∷ z)) (append_assoc content tail rest))

module _ (sha256 : Bytes → Bytes) (read_size : ℕ → ℕ) where
  -- The bytes of a frame behind its kind.
  abbrev body : (path : Bytes) (c : Bool) (content : Bytes) → Bytes
  body path c content =
      path
      ++ (be_bytes 8 (length content)
          ++ (of_bool c ∷ (content ++ digest sha256 read_size (hashed c content))))

  send_file-body :
      (target : ℕ) (c : Bool) (t t' : Tally) (relative : Bytes) (len : ℕ) (contents wire : Bytes)
      → send_file sha256 read_size target c t relative len contents ≡ ok (wire, t')
      → (mark path : Bytes) × IsMark mark
        × (write_path relative ≡ ok path)
        × (length (take len contents) ≡ len)
        × (wire ≡ mark ++ (frame_file ∷ body path c (take len contents)))
  unfolding send_file
  send_file-body target c t t' relative len contents wire e =
      let pack = starts_pack target len t in
      let t1 = if pack then next_pack t else t in
      let mark = if pack then frame_pack_end ∷ write_pack_start t1.pack_number else [] in
      let content = take len contents in
      let fed = copy_lem read_size len (new_hasher c) len contents (omega arith) in
      elim (Result-cases (write_path relative)) [
        | inr (x, w) ↦ absurd (cc (rw (w, send_file) at e))
        | inl (path, w) ↦ elim (Bool-cases (ltb 0 (len - length contents))) [
          | inl changed ↦ absurd (cc (rw changed at (rw fed at (rw (w, send_file) at e))))
          | inr whole ↦
              let full : length content ≡ len = ground (arith, whole, length-take len contents) in
              let sent = ok_inj (rw whole at (rw fed at (rw (w, send_file) at e))) in
              (
                mark,
                path,
                pack_bounds pack t1.pack_number,
                w,
                full,
                sym (ap (λ (r : Bytes × Tally). r.0) sent)
                    ∙ ap
                        (λ z.
                          mark
                          ++ (frame_file
                              ∷ (path
                                  ++ (be_bytes 8 len
                                      ++ (of_bool c ∷ (content ++ digest sha256 read_size z))))))
                        (update-new_hasher c content)
                    ∙ ap
                        (λ n.
                          mark
                          ++ (frame_file
                              ∷ (path
                                  ++ (be_bytes 8 n
                                      ++ (of_bool c
                                          ∷ (content
                                              ++ digest sha256 read_size (hashed c content)))))))
                        (sym full),
              )
        ]
      ]

  -- A file that the sender sends, with checksums or without, however the two sides' reads divide it:
  -- what it writes is the frame of a file, perhaps with the end and the start of a pack before it. A
  -- receiver that reads the frame behind its kind, on a disk without links, from a stream that goes on
  -- as it likes, has the first `len` bytes of the contents at the destination, has counted the file
  -- and its size, and has left the rest of the stream; or it stops with an error of the path or of
  -- the disk, but not for the checksum or the end of the stream. The path is UTF-8, the size fits in 64
  -- bits, and a digest has 32 bytes.
  pub receive_file-send_file :
      (read_size' : ℕ → ℕ) (target : ℕ) (c : Bool) (t t' : Tally) (relative : Bytes) (len : ℕ)
      (contents wire rest : Bytes) (root destination : PathBuf) (stats : DirectoryTransferStats)
      (disk : Disk)
      → ((x : Bytes) → length (sha256 x) ≡ 32)
      → is_utf8 relative ≡ true
      → len < 2 ^ 64
      → HasNoLinks disk
      → safe_child root relative ≡ ok destination
      → send_file sha256 read_size target c t relative len contents ≡ ok (wire, t')
      → (mark frame : Bytes) × IsMark mark
        × (wire ≡ mark ++ (frame_file ∷ frame))
        × IsPlaced destination
            (take len contents)
            (add_file len stats)
            rest
            (receive_file sha256 read_size' root stats disk (frame ++ rest))
  receive_file-send_file read_size' target c t t' relative len contents wire rest root destination
        stats disk long utf8 fits plain child e =
      let (mark, path, is_mark, w, full, sent) =
        send_file-body target c t t' relative len contents wire e in
      let content = take len contents in
      let same =
        body_assoc path (be_bytes 8 (length content)) content
          (digest sha256 read_size (hashed c content)) rest (of_bool c) in
      let got =
        receive_file-IsPlaced sha256 read_size' root destination relative path c stats disk content
          rest long plain child utf8 w (omega (arith, full, fits)) in
      (
        mark,
        body path c content,
        is_mark,
        sent,
        subst
            (λ n.
              IsPlaced destination content (add_file n stats) rest
                (receive_file sha256 read_size' root stats disk (body path c content ++ rest)))
            full
            (subst
              (λ z.
                IsPlaced destination content (add_file (length content) stats) rest
                  (receive_file sha256 read_size' root stats disk z))
              (sym same) got),
      )
