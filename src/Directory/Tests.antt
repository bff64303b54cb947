-- ===== src/Directory/Tests.antt =====
-- A small tree on the wire, and the theorems of the directory transfer at it.
use quiczilla.Prelude.{
  ◌≡◌, ◌≢◌, refl, ◌↔◌, true, none, some, [], ◌∷◌, ◌++◌, ok, err, map, arith, replicate, ℕ,
}
use quiczilla.Prelude.Bytes.{Bytes, codes, be_bytes}
use quiczilla.Prelude.Utf8.{is_utf8}
use quiczilla.Paths.{PathBuf, normal, root_dir, segments, split_slash, components, inner_components}
use quiczilla.Directory.{DirectoryTransferStats, out_of_fuel}
use quiczilla.Directory.Names.{validate_relative_path, safe_child, has_control, push_names}
use quiczilla.Directory.Names.Valid.{IsValid, validate_relative_path_iff, safe_child-below}
use quiczilla.Directory.Wire.{write_path, read_path, write_u32}
use quiczilla.Directory.Wire.RoundTrip.{read_path-write_path}
use quiczilla.Directory.Ack.{
  write_directory_ack, read_directory_ack, reported, read_directory_ack-write,
}
use quiczilla.Directory.Copy.{copy, copied, copy_lem}
use quiczilla.Directory.Send.{
  directory, file, symlink, Entries, done, entry, walk, start, count_file, send_file,
}
use quiczilla.Directory.Send.Walk.{send_items, stack_items, walk-items}
use quiczilla.Directory.Disk.{Disk}
use quiczilla.Directory.Receive.{receive_frames, receive_file, add_file}
use quiczilla.Directory.Receive.Content.{IsPlaced}
use quiczilla.Directory.Receive.Delivery.{IsMark, receive_file-send_file}
use quiczilla.Directory.Receive.Total.{receive_frames_total}
use quiczilla.Directory.Receive.Sound.{Keeps}
use quiczilla.Directory.Receive.Inside.{receive_frames-Keeps}

abbrev identity : Bytes → Bytes
identity bytes = bytes

-- Reads of three bytes.
abbrev three : ℕ → ℕ
three n = 3

validate_relative_path_iff_example :
    (validate_relative_path (codes "docs/a.txt") ≡ ok tt) ↔ IsValid (codes "docs/a.txt")
validate_relative_path_iff_example = validate_relative_path_iff (codes "docs/a.txt")

abbrev base : PathBuf
base = root_dir ∷ normal (codes "in") ∷ []

safe_child-below_example :
    IsValid (codes "a/b")
    × (base ++ (normal (codes "a") ∷ normal (codes "b") ∷ [])
        ≡ base ++ map normal (segments (codes "a/b")))
unfolding safe_child validate_relative_path split_slash components inner_components has_control
    push_names
safe_child-below_example =
    safe_child-below base (base ++ (normal (codes "a") ∷ normal (codes "b") ∷ [])) (codes "a/b")
      refl

read_path-write_path_example :
    read_path ((0 ∷ 0 ∷ 0 ∷ 1 ∷ 97 ∷ []) ++ (9 ∷ [])) ≡ ok (codes "a", 9 ∷ [])
unfolding is_utf8 write_path validate_relative_path split_slash components inner_components
    has_control write_u32 be_bytes
read_path-write_path_example =
    read_path-write_path (codes "a") (0 ∷ 0 ∷ 0 ∷ 1 ∷ 97 ∷ []) (9 ∷ []) refl refl

abbrev received : DirectoryTransferStats
received = record { files = 2; directories = 3; bytes = 70; packs = 1 }

-- The texts of these tests are UTF-8.
abbrev same_text : Bytes → Bytes
same_text bytes = bytes

read_directory_ack-write_example :
    read_directory_ack same_text (write_directory_ack (ok received))
    ≡ reported same_text (ok received)
read_directory_ack-write_example =
    read_directory_ack-write same_text (ok received) (omega arith, omega arith)

copy_lem_example :
    copy three 7 (some []) 7 (codes "contents") ≡ copied (some []) 7 (codes "contents")
copy_lem_example = copy_lem three 7 (some []) 7 (codes "contents") (omega arith)

abbrev tree : Entries
tree =
    entry (codes "docs") (directory (entry (codes "a.txt") (file 2 (codes "hi")) done))
      (entry (codes "link") symlink (entry (codes "b.bin") (file 0 []) done))

walk-items_example :
    walk identity three 16 true 8 (start identity three) (([], tree) ∷ [])
    ≡ send_items identity three 16 true (stack_items (([], tree) ∷ [])) (start identity three)
walk-items_example =
    walk-items identity three 16 true 8 (start identity three) (([], tree) ∷ []) (omega arith)

abbrev empty_disk : Disk
empty_disk path = none

-- A frame for a directory `a`, and then the stream ends inside a frame.
abbrev frames : Bytes
frames = 0x12 ∷ 0 ∷ 0 ∷ 0 ∷ 1 ∷ 97 ∷ 0x14 ∷ []

receive_frames-Keeps_example :
    Keeps base empty_disk (receive_frames identity three 9 base received empty_disk frames).0
receive_frames-Keeps_example =
    receive_frames-Keeps base identity three 9 received empty_disk frames λ p target e. cc e

receive_frames_total_example :
    (receive_frames identity three 9 base received empty_disk frames).1 ≢ err out_of_fuel
receive_frames_total_example =
    receive_frames_total identity three 9 base received empty_disk frames (omega arith)

-- A file of five bytes, with a digest, that is received where nothing stands.
abbrev zeros : Bytes → Bytes
zeros bytes = replicate 32 0

abbrev one_by_one : ℕ → ℕ
one_by_one n = 1

abbrev all_at_once : ℕ → ℕ
all_at_once n = n

abbrev hello_frame : Bytes
hello_frame =
    (0 ∷ 0 ∷ 0 ∷ 1 ∷ codes "a")
    ++ ((0 ∷ 0 ∷ 0 ∷ 0 ∷ 0 ∷ 0 ∷ 0 ∷ 5 ∷ []) ++ (1 ∷ (codes "hello" ++ replicate 32 0)))

abbrev no_stats : DirectoryTransferStats
no_stats = record { files = 0; directories = 1; bytes = 0; packs = 0 }

abbrev nothing_there : Disk
nothing_there path = none

receive_file-send_file_example :
    (mark frame : Bytes) × IsMark mark
    × (20 ∷ hello_frame ≡ mark ++ (20 ∷ frame))
    × IsPlaced
        (normal (codes "d") ∷ normal (codes "a") ∷ [])
        (codes "hello")
        (add_file 5 no_stats)
        (21 ∷ [])
        (receive_file zeros one_by_one
          (normal (codes "d") ∷ [])
          no_stats
          nothing_there
          (frame ++ (21 ∷ [])))
unfolding is_utf8 send_file write_path write_u32 be_bytes copy safe_child push_names
    validate_relative_path split_slash components inner_components has_control
receive_file-send_file_example =
    receive_file-send_file zeros all_at_once one_by_one 100 true (start zeros all_at_once)
      (count_file 5 (start zeros all_at_once)) (codes "a") 5 (codes "hello") (20 ∷ hello_frame)
      (21 ∷ []) (normal (codes "d") ∷ []) (normal (codes "d") ∷ normal (codes "a") ∷ []) no_stats
      nothing_there (λ x. refl) refl (omega arith) (λ path. refl) refl refl
