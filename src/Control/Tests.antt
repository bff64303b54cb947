-- ===== src/Control/Tests.antt =====
-- Concrete messages and streams, and the theorems of the control stream at them.
use mathlib.Core.Option
use quiczilla.Prelude.{
  ℕ, ◌≡◌, refl, Bool, true, false, Option, none, some, [], ◌∷◌, ◌++◌, ◌⊎◌, ◌==◌, length, arith,
}
use quiczilla.Prelude.Bytes.{Bytes, codes, read_exact, read_exact-append, read_exact-length}
use quiczilla.Prelude.Utf8.{is_utf8}
use quiczilla.Control.Decimal.{parse_u64}
use quiczilla.Control.Text.{
  ControlMessage, metadata, file_sent, MetadataPayload, ResumeReadyPayload, Json, serialize, parse,
  IsWellFormed, HasPayload,
}
use quiczilla.Control.Text.Parsing.{parse-serialize, parse-Accepts}
use quiczilla.Control.Frames.{read_control_message, send_messages, read_messages}
use quiczilla.Control.Frames.Branches.{Reads, read_control_message-Reads}
use quiczilla.Control.Frames.Reading.{IsSendable, read_messages-send_messages}

abbrev bit : Bool → ℕ
bit true = 1
bit false = 0

-- A length, then that many bytes.
abbrev put_text : Bytes → Bytes
put_text s = length s ∷ s

take_text : Bytes → Option (Bytes × Bytes)
take_text [] = none
take_text (n ∷ s) = read_exact n s

take_text-put_text : (s rest : Bytes) → take_text (put_text s ++ rest) ≡ some (s, rest)
unfolding take_text
take_text-put_text s rest = read_exact-append (length s) s rest refl

-- A stand-in for serde_json that meets its laws.
toy_write_metadata : MetadataPayload → Bytes
toy_write_metadata p =
    put_text p.file_name ++ (put_text p.file_size ++ (bit p.resume ∷ bit p.checksum ∷ []))

toy_flags : Bytes → Option (Bytes × Bytes) → Option MetadataPayload
toy_flags name (some (size, r ∷ c ∷ [])) =
    some (record { file_name = name; file_size = size; resume = r == 1; checksum = c == 1 })
toy_flags name _ = none

toy_size : Option (Bytes × Bytes) → Option MetadataPayload
toy_size none = none
toy_size (some (name, rest)) = toy_flags name (take_text rest)

toy_read_metadata : Bytes → Option MetadataPayload
toy_read_metadata s = toy_size (take_text s)

toy_flags-bits :
    (name size : Bytes) (r c : Bool)
    → toy_flags name (some (size, bit r ∷ bit c ∷ []))
      ≡ some (record { file_name = name; file_size = size; resume = r; checksum = c })
unfolding toy_flags
toy_flags-bits name size true true = refl
toy_flags-bits name size true false = refl
toy_flags-bits name size false true = refl
toy_flags-bits name size false false = refl

toy_metadata_law : (p : MetadataPayload) → toy_read_metadata (toy_write_metadata p) ≡ some p
unfolding toy_read_metadata toy_write_metadata toy_size
toy_metadata_law p =
    rw (take_text-put_text p.file_name _, toy_size)
      (rw (take_text-put_text p.file_size _)
        (toy_flags-bits p.file_name p.file_size p.resume p.checksum))

toy_write_resume_ready : ResumeReadyPayload → Bytes
toy_write_resume_ready p =
    put_text p.offset ++ elim p.prefix_hash [ none ↦ [] | some h ↦ put_text h ]

toy_hash : Bytes → Bytes → Option ResumeReadyPayload
toy_hash offset [] = some (record { offset = offset; prefix_hash = none })
toy_hash offset (n ∷ s) =
    Option.map (λ r. record { offset = offset; prefix_hash = some r.0 }) (read_exact n s)

toy_read_resume_ready : Bytes → Option ResumeReadyPayload
toy_read_resume_ready s = elim (take_text s) [
  | none ↦ none
  | some (offset, rest) ↦ toy_hash offset rest
]

toy_hash-put :
    (offset : Bytes) (h : Option Bytes)
    → toy_hash offset (elim h [ none ↦ [] | some h ↦ put_text h ])
      ≡ some (record { offset = offset; prefix_hash = h })
unfolding toy_hash
toy_hash-put offset none = refl
toy_hash-put offset (some h) = rw (read_exact-length h)

toy_resume_ready_law :
    (p : ResumeReadyPayload) → toy_read_resume_ready (toy_write_resume_ready p) ≡ some p
unfolding toy_read_resume_ready toy_write_resume_ready
toy_resume_ready_law p =
    rw (take_text-put_text p.offset _, toy_read_resume_ready) (toy_hash-put p.offset p.prefix_hash)

abbrev toy_json : Json
toy_json = record {
  write_metadata = toy_write_metadata;
  read_metadata = toy_read_metadata;
  write_resume_ready = toy_write_resume_ready;
  read_resume_ready = toy_read_resume_ready;
  metadata_law = toy_metadata_law;
  resume_ready_law = toy_resume_ready_law;
}

abbrev offer : ControlMessage
offer = metadata (codes "test.zip") 1048576 true true

-- The largest u64 is read; one more is not, and neither is a bare sign.
parse_u64_runs :
    (parse_u64 (codes "18446744073709551615") ≡ some 18446744073709551615)
    × (parse_u64 (codes "18446744073709551616") ≡ none)
    × (parse_u64 (codes "+7") ≡ some 7)
    × (parse_u64 (codes "+") ≡ none)
    × (parse_u64 (codes "-1") ≡ none)
unfolding parse_u64
parse_u64_runs = (refl, refl, refl, refl, refl)

parse_file_sent :
    parse toy_json (codes "FILE_SENT:abc123hash") ≡ some (file_sent (codes "abc123hash"))
unfolding parse
parse_file_sent = refl

parse_unknown : parse toy_json (codes "READY ") ≡ none
unfolding parse
parse_unknown = refl

parse-serialize_example : parse toy_json (serialize toy_json offer) ≡ some offer
parse-serialize_example = parse-serialize toy_json offer (omega arith)

parse-Accepts_example :
    IsWellFormed (file_sent (codes "abc123hash"))
    × (HasPayload (file_sent (codes "abc123hash"))
        ⊎ (codes "FILE_SENT:abc123hash" ≡ serialize toy_json (file_sent (codes "abc123hash"))))
parse-Accepts_example =
    parse-Accepts toy_json (codes "FILE_SENT:abc123hash") (file_sent (codes "abc123hash"))
      parse_file_sent

pause-IsSendable : IsSendable (codes "PAUSE")
unfolding is_utf8
pause-IsSendable = record { short = omega arith; utf8 = refl }

nothing-IsSendable : IsSendable []
unfolding is_utf8
nothing-IsSendable = record { short = omega arith; utf8 = refl }

-- A length of 65537, which is over the limit.
abbrev long_header : Bytes
long_header = 0 ∷ 1 ∷ 0 ∷ 1 ∷ []

read_control_message-Reads_example : Reads long_header (read_control_message long_header)
read_control_message-Reads_example = read_control_message-Reads long_header

read_messages-send_messages_example :
    read_messages 3 (send_messages (codes "PAUSE" ∷ [] ∷ [])) ≡ some (codes "PAUSE" ∷ [] ∷ [], none)
read_messages-send_messages_example =
    read_messages-send_messages (codes "PAUSE" ∷ [] ∷ []) 3
      (pause-IsSendable, (nothing-IsSendable, tt)) (omega arith)
