-- ===== src/Control/Text.antt =====
-- `ControlMessage`, `serialize` and `parse` of core/src/types.rs.
pub mod Parsing
use mathlib.Core.Option
use quiczilla.Prelude.{ℕ, ◌≡◌, Bool, Option, none, some, ◌++◌, if◌then◌else◌}
use quiczilla.Prelude.Bytes.{Bytes, IsU64, codes, eq_bytes, strip_prefix}
use quiczilla.Control.Decimal.{to_string, parse_u64}

pub data ControlMessage : Type 0 where
  metadata : (file_name : Bytes) (file_size : ℕ) (resumable checksum : Bool) → ControlMessage
  ready : ControlMessage
  resume_ready : (offset : ℕ) (prefix_hash : Option Bytes) → ControlMessage
  resume_ok restart_from_zero pause resume : ControlMessage
  rejected_unwanted rejected_already_receiving rejected_already_sending : ControlMessage
  file_sent : (hash : Bytes) → ControlMessage
  received_file_ok received_file_failed : ControlMessage

pub record MetadataPayload : Type 0 where
  pub file_name : Bytes
  pub file_size : Bytes
  pub resume : Bool
  pub checksum : Bool

pub record ResumeReadyPayload : Type 0 where
  pub offset : Bytes
  pub prefix_hash : Option Bytes

-- serde_json on the two payloads. What `to_string` writes, `from_str` reads back.
pub record Json : Type 0 where
  pub write_metadata : MetadataPayload → Bytes
  pub read_metadata : Bytes → Option MetadataPayload
  pub write_resume_ready : ResumeReadyPayload → Bytes
  pub read_resume_ready : Bytes → Option ResumeReadyPayload
  pub metadata_law : (p : MetadataPayload) → read_metadata (write_metadata p) ≡ some p
  pub resume_ready_law :
      (p : ResumeReadyPayload) → read_resume_ready (write_resume_ready p) ≡ some p

module _ (json : Json) where
  pub serialize : ControlMessage → Bytes
  serialize (metadata file_name file_size resumable checksum) =
      codes "METADATA:"
      ++ json.write_metadata (record {
        file_name = file_name;
        file_size = to_string file_size;
        resume = resumable;
        checksum = checksum;
      })
  serialize ready = codes "READY"
  serialize (resume_ready offset prefix_hash) =
      codes "RESUME_READY:"
      ++ json.write_resume_ready (record { offset = to_string offset; prefix_hash = prefix_hash })
  serialize resume_ok = codes "RESUME_OK"
  serialize restart_from_zero = codes "RESTART_FROM_ZERO"
  serialize pause = codes "PAUSE"
  serialize resume = codes "RESUME"
  serialize rejected_unwanted = codes "REJECTED:UNWANTED"
  serialize rejected_already_receiving = codes "REJECTED:ALREADY_RECEIVING"
  serialize rejected_already_sending = codes "REJECTED:ALREADY_SENDING"
  serialize (file_sent hash) = codes "FILE_SENT:" ++ hash
  serialize received_file_ok = codes "RECEIVED_FILE:OK"
  serialize received_file_failed = codes "RECEIVED_FILE:FAILED"

  parse_metadata : Bytes → Option ControlMessage
  parse_metadata text = elim (json.read_metadata text) [
    | none ↦ none
    | some p ↦
        Option.map (λ size. metadata p.file_name size p.resume p.checksum) (parse_u64 p.file_size)
  ]

  parse_resume_ready : Bytes → Option ControlMessage
  parse_resume_ready text = elim (json.read_resume_ready text) [
    | none ↦ none
    | some p ↦ Option.map (λ offset. resume_ready offset p.prefix_hash) (parse_u64 p.offset)
  ]

  -- The branches of `parse` with a payload.
  parse_payload : Bytes → Option ControlMessage
  unfolding parse_metadata parse_resume_ready
  parse_payload s = elim (strip_prefix (codes "METADATA:") s) [
    | some text ↦ parse_metadata text
    | none ↦ elim (strip_prefix (codes "RESUME_READY:") s) [
      | some text ↦ parse_resume_ready text
      | none ↦ Option.map file_sent (strip_prefix (codes "FILE_SENT:") s)
    ]
  ]

  unfoldable pub parse : Bytes → Option ControlMessage
  unfolding parse_payload
  parse s =
      if eq_bytes s (codes "READY")
      then some ready
      else if eq_bytes s (codes "RESUME_OK")
      then some resume_ok
      else if eq_bytes s (codes "RESTART_FROM_ZERO")
      then some restart_from_zero
      else if eq_bytes s (codes "PAUSE")
      then some pause
      else if eq_bytes s (codes "RESUME")
      then some resume
      else if eq_bytes s (codes "REJECTED:UNWANTED")
      then some rejected_unwanted
      else if eq_bytes s (codes "REJECTED:ALREADY_RECEIVING")
      then some rejected_already_receiving
      else if eq_bytes s (codes "REJECTED:ALREADY_SENDING")
      then some rejected_already_sending
      else if eq_bytes s (codes "RECEIVED_FILE:OK")
      then some received_file_ok
      else if eq_bytes s (codes "RECEIVED_FILE:FAILED")
      then some received_file_failed
      else parse_payload s

-- The sizes and offsets of a message are u64.
abbrev pub IsWellFormed : ControlMessage → Type 0
IsWellFormed (metadata _ file_size _ _) = IsU64 file_size
IsWellFormed (resume_ready offset _) = IsU64 offset
IsWellFormed _ = Unit

-- The messages whose text holds JSON.
abbrev pub HasPayload : ControlMessage → Type 0
HasPayload (metadata _ _ _ _) = Unit
HasPayload (resume_ready _ _) = Unit
HasPayload _ = ⊥
