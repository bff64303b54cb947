-- ===== src/Control/Text/Parsing.antt =====
-- What `parse` accepts, and that it reads back what `serialize` writes.
use quiczilla.Prelude.{
  ◌≡◌, refl, ◌⊎◌, inl, inr, Option, none, some, ℕ, ◌∙◌, sym, if◌then◌else◌, some_inj, Bool-cases,
  Option-cases,
}
use quiczilla.Prelude.Bytes.{
  Bytes, codes, eq_bytes, eq_bytes_iff, strip_prefix, strip_prefix-eq_some,
}
use quiczilla.Control.Decimal.{parse_u64, parse_u64-to_string, parse_u64-IsU64}
use mathlib.Core.Path.{subst}
use mathlib.Core.Option
use quiczilla.Control.Text.{
  MetadataPayload, ResumeReadyPayload, ControlMessage, Json, serialize, parse, parse_payload,
  parse_metadata, parse_resume_ready, IsWellFormed, HasPayload, metadata, resume_ready, ready,
  resume_ok, restart_from_zero, pause, resume, rejected_unwanted, rejected_already_receiving,
  rejected_already_sending, received_file_ok, received_file_failed, file_sent,
}

module _ (json : Json) where
  -- Every message with 64-bit numbers is read back from its text.
  pub parse-serialize :
      (m : ControlMessage) → IsWellFormed m → parse json (serialize json m) ≡ some m
  unfolding serialize parse
  parse-serialize (metadata n size r c) h =
      rw (json.metadata_law _, parse_metadata) (rw (parse_u64-to_string size h))
  parse-serialize (resume_ready o p) h =
      rw (json.resume_ready_law _, parse_resume_ready) (rw (parse_u64-to_string o h))
  parse-serialize _ h = refl

  abbrev Accepts : Bytes → ControlMessage → Type 0
  Accepts s m = IsWellFormed m × (HasPayload m ⊎ (s ≡ serialize json m))

  metadata-Accepts :
      (s : Bytes) (p : MetadataPayload) (o : Option ℕ) (m : ControlMessage)
      → parse_u64 p.file_size ≡ o
      → Option.map (λ size. metadata p.file_name size p.resume p.checksum) o ≡ some m
      → Accepts s m
  metadata-Accepts s p none m q e = cc
  metadata-Accepts s p (some n) m q e =
      subst (Accepts s) (some_inj e) (parse_u64-IsU64 p.file_size n q, inl tt)

  resume_ready-Accepts :
      (s : Bytes) (p : ResumeReadyPayload) (o : Option ℕ) (m : ControlMessage)
      → parse_u64 p.offset ≡ o
      → Option.map (λ offset. resume_ready offset p.prefix_hash) o ≡ some m
      → Accepts s m
  resume_ready-Accepts s p none m q e = cc
  resume_ready-Accepts s p (some n) m q e =
      subst (Accepts s) (some_inj e) (parse_u64-IsU64 p.offset n q, inl tt)

  parse_metadata-Accepts :
      (s text : Bytes) (m : ControlMessage) → parse_metadata json text ≡ some m → Accepts s m
  unfolding parse_metadata
  parse_metadata-Accepts s text m e = elim (Option-cases (json.read_metadata text)) [
    | inl bad ↦ cc (rw (bad, parse_metadata) at e)
    | inr (p, good) ↦ metadata-Accepts s p _ m refl (rw (good, parse_metadata) at e)
  ]

  parse_resume_ready-Accepts :
      (s text : Bytes) (m : ControlMessage) → parse_resume_ready json text ≡ some m → Accepts s m
  unfolding parse_resume_ready
  parse_resume_ready-Accepts s text m e = elim (Option-cases (json.read_resume_ready text)) [
    | inl bad ↦ cc (rw (bad, parse_resume_ready) at e)
    | inr (p, good) ↦ resume_ready-Accepts s p _ m refl (rw (good, parse_resume_ready) at e)
  ]

  keyword :
      (s t : Bytes) (k m : ControlMessage) (rest : Option ControlMessage)
      → serialize json k ≡ t
      → IsWellFormed k
      → (rest ≡ some m → Accepts s m)
      → (if eq_bytes s t then some k else rest) ≡ some m
      → Accepts s m
  keyword s t k m rest q w other e = elim (Bool-cases (eq_bytes s t)) [
    | inl same ↦
        subst (Accepts s) (some_inj (rw same at e)) (w, inr ((eq_bytes_iff s t).0 same ∙ sym q))
    | inr diff ↦ other (rw diff at e)
  ]

  file_sent-Accepts :
      (s : Bytes) (o : Option Bytes) (m : ControlMessage)
      → strip_prefix (codes "FILE_SENT:") s ≡ o
      → Option.map file_sent o ≡ some m
      → Accepts s m
  unfolding serialize
  file_sent-Accepts s none m q e = cc
  file_sent-Accepts s (some hash) m q e =
      subst (Accepts s) (some_inj e) (tt, inr (strip_prefix-eq_some (codes "FILE_SENT:") s hash q))

  parse_payload-Accepts :
      (s : Bytes) (m : ControlMessage) → parse_payload json s ≡ some m → Accepts s m
  unfolding parse_payload
  parse_payload-Accepts s m e = elim (Option-cases (strip_prefix (codes "METADATA:") s)) [
    | inr (text, q) ↦ parse_metadata-Accepts s text m (rw (q, parse_payload) at e)
    | inl q ↦ elim (Option-cases (strip_prefix (codes "RESUME_READY:") s)) [
      | inr (text, r) ↦ parse_resume_ready-Accepts s text m (rw (q, r, parse_payload) at e)
      | inl r ↦ file_sent-Accepts s _ m refl (rw (q, r, parse_payload) at e)
    ]
  ]

  -- Whatever text is parsed, the message has 64-bit numbers, and either it has a JSON payload or its
  -- text is the one that `serialize` writes.
  pub parse-Accepts :
      (s : Bytes) (m : ControlMessage)
      → parse json s ≡ some m
      → IsWellFormed m × (HasPayload m ⊎ (s ≡ serialize json m))
  unfolding parse serialize
  parse-Accepts s m = keyword s _ ready m _ refl tt (
      keyword s _ resume_ok m _ refl tt (
        keyword s _ restart_from_zero m _ refl tt (
          keyword s _ pause m _ refl tt (
            keyword s _ resume m _ refl tt (
              keyword s _ rejected_unwanted m _ refl tt (
                keyword s _ rejected_already_receiving m _ refl tt (
                  keyword s _ rejected_already_sending m _ refl tt (
                    keyword s _ received_file_ok m _ refl tt (
                      keyword s _ received_file_failed m _ refl tt
                        (parse_payload-Accepts s m))))))))))
