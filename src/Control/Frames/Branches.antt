-- ===== src/Control/Frames/Branches.antt =====
-- Every way in which `read_control_message` of core/src/peer.rs can end.
use quiczilla.Prelude.{
  ℕ, zero, suc, ◌≤◌, ◌<◌, ◌≡◌, refl, sym, ap, ◌∙◌, false, Option, none, some, [], ◌∷◌, ◌++◌, Result,
  ok, err, arith, length, Option-cases, inl, inr, if_holds, ltb, ◌==◌,
}
use quiczilla.Prelude.Bytes.{Bytes, from_be, read_exact, read_exact-eq_some}
use quiczilla.Prelude.Utf8.{is_utf8, is_utf8-nil}
use quiczilla.Control.Frames.{
  max_control_message_bytes, FrameError, message_too_long, unexpected_eof, not_utf8, take_body,
  read_body, read_control_message,
}
use quiczilla.Control.Frames.Reading.{IsSendable}

-- How a stream is read, by what its bytes are.
pub data Reads (stream : Bytes) : Result FrameError (Option Bytes × Bytes) → Type 0 where
  ends : length stream < 4 → Reads stream (ok (none, []))
  gives :
      (header msg rest : Bytes)
      → stream ≡ header ++ (msg ++ rest)
      → length header ≡ 4
      → from_be 0 header ≡ length msg
      → IsSendable msg
      → Reads stream (ok (some msg, rest))
  over_limit :
      (header rest : Bytes)
      → stream ≡ header ++ rest
      → length header ≡ 4
      → max_control_message_bytes < from_be 0 header
      → Reads stream (err (message_too_long (from_be 0 header)))
  cut_off :
      (header rest : Bytes)
      → stream ≡ header ++ rest
      → length header ≡ 4
      → from_be 0 header ≤ max_control_message_bytes
      → length rest < from_be 0 header
      → Reads stream (err unexpected_eof)
  garbled :
      (header msg rest : Bytes)
      → stream ≡ header ++ (msg ++ rest)
      → length header ≡ 4
      → from_be 0 header ≡ length msg
      → length msg ≤ max_control_message_bytes
      → is_utf8 msg ≡ false
      → Reads stream (err not_utf8)

read_exact-eq_none : (n : ℕ) (s : Bytes) → read_exact n s ≡ none → length s < n
unfolding read_exact
read_exact-eq_none zero s e = absurd (ground arith)
read_exact-eq_none (suc n) [] e = omega arith
read_exact-eq_none (suc n) (b ∷ s) e = elim (Option-cases (read_exact n s)) [
  | inl q ↦ omega (arith, read_exact-eq_none n s q)
  | inr (r, q) ↦ absurd (ground (arith, rw q at e))
]

module _ (stream header rest : Bytes) (whole : stream ≡ header ++ rest)
    (four : length header ≡ 4) where
  -- The body that was taken, or that was cut off.
  take_body-Reads :
      (o : Option (Bytes × Bytes))
      → read_exact (from_be 0 header) rest ≡ o
      → from_be 0 header ≤ max_control_message_bytes
      → Reads stream (take_body o)
  unfolding take_body
  take_body-Reads none e fits =
      cut_off header rest whole four fits (read_exact-eq_none (from_be 0 header) rest e)
  take_body-Reads (some (msg, after)) e fits =
      let (split, long) = read_exact-eq_some (from_be 0 header) rest msg after e in
      let all = whole ∙ ap (λ z. header ++ z) split in
      if_holds (Reads stream) (is_utf8 msg) _ _
        (λ q. gives header msg after all four (sym long) (record { short = omega arith; utf8 = q }))
        (λ q. garbled header msg after all four (sym long) (omega arith) q)

  read_body-Reads : Reads stream (read_body (from_be 0 header) rest)
  unfolding read_body
  read_body-Reads =
      if_holds (Reads stream) (ltb max_control_message_bytes (from_be 0 header)) _ _
        (λ q. over_limit header rest whole four (ground (arith, q)))
        (λ q.
          if_holds (Reads stream) (from_be 0 header == 0) _ _
            (λ z.
              gives header [] rest whole four (ground (arith, z))
                (record { short = omega arith; utf8 = is_utf8-nil }))
            (λ z. take_body-Reads (read_exact (from_be 0 header) rest) refl (ground (arith, q))))

-- Every stream: one that ends within the four bytes of a length is at its end; behind these, a length
-- over the limit, a body that is cut off, and a body that is not UTF-8 are the three errors; and
-- otherwise the bytes of the body are the message, and what follows them is left.
pub read_control_message-Reads : (stream : Bytes) → Reads stream (read_control_message stream)
unfolding read_control_message
read_control_message-Reads stream = elim (Option-cases (read_exact 4 stream)) [
  | inl q ↦ rw (q, read_control_message) (ends (read_exact-eq_none 4 stream q))
  | inr ((header, rest), q) ↦
      let (whole, four) = read_exact-eq_some 4 stream header rest q in
      rw (q, read_control_message) (read_body-Reads stream header rest whole four)
]
