-- ===== src/Stun/Tests.antt =====
-- Concrete STUN messages, and the theorems at them.
use quiczilla.Prelude.{◌≡◌, ◌≢◌, refl, [], ◌∷◌, ◌++◌, ok, err, arith}
use quiczilla.Prelude.Bytes.{Bytes, be_bytes}
use quiczilla.Stun.{parse_binding_response, v4, v6, SocketAddr, panic, out_of_fuel}
use quiczilla.Stun.Encoding.{Attribute, encode, encode_all, response, mapped, family, octets, mask}
use quiczilla.Stun.Safety.{parse_binding_response_total}
use quiczilla.Stun.Address.{parse-response}

-- The message of `parses_xor_mapped_ipv4_address` in stun.rs.
abbrev sevens : Bytes
sevens = 7 ∷ 7 ∷ 7 ∷ 7 ∷ 7 ∷ 7 ∷ 7 ∷ 7 ∷ 7 ∷ 7 ∷ 7 ∷ 7 ∷ []

abbrev message : Bytes
message =
    (1 ∷ 1 ∷ 0 ∷ 12 ∷ 0x21 ∷ 0x12 ∷ 0xA4 ∷ 0x42 ∷ [])
    ++ (sevens ++ (0 ∷ 0x20 ∷ 0 ∷ 8 ∷ 0 ∷ 1 ∷ 0x21 ∷ 0x1e ∷ 0x21 ∷ 0x12 ∷ 0xA4 ∷ 0x43 ∷ []))

parses_xor_mapped_ipv4_address :
    parse_binding_response message sevens ≡ ok (record { ip = v4 (0 ∷ 0 ∷ 0 ∷ 1 ∷ []); port = 12 })
unfolding parse_binding_response
parses_xor_mapped_ipv4_address = refl

parse_binding_response_total_example :
    (parse_binding_response message sevens ≢ err panic)
    × (parse_binding_response message sevens ≢ err out_of_fuel)
parse_binding_response_total_example = parse_binding_response_total message sevens refl

-- A SOFTWARE attribute of five bytes, padded to eight.
abbrev software : Attribute
software = record { kind = 0x8022; value = 110 ∷ 111 ∷ 100 ∷ 101 ∷ 33 ∷ [] }

abbrev address : SocketAddr
address = record {
  ip = v6 (0x20 ∷ 1 ∷ 0x0d ∷ 0xb8 ∷ 0 ∷ 0 ∷ 0 ∷ 0 ∷ 0 ∷ 0 ∷ 0 ∷ 0 ∷ 0 ∷ 0 ∷ 0 ∷ 1 ∷ []);
  port = 4433;
}

abbrev body : Bytes
body = encode_all (software ∷ []) ++ (encode (mapped sevens address) ++ encode_all (software ∷ []))

parse-response_example : parse_binding_response (response sevens body) sevens ≡ ok address
parse-response_example =
    parse-response sevens (software ∷ []) (software ∷ []) address refl
      ((omega arith, λ e. omega arith, omega arith), tt) (refl, omega arith)
      (unfold encode_all encode mapped family octets mask be_bytes in omega arith)
