-- ===== src/Stun/Encoding.antt =====
-- RFC 8489's encoding of a Binding response, written without looking at the parser of
-- core/src/stun.rs.
use quiczilla.Prelude.{
  ℕ, suc, ◌+◌, ◌≤◌, ◌<◌, ◌≡◌, ◌≢◌, refl, ap, List, [], ◌∷◌, ◌++◌, arith, length, length-append,
  bit_xor, replicate, length-replicate, zero,
}
use quiczilla.Prelude.Bytes.{Bytes, be_bytes}
use quiczilla.Stun.{
  magic_cookie, cookie_port, padded, xor_mapped_address, IpAddr, v4, v6, SocketAddr,
}

-- RFC 8489: an attribute is its kind, its length, its value, and zeros up to four bytes.
pub record Attribute : Type 0 where
  pub kind : ℕ
  pub value : Bytes

unfoldable pub encode : Attribute → Bytes
encode a =
    be_bytes 2 a.kind
    ++ (be_bytes 2 (length a.value) ++ (a.value ++ replicate (padded (length a.value)) 0))

unfoldable pub encode_all : List Attribute → Bytes
unfolding encode
encode_all [] = []
encode_all (a ∷ rest) = encode a ++ encode_all rest

unfoldable pub response : Bytes → Bytes → Bytes
response transaction_id body =
    be_bytes 2 0x0101 ++ (be_bytes 2 (length body) ++ (magic_cookie ++ (transaction_id ++ body)))

abbrev pub masked : Bytes → Bytes → Bytes
masked [] mask = []
masked (b ∷ bytes) [] = b ∷ bytes
masked (b ∷ bytes) (k ∷ mask) = bit_xor b k ∷ masked bytes mask

unfoldable pub family : IpAddr → ℕ
family (v4 _) = 1
family (v6 _) = 2

unfoldable pub octets : IpAddr → Bytes
octets (v4 bytes) = bytes
octets (v6 bytes) = bytes

unfoldable pub mask : Bytes → IpAddr → Bytes
mask transaction_id (v4 _) = magic_cookie
mask transaction_id (v6 _) = magic_cookie ++ transaction_id

-- RFC 8489, 14.2: a zero, the family, the port and the address under the mask.
unfoldable pub mapped : Bytes → SocketAddr → Attribute
unfolding family octets mask
mapped transaction_id a = record {
  kind = xor_mapped_address;
  value =
      0
      ∷ family a.ip
      ∷ (be_bytes 2 (bit_xor a.port cookie_port)
          ++ masked (octets a.ip) (mask transaction_id a.ip));
}

abbrev pub HasOctets : IpAddr → Type 0
HasOctets (v4 bytes) = length bytes ≡ 4
HasOctets (v6 bytes) = length bytes ≡ 16

pub length-encode :
    (a : Attribute) → length (encode a) ≡ 4 + length a.value + padded (length a.value)
unfolding encode be_bytes
length-encode a = omega (
  arith,
  length-append a.value (replicate (padded (length a.value)) 0),
  length-replicate (padded (length a.value)) zero,
)

abbrev pub IsAddress : SocketAddr → Type 0
IsAddress a = HasOctets a.ip × (a.port < 65536)

-- An attribute that is no XOR-MAPPED-ADDRESS, with a kind and a length of 16 bits.
abbrev pub IsOther : Attribute → Type 0
IsOther a = (a.kind < 65536) × (a.kind ≢ xor_mapped_address) × (length a.value < 65536)

length-masked : (bytes mask : Bytes) → length (masked bytes mask) ≡ length bytes
length-masked [] mask = refl
length-masked (b ∷ bytes) [] = refl
length-masked (b ∷ bytes) (k ∷ mask) = ap suc (length-masked bytes mask)

pub length-mapped :
    (tid : Bytes) (a : SocketAddr) → length (mapped tid a).value ≡ 4 + length (octets a.ip)
unfolding mapped be_bytes
length-mapped tid a = omega (arith, length-masked (octets a.ip) (mask tid a.ip))

pub octets_bounds :
    (a : SocketAddr) → IsAddress a → (4 ≤ length (octets a.ip)) × (length (octets a.ip) ≤ 16)
octets_bounds a h = bounds a.ip h.0
  where
    bounds : (ip : IpAddr) → HasOctets ip → (4 ≤ length (octets ip)) × (length (octets ip) ≤ 16)
    bounds (v4 b) h = unfold octets in omega arith
    bounds (v6 b) h = unfold octets in omega arith
