-- ===== src/Stun.antt =====
-- core/src/stun.rs: the Binding request and the parser of its response. A message is its bytes.
-- The socket, the clock and the random transaction id are the caller's.
pub mod Safety
pub mod Encoding
pub mod Address
mod Tests
use quiczilla.Prelude.{
  ℕ, zero, suc, ◌+◌, ◌-◌, ◌*◌, ◌%◌, Bool, true, false, not, ◌&&◌, Option, none, some, List, [], ◌∷◌,
  ◌++◌, Result, ok, err, ◌>>=◌, ◌>>◌, bail_if, ok_or, ltb, leb, ◌==◌, if◌then◌else◌, length,
  get_elem?, take, drop, bit_xor,
}
use quiczilla.Prelude.Bytes.{Bytes, eq_bytes}

-- MAGIC_COOKIE.to_be_bytes()
abbrev pub magic_cookie : Bytes
magic_cookie = 0x21 ∷ 0x12 ∷ 0xA4 ∷ 0x42 ∷ []

-- (MAGIC_COOKIE >> 16) as u16
abbrev pub cookie_port : ℕ
cookie_port = 0x2112

abbrev pub binding_success : ℕ
binding_success = 0x0101

abbrev pub xor_mapped_address : ℕ
xor_mapped_address = 0x0020

pub data IpAddr : Type 0 where
  v4 v6 : Bytes → IpAddr

pub record SocketAddr : Type 0 where
  pub ip : IpAddr
  pub port : ℕ

pub data StunError : Type 0 where
  invalid_response wrong_transaction truncated_response truncated_attribute no_address : StunError

-- How a parse ends without an address. `panic` is a read out of bounds, and `out_of_fuel` is no
-- outcome of the program: the loop's fuel ran out.
pub data Stop : Type 0 where
  bail : StunError → Stop
  panic out_of_fuel : Stop

-- The 20 bytes that `discover` sends.
unfoldable pub binding_request : Bytes → Bytes
binding_request transaction_id = (0 ∷ 1 ∷ 0 ∷ 0 ∷ []) ++ (magic_cookie ++ transaction_id)

-- `message[i]`
pub index : Bytes → ℕ → Result Stop ℕ
index message i = ok_or (get_elem? message i) panic

-- `u16::from_be_bytes([message[i], message[i + 1]])`
pub read_u16 : Bytes → ℕ → Result Stop ℕ
read_u16 message i = do hi ← index message i; lo ← index message (i + 1); ok (hi * 256 + lo)

-- `message[from..to]`
pub slice : Bytes → ℕ → ℕ → Result Stop Bytes
slice message from to =
    if ltb (length message) to then err panic else ok (take (to - from) (drop from message))

-- The bytes from `start` on, each with its byte of the mask.
pub unmask : Bytes → ℕ → Bytes → Result Stop Bytes
unmask message start [] = ok []
unmask message start (m ∷ mask) = do
  b ← index message start
  rest ← unmask message (start + 1) mask
  ok (bit_xor b m ∷ rest)

-- The `match family`: `none` goes on with the next attribute.
pub read_address : Bytes → Bytes → ℕ → ℕ → ℕ → Result Stop (Option IpAddr)
read_address message transaction_id value_start length family =
    if family == 0x01 && leb 8 length
    then (do bytes ← unmask message (value_start + 4) magic_cookie; ok (some (v4 bytes)))
    else if family == 0x02 && leb 20 length
    then (do
      bytes ← unmask message (value_start + 4) (magic_cookie ++ transaction_id)
      ok (some (v6 bytes)))
    else ok none

pub data Step : Type 0 where
  found : SocketAddr → Step
  next : ℕ → Step

abbrev pub padded : ℕ → ℕ
padded length = (4 - length % 4) % 4

pub address_step : ℕ → ℕ → Option IpAddr → Step
address_step after port none = next after
address_step after port (some ip) = found (record { ip = ip; port = port })

-- The body of the loop for an XOR-MAPPED-ADDRESS of eight bytes or more.
pub mapped_address : Bytes → Bytes → ℕ → ℕ → Result Stop Step
mapped_address message transaction_id value_start length = do
  family ← index message (value_start + 1)
  port ← read_u16 message (value_start + 2)
  address ← read_address message transaction_id value_start length family
  ok (address_step (value_start + length + padded length) (bit_xor port cookie_port) address)

-- The rest of the loop's body, when the kind and the length are known.
pub attribute_value : Bytes → Bytes → ℕ → ℕ → ℕ → Result Stop Step
attribute_value message transaction_id value_start kind len =
    if ltb (length message) (value_start + len)
    then err (bail truncated_attribute)
    else if kind == xor_mapped_address && leb 8 len
    then mapped_address message transaction_id value_start len
    else ok (next (value_start + len + padded len))

pub attribute : Bytes → Bytes → ℕ → Result Stop Step
attribute message transaction_id offset = do
  kind ← read_u16 message offset
  len ← read_u16 message (offset + 2)
  attribute_value message transaction_id (offset + 4) kind len

-- `while offset + 4 <= 20 + declared_len`, on fuel.
pub scan : Bytes → Bytes → ℕ → ℕ → ℕ → Result Stop SocketAddr
scan message transaction_id limit zero offset =
    if leb (offset + 4) limit then err out_of_fuel else err (bail no_address)
scan message transaction_id limit (suc fuel) offset = elim (leb (offset + 4) limit) [
  | false ↦ err (bail no_address)
  | true ↦ elim (attribute message transaction_id offset) [
    | err e ↦ err e
    | ok (found address) ↦ ok address
    | ok (next offset') ↦ scan message transaction_id limit fuel offset'
  ]
]

-- The checks of a header of twenty bytes, then the attributes. An attribute takes four bytes at
-- least, so `declared_len` rounds are enough.
pub parse_header : Bytes → Bytes → Result Stop SocketAddr
parse_header message transaction_id = do
  kind ← read_u16 message 0
  bail_if (not (kind == binding_success)) (bail invalid_response)
  cookie ← slice message 4 8
  id ← slice message 8 20
  bail_if (not (eq_bytes cookie magic_cookie && eq_bytes id transaction_id))
      (bail wrong_transaction)
  declared_len ← read_u16 message 2
  bail_if (ltb (length message) (20 + declared_len)) (bail truncated_response)
  scan message transaction_id (20 + declared_len) declared_len 20

unfoldable pub parse_binding_response : Bytes → Bytes → Result Stop SocketAddr
unfolding parse_header scan attribute attribute_value mapped_address read_address address_step
    unmask slice read_u16 index
parse_binding_response message transaction_id =
    if ltb (length message) 20
    then err (bail invalid_response)
    else parse_header message transaction_id
