-- ===== src/Stun/Address.antt =====
-- The parser finds the address of a well-formed response, behind whatever other attributes.
use quiczilla.Prelude.{
  ℕ, zero, suc, ◌+◌, ◌-◌, ◌/◌, ◌%◌, ◌≤◌, ◌<◌, ◌≡◌, refl, ap, sym, ◌∙◌, ◌≢◌, true, false, some, List,
  [], ◌∷◌, ◌++◌, ok, err, arith, ltb, leb, if◌then◌else◌, length, length-append, get_elem?-drop,
  drop, drop-append, length-drop, take, take-append, bit_xor, All, replicate,
}
use mathlib.Core.List.{append_assoc}
use quiczilla.Prelude.Xor.{xor_xor, xor-lt}
use quiczilla.Prelude.Bytes.{Bytes, be_bytes, length-be_bytes, eq_bytes_iff}
use quiczilla.Stun.Encoding.{
  Attribute, encode, encode_all, response, masked, family, octets, mask, mapped, HasOctets,
  IsAddress, IsOther, length-encode, length-mapped, octets_bounds,
}
use quiczilla.Stun.{
  bail, invalid_response, index, read_u16, slice, unmask, read_address, found, next, address_step,
  mapped_address, attribute_value, attribute, scan, parse_header, parse_binding_response,
  magic_cookie, cookie_port, padded, xor_mapped_address, IpAddr, v4, v6, SocketAddr,
}

index-drop : (m : Bytes) (i b : ℕ) (r : Bytes) → drop i m ≡ b ∷ r → index m i ≡ ok b
unfolding index
index-drop m i b r e = rw (get_elem?-drop m i b r e)

read_u16-drop :
    (m : Bytes) (i n : ℕ) (r : Bytes)
    → n < 65536
    → drop i m ≡ be_bytes 2 n ++ r
    → read_u16 m i ≡ ok n
unfolding read_u16 be_bytes
read_u16-drop m i n r h e = rw (index-drop m i _ _ e) (
    rw (index-drop m (i + 1) _ _ (drop-append m i (i + 1) (n / 256 % 256 ∷ []) _ e (omega arith)))
      (ap ok (omega arith)))

unmask-masked :
    (m : Bytes) (bytes mask : Bytes) (i : ℕ) (r : Bytes)
    → length bytes ≡ length mask
    → drop i m ≡ masked bytes mask ++ r
    → unmask m i mask ≡ ok bytes
unfolding unmask
unmask-masked m [] [] i r h e = refl
unmask-masked m [] (k ∷ mask) i r h e = absurd (omega arith)
unmask-masked m (b ∷ bytes) [] i r h e = absurd (omega arith)
unmask-masked m (b ∷ bytes) (k ∷ mask) i r h e = rw (index-drop m i _ _ e) (
    rw
      (unmask-masked m bytes mask (i + 1) r (omega arith)
        (drop-append m i (i + 1) (bit_xor b k ∷ []) _ e (omega arith)))
      (rw xor_xor))

module _ (m tid : Bytes) (twelve : length tid ≡ 12) where
  read_address-masked :
      (start : ℕ) (ip : IpAddr) (r : Bytes)
      → HasOctets ip
      → drop (start + 4) m ≡ masked (octets ip) (mask tid ip) ++ r
      → read_address m tid start (4 + length (octets ip)) (family ip) ≡ ok (some ip)
  unfolding read_address family octets mask
  read_address-masked start (v4 bytes) r h e =
      rw h (rw (unmask-masked m bytes magic_cookie (start + 4) r h e))
  read_address-masked start (v6 bytes) r h e =
      rw h (rw (unmask-masked m bytes (magic_cookie ++ tid) (start + 4) r (omega arith) e))

  mapped_address-mapped :
      (start : ℕ) (a : SocketAddr) (r : Bytes)
      → HasOctets a.ip
      → a.port < 65536
      → drop start m ≡ (mapped tid a).value ++ r
      → mapped_address m tid start (4 + length (octets a.ip)) ≡ ok (found a)
  unfolding mapped_address mapped
  mapped_address-mapped start a r h p e =
      let x : ℕ = bit_xor a.port cookie_port in
      let rest : Bytes = masked (octets a.ip) (mask tid a.ip) ++ r in
      let at0 : drop start m ≡ 0 ∷ family a.ip ∷ (be_bytes 2 x ++ rest) =
        e ∙ ap (λ t. 0 ∷ family a.ip ∷ t) (append_assoc (be_bytes 2 x) _ r) in
      let at1 : drop (start + 1) m ≡ family a.ip ∷ (be_bytes 2 x ++ rest) =
        drop-append m start (start + 1) (0 ∷ []) _ at0 (omega arith) in
      let at2 : drop (start + 2) m ≡ be_bytes 2 x ++ rest =
        drop-append m start (start + 2) (0 ∷ family a.ip ∷ []) _ at0 (omega arith) in
      let at4 : drop (start + 4) m ≡ rest =
        drop-append m (start + 2) (start + 4) (be_bytes 2 x) _ at2
          (omega (arith, length-be_bytes 2 x)) in
      rw (index-drop m (start + 1) _ _ at1) (
        rw (read_u16-drop m (start + 2) x rest (xor-lt 16 a.port cookie_port p (omega arith)) at2) (
          rw (read_address-masked start a.ip r h at4) (
            unfold address_step in
            ap (λ port. ok (found (record { ip = a.ip; port = port })))
              (xor_xor a.port cookie_port))))

  attribute-encode :
      (offset : ℕ) (a : Attribute) (r : Bytes)
      → a.kind < 65536
      → length a.value < 65536
      → drop offset m ≡ encode a ++ r
      → (attribute m tid offset ≡ attribute_value m tid (offset + 4) a.kind (length a.value))
        × (drop (offset + 4) m ≡ a.value ++ (replicate (padded (length a.value)) 0 ++ r))
  unfolding attribute encode
  attribute-encode offset a r k l e =
      let pad : Bytes = replicate (padded (length a.value)) 0 in
      let at0 : drop offset m
          ≡ be_bytes 2 a.kind ++ (be_bytes 2 (length a.value) ++ (a.value ++ (pad ++ r))) =
        e ∙ simp append_assoc in
      let at2 : drop (offset + 2) m ≡ be_bytes 2 (length a.value) ++ (a.value ++ (pad ++ r)) =
        drop-append m offset (offset + 2) (be_bytes 2 a.kind) _ at0
          (omega (arith, length-be_bytes 2 a.kind)) in
      let at4 : drop (offset + 4) m ≡ a.value ++ (pad ++ r) =
        drop-append m (offset + 2) (offset + 4) (be_bytes 2 (length a.value)) _ at2
          (omega (arith, length-be_bytes 2 (length a.value))) in
      (
        rw (read_u16-drop m offset a.kind _ k at0)
            (rw (read_u16-drop m (offset + 2) (length a.value) _ l at2)),
        at4,
      )

  length-at :
      (offset : ℕ) (a : Attribute) (r : Bytes)
      → drop offset m ≡ encode a ++ r
      → length m ≡ offset + length (encode a) + length r
  length-at offset a r e =
      omega (arith, ap length e, length-append (encode a) r, length-encode a, length-drop offset m)

  -- An attribute of another kind is passed over, its padding included.
  attribute-skip :
      (offset : ℕ) (a : Attribute) (r : Bytes)
      → a.kind < 65536
      → a.kind ≢ xor_mapped_address
      → length a.value < 65536
      → drop offset m ≡ encode a ++ r
      → (attribute m tid offset ≡ ok (next (offset + length (encode a))))
        × (drop (offset + length (encode a)) m ≡ r)
  unfolding attribute_value
  attribute-skip offset a r k other l e =
      let (step, at4) = attribute-encode offset a r k l e in
      (
        rw step (ground (arith, length-at offset a r e, length-encode a)),
        drop-append m offset (offset + length (encode a)) (encode a) r e refl,
      )

  attribute-mapped :
      (offset : ℕ) (a : SocketAddr) (r : Bytes)
      → IsAddress a
      → drop offset m ≡ encode (mapped tid a) ++ r
      → attribute m tid offset ≡ ok (found a)
  unfolding attribute_value
  attribute-mapped offset a r h e =
      let size : length (mapped tid a).value ≡ 4 + length (octets a.ip) = length-mapped tid a in
      let (step, at4) =
        attribute-encode offset (mapped tid a) r (unfold mapped in omega arith)
          (omega (arith, size, octets_bounds a h)) e in
      let kind : (mapped tid a).kind ≡ xor_mapped_address = unfold mapped in refl in
      step
      ∙ rw size (
          ground (
            arith,
            kind,
            mapped_address-mapped (offset + 4) a _ h.0 h.1 at4,
            length-at offset (mapped tid a) r e,
            length-encode (mapped tid a),
            size,
            octets_bounds a h,
          ))

  scan-mapped :
      (before : List Attribute) (a : SocketAddr) (r : Bytes) (limit fuel offset : ℕ)
      → All IsOther before
      → IsAddress a
      → drop offset m ≡ encode_all before ++ (encode (mapped tid a) ++ r)
      → limit ≡ length m
      → limit ≤ offset + fuel
      → scan m tid limit fuel offset ≡ ok a
  unfolding encode_all scan
  scan-mapped [] a r limit zero offset o h e l f =
      absurd (omega (arith, length-at offset (mapped tid a) r e, length-encode (mapped tid a)))
  scan-mapped [] a r limit (suc fuel) offset o h e l f =
      let more : leb (offset + 4) limit ≡ true =
        ground (arith, length-at offset (mapped tid a) r e, length-encode (mapped tid a)) in
      rw (more, scan) (rw (attribute-mapped offset a r h e))
  scan-mapped (b ∷ before) a r limit zero offset o h e l f =
      absurd
        (omega (arith, length-at offset b _ (e ∙ append_assoc (encode b) _ _), length-encode b))
  scan-mapped (b ∷ before) a r limit (suc fuel) offset (ob, o) h e l f =
      let here : drop offset m ≡ encode b ++ (encode_all before ++ (encode (mapped tid a) ++ r)) =
        e ∙ append_assoc (encode b) _ _ in
      let more : leb (offset + 4) limit ≡ true =
        ground (arith, length-at offset b _ here, length-encode b) in
      let (step, there) = attribute-skip offset b _ ob.0 ob.1 ob.2 here in
      rw (more, scan)
        (rw step (
          scan-mapped before a r limit fuel (offset + length (encode b)) o h there l
            (omega (arith, length-encode b))))

slice-drop :
    (m : Bytes) (from to : ℕ) (xs r : Bytes)
    → drop from m ≡ xs ++ r
    → to - from ≡ length xs
    → to ≤ length m
    → slice m from to ≡ ok xs
unfolding slice
slice-drop m from to xs r e size fits =
    ground (arith, take-append (to - from) xs r size, ap (take (to - from)) e)

module _ (tid body : Bytes) (twelve : length tid ≡ 12) (fits : length body < 65536) where
  length-response : length (response tid body) ≡ 20 + length body
  unfolding response be_bytes
  length-response = omega (arith, length-append tid body)

  parse_header-response :
      parse_header (response tid body) tid
      ≡ scan (response tid body) tid (20 + length body) (length body) 20
  unfolding parse_header
  parse_header-response =
      let m = response tid body in
      let head : drop 0 m
          ≡ be_bytes 2 0x0101 ++ (be_bytes 2 (length body) ++ (magic_cookie ++ (tid ++ body))) =
        unfold response in refl in
      let at2 : drop 2 m ≡ be_bytes 2 (length body) ++ (magic_cookie ++ (tid ++ body)) =
        unfold response be_bytes in refl in
      let at4 : drop 4 m ≡ magic_cookie ++ (tid ++ body) = unfold response be_bytes in refl in
      let at8 : drop 8 m ≡ tid ++ body = unfold response be_bytes in refl in
      rw (read_u16-drop m 0 0x0101 _ (omega arith) head) (
        rw (slice-drop m 4 8 magic_cookie _ at4 refl (omega (arith, length-response))) (
          rw (slice-drop m 8 20 tid body at8 (sym twelve) (omega (arith, length-response))) (
            rw ((eq_bytes_iff tid tid).1 refl)
              (rw (read_u16-drop m 2 (length body) _ fits at2) (ground (arith, length-response))))))

-- Whatever other attributes stand before the XOR-MAPPED-ADDRESS, and whatever follows it, the
-- parser returns its address and port, for IPv4 and IPv6.
pub parse-response :
    (transaction_id : Bytes) (before after : List Attribute) (a : SocketAddr)
    → length transaction_id ≡ 12
    → All IsOther before
    → IsAddress a
    → length (encode_all before ++ (encode (mapped transaction_id a) ++ encode_all after)) < 65536
    → parse_binding_response
        (response transaction_id
          (encode_all before ++ (encode (mapped transaction_id a) ++ encode_all after)))
        transaction_id
      ≡ ok a
unfolding parse_binding_response
parse-response tid before after a twelve o h fits =
    let body : Bytes = encode_all before ++ (encode (mapped tid a) ++ encode_all after) in
    let m = response tid body in
    let long : ltb (length m) 20 ≡ false = ground (arith, length-response tid body twelve fits) in
    let at20 : drop 20 m ≡ body =
      drop-append m 8 20 tid body (unfold response be_bytes in refl) (omega arith) in
    ap (λ b. if b then err (bail invalid_response) else parse_header m tid) long
    ∙ parse_header-response tid body twelve fits
    ∙ scan-mapped m tid twelve before a (encode_all after) (20 + length body) (length body) 20 o h
        at20 (sym (length-response tid body twelve fits)) (omega arith)
