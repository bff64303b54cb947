-- ===== src/Stun/Safety.antt =====
-- The parser reads no byte out of bounds and ends, whatever arrives.
use quiczilla.Prelude.{
  ℕ, zero, suc, ◌+◌, ◌≤◌, ◌<◌, ◌≡◌, refl, ◌≢◌, Bool, true, false, not, ◌&&◌, Option, none, some, [],
  ◌∷◌, ◌++◌, Result, ok, err, ◌>>=◌, ◌>>◌, bail_if, arith, ltb, leb, ◌==◌, if◌then◌else◌, length,
  get_elem?-lt, Bool-cases, inl, inr,
}
use quiczilla.Prelude.Bytes.{Bytes, eq_bytes}
use quiczilla.Stun.{
  Stop, bail, panic, out_of_fuel, StunError, index, read_u16, slice, unmask, read_address, Step,
  found, next, address_step, mapped_address, attribute_value, attribute, scan, parse_header,
  parse_binding_response, magic_cookie, IpAddr,
}

-- The run ends with `P` of its result, or with an error of the program.
abbrev Ends : {A : Type 0} → (A → Type 0) → Result Stop A → Type 0
Ends P (ok a) = P a
Ends P (err (bail e)) = Unit
Ends P (err panic) = ⊥
Ends P (err out_of_fuel) = ⊥

Ends-bind :
    {A B : Type 0} (P : A → Type 0) (Q : B → Type 0) (m : Result Stop A) (f : A → Result Stop B)
    → Ends P m
    → ((a : A) → P a → Ends Q (f a))
    → Ends Q (m >>= f)
Ends-bind P Q (ok a) f h k = k a h
Ends-bind P Q (err (bail e)) f h k = tt
Ends-bind P Q (err panic) f h k = absurd h
Ends-bind P Q (err out_of_fuel) f h k = absurd h

Ends-bail_if :
    {B : Type 0} (Q : B → Type 0) (bad : Bool) (e : StunError) (m : Result Stop B)
    → (bad ≡ false → Ends Q m)
    → Ends Q (bail_if bad (bail e) >> m)
Ends-bail_if Q true e m h = tt
Ends-bail_if Q false e m h = h refl

Ends-if :
    {B : Type 0} (Q : B → Type 0) (c : Bool) (m n : Result Stop B)
    → (c ≡ true → Ends Q m)
    → (c ≡ false → Ends Q n)
    → Ends Q (if c then m else n)
Ends-if Q true m n h k = h refl
Ends-if Q false m n h k = k refl

abbrev Any : {A : Type 0} → A → Type 0
Any a = Unit

Ends-index : (m : Bytes) (i : ℕ) → i < length m → Ends Any (index m i)
unfolding index
Ends-index m i h = let (b, e) = get_elem?-lt m i h in rw (e, Ends) tt

Ends-read_u16 : (m : Bytes) (i : ℕ) → i + 1 < length m → Ends Any (read_u16 m i)
unfolding read_u16
Ends-read_u16 m i h =
    Ends-bind Any Any (index m i) _ (Ends-index m i (omega arith))
      λ hi _. Ends-bind Any Any (index m (i + 1)) _ (Ends-index m (i + 1) h) (λ lo _. tt)

Ends-unmask :
    (m : Bytes) (mask : Bytes) (i : ℕ) → i + length mask ≤ length m → Ends Any (unmask m i mask)
unfolding unmask
Ends-unmask m [] i h = tt
Ends-unmask m (k ∷ mask) i h = Ends-bind Any Any (index m i) _ (Ends-index m i (omega arith)) λ b _.
    Ends-bind Any Any (unmask m (i + 1) mask) _ (Ends-unmask m mask (i + 1) (omega arith))
      (λ r _. tt)

-- The transaction id has twelve bytes, so that the mask of an IPv6 address has sixteen.
module _ (m tid : Bytes) (twelve : length tid ≡ 12) where
  Ends-read_address :
      (start len family : ℕ)
      → start + len ≤ length m
      → Ends Any (read_address m tid start len family)
  unfolding read_address
  Ends-read_address start len family h = elim (Bool-cases (family == 0x01 && leb 8 len)) [
    | inl four ↦ rw four (
        Ends-bind Any Any (unmask m (start + 4) magic_cookie) _
          (Ends-unmask m magic_cookie (start + 4) (ground arith)) (λ b _. tt))
    | inr other ↦ rw other (elim (Bool-cases (family == 0x02 && leb 20 len)) [
      | inl six ↦ rw six (
          Ends-bind Any Any (unmask m (start + 4) (magic_cookie ++ tid)) _
            (Ends-unmask m (magic_cookie ++ tid) (start + 4) (ground arith)) (λ b _. tt))
      | inr neither ↦ rw neither tt
    ])
  ]

  -- A step that goes on moves at least four bytes.
  abbrev Moves : ℕ → Step → Type 0
  Moves offset (found a) = Unit
  Moves offset (next o) = offset + 4 ≤ o

  Moves-address_step :
      (offset after port : ℕ) (a : Option IpAddr)
      → offset + 4 ≤ after
      → Moves offset (address_step after port a)
  unfolding address_step
  Moves-address_step offset after port none h = h
  Moves-address_step offset after port (some ip) h = tt

  Ends-mapped_address :
      (offset len : ℕ)
      → 8 ≤ len
      → offset + 4 + len ≤ length m
      → Ends (Moves offset) (mapped_address m tid (offset + 4) len)
  unfolding mapped_address
  Ends-mapped_address offset len h fits =
      Ends-bind Any _ (index m (offset + 4 + 1)) _ (Ends-index m _ (omega arith)) λ family _.
        Ends-bind Any _ (read_u16 m (offset + 4 + 2)) _ (Ends-read_u16 m _ (omega arith)) λ port _.
          Ends-bind Any _ (read_address m tid (offset + 4) len family) _
            (Ends-read_address (offset + 4) len family fits)
            (λ a _. Moves-address_step offset _ _ a (omega arith))

  Ends-attribute_value :
      (offset kind len : ℕ) → Ends (Moves offset) (attribute_value m tid (offset + 4) kind len)
  unfolding attribute_value
  Ends-attribute_value offset kind len = elim (Bool-cases (ltb (length m) (offset + 4 + len))) [
    | inl out ↦ rw out tt
    | inr fits ↦ rw fits (elim (Bool-cases (kind == 0x0020 && leb 8 len)) [
      | inl mapped ↦ rw mapped (Ends-mapped_address offset len (ground arith) (ground arith))
      | inr other ↦ rw other (omega arith)
    ])
  ]

  Ends-attribute :
      (offset : ℕ) → offset + 4 ≤ length m → Ends (Moves offset) (attribute m tid offset)
  unfolding attribute
  Ends-attribute offset h =
      Ends-bind Any _ (read_u16 m offset) _ (Ends-read_u16 m _ (omega arith)) λ kind _.
        Ends-bind Any _ (read_u16 m (offset + 2)) _ (Ends-read_u16 m _ (omega arith))
          λ len _. Ends-attribute_value offset kind len

  Ends-scan :
      (limit fuel offset : ℕ)
      → limit ≤ length m
      → limit ≤ offset + fuel
      → Ends Any (scan m tid limit fuel offset)
  unfolding scan
  Ends-scan limit zero offset h f = elim (Bool-cases (leb (offset + 4) limit)) [
    | inl more ↦ absurd (ground arith)
    | inr done ↦ rw done tt
  ]
  Ends-scan limit (suc fuel) offset h f = elim (Bool-cases (leb (offset + 4) limit)) [
    | inr done ↦ rw (done, scan) tt
    | inl more ↦
        rw (more, scan)
          (go (attribute m tid offset) refl (Ends-attribute offset (ground arith))
            (λ o. Ends-scan limit fuel o h))
  ]
    where
      go :
          (r : Result Stop Step)
          → attribute m tid offset ≡ r
          → Ends (Moves offset) r
          → ((o : ℕ) → limit ≤ o + fuel → Ends Any (scan m tid limit fuel o))
          → Ends Any (elim r [
            | err e ↦ err e
            | ok (found address) ↦ ok address
            | ok (next o) ↦ scan m tid limit fuel o
          ])
      go (ok (found a)) q e ih = tt
      go (ok (next o)) q e ih = ih o (omega arith)
      go (err (bail x)) q e ih = tt
      go (err panic) q e ih = e
      go (err out_of_fuel) q e ih = e

  Ends-slice : (from to : ℕ) → to ≤ length m → Ends Any (slice m from to)
  unfolding slice
  Ends-slice from to h = elim (Bool-cases (ltb (length m) to)) [
    | inl short ↦ absurd (ground arith)
    | inr fits ↦ rw fits tt
  ]

  Ends-parse_header : 20 ≤ length m → Ends Any (parse_header m tid)
  unfolding parse_header
  Ends-parse_header long =
      Ends-bind Any Any (read_u16 m 0) _ (Ends-read_u16 m 0 (omega arith)) λ kind _.
        Ends-bail_if Any (not (kind == 0x0101)) _ _ λ _.
          Ends-bind Any Any (slice m 4 8) _ (Ends-slice 4 8 (omega arith)) λ cookie _.
            Ends-bind Any Any (slice m 8 20) _ (Ends-slice 8 20 (omega arith)) λ id _.
              Ends-bail_if Any (not (eq_bytes cookie magic_cookie && eq_bytes id tid)) _ _ λ _.
                Ends-bind Any Any (read_u16 m 2) _ (Ends-read_u16 m 2 (omega arith)) λ declared _.
                  Ends-bail_if Any (ltb (length m) (20 + declared)) _ _
                    λ fits. Ends-scan (20 + declared) declared 20 (ground arith) (omega arith)

  Ends-parse : Ends Any (parse_binding_response m tid)
  unfolding parse_binding_response
  Ends-parse =
      Ends-if Any (ltb (length m) 20) _ (parse_header m tid) (λ short. tt)
        (λ long. Ends-parse_header (ground arith))

Ends-ne :
    {A : Type 0} (P : A → Type 0) (r : Result Stop A)
    → Ends P r
    → (r ≢ err panic) × (r ≢ err out_of_fuel)
Ends-ne P (ok a) h = (λ e. cc, λ e. cc)
Ends-ne P (err (bail x)) h = (λ e. cc, λ e. cc)
Ends-ne P (err panic) h = absurd h
Ends-ne P (err out_of_fuel) h = absurd h

-- On every message, with a transaction id of twelve bytes, the parser reads nothing out of bounds
-- and its loop ends within the fuel given.
pub parse_binding_response_total :
    (message transaction_id : Bytes)
    → length transaction_id ≡ 12
    → (parse_binding_response message transaction_id ≢ err panic)
      × (parse_binding_response message transaction_id ≢ err out_of_fuel)
parse_binding_response_total message transaction_id h =
    Ends-ne Any (parse_binding_response message transaction_id)
      (Ends-parse message transaction_id h)
