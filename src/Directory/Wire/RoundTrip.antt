-- ===== src/Directory/Wire/RoundTrip.antt =====
-- A reader of core/src/directory.rs reads back what the writer wrote, and leaves what follows.
use quiczilla.Prelude.{
  ℕ, ◌<◌, ◌^◌, ◌≡◌, refl, ap, sym, ◌∙◌, true, [], ◌∷◌, ◌++◌, ok, length, arith, Result-cases, inl,
  inr, ok_inj,
}
use mathlib.Core.List.{append_assoc, append-nil}
use native.Mathlib.Nat.{mod-eq_of_lt}
use quiczilla.Prelude.Bytes.{
  Bytes, be_bytes, from_be-be_bytes, length-be_bytes, read_exact-append, read_exact-length,
}
use quiczilla.Prelude.Utf8.{is_utf8}
use quiczilla.Directory.Names.{validate_relative_path}
use quiczilla.Directory.Names.Valid.{IsValid, validate_relative_path_iff}
use quiczilla.Directory.Wire.{read_bytes, read_uint, read_u32, write_u32, write_path, read_path}

pub read_bytes-append : (n : ℕ) (xs s : Bytes) → length xs ≡ n → read_bytes n (xs ++ s) ≡ ok (xs, s)
unfolding read_bytes
read_bytes-append n xs s h = rw (read_exact-append n xs s h)

pub read_uint-be_bytes :
    (w n : ℕ) (s : Bytes) → n < 256 ^ w → read_uint w (be_bytes w n ++ s) ≡ ok (n, s)
unfolding read_uint
read_uint-be_bytes w n s h =
    rw (read_bytes-append w (be_bytes w n) s (length-be_bytes w n)) (rw (from_be-be_bytes w n h))

pub read_bytes-end : (xs : Bytes) → read_bytes (length xs) xs ≡ ok (xs, [])
unfolding read_bytes
read_bytes-end xs = rw read_exact-length

pub read_uint-end : (w n : ℕ) → n < 256 ^ w → read_uint w (be_bytes w n) ≡ ok (n, [])
read_uint-end w n h =
    ap (read_uint w) (sym (append-nil (be_bytes w n))) ∙ read_uint-be_bytes w n [] h

pub read_u32-write_u32 : (n : ℕ) (s : Bytes) → n < 2 ^ 32 → read_u32 (write_u32 n ++ s) ≡ ok (n, s)
unfolding read_u32 write_u32
read_u32-write_u32 n s h = read_uint-be_bytes 4 n s h

pub write_path-IsValid :
    (value : Bytes) → IsValid value → write_path value ≡ ok (write_u32 (length value) ++ value)
unfolding write_path
write_path-IsValid value h =
    rw ((validate_relative_path_iff value).1 h)
      (ap (λ n. ok (write_u32 n ++ value)) (mod-eq_of_lt (ground (arith, h.short))))

read_path-write_u32 :
    (value rest : Bytes)
    → IsValid value
    → is_utf8 value ≡ true
    → read_path ((write_u32 (length value) ++ value) ++ rest) ≡ ok (value, rest)
unfolding read_path
read_path-write_u32 [] rest h u = absurd (h.nonempty refl)
read_path-write_u32 (c ∷ s) rest h u =
    let value : Bytes = c ∷ s in
    ap read_path (append_assoc (write_u32 (length value)) value rest)
    ∙ rw (read_u32-write_u32 (length value) (value ++ rest) (ground (arith, h.short))) (
        ground (
          arith,
          h.short,
          u,
          read_bytes-append (length value) value rest refl,
          (validate_relative_path_iff value).1 h,
        ))

-- Every UTF-8 path that the sender writes is read back as it was, and exactly what follows it is
-- left.
pub read_path-write_path :
    (value wire rest : Bytes)
    → is_utf8 value ≡ true
    → write_path value ≡ ok wire
    → read_path (wire ++ rest) ≡ ok (value, rest)
unfolding write_path
read_path-write_path value wire rest u e = elim (Result-cases (validate_relative_path value)) [
  | inl (tt, v) ↦
      let valid : IsValid value = (validate_relative_path_iff value).0 v in
      ap (λ w. read_path (w ++ rest)) (ok_inj (sym e ∙ write_path-IsValid value valid))
      ∙ read_path-write_u32 value rest valid u
  | inr (x, v) ↦ absurd (cc (rw (v, write_path) at e))
]
