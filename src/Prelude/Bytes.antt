-- ===== src/Prelude/Bytes.antt =====
-- Byte strings as lists of numbers below 256: big-endian integers, comparison, literals, and exact
-- reads from the bytes of a stream.
use Prim.Native.Nat.{ℕ, zero, suc, ◌+◌, ◌*◌, ◌/◌, ◌%◌, ◌^◌, ◌<◌}
use Prim.Native.Char.{code}
use Prim.Native.String.{String}
use mathlib.Core.Path.{◌≡◌, refl, ap}
use mathlib.Core.Bool.{Bool, true, false, ◌&&◌}
use mathlib.Core.Option
use mathlib.Core.Option.{Option, none, some}
use mathlib.Core.List.{List, [], ◌∷◌, ◌++◌}
use mathlib.Core.Logic.{◌↔◌, inl, inr}
use native.Mathlib.Nat.{pow-suc}
use native.Mathlib.Omega.{arith}
use quiczilla.Prelude.Tests.{Option-cases, some_inj, ◌==◌}
use quiczilla.Prelude.Lists.{length, length-append}

abbrev pub Bytes : Type 0
Bytes = List ℕ

abbrev pub IsByte : ℕ → Type 0
IsByte b = b < 256

abbrev pub IsU64 : ℕ → Type 0
IsU64 n = n < 2 ^ 64

-- The bytes of an ASCII text.
abbrev pub codes : String → Bytes
codes String.[] = []
codes (String.◌∷◌ c s) = code c ∷ codes s

-- `n.to_be_bytes()` of a `w`-byte integer.
unfoldable pub be_bytes : ℕ → ℕ → Bytes
be_bytes zero n = []
be_bytes (suc w) n = be_bytes w (n / 256) ++ (n % 256 ∷ [])

-- `from_be_bytes(bytes)`
unfoldable pub from_be : ℕ → Bytes → ℕ
from_be acc [] = acc
from_be acc (b ∷ bs) = from_be (acc * 256 + b) bs

from_be-append :
    (acc : ℕ) (bs : Bytes) (b : ℕ) → from_be acc (bs ++ (b ∷ [])) ≡ from_be acc bs * 256 + b
unfolding from_be
from_be-append acc [] b = refl
from_be-append acc (x ∷ bs) b = from_be-append (acc * 256 + x) bs b

pub from_be-be_bytes : (w n : ℕ) → n < 256 ^ w → from_be 0 (be_bytes w n) ≡ n
unfolding be_bytes
from_be-be_bytes zero n h = unfold from_be in omega arith
from_be-be_bytes (suc w) n h = omega (
  arith,
  from_be-append 0 (be_bytes w (n / 256)) (n % 256),
  from_be-be_bytes w (n / 256) (omega (arith, pow-suc 256 w)),
)

pub length-be_bytes : (w n : ℕ) → length (be_bytes w n) ≡ w
unfolding be_bytes
length-be_bytes zero n = refl
length-be_bytes (suc w) n =
    omega (arith, length-append (be_bytes w (n / 256)) (n % 256 ∷ []), length-be_bytes w (n / 256))

-- `==` of two byte strings or `str`s.
abbrev pub eq_bytes : Bytes → Bytes → Bool
eq_bytes [] [] = true
eq_bytes (x ∷ xs) (y ∷ ys) = (x == y) && eq_bytes xs ys
eq_bytes _ _ = false

-- `s.strip_prefix(p)`
abbrev pub strip_prefix : Bytes → Bytes → Option Bytes
strip_prefix [] s = some s
strip_prefix (c ∷ p) [] = none
strip_prefix (c ∷ p) (d ∷ s) = elim (c == d) [ true ↦ strip_prefix p s | false ↦ none ]

pub strip_prefix-append : (p s : Bytes) → strip_prefix p (p ++ s) ≡ some s
strip_prefix-append [] s = refl
strip_prefix-append (c ∷ p) s = ground (arith, strip_prefix-append p s)

pub strip_prefix-eq_some : (p s r : Bytes) → strip_prefix p s ≡ some r → s ≡ p ++ r
strip_prefix-eq_some [] s r e = some_inj e
strip_prefix-eq_some (c ∷ p) [] r e = cc
strip_prefix-eq_some (c ∷ p) (d ∷ s) r e = ground (arith, strip_prefix-eq_some p s r)

pub eq_bytes_iff : (a b : Bytes) → (eq_bytes a b ≡ true) ↔ (a ≡ b)
eq_bytes_iff [] [] = ground arith
eq_bytes_iff [] (y ∷ b) = ground arith
eq_bytes_iff (x ∷ a) [] = ground arith
eq_bytes_iff (x ∷ a) (y ∷ b) = ground (arith, eq_bytes_iff a b)

-- `read_exact` of `n` bytes; `none` is `UnexpectedEof`.
unfoldable pub read_exact : ℕ → Bytes → Option (Bytes × Bytes)
read_exact zero s = some ([], s)
read_exact (suc n) [] = none
read_exact (suc n) (b ∷ s) = Option.map (λ r. (b ∷ r.0, r.1)) (read_exact n s)

pub read_exact-append :
    (n : ℕ) (xs s : Bytes) → length xs ≡ n → read_exact n (xs ++ s) ≡ some (xs, s)
unfolding read_exact
read_exact-append zero [] s h = refl
read_exact-append zero (x ∷ xs) s h = absurd (omega arith)
read_exact-append (suc n) [] s h = absurd (omega arith)
read_exact-append (suc n) (x ∷ xs) s h =
    ap (Option.map (λ (r : Bytes × Bytes). (x ∷ r.0, r.1))) (read_exact-append n xs s (omega arith))

-- A read that succeeds takes the first `n` bytes.
pub read_exact-eq_some :
    (n : ℕ) (s xs rest : Bytes)
    → read_exact n s ≡ some (xs, rest)
    → (s ≡ xs ++ rest) × (length xs ≡ n)
unfolding read_exact
read_exact-eq_some zero s xs rest e = ground arith
read_exact-eq_some (suc n) [] xs rest e = cc
read_exact-eq_some (suc n) (b ∷ s) xs rest e = elim (Option-cases (read_exact n s)) [
  | inl q ↦ cc (rw q at e)
  | inr ((ys, r), q) ↦ ground (arith, rw q at e, read_exact-eq_some n s ys r q)
]

pub read_exact-short : (n : ℕ) (s : Bytes) → length s < n → read_exact n s ≡ none
unfolding read_exact
read_exact-short zero s h = elim h [ ]
read_exact-short (suc n) [] h = refl
read_exact-short (suc n) (b ∷ s) h = rw (read_exact-short n s (omega arith))

pub read_exact-length : (s : Bytes) → read_exact (length s) s ≡ some (s, [])
unfolding read_exact
read_exact-length [] = refl
read_exact-length (b ∷ s) =
    ap (Option.map (λ (r : Bytes × Bytes). (b ∷ r.0, r.1))) (read_exact-length s)
