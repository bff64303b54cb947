-- ===== src/Control/Decimal.antt =====
-- `u64::to_string` and `str::parse::<u64>`: the decimal texts in the JSON payloads of types.rs.
use quiczilla.Prelude.{
  ℕ, zero, suc, ◌+◌, ◌-◌, ◌*◌, ◌/◌, ◌%◌, ◌^◌, ◌≤◌, ◌<◌, ◌≡◌, Bool, ◌&&◌, Option, none, some, [],
  ◌∷◌, ◌++◌, ◌∙◌, inl, inr, Bool-cases, ltb, leb, ◌==◌, if◌then◌else◌, arith,
}
use quiczilla.Prelude.Bytes.{Bytes, IsU64}
use native.Mathlib.Nat.{pow-suc}

-- The digits of `n`, at most `k + 1` of them; a u64 has at most 20.
pub digits : ℕ → ℕ → Bytes
digits zero n = (48 + n % 10) ∷ []
digits (suc k) n =
    let front = digits k (n / 10) in
    if ltb n 10 then (48 + n) ∷ [] else front ++ ((48 + n % 10) ∷ [])

-- `n.to_string()`
unfoldable pub to_string : ℕ → Bytes
unfolding digits
to_string n = digits 19 n

pub is_digit : ℕ → Bool
is_digit c = leb 48 c && leb c 57

-- Every digit is checked, and every step is checked against overflow.
pub read_digits : ℕ → Bytes → Option ℕ
unfolding is_digit
read_digits acc [] = some acc
read_digits acc (c ∷ cs) =
    let rest = read_digits (acc * 10 + (c - 48)) cs in
    if is_digit c && ltb (acc * 10 + (c - 48)) (2 ^ 64) then rest else none

-- `s.parse::<u64>()`: an optional `+`, then one digit at least.
unfoldable pub parse_u64 : Bytes → Option ℕ
unfolding read_digits
parse_u64 [] = none
parse_u64 (c ∷ []) = if c == b'+' then none else read_digits 0 (c ∷ [])
parse_u64 (c ∷ cs) = if c == b'+' then read_digits 0 cs else read_digits 0 (c ∷ cs)

read_digits-append :
    (cs : Bytes) (d acc n : ℕ)
    → read_digits acc cs ≡ some n
    → n * 10 + d < 2 ^ 64
    → d < 10
    → read_digits acc (cs ++ ((48 + d) ∷ [])) ≡ some (n * 10 + d)
unfolding read_digits
read_digits-append [] d acc n e fits small = ground arith
read_digits-append (c ∷ cs) d acc n e fits small =
    ground (arith, read_digits-append cs d (acc * 10 + (c - 48)) n)

read_digits-single : (d : ℕ) → d < 10 → read_digits 0 ((48 + d) ∷ []) ≡ some d
unfolding read_digits
read_digits-single d h = ground arith

read_digits-digits : (k n : ℕ) → n < 10 ^ suc k → IsU64 n → read_digits 0 (digits k n) ≡ some n
unfolding digits
read_digits-digits zero n h fits = ground (arith, read_digits-single n)
read_digits-digits (suc k) n h fits = ground (
  arith,
  read_digits-single n,
  read_digits-digits k (n / 10) (omega (arith, pow-suc 10 (suc k))) (omega arith),
  read_digits-append (digits k (n / 10)) (n % 10) 0 (n / 10),
)

-- A text that begins with a digit has no sign to skip.
parse_u64-digit : (c : ℕ) (cs : Bytes) → 48 ≤ c → parse_u64 (c ∷ cs) ≡ read_digits 0 (c ∷ cs)
unfolding parse_u64
parse_u64-digit c [] h = ground arith
parse_u64-digit c (d ∷ cs) h = ground arith

abbrev StartsWithDigit : Bytes → Type 0
StartsWithDigit [] = ⊥
StartsWithDigit (c ∷ cs) = 48 ≤ c

StartsWithDigit-append : (a b : Bytes) → StartsWithDigit a → StartsWithDigit (a ++ b)
StartsWithDigit-append [] b h = absurd h
StartsWithDigit-append (c ∷ a) b h = h

digits-StartsWithDigit : (k n : ℕ) → StartsWithDigit (digits k n)
unfolding digits
digits-StartsWithDigit zero n = omega arith
digits-StartsWithDigit (suc k) n = elim (Bool-cases (ltb n 10)) [
  | inl e ↦ rw e (omega arith)
  | inr e ↦ rw e (StartsWithDigit-append (digits k (n / 10)) _ (digits-StartsWithDigit k (n / 10)))
]

parse_u64-StartsWithDigit : (s : Bytes) → StartsWithDigit s → parse_u64 s ≡ read_digits 0 s
parse_u64-StartsWithDigit [] h = absurd h
parse_u64-StartsWithDigit (c ∷ cs) h = parse_u64-digit c cs h

-- Every u64 is read back from its decimal text.
pub parse_u64-to_string : (n : ℕ) → IsU64 n → parse_u64 (to_string n) ≡ some n
unfolding to_string
parse_u64-to_string n h =
    parse_u64-StartsWithDigit (digits 19 n) (digits-StartsWithDigit 19 n)
    ∙ read_digits-digits 19 n (omega arith) h

read_digits-IsU64 : (cs : Bytes) (acc n : ℕ) → IsU64 acc → read_digits acc cs ≡ some n → IsU64 n
unfolding read_digits
read_digits-IsU64 [] acc n h e = ground arith
read_digits-IsU64 (c ∷ cs) acc n h e = ground (arith, read_digits-IsU64 cs (acc * 10 + (c - 48)) n)

-- What the parser accepts fits in 64 bits.
pub parse_u64-IsU64 : (s : Bytes) (n : ℕ) → parse_u64 s ≡ some n → IsU64 n
unfolding parse_u64
parse_u64-IsU64 [] n e = cc
parse_u64-IsU64 (c ∷ []) n e = ground (arith, read_digits-IsU64 (c ∷ []) 0 n)
parse_u64-IsU64 (c ∷ d ∷ cs) n e =
    ground (arith, read_digits-IsU64 (d ∷ cs) 0 n, read_digits-IsU64 (c ∷ d ∷ cs) 0 n)
