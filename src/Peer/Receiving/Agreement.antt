-- ===== src/Peer/Receiving/Agreement.antt =====
-- When the two hashes of a received file agree.
use quiczilla.Prelude.{◌⊎◌, inl, inr, ℕ, ◌+◌, ◌≤◌, ◌≡◌, true, [], ◌∷◌, arith, Bool-cases}
use quiczilla.Prelude.Bytes.{Bytes, codes, eq_bytes, eq_bytes_iff}
use quiczilla.Cert.{ascii_lowercase, eq_ignore_ascii_case}
use quiczilla.Peer.Receiving.Conclude.{hash_ok}

abbrev IsUpper : ℕ → Type 0
IsUpper c = (65 ≤ c) × (c ≤ 90)

-- The same byte, or the same letter in its other case.
abbrev pub SameLetter : ℕ → ℕ → Type 0
SameLetter c d = (c ≡ d) ⊎ ((IsUpper c × (d ≡ c + 32)) ⊎ (IsUpper d × (c ≡ d + 32)))

abbrev pub SameLetters : Bytes → Bytes → Type 0
SameLetters [] [] = Unit
SameLetters (c ∷ s) (d ∷ t) = SameLetter c d × SameLetters s t
SameLetters _ _ = ⊥

-- The sender has no hash, or asks for no comparison, or the receiver has none, or both are the same
-- up to the case of their letters.
abbrev pub Agrees : (expected actual : Bytes) → Type 0
Agrees expected actual =
    (expected ≡ codes "NONE")
    ⊎ ((expected ≡ codes "SKIP") ⊎ ((actual ≡ codes "NONE") ⊎ SameLetters actual expected))

same_letter : (c d : ℕ) → ascii_lowercase c ≡ ascii_lowercase d → SameLetter c d
same_letter c d e = ground arith

eq_ignore_ascii_case-SameLetters : (s t : Bytes) → eq_ignore_ascii_case s t ≡ true → SameLetters s t
eq_ignore_ascii_case-SameLetters [] [] e = tt
eq_ignore_ascii_case-SameLetters [] (d ∷ t) e = absurd (ground arith)
eq_ignore_ascii_case-SameLetters (c ∷ s) [] e = absurd (ground arith)
eq_ignore_ascii_case-SameLetters (c ∷ s) (d ∷ t) e =
    (same_letter c d (ground arith), eq_ignore_ascii_case-SameLetters s t (ground arith))

pub hash_ok-Agrees :
    (expected actual : Bytes) → hash_ok expected actual ≡ true → Agrees expected actual
unfolding hash_ok
hash_ok-Agrees expected actual e = elim (Bool-cases (eq_bytes expected (codes "NONE"))) [
  | inl p ↦ inl ((eq_bytes_iff expected (codes "NONE")).0 p)
  | inr p ↦ elim (Bool-cases (eq_bytes expected (codes "SKIP"))) [
    | inl q ↦ inr (inl ((eq_bytes_iff expected (codes "SKIP")).0 q))
    | inr q ↦ elim (Bool-cases (eq_bytes actual (codes "NONE"))) [
      | inl r ↦ inr (inr (inl ((eq_bytes_iff actual (codes "NONE")).0 r)))
      | inr r ↦
          inr (inr (inr (eq_ignore_ascii_case-SameLetters actual expected (rw (p, q, r) at e))))
    ]
  ]
]
