-- ===== src/Cert.antt =====
-- core/src/cert.rs: `normalize_thumbprint`, and the decision of `verify_client_cert`. The SHA-1 of a
-- certificate and the upper case of Unicode are arguments.
use quiczilla.Prelude.{
  ℕ, ◌+◌, Bool, true, false, ◌||◌, ◌&&◌, not, List, [], ◌∷◌, Result, ok, err, leb, ◌==◌,
  if◌then◌else◌, length, all, any,
}
use quiczilla.Paths.{Text}

pub data ThumbprintError : Type 0 where
  not_forty_hexadecimal no_authorization : ThumbprintError

-- `c.is_ascii_whitespace()`
abbrev pub is_ascii_whitespace : ℕ → Bool
is_ascii_whitespace c =
    (c == 0x20) || ((c == 0x09) || ((c == 0x0A) || ((c == 0x0C) || (c == 0x0D))))

abbrev pub is_ascii_hexdigit : ℕ → Bool
is_ascii_hexdigit c =
    (leb 0x30 c && leb c 0x39) || ((leb 0x41 c && leb c 0x46) || (leb 0x61 c && leb c 0x66))

abbrev pub keep_significant : Text → Text
keep_significant [] = []
keep_significant (c ∷ s) =
    if is_ascii_whitespace c || (c == b':') then keep_significant s else c ∷ keep_significant s

-- The length is that of a text whose characters are all ASCII, or the text is refused.
unfoldable pub normalize_thumbprint :
    (to_uppercase : Text → Text) → Text → Result ThumbprintError Text
normalize_thumbprint to_uppercase value =
    let normalized = to_uppercase (keep_significant value) in
    if not (length normalized == 40) || not (all is_ascii_hexdigit normalized)
    then err not_forty_hexadecimal
    else ok normalized

abbrev pub ascii_lowercase : ℕ → ℕ
ascii_lowercase c = if leb 0x41 c && leb c 0x5A then c + 32 else c

abbrev pub eq_ignore_ascii_case : Text → Text → Bool
eq_ignore_ascii_case [] [] = true
eq_ignore_ascii_case (c ∷ s) (d ∷ t) =
    (ascii_lowercase c == ascii_lowercase d) && eq_ignore_ascii_case s t
eq_ignore_ascii_case _ _ = false

-- With the thumbprint of the certificate.
unfoldable pub verify_client_cert : (allowed_thumbprints : List Text) → (actual : Text) → Bool
verify_client_cert allowed_thumbprints actual =
    any (λ t. eq_ignore_ascii_case actual t) allowed_thumbprints
