-- ===== src/Worker/Thumbprints.antt =====
-- The thumbprints that `main` of worker/src/main.rs allows, and whom they let in.
use quiczilla.Prelude.{
  ℕ, ◌≡◌, ◌≢◌, refl, ap, sym, ◌∙◌, Bool, true, false, ◌||◌, ◌&&◌, not, Option, none, some, List, [],
  ◌∷◌, ◌++◌, Result, ok, err, ◌>>=◌, arith, leb, ◌==◌, if◌then◌else◌, length, any, Bool-cases,
  Result-cases, inl, inr, ok_inj,
}
use quiczilla.Prelude.Bytes.{eq_bytes, eq_bytes_iff}
use quiczilla.Paths.{Text, trim_matches}
use quiczilla.Cert.{
  ThumbprintError, no_authorization, normalize_thumbprint, eq_ignore_ascii_case, verify_client_cert,
}

-- `char::is_whitespace`: the property White_Space.
abbrev pub is_whitespace : ℕ → Bool
is_whitespace c =
    (leb 0x09 c && leb c 0x0D)
    || ((c == 0x20)
        || ((c == 0x85)
            || ((c == 0xA0)
                || ((c == 0x1680)
                    || ((leb 0x2000 c && leb c 0x200A)
                        || ((c == 0x2028)
                            || ((c == 0x2029)
                                || ((c == 0x202F) || ((c == 0x205F) || (c == 0x3000))))))))))

-- `line.trim()`
abbrev pub trim : Text → Text
trim line = trim_matches is_whitespace line

abbrev pub starts_with_hash : Text → Bool
starts_with_hash [] = false
starts_with_hash (c ∷ s) = c == b'#'

-- A line that is neither empty nor a comment.
abbrev pub is_entry : Text → Bool
is_entry trimmed = not (length trimmed == 0) && not (starts_with_hash trimmed)

-- `allowed_thumbprints.contains(&thumbprint)`
abbrev pub contains : List Text → Text → Bool
contains allowed t = any (λ u. eq_bytes u t) allowed

module _ (to_uppercase : Text → Text) where
  -- The loop over the lines of the file.
  pub read_lines : List Text → List Text → Result ThumbprintError (List Text)
  read_lines allowed [] = ok allowed
  read_lines allowed (line ∷ lines) =
      let skip = read_lines allowed lines in
      if is_entry (trim line)
      then (do
        t ← normalize_thumbprint to_uppercase (trim line)
        read_lines (if contains allowed t then allowed else allowed ++ (t ∷ [])) lines)
      else skip

  abbrev pub of_file : Option (List Text) → Result ThumbprintError (List Text)
  of_file none = ok []
  of_file (some lines) = read_lines [] lines

  abbrev pub of_argument : List Text → Text → Result ThumbprintError (List Text)
  of_argument allowed [] = ok allowed
  of_argument allowed (c ∷ s) = do
    t ← normalize_thumbprint to_uppercase (c ∷ s)
    ok (allowed ++ (t ∷ []))

  abbrev pub demand : List Text → Result ThumbprintError (List Text)
  demand [] = err no_authorization
  demand (t ∷ allowed) = ok (t ∷ allowed)

  -- From the lines of the file, if there is one, and the expected thumbprint.
  unfoldable pub allowed_thumbprints :
      Option (List Text) → (expected : Text) → Result ThumbprintError (List Text)
  unfolding read_lines
  allowed_thumbprints file expected = do
    of_lines ← of_file file
    allowed ← of_argument of_lines expected
    demand allowed

  -- Does this entry let the certificate in?
  abbrev pub entry_accepts : Text → Text → Bool
  entry_accepts actual entry = elim (normalize_thumbprint to_uppercase entry) [
    | ok t ↦ eq_ignore_ascii_case actual t
    | err e ↦ false
  ]

  -- The entries of the file, and then the argument.
  abbrev pub file_entries : List Text → List Text
  file_entries [] = []
  file_entries (line ∷ lines) =
      if is_entry (trim line) then trim line ∷ file_entries lines else file_entries lines

  abbrev pub entries : Option (List Text) → Text → List Text
  entries none [] = []
  entries none (c ∷ s) = (c ∷ s) ∷ []
  entries (some lines) [] = file_entries lines
  entries (some lines) (c ∷ s) = file_entries lines ++ ((c ∷ s) ∷ [])

  any-append : (p : Text → Bool) (xs ys : List Text) → any p (xs ++ ys) ≡ any p xs || any p ys
  any-append p [] ys = refl
  any-append p (x ∷ xs) ys = ground (arith, any-append p xs ys)

  any-contains :
      (p : Text → Bool) (allowed : List Text) (t : Text)
      → contains allowed t ≡ true
      → any p allowed ≡ any p allowed || p t
  any-contains p [] t h = cc
  any-contains p (u ∷ allowed) t h = elim (Bool-cases (eq_bytes u t)) [
    | inl same ↦ ground (arith, ap p ((eq_bytes_iff u t).0 same))
    | inr other ↦ ground (arith, any-contains p allowed t)
  ]

  abbrev matches : Text → Text → Bool
  matches actual t = eq_ignore_ascii_case actual t

  push-accepts :
      (actual t : Text) (allowed : List Text)
      → any (matches actual) (if contains allowed t then allowed else allowed ++ (t ∷ []))
        ≡ any (matches actual) allowed || matches actual t
  push-accepts actual t allowed = elim (Bool-cases (contains allowed t)) [
    | inl there ↦ rw there (any-contains (matches actual) allowed t there)
    | inr new ↦ rw new (ground (arith, any-append (matches actual) allowed (t ∷ [])))
  ]

  entry_accepts-ok :
      (actual entry t : Text)
      → normalize_thumbprint to_uppercase entry ≡ ok t
      → entry_accepts actual entry ≡ matches actual t
  entry_accepts-ok actual entry t e = rw (e, entry_accepts) refl

  or_assoc : (a b c : Bool) → (a || b) || c ≡ a || (b || c)
  or_assoc a b c = ground arith

  read_lines-accepts :
      (actual : Text) (lines allowed result : List Text)
      → read_lines allowed lines ≡ ok result
      → any (matches actual) result
        ≡ any (matches actual) allowed || any (entry_accepts actual) (file_entries lines)
  unfolding read_lines
  read_lines-accepts actual [] allowed result h =
      ap (any (matches actual)) (sym (ok_inj h)) ∙ or_false (any (matches actual) allowed)
    where
      or_false : (b : Bool) → b ≡ b || false
      or_false b = ground arith
  read_lines-accepts actual (line ∷ lines) allowed result h =
      elim (Bool-cases (is_entry (trim line))) [
        | inr skip ↦
            rw skip (read_lines-accepts actual lines allowed result (rw (skip, read_lines) at h))
        | inl taken ↦ elim (Result-cases (normalize_thumbprint to_uppercase (trim line))) [
          | inr (x, e) ↦ absurd (cc (rw (taken, e, read_lines) at h))
          | inl (t, e) ↦ rw taken (
              read_lines-accepts actual lines _ result (rw (taken, e, read_lines) at h)
              ∙ ap (λ b. b || any (entry_accepts actual) (file_entries lines))
                  (push-accepts actual t allowed)
              ∙ or_assoc (any (matches actual) allowed) (matches actual t) _
              ∙ ap
                  (λ b.
                    any (matches actual) allowed
                    || (b || any (entry_accepts actual) (file_entries lines)))
                  (sym (entry_accepts-ok actual (trim line) t e)))
        ]
      ]

  of_argument-accepts :
      (actual : Text) (allowed result : List Text) (expected : Text)
      → of_argument allowed expected ≡ ok result
      → any (matches actual) result
        ≡ any (matches actual) allowed || any (entry_accepts actual) (entries none expected)
  of_argument-accepts actual allowed result [] h = ground (arith, ok_inj h)
  of_argument-accepts actual allowed result (c ∷ s) h =
      elim (Result-cases (normalize_thumbprint to_uppercase (c ∷ s))) [
        | inr (x, e) ↦ absurd (cc (rw e at h))
        | inl (t, e) ↦
            ap (any (matches actual)) (sym (ok_inj (rw e at h)))
            ∙ any-append (matches actual) allowed (t ∷ [])
            ∙ ap (λ b. any (matches actual) allowed || (b || false))
                (sym (entry_accepts-ok actual (c ∷ s) t e))
      ]

  demand-eq :
      (allowed result : List Text) → demand allowed ≡ ok result → (allowed ≡ result) × (result ≢ [])
  demand-eq [] result h = cc
  demand-eq (t ∷ allowed) result h = (ok_inj h, λ e. cc (ok_inj h ∙ e))

  of_file-accepts :
      (actual : Text) (file : Option (List Text)) (result : List Text)
      → of_file file ≡ ok result
      → any (matches actual) result ≡ any (entry_accepts actual) (entries file [])
  of_file-accepts actual none result h = ap (any (matches actual)) (sym (ok_inj h))
  of_file-accepts actual (some lines) result h = read_lines-accepts actual lines [] result h

  entries-accepts :
      (actual : Text) (file : Option (List Text)) (expected : Text)
      → any (entry_accepts actual) (entries file expected)
        ≡ any (entry_accepts actual) (entries file [])
          || any (entry_accepts actual) (entries none expected)
  entries-accepts actual none [] = refl
  entries-accepts actual none (c ∷ s) = refl
  entries-accepts actual (some lines) [] = ground arith
  entries-accepts actual (some lines) (c ∷ s) =
      any-append (entry_accepts actual) (file_entries lines) ((c ∷ s) ∷ [])

  -- If the worker starts, it allows at least one thumbprint, and a certificate is let in exactly if
  -- a line of the file that is no comment, or the expected thumbprint, normalizes to the
  -- certificate's, whatever the case of its letters: dropping repeated lines changes nothing.
  pub verify_client_cert-allowed :
      (actual : Text) (file : Option (List Text)) (expected : Text) (allowed : List Text)
      → allowed_thumbprints file expected ≡ ok allowed
      → (allowed ≢ [])
        × (verify_client_cert allowed actual ≡ any (entry_accepts actual) (entries file expected))
  unfolding allowed_thumbprints verify_client_cert
  verify_client_cert-allowed actual file expected allowed h = elim (Result-cases (of_file file)) [
    | inr (x, e) ↦ absurd (cc (rw (e, allowed_thumbprints) at h))
    | inl (lines, e) ↦ elim (Result-cases (of_argument lines expected)) [
      | inr (x, e') ↦ absurd (cc (rw (e, e', allowed_thumbprints) at h))
      | inl (all, e') ↦
          let (same, some_allowed) = demand-eq all allowed (rw (e, e', allowed_thumbprints) at h) in
          (
            some_allowed,
            ap (any (matches actual)) (sym same)
                ∙ of_argument-accepts actual lines all expected e'
                ∙ ap (λ b. b || any (entry_accepts actual) (entries none expected))
                    (of_file-accepts actual file lines e)
                ∙ sym (entries-accepts actual file expected),
          )
    ]
  ]
