-- ===== src/Cli/Quote.antt =====
-- A quoted text is one word of a POSIX shell, with nothing expanded in it.
use quiczilla.Prelude.{
  ℕ, ◌≡◌, ap, ◌∙◌, Bool, true, false, Option, none, some, [], ◌∷◌, ◌++◌, ◌==◌, if◌then◌else◌, arith,
  Bool-cases, inl, inr,
}
use mathlib.Core.List.{append_assoc}
use mathlib.Core.Option
use quiczilla.Paths.{Text}
use quiczilla.Cli.{escape_quotes, shell_quote}

-- The quoting that a shell is in (POSIX, 2.2): none, single quotes, double quotes.
pub data Mode : Type 0 where
  bare single double : Mode

-- A character that has no meaning to the shell between double quotes.
abbrev pub is_literal : ℕ → Bool
is_literal c =
    if c == 36
    then false
    else if c == 96
    then false
    else if c == 92
    then false
    else if c == 34
    then false
    else true

-- The word that a shell reads up to an unquoted space or the end: its text, and what follows.
-- `none` is a text with an open quote, or one where the shell would do more than remove quotes.
unfoldable pub shell_word : Mode → Text → Option (Text × Text)
shell_word bare [] = some ([], [])
shell_word mode [] = none
shell_word bare (c ∷ s) =
    let in_single = shell_word single s in
    let in_double = shell_word double s in
    if c == 39
    then in_single
    else if c == 34
    then in_double
    else if c == 32
    then some ([], c ∷ s)
    else none
shell_word single (c ∷ s) =
    let outside = shell_word bare s in
    let inside = shell_word single s in
    if c == 39 then outside else Option.map (λ r. (c ∷ r.0, r.1)) inside
shell_word double (c ∷ s) =
    let outside = shell_word bare s in
    let inside = shell_word double s in
    if c == 34
    then outside
    else if is_literal c
    then Option.map (λ r. (c ∷ r.0, r.1)) inside
    else none

escape-word :
    (value rest : Text)
    → shell_word bare rest ≡ some ([], rest)
    → shell_word single (escape_quotes value ++ (39 ∷ rest)) ≡ some (value, rest)
unfolding shell_word
escape-word [] rest h = h
escape-word (c ∷ s) rest h = elim (Bool-cases (c == 39)) [
  | inl quote ↦ rw quote (
      ap (Option.map (λ (r : Text × Text). (39 ∷ r.0, r.1))) (escape-word s rest h)
      ∙ ap (λ k. some (k ∷ s, rest)) (ground arith))
  | inr other ↦ rw other (
      rw (other, shell_word)
        (ap (Option.map (λ (r : Text × Text). (c ∷ r.0, r.1))) (escape-word s rest h)))
]

-- Whatever text is quoted, and with an argument after it or not: a shell reads it as one word that
-- is the text itself, and nothing of it is expanded or ends the word.
pub shell_word-shell_quote :
    (value rest : Text)
    → shell_word bare rest ≡ some ([], rest)
    → shell_word bare (shell_quote value ++ rest) ≡ some (value, rest)
unfolding shell_word shell_quote
shell_word-shell_quote value rest h =
    ap (shell_word single) (append_assoc (escape_quotes value) (39 ∷ []) rest)
    ∙ escape-word value rest h
