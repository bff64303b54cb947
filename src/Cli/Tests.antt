-- ===== src/Cli/Tests.antt =====
-- A text with a quote and an expansion in it.
use quiczilla.Prelude.{◌≡◌, refl, some, ◌++◌}
use quiczilla.Prelude.Bytes.{codes}
use quiczilla.Cli.{shell_quote}
use quiczilla.Cli.Quote.{bare, shell_word, shell_word-shell_quote}

shell_word-shell_quote_example :
    shell_word bare (shell_quote (codes "it's $(rm)") ++ codes " next")
    ≡ some (codes "it's $(rm)", codes " next")
unfolding shell_word
shell_word-shell_quote_example = shell_word-shell_quote (codes "it's $(rm)") (codes " next") refl
