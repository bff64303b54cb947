-- ===== src/Prelude/Utf8.antt =====
-- `String::from_utf8`: which byte strings are UTF-8 (RFC 3629, as the standard library checks it).
use quiczilla.Prelude.Tests.{ltb, leb, ◌==◌, if◌then◌else◌}
use quiczilla.Prelude.Bytes.{Bytes}
use Prim.Native.Nat.{ℕ}
use mathlib.Core.Path.{◌≡◌, refl}
use mathlib.Core.Bool.{Bool, true, false, ◌&&◌}
use mathlib.Core.Option.{Option, none, some}
use mathlib.Core.List.{List, [], ◌∷◌}

abbrev continuation : ℕ × ℕ
continuation = (0x80, 0xBF)

-- The ranges of the bytes that follow a first byte.
pub following : ℕ → Option (List (ℕ × ℕ))
following b =
    if ltb b 0x80
    then some []
    else if ltb b 0xC2
    then none
    else if ltb b 0xE0
    then some (continuation ∷ [])
    else if b == 0xE0
    then some ((0xA0, 0xBF) ∷ continuation ∷ [])
    else if b == 0xED
    then some ((0x80, 0x9F) ∷ continuation ∷ [])
    else if ltb b 0xF0
    then some (continuation ∷ continuation ∷ [])
    else if b == 0xF0
    then some ((0x90, 0xBF) ∷ continuation ∷ continuation ∷ [])
    else if ltb b 0xF4
    then some (continuation ∷ continuation ∷ continuation ∷ [])
    else if b == 0xF4
    then some ((0x80, 0x8F) ∷ continuation ∷ continuation ∷ [])
    else none

pub utf8_from : List (ℕ × ℕ) → Bytes → Bool
utf8_from [] [] = true
utf8_from (r ∷ rs) [] = false
utf8_from [] (b ∷ s) = elim (following b) [ none ↦ false | some rs ↦ utf8_from rs s ]
utf8_from ((lo, hi) ∷ rs) (b ∷ s) = (leb lo b && leb b hi) && utf8_from rs s

unfoldable pub is_utf8 : Bytes → Bool
unfolding following utf8_from
is_utf8 s = utf8_from [] s

pub is_utf8-nil : is_utf8 [] ≡ true
unfolding is_utf8
is_utf8-nil = refl
