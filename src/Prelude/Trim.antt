-- ===== src/Prelude/Trim.antt =====
-- The language's `String.prototype.trim` and `length`.
use Prim.Native.Nat.{ℕ, ◌+◌}
use Prim.Native.String.{String, [], ◌∷◌}
use Prim.Native.Char.{Char, code}
use mathlib.Core.Bool.{Bool, true, false, ◌&&◌, ◌||◌}
use codex_everywhere.Prelude.Tests.{leb, ◌==◌, if◌then◌else◌}

abbrev between : ℕ → ℕ → ℕ → Bool
between a b n = leb a n && leb n b

-- White space and line ends, by their numbers: U+0009 to U+000D, the space, U+00A0, U+1680, U+2000 to
-- U+200A, U+2028, U+2029, U+202F, U+205F, U+3000, U+FEFF.
abbrev pub is_blank : Char → Bool
is_blank c =
    between 9 13 (code c)
    || (code c == 32
        || (code c == 160
            || (code c == 5760
                || (between 8192 8202 (code c)
                    || (between 8232 8233 (code c)
                        || (code c == 8239
                            || (code c == 8287 || (code c == 12288 || code c == 65279))))))))

abbrev pub is_empty : String → Bool
is_empty [] = true
is_empty (c ∷ s) = false

unfoldable pub trim_end : String → String
trim_end [] = []
trim_end (c ∷ s) = let rest = trim_end s in if is_empty rest && is_blank c then [] else c ∷ rest

unfoldable pub trim : String → String
unfolding trim_end
trim [] = []
trim (c ∷ s) = let rest = trim s in if is_blank c then rest else trim_end (c ∷ s)

-- `length` counts the UTF-16 code units of a text.
unfoldable pub utf16_length : String → ℕ
utf16_length [] = 0
utf16_length (c ∷ s) = (if leb 65536 (code c) then 2 else 1) + utf16_length s
