-- ===== src/Base/Text.antt =====
-- Texts of the source, which is written in UTF-8, as bytes.
use Prim.Native.Nat.{ℕ, ◌+◌, ◌/◌, ◌%◌}
use Prim.Native.Char.{code}
use Prim.Native.String.{String}
use mathlib.Core.List.{List, [], ◌∷◌}
use evcp.Base.Tests.{ltb, if◌then◌else◌}
use evcp.Base.Lists.{Bytes}

unfoldable pub utf8_char : ℕ → Bytes → Bytes
utf8_char c rest =
    if ltb c 0x80
    then c ∷ rest
    else if ltb c 0x800
    then (0xc0 + c / 64) ∷ (0x80 + c % 64) ∷ rest
    else (0xe0 + c / 4096) ∷ (0x80 + c / 64 % 64) ∷ (0x80 + c % 64) ∷ rest

unfoldable pub utf8 : String → Bytes → Bytes
unfolding utf8_char
utf8 String.[] rest = rest
utf8 (String.◌∷◌ c s) rest = utf8_char (code c) (utf8 s rest)

-- String literals that stand behind one another.
unfoldable pub texts : List String → Bytes
unfolding utf8
texts [] = []
texts (s ∷ more) = utf8 s (texts more)
