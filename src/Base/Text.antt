-- ===== src/Base/Text.antt =====
-- `str.strip` and `text[:n]`, over the characters of a string.
use Prim.Native.Nat.{ℕ, zero, suc}
use Prim.Native.Char.{Char, code}
use Prim.Native.String.{String}
use mathlib.Core.Bool.{Bool, true, false, ◌&&◌, ◌||◌}
use goblin_dock.Base.Tests.{leb, ◌==◌, if◌then◌else◌}

-- The characters that `str.isspace` accepts.
unfoldable pub is_space : Char → Bool
is_space c =
    let n = code c in
    (leb 9 n && leb n 13)
    || (leb 28 n && leb n 32)
    || (n == 0x85)
    || (n == 0xa0)
    || (n == 0x1680)
    || (leb 0x2000 n && leb n 0x200a)
    || (n == 0x2028)
    || (n == 0x2029)
    || (n == 0x202f)
    || (n == 0x205f)
    || (n == 0x3000)

unfoldable pub lstrip : String → String
unfolding is_space
lstrip String.[] = String.[]
lstrip (String.◌∷◌ c s) = let rest = lstrip s in if is_space c then rest else String.◌∷◌ c s

unfoldable pub is_blank : String → Bool
is_blank String.[] = true
is_blank (String.◌∷◌ c s) = false

unfoldable pub rstrip : String → String
unfolding is_space is_blank
rstrip String.[] = String.[]
rstrip (String.◌∷◌ c s) =
    let rest = rstrip s in if is_blank rest && is_space c then String.[] else String.◌∷◌ c rest

unfoldable pub strip : String → String
unfolding lstrip rstrip
strip s = rstrip (lstrip s)

-- `text[:n]`
unfoldable pub take_chars : ℕ → String → String
take_chars zero s = String.[]
take_chars (suc n) String.[] = String.[]
take_chars (suc n) (String.◌∷◌ c s) = String.◌∷◌ c (take_chars n s)
