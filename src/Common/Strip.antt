-- ===== src/Common/Strip.antt =====
-- `str.strip()` and slices of Python's texts, over the characters of a native text.
use Prim.Native.Char.{Char, code}
use campo_sig.Common.Tests.{leb, ◌==◌, if◌then◌else◌, truthy}
use Prim.Native.Nat.{ℕ, zero, suc}
use Prim.Native.String.{String}
use mathlib.Core.Bool.{Bool, true, false, ◌&&◌, ◌||◌}
use mathlib.Core.Option.{Option, none, some}

-- The characters for which `str.isspace()` holds.
unfoldable pub is_space : ℕ → Bool
is_space c =
    (leb 9 c && leb c 13)
    || (leb 28 c && leb c 32)
    || c == 133
    || c == 160
    || c == 5760
    || (leb 8192 c && leb c 8202)
    || c == 8232
    || c == 8233
    || c == 8239
    || c == 8287
    || c == 12288

unfoldable pub lstrip : String → String
unfolding is_space
lstrip String.[] = String.[]
lstrip (String.◌∷◌ c s) = let rest = lstrip s in if is_space (code c) then rest else String.◌∷◌ c s

-- A character is dropped where it is white space and nothing is left behind it.
abbrev pub keep_left : Char → String → String
keep_left c String.[] = if is_space (code c) then String.[] else String.◌∷◌ c String.[]
keep_left c (String.◌∷◌ d s) = String.◌∷◌ c (String.◌∷◌ d s)

unfoldable pub rstrip : String → String
unfolding is_space
rstrip String.[] = String.[]
rstrip (String.◌∷◌ c s) = keep_left c (rstrip s)

unfoldable pub strip : String → String
unfolding lstrip rstrip
strip s = lstrip (rstrip s)

-- `s[:n]`
unfoldable pub prefix : ℕ → String → String
prefix zero s = String.[]
prefix (suc n) String.[] = String.[]
prefix (suc n) (String.◌∷◌ c s) = String.◌∷◌ c (prefix n s)

-- `not reason or not reason.strip()`
unfoldable pub is_blank : Option String → Bool
unfolding strip truthy
is_blank none = true
is_blank (some s) = if truthy (some (strip s)) then false else true

abbrev pub strip_of : Option String → String
strip_of none = ""
strip_of (some s) = strip s
