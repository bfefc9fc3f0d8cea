-- ===== src/Prelude/Text.antt =====
-- The methods of `str` that the code uses. A space is one of Latin-1.
use Prim.Native.Char.{Char, code}
use Prim.Native.Nat.{ℕ, zero, suc}
use Prim.Native.String.{String, ◌++◌ as ◌<>◌}
use mathlib.Core.Bool.{Bool, true, false, ◌&&◌, ◌||◌}
use mathlib.Core.List.{List, [], ◌∷◌}
use text.Mathlib.Text.{◌==◌}
use jarvis_awf.Prelude.Tests.{if◌then◌else◌, leb, nat_eq}

abbrev pub between : ℕ → ℕ → ℕ → Bool
between a b n = leb a n && leb n b

-- `str.isspace` of a character
abbrev pub is_space : Char → Bool
is_space c = let n = code c in between 9 13 n || between 28 32 n || nat_eq n 133 || nat_eq n 160

-- `s.lstrip()`
unfoldable pub lstrip : String → String
lstrip String.[] = ""
lstrip (String.◌∷◌ c s) = let rest = lstrip s in if is_space c then rest else String.◌∷◌ c s

-- `s.rstrip()`
unfoldable pub rstrip : String → String
rstrip String.[] = ""
rstrip (String.◌∷◌ c s) =
    let rest = rstrip s in if is_space c && rest == "" then "" else String.◌∷◌ c rest

abbrev pub strip : String → String
strip s = rstrip (lstrip s)

-- `not s.strip()`
abbrev pub is_blank : String → Bool
is_blank s = strip s == ""

-- what stands before the first character with this code, and whether there is one, and what follows
unfoldable pub partition : ℕ → String → String × Bool × String
partition n String.[] = ("", false, "")
partition n (String.◌∷◌ c s) =
    let (before, found, after) = partition n s in
    if nat_eq (code c) n then ("", true, s) else (String.◌∷◌ c before, found, after)

-- `separator.join(texts)`
unfoldable pub join : String → List String → String
join separator [] = ""
join separator (s ∷ []) = s
join separator (s ∷ t ∷ ts) = s <> (separator <> join separator (t ∷ ts))

abbrev prepend : Char → List String → List String
prepend c [] = []
prepend c (s ∷ ss) = String.◌∷◌ c s ∷ ss

-- `s.split(c)` at the character with this code
unfoldable pub split : ℕ → String → List String
split n String.[] = "" ∷ []
split n (String.◌∷◌ c s) =
    let parts = split n s in if nat_eq (code c) n then "" ∷ parts else prepend c parts

-- `len(s)` and `s[:n]`
unfoldable pub text_length : String → ℕ
text_length String.[] = 0
text_length (String.◌∷◌ c s) = suc (text_length s)

unfoldable pub text_take : ℕ → String → String
text_take zero s = ""
text_take (suc n) String.[] = ""
text_take (suc n) (String.◌∷◌ c s) = String.◌∷◌ c (text_take n s)
