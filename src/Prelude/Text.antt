-- ===== src/Prelude/Text.antt =====
-- Python's `str.strip`, `str.lower` and `str.upper`. The case methods are those on ASCII letters:
-- the texts that they meet are role names, settings and HTTP methods, all ASCII.
use Prim.Native.Nat.{ℕ, ◌-◌}
use Prim.Native.Char.{Char, code}
use Prim.Native.String.{String, char_at}
use mathlib.Core.List.{List, [], ◌∷◌}
use mathlib.Core.Bool.{true, false, Bool, ◌&&◌, ◌||◌}
use text.Mathlib.Text.{◌==◌ as str_eq}
use package.ai_kubernetes_troublesho.Prelude.Tests.{leb, if◌then◌else◌, nat_test}

-- `str.isspace` of one character
unfoldable pub is_space : ℕ → Bool
is_space c =
    leb 9 c && leb c 13
    || leb 28 c && leb c 32
    || nat_test c 133
    || nat_test c 160
    || nat_test c 5760
    || leb 8192 c && leb c 8202
    || nat_test c 8232
    || nat_test c 8233
    || nat_test c 8239
    || nat_test c 8287
    || nat_test c 12288

lstrip : String → String
lstrip String.[] = String.[]
lstrip (String.◌∷◌ c s) = if is_space (code c) then lstrip s else String.◌∷◌ c s

rstrip : String → String
rstrip String.[] = String.[]
rstrip (String.◌∷◌ c s) =
    let r = rstrip s in if is_space (code c) && str_eq r "" then String.[] else String.◌∷◌ c r

unfoldable pub strip : String → String
unfolding is_space lstrip rstrip
strip s = rstrip (lstrip s)

lower_char : Char → Char
lower_char c =
    if leb 65 (code c) && leb (code c) 90
    then char_at "abcdefghijklmnopqrstuvwxyz" (code c - 65)
    else c

upper_char : Char → Char
upper_char c =
    if leb 97 (code c) && leb (code c) 122
    then char_at "ABCDEFGHIJKLMNOPQRSTUVWXYZ" (code c - 97)
    else c

unfoldable pub lower : String → String
unfolding lower_char
lower String.[] = String.[]
lower (String.◌∷◌ c s) = String.◌∷◌ (lower_char c) (lower s)

unfoldable pub upper : String → String
unfolding upper_char
upper String.[] = String.[]
upper (String.◌∷◌ c s) = String.◌∷◌ (upper_char c) (upper s)

-- `text.split(separator)` and `text.partition(separator)`, for a separator of one character
prepend : Char → List String → List String
prepend c [] = String.◌∷◌ c String.[] ∷ []
prepend c (part ∷ parts) = String.◌∷◌ c part ∷ parts

unfoldable pub split : ℕ → String → List String
unfolding prepend
split sep String.[] = String.[] ∷ []
split sep (String.◌∷◌ c s) =
    let rest = split sep s in if nat_test (code c) sep then String.[] ∷ rest else prepend c rest

-- The part before, whether the separator was found, and the part after.
unfoldable pub partition : ℕ → String → String × Bool × String
partition sep String.[] = (String.[], false, String.[])
partition sep (String.◌∷◌ c s) =
    let (before, found, rest) = partition sep s in
    if nat_test (code c) sep then (String.[], true, s) else (String.◌∷◌ c before, found, rest)
