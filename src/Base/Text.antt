-- ===== src/Base/Text.antt =====
-- The methods of Python's `str` that the program uses, over ASCII letters and white space.
use Prim.Native.Nat.{ℕ, zero, suc, ◌+◌, ◌/◌, ◌%◌, ◌<◌, compare, Ordering}
use Prim.Native.Char.{Char, char, code, nul, IsScalar}
use Prim.Native.String.{String, ◌++◌}
use mathlib.Core.Path.{◌≡◌, refl}
use mathlib.Core.Logic.{dite}
use mathlib.Core.Option.{Option, none, some}
use mathlib.Core.Bool.{Bool, ◌&&◌, ◌||◌}
use native.Mathlib.Omega.{arith}
use native.Mathlib.Decide.{dec_lt}
use mcm_engine.Base.Tests.{string_eq, nat_eq, ltb, leb, ◌==◌, if◌then◌else◌}

compare-lt : (n m : ℕ) → n < m → compare n m ≡ Ordering.lt
compare-lt n m h = ground arith

pub IsScalar-of_lt : (n : ℕ) → n < 55296 → IsScalar n
IsScalar-of_lt n h = rw (compare-lt n 55296 h) tt

-- `chr(n)`, below the surrogates
chr : ℕ → Char
unfolding dec_lt
chr n = dite (dec_lt n 55296) (λ h. char n (IsScalar-of_lt n h)) (λ _. nul)

lower_char : Char → Char
unfolding chr
lower_char c = if leb 65 (code c) && leb (code c) 90 then chr (code c + 32) else c

-- `s.lower()`
unfoldable pub lower : String → String
unfolding lower_char
lower String.[] = String.[]
lower (String.◌∷◌ c s) = String.◌∷◌ (lower_char c) (lower s)

-- `c.isspace()`
is_space : Char → Bool
is_space c = (leb 9 (code c) && leb (code c) 13) || (leb 28 (code c) && leb (code c) 32)

unfoldable pub lstrip : String → String
unfolding is_space
lstrip String.[] = String.[]
lstrip (String.◌∷◌ c s) = let rest = lstrip s in if is_space c then rest else String.◌∷◌ c s

unfoldable pub rstrip : String → String
unfolding is_space
rstrip String.[] = String.[]
rstrip (String.◌∷◌ c s) =
    let rest = rstrip s in if is_space c && rest == "" then String.[] else String.◌∷◌ c rest

-- `s.strip()`
unfoldable pub strip : String → String
unfolding lstrip rstrip
strip s = rstrip (lstrip s)

strip_example : strip (lower "  Build\tLOG \n") ≡ "build\tlog"
unfolding strip lower
strip_example = refl

-- What follows a prefix, if the text begins with it.
unfoldable pub strip_prefix : String → String → Option String
strip_prefix String.[] s = some s
strip_prefix (String.◌∷◌ c p) String.[] = none
strip_prefix (String.◌∷◌ c p) (String.◌∷◌ d s) =
    let rest = strip_prefix p s in if code c == code d then rest else none

-- `s.endswith(t)`
unfoldable pub ends_with : String → String → Bool
ends_with String.[] t = t == ""
ends_with (String.◌∷◌ c s) t = String.◌∷◌ c s == t || ends_with s t

-- Python's `a or b`, for texts
unfoldable pub or_text : String → String → String
or_text a b = if a == "" then b else a

digits : ℕ → ℕ → String
unfolding chr
digits zero n = ""
digits (suc fuel) n =
    let high = digits fuel (n / 10) in
    (if ltb n 10 then "" else high) ++ String.◌∷◌ (chr (48 + n % 10)) ""

-- `str(n)`: a number has at most as many digits as its successor.
unfoldable pub show_nat : ℕ → String
unfolding digits
show_nat n = digits (n + 1) n

show_nat_example : show_nat 4070 ≡ "4070"
unfolding show_nat chr dec_lt
show_nat_example = refl
