-- ===== src/Base/Text.antt =====
-- What the sources use of Go's `strings`: TrimSpace, Split on one separator, and the order `<`.
-- The order of `String` goes by code points, which for UTF-8 is Go's order by bytes.
use Prim.Native.Nat.{ℕ}
use Prim.Native.Char.{Char, code}
use Prim.Native.String.{String, compare}
use Prim.Native.String.compare
use mathlib.Core.Path.{◌≡◌, refl, ◌∙◌, ap₂}
use mathlib.Core.Bool.{Bool, true, false, ◌&&◌, ◌||◌}
use mathlib.Core.List.{List, [], ◌∷◌}
use native.Mathlib.Omega.{arith}
use text.Mathlib.Text.{◌==◌ as str_eq, is_lt}
use text.Mathlib.TextEquality.{Char-path}
use fast_task.Base.Tests.{leb, ltb, ◌==◌, if◌then◌else◌}

-- unicode.IsSpace.
unfoldable pub is_space : ℕ → Bool
is_space c =
    leb 9 c && leb c 13
    || c == 32
    || c == 0x85
    || c == 0xa0
    || c == 0x1680
    || leb 0x2000 c && leb c 0x200a
    || c == 0x2028
    || c == 0x2029
    || c == 0x202f
    || c == 0x205f
    || c == 0x3000

unfoldable pub trim_left : String → String
unfolding is_space
trim_left String.[] = ""
trim_left (String.◌∷◌ c s) =
    let rest = trim_left s in if is_space (code c) then rest else String.◌∷◌ c s

-- A space goes with the rest where nothing of the rest stays.
unfoldable pub trim_right : String → String
unfolding is_space
trim_right String.[] = ""
trim_right (String.◌∷◌ c s) =
    let rest = trim_right s in if is_space (code c) && str_eq rest "" then "" else String.◌∷◌ c rest

-- strings.TrimSpace.
unfoldable pub trim_space : String → String
unfolding trim_left trim_right
trim_space s = trim_right (trim_left s)

-- strings.TrimSpace(s) == "".
abbrev pub is_blank : String → Bool
is_blank s = str_eq (trim_space s) ""

add_char : Char → List String → List String
add_char c [] = String.◌∷◌ c "" ∷ []
add_char c (piece ∷ pieces) = String.◌∷◌ c piece ∷ pieces

-- strings.Split(s, sep) for a separator of one character.
unfoldable pub split : ℕ → String → List String
unfolding add_char
split sep String.[] = "" ∷ []
split sep (String.◌∷◌ c s) =
    let pieces = split sep s in if code c == sep then "" ∷ pieces else add_char c pieces

-- `s < t` on strings.
abbrev pub str_lt : String → String → Bool
str_lt s t = is_lt (compare s t)

trims : trim_space "  ab c\n" ≡ "ab c"
unfolding trim_space
trims = refl

splits : split b',' "a,,b" ≡ "a" ∷ "" ∷ "b" ∷ []
unfolding split
splits = refl

orders : str_lt "task_10" "task_2" ≡ true
orders = refl

str_lt-nil : (s : String) → str_lt s "" ≡ false
str_lt-nil String.[] = refl
str_lt-nil (String.◌∷◌ c s) = λ i. is_lt (compare.cons-nil c s i)

str_lt-nil_cons : (d : Char) (t : String) → str_lt "" (String.◌∷◌ d t) ≡ true
str_lt-nil_cons d t = λ i. is_lt (compare.nil-cons d t i)

-- One step of the lexicographic order.
str_lt-cons :
    (c d : Char) (s t : String)
    → str_lt (String.◌∷◌ c s) (String.◌∷◌ d t)
      ≡ (ltb (code c) (code d) || (code c == code d) && str_lt s t)
str_lt-cons c d s t = (λ i. is_lt (compare.cons-cons c d s t i)) ∙ ground arith

pub str_lt_asym : (s t : String) → str_lt s t ≡ true → str_lt t s ≡ false
str_lt_asym s String.[] h = cc (str_lt-nil s)
str_lt_asym String.[] (String.◌∷◌ d t) h = str_lt-nil (String.◌∷◌ d t)
str_lt_asym (String.◌∷◌ c s) (String.◌∷◌ d t) h =
    ground (arith, str_lt_asym s t, str_lt-cons c d s t, str_lt-cons d c t s)

pub str_ge_trans : (s t u : String) → str_lt t s ≡ false → str_lt u t ≡ false → str_lt u s ≡ false
str_ge_trans String.[] t u h k = str_lt-nil u
str_ge_trans (String.◌∷◌ c s) String.[] u h k = cc (str_lt-nil_cons c s)
str_ge_trans (String.◌∷◌ c s) (String.◌∷◌ d t) String.[] h k = cc (str_lt-nil_cons d t)
str_ge_trans (String.◌∷◌ c s) (String.◌∷◌ d t) (String.◌∷◌ e u) h k =
    ground
      (arith, str_ge_trans s t u, str_lt-cons d c t s, str_lt-cons e d u t, str_lt-cons e c u s)

-- Two texts that do not precede one another are the same.
pub str_lt_total : (s t : String) → str_lt s t ≡ false → str_lt t s ≡ false → s ≡ t
str_lt_total String.[] String.[] h k = refl
str_lt_total String.[] (String.◌∷◌ d t) h k = cc (str_lt-nil_cons d t)
str_lt_total (String.◌∷◌ c s) String.[] h k = cc (str_lt-nil_cons c s)
str_lt_total (String.◌∷◌ c s) (String.◌∷◌ d t) h k =
    ap₂ String.◌∷◌ (Char-path c d (ground (arith, str_lt-cons c d s t, str_lt-cons d c t s))) (
      str_lt_total s t (ground (arith, str_lt-cons c d s t, str_lt-cons d c t s))
        (ground (arith, str_lt-cons c d s t, str_lt-cons d c t s)))
