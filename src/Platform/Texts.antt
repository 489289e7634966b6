-- ===== src/Platform/Texts.antt =====
-- The methods of JavaScript's `String` that the modules use, and `normalizeCurrency` of
-- src/modules/money/domain.ts.
use Prim.Native.Char.{Char, code}
use Prim.Native.String.{[], ◌∷◌, ◌++◌}
use mathlib.Core.List.{List}
use text.Mathlib.Text.{◌==◌ as str_eq}
use wasla_core.Base.{
  ℕ, zero, suc, ◌+◌, ◌-◌, String, Option, none, some, Bool, true, false, not, ◌&&◌, ◌||◌, leb, ◌==◌,
  if◌then◌else◌,
}

-- White space and line ends, as `trim` strips them.
is_space : ℕ → Bool
is_space c =
    (leb 0x09 c && leb c 0x0d)
    || c == 0x20
    || c == 0xa0
    || c == 0x1680
    || (leb 0x2000 c && leb c 0x200a)
    || c == 0x2028
    || c == 0x2029
    || c == 0x202f
    || c == 0x205f
    || c == 0x3000
    || c == 0xfeff

is_blank : String → Bool
unfolding is_space
is_blank [] = true
is_blank (c ∷ s) = is_space (code c) && is_blank s

trim_end : String → String
unfolding is_blank
trim_end [] = []
trim_end (c ∷ s) = let rest = trim_end s in if is_blank (c ∷ s) then [] else c ∷ rest

trim_start : String → String
unfolding is_space
trim_start [] = []
trim_start (c ∷ s) = let rest = trim_start s in if is_space (code c) then rest else c ∷ s

-- `s.trim()`
unfoldable pub trim : String → String
unfolding trim_start trim_end
trim s = trim_end (trim_start s)

-- `!s.trim()`
unfoldable pub is_empty_text : String → Bool
unfolding trim
is_empty_text s = str_eq (trim s) ""

-- Whether an optional text is truthy: there and not empty.
abbrev pub is_truthy : Option String → Bool
is_truthy none = false
is_truthy (some s) = not (str_eq s "")

-- The capital letter with a code point from 65 to 90.
capital : ℕ → List String → String
capital n List.[] = ""
capital zero (List.◌∷◌ s ss) = s
capital (suc n) (List.◌∷◌ s ss) = capital n ss

abbrev alphabet : String → List String
alphabet [] = List.[]
alphabet (c ∷ s) = List.◌∷◌ (c ∷ []) (alphabet s)

-- `toUpperCase` of a character, where the result is made of the letters A to Z: for the ASCII letters,
-- and for the few others whose upper case is. The rest is kept, and no code accepts it.
upper : Char → String
unfolding capital
upper ch =
    let c = code ch in
    if leb 97 c && leb c 122
    then capital (c - 97) (alphabet "ABCDEFGHIJKLMNOPQRSTUVWXYZ")
    else if c == 0x131
    then "I"
    else if c == 0x17f
    then "S"
    else if c == 0xdf
    then "SS"
    else if c == 0xfb00
    then "FF"
    else if c == 0xfb01
    then "FI"
    else if c == 0xfb02
    then "FL"
    else if c == 0xfb03
    then "FFI"
    else if c == 0xfb04
    then "FFL"
    else if c == 0xfb05 || c == 0xfb06
    then "ST"
    else ch ∷ []

to_upper : String → String
unfolding upper
to_upper [] = []
to_upper (c ∷ s) = upper c ++ to_upper s

abbrev is_capital : Char → Bool
is_capital c = leb 65 (code c) && leb (code c) 90

-- `/^[A-Z]{3}$/`
unfoldable pub is_currency : String → Bool
is_currency (a ∷ b ∷ c ∷ []) = is_capital a && is_capital b && is_capital c
is_currency _ = false

-- `normalizeCurrency`; `none` is its `Error`.
unfoldable pub normalize_currency : String → Option String
unfolding trim to_upper is_currency
normalize_currency value =
    let currency = to_upper (trim value) in if is_currency currency then some currency else none

-- `length`: a character beyond the first plane counts as two.
unfoldable pub text_length : String → ℕ
text_length [] = 0
text_length (c ∷ s) = (if leb 0x10000 (code c) then 2 else 1) + text_length s

-- `startsWith`
unfoldable pub starts_with : String → String → Bool
starts_with s [] = true
starts_with [] (d ∷ t) = false
starts_with (c ∷ s) (d ∷ t) = code c == code d && starts_with s t
