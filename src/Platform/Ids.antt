-- ===== src/Platform/Ids.antt =====
-- src/platform/ids.ts. A UUID is the number that its hexadecimal digits write, so the code-unit order
-- of the canonical texts is the order of the numbers. `newId` never repeats, and is a counter.
use wasla_core.Base.{ℕ, zero, suc, ◌/◌, ◌%◌, ◌^◌, String, List, [], ◌∷◌}
use Prim.Native.String.{◌++◌}
use wasla_core.Platform.Errors.{Result, ok, err, invalid}

-- An identifier as it comes from outside: the text of a UUID, or any other text.
pub data IdText : Type 0 where
  uuid : ℕ → IdText
  malformed : String → IdText

-- `assertId`
abbrev pub assert_id : String → IdText → Result ℕ
assert_id field (uuid id) = ok id
assert_id field (malformed text) = err (invalid (field ++ " must be a UUID"))

nth : List String → ℕ → String
nth [] n = ""
nth (s ∷ ss) zero = s
nth (s ∷ ss) (suc n) = nth ss n

abbrev hex_digits : List String
hex_digits =
    "0" ∷ "1" ∷ "2" ∷ "3" ∷ "4" ∷ "5" ∷ "6" ∷ "7" ∷ "8" ∷ "9" ∷ "a" ∷ "b" ∷ "c" ∷ "d" ∷ "e" ∷ "f"
    ∷ []

-- The last `width` hexadecimal digits of a number.
hex : ℕ → ℕ → String
unfolding nth
hex zero n = ""
hex (suc width) n = hex width (n / 16) ++ nth hex_digits (n % 16)

-- The text of a UUID: 8, 4, 4, 4 and 12 digits.
unfoldable pub uuid_text : ℕ → String
unfolding hex
uuid_text n =
    hex 8 (n / 2 ^ 96)
    ++ ("-"
        ++ (hex 4 (n / 2 ^ 80)
            ++ ("-" ++ (hex 4 (n / 2 ^ 64) ++ ("-" ++ (hex 4 (n / 2 ^ 48) ++ ("-" ++ hex 12 n)))))))
