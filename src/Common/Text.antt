-- ===== src/Common/Text.antt =====
-- The regular expressions that the program tests its texts against. Each is anchored at both ends
-- and speaks of ASCII only, so it is read over code points.
use Prim.Native.Nat.{ℕ, ◌+◌}
use Prim.Native.Char.{code}
use Prim.Native.String.{String}
use mathlib.Core.Bool.{Bool, true, false, ◌&&◌, ◌||◌}
use mathlib.Core.Option.{Option, none, some}
use mathlib.Core.List.{List, [], ◌∷◌, ◌++◌}
use page2web_mcp.Common.Tests.{leb, ◌==◌, if◌then◌else◌, some_and}
use page2web_mcp.Common.Lists.{length, all}

-- The code points of a text.
abbrev pub codes : String → List ℕ
codes String.[] = []
codes (String.◌∷◌ c s) = code c ∷ codes s

-- How many UTF-16 units the code points take.
unfoldable pub utf16_units : List ℕ → ℕ
utf16_units [] = 0
utf16_units (c ∷ cs) = (if leb 65536 c then 2 else 1) + utf16_units cs

-- `text.length`, for a text of Unicode scalar values.
abbrev pub utf16_length : String → ℕ
utf16_length s = utf16_units (codes s)

-- `s.replaceAll("-", "")`
unfoldable pub without_dashes : String → String
without_dashes String.[] = ""
without_dashes (String.◌∷◌ c s) =
    let rest = without_dashes s in if code c == b'-' then rest else String.◌∷◌ c rest

abbrev pub is_upper : ℕ → Bool
is_upper c = leb b'A' c && leb c b'Z'

abbrev pub is_lower : ℕ → Bool
is_lower c = leb b'a' c && leb c b'z'

abbrev pub is_digit : ℕ → Bool
is_digit c = leb b'0' c && leb c b'9'

abbrev pub is_alnum : ℕ → Bool
is_alnum c = is_upper c || is_lower c || is_digit c

-- `[0-9a-f]`
abbrev pub is_hex : ℕ → Bool
is_hex c = is_digit c || (leb b'a' c && leb c b'f')

-- `[A-Za-z0-9._:-]`
abbrev pub is_name_char : ℕ → Bool
is_name_char c = is_alnum c || c == b'.' || c == b'_' || c == b':' || c == b'-'

-- `^[head][tail]{0,most}$`
unfoldable pub headed : (ℕ → Bool) → (ℕ → Bool) → ℕ → List ℕ → Bool
headed head tail most [] = false
headed head tail most (c ∷ cs) = head c && all tail cs && leb (length cs) most

-- `^[class]{least,most}$`
unfoldable pub repeated : (ℕ → Bool) → ℕ → ℕ → List ℕ → Bool
repeated class least most cs = all class cs && leb least (length cs) && leb (length cs) most

-- What follows a fixed prefix.
unfoldable pub after_prefix : List ℕ → List ℕ → Option (List ℕ)
after_prefix [] cs = some cs
after_prefix (p ∷ ps) [] = none
after_prefix (p ∷ ps) (c ∷ cs) = if p == c then after_prefix ps cs else none

-- One test for each code point.
unfoldable pub matches_each : List (ℕ → Bool) → List ℕ → Bool
matches_each [] [] = true
matches_each (p ∷ ps) (c ∷ cs) = p c && matches_each ps cs
matches_each _ _ = false

-- `STRICT_UUID_V4`
abbrev pub is_uuid_v4 : String → Bool
unfolding matches_each
is_uuid_v4 s =
    let dash = λ (c : ℕ). c == b'-' in
    let variant = λ (c : ℕ). c == b'8' || c == b'9' || c == b'a' || c == b'b' in
    let hex3 = is_hex ∷ is_hex ∷ is_hex ∷ [] in
    let hex4 = is_hex ∷ hex3 in
    matches_each
      (hex4
        ++ hex4
        ++ dash ∷ hex4
        ++ dash ∷ (λ c. c == b'4') ∷ hex3
        ++ dash ∷ variant ∷ hex3
        ++ dash ∷ hex4
        ++ hex4
        ++ hex4)
      (codes s)

-- `/^[0-9a-f]{64}$/`
unfoldable pub is_sha256 : String → Bool
unfolding repeated
is_sha256 s = repeated is_hex 64 64 (codes s)

-- `/^urn:sha256:[0-9a-f]{64}$/`
unfoldable pub is_hash_reference : String → Bool
unfolding repeated after_prefix
is_hash_reference s =
    some_and (after_prefix (codes "urn:sha256:") (codes s)) (repeated is_hex 64 64)

-- `/^secretref:[A-Za-z0-9._:-]{1,200}$/`
unfoldable pub is_secret_reference : String → Bool
unfolding repeated after_prefix
is_secret_reference s =
    some_and (after_prefix (codes "secretref:") (codes s)) (repeated is_name_char 1 200)

-- `/^[A-Za-z0-9][A-Za-z0-9._:-]{0,most}$/`
unfoldable pub is_identifier : ℕ → String → Bool
unfolding headed
is_identifier most s = headed is_alnum is_name_char most (codes s)

-- `/^[A-Z][A-Z0-9_]{0,63}$/`
unfoldable pub is_error_code : String → Bool
unfolding headed
is_error_code s = headed is_upper (λ c. is_upper c || is_digit c || c == b'_') 63 (codes s)

-- `/^[a-z][a-z0-9_]{0,63}$/`
unfoldable pub is_reason : String → Bool
unfolding headed
is_reason s = headed is_lower (λ c. is_lower c || is_digit c || c == b'_') 63 (codes s)

-- `/^[a-z][a-z0-9._:-]{0,127}$/`
unfoldable pub is_operation : String → Bool
unfolding headed
is_operation s =
    headed is_lower
      (λ c. is_lower c || is_digit c || c == b'.' || c == b'_' || c == b':' || c == b'-') 127
      (codes s)

-- `/^[A-Za-z0-9_-]{32,128}$/`
unfoldable pub is_wait_token : String → Bool
unfolding repeated
is_wait_token s = repeated (λ c. is_alnum c || c == b'_' || c == b'-') 32 128 (codes s)

-- `/^[A-Za-z0-9][A-Za-z0-9._/-]{0,79}$/`
unfoldable pub is_version : String → Bool
unfolding headed
is_version s =
    headed is_alnum (λ c. is_alnum c || c == b'.' || c == b'_' || c == b'/' || c == b'-') 79
      (codes s)
