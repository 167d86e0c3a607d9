-- ===== src/Security/Evidence/Sensitive.antt =====
-- The regular expressions `sensitiveKey` and `sensitiveValue` of
-- packages/security/src/security.ts, on a text in lower case.
use page2web_mcp.Common.{ℕ, Bool, true, false, ◌&&◌, ◌||◌, not, List, [], ◌∷◌, ◌==◌, any, some_and}
use page2web_mcp.Common.Text.{codes, is_alnum, after_prefix}
use page2web_mcp.Common.Pattern.{contains, lower}
use page2web_mcp.Security.Ipv4.{is_space, trim_start}

-- The words of both expressions.
abbrev secret_words : List (List ℕ)
secret_words =
    codes "authorization"
    ∷ codes "cookie"
    ∷ codes "password"
    ∷ codes "token"
    ∷ codes "secret"
    ∷ codes "csrf"
    ∷ codes "otp"
    ∷ codes "session"
    ∷ []

-- The words of `sensitiveKey` alone, with each of their separators.
abbrev key_words : List (List ℕ)
key_words =
    codes "apikey"
    ∷ codes "api-key"
    ∷ codes "api_key"
    ∷ codes "credentials"
    ∷ codes "privatekey"
    ∷ codes "private-key"
    ∷ codes "private_key"
    ∷ []

-- `sensitiveKey.test(key)`
unfoldable pub is_sensitive_key : List ℕ → Bool
unfolding contains lower
is_sensitive_key key =
    let k = lower key in any (λ w. contains w k) secret_words || any (λ w. contains w k) key_words

-- `\s*[:=]`
abbrev assigns : List ℕ → Bool
unfolding trim_start
assigns s = elim (trim_start s) [ [] ↦ false | c ∷ cs ↦ c == b':' || c == b'=' ]

-- `\s+\S+`
abbrev spaced : List ℕ → Bool
unfolding trim_start
spaced [] = false
spaced (c ∷ cs) = is_space c && elim (trim_start cs) [ [] ↦ false | d ∷ ds ↦ true ]

-- `\w`
abbrev is_word : ℕ → Bool
is_word c = is_alnum c || c == b'_'

-- The expression at one place, after a code unit of a word or not.
unfoldable pub matches_here : Bool → List ℕ → Bool
unfolding after_prefix assigns spaced
matches_here after_word s =
    any (λ w. some_and (after_prefix w s) assigns) secret_words
    || (not after_word && some_and (after_prefix (codes "bearer") s) spaced)

unfoldable pub matches_after : Bool → List ℕ → Bool
unfolding matches_here
matches_after after_word [] = matches_here after_word []
matches_after after_word (c ∷ cs) = matches_here after_word (c ∷ cs) || matches_after (is_word c) cs

-- `sensitiveValue.test(value)`
unfoldable pub is_sensitive_value : List ℕ → Bool
unfolding matches_after lower
is_sensitive_value value = matches_after false (lower value)
