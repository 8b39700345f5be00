-- ===== src/Urls.antt =====
-- `urllib.parse.urlencode`, which relay/social/meta.py builds the authorization URL with. A text is the
-- list of its code points, none of which is a surrogate.
pub mod Read
use aleyacloud_relay.Base.{
  ℕ, ◌+◌, ◌-◌, ◌/◌, ◌%◌, Bool, ◌&&◌, ◌||◌, List, [], ◌∷◌, ◌++◌, ltb, leb, ◌==◌, if◌then◌else◌,
}

-- `str.encode("utf-8")` of one character.
unfoldable pub utf8_char : ℕ → List ℕ
utf8_char c =
    if ltb c 0x80
    then c ∷ []
    else if ltb c 0x800
    then (192 + c / 64) ∷ (128 + c % 64) ∷ []
    else if ltb c 0x10000
    then (224 + c / 4096) ∷ (128 + c / 64 % 64) ∷ (128 + c % 64) ∷ []
    else (240 + c / 262144) ∷ (128 + c / 4096 % 64) ∷ (128 + c / 64 % 64) ∷ (128 + c % 64) ∷ []

unfoldable pub utf8 : List ℕ → List ℕ
utf8 [] = []
utf8 (c ∷ s) = utf8_char c ++ utf8 s

-- Letters, digits and `_.-~` stand for themselves.
unfoldable pub is_safe : ℕ → Bool
is_safe b =
    (leb b'a' b && leb b b'z')
    || ((leb b'A' b && leb b b'Z')
        || ((leb b'0' b && leb b b'9') || (b == b'_' || (b == b'.' || (b == b'-' || b == b'~')))))

unfoldable pub hex_digit : ℕ → ℕ
hex_digit n = if ltb n 10 then b'0' + n else b'A' - 10 + n

unfoldable pub quote_byte : ℕ → List ℕ
quote_byte b =
    if is_safe b
    then b ∷ []
    else if b == b' '
    then b'+' ∷ []
    else b'%' ∷ hex_digit (b / 16) ∷ hex_digit (b % 16) ∷ []

unfoldable pub quote_bytes : List ℕ → List ℕ
quote_bytes [] = []
quote_bytes (b ∷ s) = quote_byte b ++ quote_bytes s

-- `quote_plus`
unfoldable pub quote_plus : List ℕ → List ℕ
quote_plus s = quote_bytes (utf8 s)

unfoldable pub encode_pair : List ℕ × List ℕ → List ℕ
encode_pair (name, value) = quote_plus name ++ (b'=' ∷ quote_plus value)

-- `"&".join(...)`
unfoldable pub urlencode : List (List ℕ × List ℕ) → List ℕ
urlencode [] = []
urlencode (p ∷ []) = encode_pair p
urlencode (p ∷ ps) = encode_pair p ++ (b'&' ∷ urlencode ps)
