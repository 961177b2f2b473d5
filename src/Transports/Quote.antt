-- ===== src/Transports/Quote.antt =====
-- `urllib.parse.quote` and `urlencode` over UTF-8, from their documentation.
pub mod Safe
use mcp_portal.Base.{
  Bool, List, Text, [], flat_map, if◌then◌else◌, join, leb, ltb, map, nat_eq, option_eq, text,
  text_eq, ℕ, ◌%◌, ◌&&◌, ◌++◌, ◌+◌, ◌-◌, ◌/◌, ◌==◌, ◌||◌, ◌∷◌,
}

-- The bytes of `chr(c).encode()`; a lone surrogate, which Python refuses, is not told apart.
unfoldable pub utf8 : ℕ → List ℕ
utf8 c =
    if ltb c 0x80
    then c ∷ []
    else if ltb c 0x800
    then (192 + c / 64) ∷ (128 + c % 64) ∷ []
    else if ltb c 0x10000
    then (224 + c / 4096) ∷ (128 + c / 64 % 64) ∷ (128 + c % 64) ∷ []
    else (240 + c / 262144) ∷ (128 + c / 4096 % 64) ∷ (128 + c / 64 % 64) ∷ (128 + c % 64) ∷ []

-- `[A-Za-z0-9_.~-]`, RFC 3986's unreserved characters
abbrev pub is_unreserved : ℕ → Bool
is_unreserved c =
    (leb b'A' c && leb c b'Z')
    || ((leb b'a' c && leb c b'z')
        || ((leb b'0' c && leb c b'9') || (c == b'_' || (c == b'.' || (c == b'~' || c == b'-')))))

abbrev pub hex_digit : ℕ → ℕ
hex_digit n = if ltb n 10 then b'0' + n else b'A' + (n - 10)

unfoldable pub quote_byte : ℕ → Text
quote_byte b =
    if is_unreserved b then b ∷ [] else b'%' ∷ hex_digit (b / 16 % 16) ∷ hex_digit (b % 16) ∷ []

-- `quote(text, safe="")`
unfoldable pub quote : Text → Text
quote s = flat_map (λ c. flat_map quote_byte (utf8 c)) s

-- `quote_plus(text)`
unfoldable pub quote_plus : Text → Text
quote_plus s = flat_map (λ c. if c == b' ' then b'+' ∷ [] else flat_map quote_byte (utf8 c)) s

-- `urlencode(pairs)`
unfoldable pub urlencode : List (Text × Text) → Text
urlencode pairs = join (text "&") (map (λ (k, v). quote_plus k ++ (b'=' ∷ quote_plus v)) pairs)
