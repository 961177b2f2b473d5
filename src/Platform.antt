-- ===== src/Platform.antt =====
-- What the program takes of Python's runtime and does not implement: Unicode case mapping,
-- SHA-256, and the printed forms of JSON values. The theorems that rest on more than their types say so by `IsLawful`.
use mcp_portal.Json.{Json, str}
use mcp_portal.Base.{
  Bool, Text, all, leb, length, nat_eq, option_eq, text_eq, true, ℕ, ◌&&◌, ◌==◌, ◌||◌, ◌≡◌,
}

pub record Platform : Type 0 where
  -- `str.lower` and `str.upper`
  pub lower : Text → Text
  pub upper : Text → Text
  -- `hashlib.sha256(text.encode()).hexdigest()`
  pub sha256_hexdigest : Text → Text
  -- `str(value)` and `json.dumps(value)` of a JSON value
  pub str_value : Json → Text
  pub json_dumps : Json → Text

-- `[0-9]`, `[a-z]`, `[0-9a-f]`
abbrev pub is_digit : ℕ → Bool
is_digit c = leb b'0' c && leb c b'9'

abbrev pub is_lower_letter : ℕ → Bool
is_lower_letter c = leb b'a' c && leb c b'z'

abbrev pub is_hex : ℕ → Bool
is_hex c = is_digit c || (leb b'a' c && leb c b'f')

pub record IsLawful (py : Platform) : Type 0 where
  -- A digest has 64 hexadecimal digits.
  pub hexdigest_length : (s : Text) → length (py.sha256_hexdigest s) ≡ 64
  pub hexdigest_hex : (s : Text) → all is_hex (py.sha256_hexdigest s) ≡ true
  -- `str` of a text is the text.
  pub str_value_text : (s : Text) → py.str_value (str s) ≡ s
  -- A text of digits, `_` and lower-case letters of ASCII is its own lower case.
  pub lower_lower :
      (s : Text) → all (λ c. is_digit c || is_lower_letter c || c == b'_') s ≡ true → py.lower s ≡ s
