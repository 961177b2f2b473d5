-- ===== src/Transports/Common.antt =====
-- transports/common.py: retry timing and response mapping. Times are whole milliseconds, where the
-- source has seconds as floats, and a test on `budget - elapsed` is written as a sum.
use mcp_portal.Base.{
  Bool, List, Option, Text, [], all, contains, drop, false, if◌then◌else◌, is_empty, leb, length,
  ltb, min, nat_eq, none, not, option_eq, some, starts_with, take, text, text_eq, true, ℕ, ◌&&◌,
  ◌*◌, ◌++◌, ◌+◌, ◌-◌, ◌==◌, ◌^◌, ◌||◌, ◌∷◌,
}
use mcp_portal.Platform.{is_digit}

abbrev pub max_attempts : ℕ
max_attempts = 3

abbrev pub backoff_base_ms : ℕ
backoff_base_ms = 100

abbrev pub retry_after_cap_ms : ℕ
retry_after_cap_ms = 10000

unfoldable pub is_retryable_status : ℕ → Bool
is_retryable_status status = (status == 502 || (status == 503 || status == 504)) || status == 429

-- `text.endswith(suffix)`
abbrev pub ends_with : Text → Text → Bool
ends_with s suffix = drop (length s - length suffix) s == suffix && leb (length suffix) (length s)

unfoldable pub is_textual : Text → Bool
is_textual content_type =
    if is_empty content_type
    then true
    else if starts_with content_type (text "text/")
    then true
    else contains (text "application/json" ∷ text "application/xml" ∷ text "application/yaml" ∷ [])
        content_type
      || (ends_with content_type (text "+json") || ends_with content_type (text "+xml"))

-- `float(header)` of a text of ASCII digits.
unfoldable pub decimal : ℕ → Text → ℕ
decimal n [] = n
decimal n (c ∷ s) = decimal (n * 10 + (c - b'0')) s

-- `text.isdigit()`, for ASCII
abbrev pub all_digits : Text → Bool
all_digits s = not (is_empty s) && all is_digit s

-- The delay of a `Retry-After`, where the status lets it be trusted.
unfoldable pub trusted_delay : Option ℕ → Option Text → Option ℕ
trusted_delay none header = none
trusted_delay (some status) none = none
trusted_delay (some status) (some header) =
    if status == 429 && all_digits header
    then some (min (decimal 0 header * 1000) retry_after_cap_ms)
    else none

-- `jitter` is the draw of `random.uniform` for a bound.
unfoldable pub retry_delay_ms : (ℕ → ℕ) → ℕ → Option ℕ → Option Text → ℕ
retry_delay_ms jitter attempt status header = elim (trusted_delay status header) [
  | some delay ↦ delay
  | none ↦ jitter (backoff_base_ms * 2 ^ attempt)
]

-- The displayed text of a response body, and whether it was cut. The decodings are parameters:
-- `decode` is that of the first bytes, `placeholder` the text that stands for bytes which are not
-- shown, and `marker` the note behind a cut text.
pub record BodyTexts : Type 0 where
  pub decode : List ℕ → Text
  pub placeholder : ℕ → Text → Text
  pub marker : ℕ → ℕ → Text

unfoldable pub map_body : BodyTexts → List ℕ → Text → ℕ → Option Text → Text × Bool
map_body texts raw content_type cap decoded_text =
    if not (is_textual content_type)
    then (texts.placeholder (length raw) content_type, false)
    else if leb (length raw) cap
    then (elim decoded_text [ none ↦ texts.decode raw | some t ↦ t ], false)
    else (texts.decode (take cap raw) ++ texts.marker (length raw) cap, true)

-- The wait before a retry: the delay that is slept, or `none` when the budget cannot fund it
-- together with the attempt that it buys. `elapsed` is the time since the loop started.
unfoldable pub wait_for_retry : Option ℕ → ℕ → ℕ → ℕ → Option ℕ
wait_for_retry max_total_ms timeout_ms elapsed delay = elim max_total_ms [
  | none ↦ some delay
  | some budget ↦ if ltb budget (delay + timeout_ms + elapsed) then none else some delay
]
