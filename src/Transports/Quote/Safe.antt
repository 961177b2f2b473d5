-- ===== src/Transports/Quote/Safe.antt =====
-- A quoted text is made of unreserved characters and `%`, and unreserved text is left alone.
use mcp_portal.Base.{
  Bool, Bool-cases, Text, [], all, all-append, arith, flat_map, inl, inr, ltb, nat_eq, option_eq,
  refl, text_eq, true, ℕ, ◌%◌, ◌/◌, ◌<◌, ◌==◌, ◌||◌, ◌∷◌, ◌≡◌,
}
use mcp_portal.Transports.Quote.{hex_digit, is_unreserved, quote, quote_byte, utf8}

abbrev pub is_quoted : ℕ → Bool
is_quoted c = is_unreserved c || c == b'%'

hex_digit-quoted : (n : ℕ) → n < 16 → is_quoted (hex_digit n) ≡ true
hex_digit-quoted n h = ground arith

quote_byte-quoted : (b : ℕ) → all is_quoted (quote_byte b) ≡ true
unfolding quote_byte
quote_byte-quoted b = elim (Bool-cases (is_unreserved b)) [
  | inl e ↦ rw e (rw e)
  | inr e ↦ rw e (
      ground (
        arith,
        hex_digit-quoted (b / 16 % 16) (omega arith),
        hex_digit-quoted (b % 16) (omega arith),
      ))
]

all-flat_map :
    (p : ℕ → Bool) (f : ℕ → Text) (xs : Text)
    → ((x : ℕ) → all p (f x) ≡ true)
    → all p (flat_map f xs) ≡ true
all-flat_map p f [] h = refl
all-flat_map p f (x ∷ xs) h =
    ground (arith, all-append p (f x) (flat_map f xs), h x, all-flat_map p f xs h)

-- Whatever the value, its encoding holds no character that ends a path segment or the path.
pub quote-quoted : (s : Text) → all is_quoted (quote s) ≡ true
unfolding quote
quote-quoted s =
    all-flat_map is_quoted (λ c. flat_map quote_byte (utf8 c)) s
      λ c. all-flat_map is_quoted quote_byte (utf8 c) quote_byte-quoted

unreserved_ascii : (c : ℕ) → is_unreserved c ≡ true → ltb c 128 ≡ true
unreserved_ascii c h = ground arith

quote_char_unreserved : (c : ℕ) → is_unreserved c ≡ true → flat_map quote_byte (utf8 c) ≡ c ∷ []
unfolding utf8 quote_byte
quote_char_unreserved c h = rw (unreserved_ascii c h) (rw h)

-- A text of unreserved characters is its own encoding, the dot segments `.` and `..` included.
pub quote_unreserved : (s : Text) → all is_unreserved s ≡ true → quote s ≡ s
unfolding quote
quote_unreserved [] h = refl
quote_unreserved (c ∷ s) h = ground (arith, quote_char_unreserved c, quote_unreserved s)
