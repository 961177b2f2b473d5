-- ===== src/Naming/Slug.antt =====
-- `normalize` yields words of `[a-z0-9]` joined by single underscores.
use mcp_portal.Base.{
  Bool, Text, [], all, arith, false, if◌then◌else◌, is_empty, nat_eq, not, option_eq, refl, text_eq,
  true, ◌&&◌, ◌==◌, ◌||◌, ◌∷◌, ◌≡◌,
}
use mcp_portal.Naming.{is_name_char, is_word, lstrip, normalize, rstrip, sub_invalid}
use mcp_portal.Platform.{IsLawful, Platform, is_digit, is_lower_letter}

-- Whether each `_` stands between two words; the flag says that a word must begin here.
abbrev pub words_from : Bool → Text → Bool
words_from due [] = not due
words_from due (c ∷ s) =
    let word = words_from false s in
    let separator = not due && words_from true s in
    if is_word c then word else if c == b'_' then separator else false

-- Words joined by single underscores, or nothing.
abbrev pub is_slug : Text → Bool
is_slug s = is_empty s || words_from true s

-- As `words_from`, but an underscore may stand last.
abbrev tidy : Bool → Text → Bool
tidy due [] = true
tidy due (c ∷ s) =
    let word = tidy false s in
    let separator = not due && tidy true s in
    if is_word c then word else if c == b'_' then separator else false

tidy-sub_invalid : (in_run : Bool) (s : Text) → tidy in_run (sub_invalid in_run s) ≡ true
unfolding sub_invalid
tidy-sub_invalid in_run [] = refl
tidy-sub_invalid in_run (c ∷ s) = ground (arith, tidy-sub_invalid true s, tidy-sub_invalid false s)

tidy-lstrip : (due : Bool) (s : Text) → tidy due s ≡ true → tidy true (lstrip s) ≡ true
unfolding lstrip
tidy-lstrip due [] h = refl
tidy-lstrip due (c ∷ s) h = ground (arith, tidy-lstrip true s)

words-rstrip :
    (due : Bool) (s : Text)
    → tidy due s ≡ true
    → (is_empty (rstrip s) || words_from due (rstrip s)) ≡ true
unfolding rstrip
words-rstrip due [] h = refl
words-rstrip due (c ∷ s) h = ground (arith, words-rstrip true s, words-rstrip false s)

-- Whatever the text and the case mapping, a normalised text is made of `[a-z0-9]` words with one
-- underscore between two of them: none at either end and no two in a row.
pub normalize-is_slug : (py : Platform) (s : Text) → is_slug (normalize py s) ≡ true
unfolding normalize
normalize-is_slug py s =
    words-rstrip true (lstrip (sub_invalid false (py.lower s)))
      (tidy-lstrip false (sub_invalid false (py.lower s)) (tidy-sub_invalid false (py.lower s)))

sub_invalid-words : (due : Bool) (s : Text) → words_from due s ≡ true → sub_invalid due s ≡ s
unfolding sub_invalid
sub_invalid-words due [] h = refl
sub_invalid-words due (c ∷ s) h =
    ground (arith, sub_invalid-words true s, sub_invalid-words false s)

rstrip-words : (due : Bool) (s : Text) → words_from due s ≡ true → rstrip s ≡ s
unfolding rstrip
rstrip-words due [] h = refl
rstrip-words due (c ∷ s) h = ground (arith, rstrip-words true s, rstrip-words false s)

strip-slug : (s : Text) → is_slug s ≡ true → rstrip (lstrip (sub_invalid false s)) ≡ s
unfolding sub_invalid lstrip rstrip
strip-slug [] h = refl
strip-slug (c ∷ s) h = ground (arith, sub_invalid-words false s, rstrip-words false s)

words_from-chars : (due : Bool) (s : Text) → words_from due s ≡ true → all is_name_char s ≡ true
words_from-chars due [] h = refl
words_from-chars due (c ∷ s) h = ground (arith, words_from-chars true s, words_from-chars false s)

pub normalize-chars : (py : Platform) (s : Text) → all is_name_char (normalize py s) ≡ true
normalize-chars py s = chars (normalize py s) (normalize-is_slug py s)
  where
    chars : (t : Text) → is_slug t ≡ true → all is_name_char t ≡ true
    chars [] h = refl
    chars (c ∷ t) h = words_from-chars true (c ∷ t) h

-- Normalising again changes nothing, when lower case leaves `[a-z0-9_]` alone.
pub normalize_idem :
    (py : Platform) (s : Text) → IsLawful py → normalize py (normalize py s) ≡ normalize py s
unfolding normalize
normalize_idem py s lawful =
    let t = normalize py s in
    let same : py.lower t ≡ t = lawful.lower_lower t (name_chars t (normalize-chars py s)) in
    rw same (strip-slug t (normalize-is_slug py s))
  where
    name_chars :
        (t : Text)
        → all is_name_char t ≡ true
        → all (λ c. is_digit c || is_lower_letter c || c == b'_') t ≡ true
    name_chars [] h = refl
    name_chars (c ∷ t) h = ground (arith, name_chars t)
