-- ===== src/Protocol/Patterns.antt =====
-- The regular expressions of endpoint/protocol.py as tests of a text. `match` with a pattern that
-- ends in `$` also accepts a text with one more line break at its end; `fullmatch` does not.
use Prim.Native.String.{[], ◌∷◌}
use endpoint_protocol.Prelude.{
  ℕ, String, code, Bool, false, not, ◌&&◌, ◌||◌, leb, eqb, if◌then◌else◌, text_length, every_char,
  is_alnum, is_lower, is_digit,
}

-- `[class]{low,high}` over the whole text.
unfoldable pub matches_class : (ℕ → Bool) → ℕ → ℕ → String → Bool
unfolding every_char text_length
matches_class p low high s = every_char p s && (leb low (text_length s) && leb (text_length s) high)

abbrev pub newline : ℕ
newline = 0x0a

-- `s` without one line break at its end, if it has one.
unfoldable pub chomp : String → String
chomp [] = []
chomp (c ∷ []) = if eqb (code c) newline then [] else c ∷ []
chomp (c ∷ d ∷ s) = c ∷ chomp (d ∷ s)

abbrev pub is_username_char : ℕ → Bool
is_username_char c = is_alnum c || (eqb c b'.' || (eqb c b'_' || eqb c b'-'))

-- `USERNAME_RE.match(s)`: `^[A-Za-z0-9._-]{1,64}$`
unfoldable pub is_username : String → Bool
unfolding matches_class chomp
is_username s = matches_class is_username_char 1 64 (chomp s)

abbrev is_field_char : ℕ → Bool
is_field_char c = is_alnum c || (eqb c b'_' || (eqb c b'.' || (eqb c b':' || eqb c b'-')))

-- `SAFE_FIELD_RE.match(s)`: `^[A-Za-z0-9_.:-]{1,128}$`
unfoldable pub is_safe_field : String → Bool
unfolding matches_class chomp
is_safe_field s = matches_class is_field_char 1 128 (chomp s)

abbrev is_type_char : ℕ → Bool
is_type_char c = is_field_char c || eqb c b'/'

-- `CONTENT_TYPE_RE.fullmatch(s)`: `^[A-Za-z0-9][A-Za-z0-9_.:/-]{0,63}$`
unfoldable pub is_content_type : String → Bool
unfolding matches_class
is_content_type [] = false
is_content_type (c ∷ s) = is_alnum (code c) && matches_class is_type_char 0 63 s

-- What follows `ep1:`; "" where the text does not begin so.
abbrev pub after_ep1 : String → String
after_ep1 (a ∷ b ∷ c ∷ d ∷ s) =
    if eqb (code a) b'e' && (eqb (code b) b'p' && (eqb (code c) b'1' && eqb (code d) b':'))
    then s
    else ""
after_ep1 _ = ""

-- `[a-z2-7]`
abbrev is_base32 : ℕ → Bool
is_base32 c = is_lower c || (leb b'2' c && leb c b'7')

-- `FINGERPRINT_RE.fullmatch(s)`: `^ep1:(?:[a-z2-7]{32}|[a-z2-7]{52})$`
unfoldable pub is_fingerprint : String → Bool
unfolding matches_class
is_fingerprint s =
    let encoded = after_ep1 s in
    matches_class is_base32 32 32 encoded || matches_class is_base32 52 52 encoded

-- `re.fullmatch(r"[0-9a-f]{64}", s)`
abbrev is_hex : ℕ → Bool
is_hex c = is_digit c || (leb b'a' c && leb c b'f')

unfoldable pub is_sha256 : String → Bool
unfolding matches_class
is_sha256 s = matches_class is_hex 64 64 s

-- `reject_controls`: is there a character below 0x20, or 0x7F?
abbrev pub is_plain_char : ℕ → Bool
is_plain_char c = leb 0x20 c && not (eqb c 0x7f)
