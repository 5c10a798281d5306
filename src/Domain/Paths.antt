-- ===== src/Domain/Paths.antt =====
-- domain/paths.py: an instrument key as a part of a path.
use Prim.Native.Char.{code}
use Prim.Native.String.{slice, ◌++◌}
use crytpo_data.Shared.{
  ℕ, ◌+◌, ◌/◌, ◌%◌, ◌≡◌, refl, Bool, false, ◌&&◌, ◌||◌, List, [], ◌∷◌, String, str_eq, leb, ltb,
  ◌==◌, if◌then◌else◌, contains, Result, ok, value_error, ◌>>◌, raise_if, nat_eq,
}

-- `_SAFE`: letters, digits, and `-`, `.` and `~`
abbrev is_safe : ℕ → Bool
is_safe c =
    (leb b'A' c && leb c b'Z')
    || ((leb b'a' c && leb c b'z')
        || ((leb b'0' c && leb c b'9') || contains (b'-' ∷ b'.' ∷ b'~' ∷ []) c))

-- The bytes of a code point in UTF-8.
abbrev utf8 : ℕ → List ℕ
utf8 c =
    if ltb c 128
    then c ∷ []
    else if ltb c 2048
    then (192 + c / 64) ∷ (128 + c % 64) ∷ []
    else if ltb c 65536
    then (224 + c / 4096) ∷ (128 + c / 64 % 64) ∷ (128 + c % 64) ∷ []
    else (240 + c / 262144) ∷ (128 + c / 4096 % 64) ∷ (128 + c / 64 % 64) ∷ (128 + c % 64) ∷ []

abbrev hex_digit : ℕ → String
hex_digit n = slice "0123456789ABCDEF" n (n + 1)

abbrev percent_bytes : List ℕ → String
percent_bytes [] = ""
percent_bytes (n ∷ ns) = "%" ++ hex_digit (n / 16) ++ hex_digit (n % 16) ++ percent_bytes ns

-- The bytes of a character that is not safe are not safe either, since those of two bytes or more
-- are past ASCII.
abbrev encode_text : String → String
encode_text String.[] = ""
encode_text (String.◌∷◌ c s) =
    let rest = encode_text s in
    if is_safe (code c) then String.◌∷◌ c rest else percent_bytes (utf8 (code c)) ++ rest

abbrev has_nul : String → Bool
has_nul String.[] = false
has_nul (String.◌∷◌ c s) = code c == 0 || has_nul s

-- `encode_instrument_key`
unfoldable pub encode_instrument_key : String → Result String
encode_instrument_key key =
    raise_if (str_eq key "" || (str_eq key "." || (str_eq key ".." || has_nul key))) value_error
    >> ok (encode_text key)

encode-pair : encode_instrument_key "BTC/USDT" ≡ ok "BTC%2FUSDT"
unfolding encode_instrument_key
encode-pair = refl

encode-two_bytes : encode_instrument_key "é_" ≡ ok "%C3%A9%5F"
unfolding encode_instrument_key
encode-two_bytes = refl
