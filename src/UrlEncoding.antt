-- ===== src/UrlEncoding.antt =====
-- core/util/URLEncoding.cxx: percent encoding. The loops read and write the bytes of a `std::string`; the constructor of
-- UTF8String, which validates, makes the text that is returned.
use openkit_native.Prelude.{
  Bool, List, [], false, if◌then◌else◌, leb, ltb, not, true, ℕ, ◌%◌, ◌&&◌, ◌*◌, ◌++◌, ◌+◌, ◌-◌, ◌/◌,
  ◌==◌, ◌||◌, ◌∷◌,
}
pub mod Plain
pub mod RoundTrip
use openkit_native.Text.{Utf8String}
use openkit_native.Text.Validation.{utf8_string}

unfoldable pub contains : ℕ → List ℕ → Bool
contains c [] = false
contains c (d ∷ ds) = (c == d) || contains c ds

-- `UNRESERVED_CHARACTERS_RFC3986`: A to Z, a to z, 0 to 9, and - _ . ~
unfoldable pub unreserved_characters : List ℕ
unreserved_characters =
    65 ∷ 66 ∷ 67 ∷ 68 ∷ 69 ∷ 70 ∷ 71 ∷ 72 ∷ 73 ∷ 74 ∷ 75 ∷ 76 ∷ 77 ∷ 78 ∷ 79 ∷ 80 ∷ 81 ∷ 82 ∷ 83
    ∷ 84 ∷ 85 ∷ 86 ∷ 87 ∷ 88 ∷ 89 ∷ 90 ∷ 97 ∷ 98 ∷ 99 ∷ 100 ∷ 101 ∷ 102 ∷ 103 ∷ 104 ∷ 105 ∷ 106
    ∷ 107 ∷ 108 ∷ 109 ∷ 110 ∷ 111 ∷ 112 ∷ 113 ∷ 114 ∷ 115 ∷ 116 ∷ 117 ∷ 118 ∷ 119 ∷ 120 ∷ 121 ∷ 122
    ∷ 48 ∷ 49 ∷ 50 ∷ 51 ∷ 52 ∷ 53 ∷ 54 ∷ 55 ∷ 56 ∷ 57 ∷ 45 ∷ 95 ∷ 46 ∷ 126 ∷ []

abbrev pub percent_sign : ℕ
percent_sign = 37

-- `HEX_CHARACTERS`: 0 to 9, then A to F
unfoldable pub hex_character : ℕ → ℕ
hex_character d = if ltb d 10 then 48 + d else 55 + d

unfoldable pub is_copied : List ℕ → ℕ → Bool
is_copied additional c = contains c unreserved_characters && not (contains c additional)

-- the loop of `urlencode`
unfoldable pub encode_bytes : List ℕ → List ℕ → List ℕ
encode_bytes additional [] = []
encode_bytes additional (c ∷ cs) =
    let rest = encode_bytes additional cs in
    if is_copied additional c
    then c ∷ rest
    else percent_sign ∷ hex_character (c / 16 % 16) ∷ hex_character (c % 16) ∷ rest

unfoldable pub urlencode : List ℕ → Utf8String → Utf8String
unfolding utf8_string encode_bytes
urlencode additional s = utf8_string (encode_bytes additional s.bytes)

-- `std::isxdigit`
unfoldable pub is_hex_digit : ℕ → Bool
is_hex_digit c = (leb 48 c && leb c 57) || (leb 65 c && leb c 70) || (leb 97 c && leb c 102)

-- the value of one digit in `stoi` to the base 16
unfoldable pub hex_value : ℕ → ℕ
hex_value c = if leb c 57 then c - 48 else if leb c 70 then c - 55 else c - 87

-- The two bytes after a percent sign; 63 is the question mark.
unfoldable pub decode_pair : ℕ → ℕ → List ℕ
decode_pair a b =
    if is_hex_digit a && is_hex_digit b
    then (16 * hex_value a + hex_value b) % 256 ∷ []
    else 63 ∷ a ∷ b ∷ []

-- The loop of `urldecode`: a percent sign without two bytes behind it ends it.
unfoldable pub decode_bytes : List ℕ → List ℕ
decode_bytes [] = []
decode_bytes (c ∷ []) = if c == percent_sign then [] else c ∷ []
decode_bytes (c ∷ a ∷ []) = if c == percent_sign then [] else c ∷ decode_bytes (a ∷ [])
decode_bytes (c ∷ a ∷ b ∷ rest) = elim (c == percent_sign) [
  | true ↦ decode_pair a b ++ decode_bytes rest
  | false ↦ c ∷ decode_bytes (a ∷ b ∷ rest)
]

unfoldable pub urldecode : Utf8String → Utf8String
unfolding utf8_string decode_bytes
urldecode s = utf8_string (decode_bytes s.bytes)
