-- ===== src/Tests/UrlEncoding.antt =====
-- core/util/URLEncoding.cxx at concrete inputs.
use openkit_native.Prelude.{All, length, ◌<◌, ◌^◌, List, [], arith, refl, ℕ, ◌∷◌, ◌≡◌}
use openkit_native.UrlEncoding.{
  contains, decode_pair, hex_character, is_copied, is_hex_digit, unreserved_characters,
  decode_bytes, encode_bytes, urldecode, urlencode,
}
use openkit_native.UrlEncoding.RoundTrip.{urldecode-urlencode}
use openkit_native.Text.Validation.Characters.{
  IsCharacter, Utf8Character, character_bytes, one, two, text_bytes,
}
use openkit_native.Text.{Utf8String}

-- the letter a, an underscore, the byte 255 and a tilde
abbrev some_bytes : List ℕ
some_bytes = 97 ∷ 95 ∷ 255 ∷ 126 ∷ []

abbrev underscore : List ℕ
underscore = 95 ∷ []

encoded_bytes : encode_bytes underscore some_bytes ≡ 97 ∷ 37 ∷ 53 ∷ 70 ∷ 37 ∷ 70 ∷ 70 ∷ 126 ∷ []
unfolding encode_bytes is_copied contains unreserved_characters hex_character
encoded_bytes = refl

cut_short : decode_bytes (97 ∷ 37 ∷ 53 ∷ []) ≡ 97 ∷ []
unfolding decode_bytes
cut_short = refl

not_hexadecimal : decode_bytes (37 ∷ 71 ∷ 53 ∷ 98 ∷ []) ≡ 63 ∷ 71 ∷ 53 ∷ 98 ∷ []
unfolding decode_bytes decode_pair is_hex_digit
not_hexadecimal = refl

-- an underscore and the two bytes of a character
abbrev some_characters : List Utf8Character
some_characters = one 95 ∷ two 0xC3 0xA4 ∷ []

some_characters-IsCharacter : All IsCharacter some_characters
unfolding IsCharacter
some_characters-IsCharacter =
    ((omega arith, omega arith), ((refl, (λ e. absurd (omega (arith, e))), refl), tt))

urldecode-urlencode_example :
    let s : Utf8String = record {
      bytes = text_bytes some_characters;
      string_length = length some_characters;
    } in
    (urldecode (urlencode underscore s) ≡ s) × ((urlencode underscore s).string_length < 2 ^ 31)
urldecode-urlencode_example =
    urldecode-urlencode underscore some_characters some_characters-IsCharacter
      (unfold text_bytes character_bytes in omega arith)
