-- ===== src/UrlEncoding/RoundTrip.antt =====
-- core/util/URLEncoding.cxx: what is encoded can be decoded.
use mathlib.Core.Bool.{false≢true}
use mathlib.Core.Path.{subst}
use openkit_native.Prelude.{
  All, All-append, ap, length, ◌^◌, ==_iff, Bool-cases, List, [], arith, false, if-both, inl, inr,
  refl, sym, true, ℕ, ◌%◌, ◌*◌, ◌+◌, ◌/◌, ◌<◌, ◌==◌, ◌∙◌, ◌∷◌, ◌≡◌,
}
use openkit_native.UrlEncoding.{
  encode_bytes, decode_bytes, contains, decode_pair, hex_character, hex_value, is_copied,
  is_hex_digit, percent_sign, unreserved_characters, urldecode, urlencode,
}
use openkit_native.UrlEncoding.Plain.{encode_bytes-IsPlain, length-encode_bytes}
use openkit_native.Text.Parts.Plain.{utf8_string-plain}
use openkit_native.Text.Validation.{utf8_string}
use openkit_native.Text.Validation.Characters.{
  IsCharacter, Utf8Character, character_bytes, one, two, three, four, text_bytes,
  utf8_string-characters,
}
use openkit_native.Text.{Utf8String}

abbrev IsByte : ℕ → Type 0
IsByte c = c < 256

is_copied-percent_sign : (additional : List ℕ) → is_copied additional percent_sign ≡ false
unfolding is_copied contains unreserved_characters
is_copied-percent_sign additional = refl

copied-percent_sign :
    (additional : List ℕ) (c : ℕ) → is_copied additional c ≡ true → (c == percent_sign) ≡ false
copied-percent_sign additional c copied = elim (Bool-cases (c == percent_sign)) [
  | inl same ↦
      let e = (==_iff c percent_sign).0 same in
      absurd (
        false≢true (
          sym (is_copied-percent_sign additional)
          ∙ subst (λ x. is_copied additional x ≡ true) e copied))
  | inr other ↦ other
]

hex_digit-lem : (d : ℕ) → d < 16 → is_hex_digit (hex_character d) ≡ true
unfolding is_hex_digit hex_character
hex_digit-lem d small = ground arith

hex_value-hex_character : (d : ℕ) → d < 16 → hex_value (hex_character d) ≡ d
unfolding hex_value hex_character
hex_value-hex_character d small = ground arith

hex_values-byte : (c : ℕ) → c < 256 → (16 * (c / 16 % 16) + c % 16) % 256 ≡ c
hex_values-byte c small = omega arith

decode_pair-hex :
    (c : ℕ) → c < 256 → decode_pair (hex_character (c / 16 % 16)) (hex_character (c % 16)) ≡ c ∷ []
unfolding decode_pair
decode_pair-hex c small =
    let high : c / 16 % 16 < 16 = omega arith in
    let low : c % 16 < 16 = omega arith in
    rw (
      hex_digit-lem (c / 16 % 16) high,
      hex_digit-lem (c % 16) low,
      hex_value-hex_character (c / 16 % 16) high,
      hex_value-hex_character (c % 16) low,
      hex_values-byte c small,
    )

decode_bytes-plain :
    (c : ℕ) (rest : List ℕ)
    → (c == percent_sign) ≡ false
    → decode_bytes (c ∷ rest) ≡ c ∷ decode_bytes rest
unfolding decode_bytes
decode_bytes-plain c [] other = rw other
decode_bytes-plain c (a ∷ []) other = rw other
decode_bytes-plain c (a ∷ b ∷ rest) other = rw (decode_bytes, other)

decode_bytes-escaped :
    (c : ℕ) (rest : List ℕ)
    → c < 256
    → decode_bytes (percent_sign ∷ hex_character (c / 16 % 16) ∷ hex_character (c % 16) ∷ rest)
      ≡ c ∷ decode_bytes rest
unfolding decode_bytes
decode_bytes-escaped c rest small = rw (decode_pair-hex c small)

-- The loops give back the bytes, whatever else the caller wants escaped.
decode_bytes-encode_bytes :
    (additional cs : List ℕ) → All IsByte cs → decode_bytes (encode_bytes additional cs) ≡ cs
unfolding encode_bytes decode_bytes
decode_bytes-encode_bytes additional [] bytes = refl
decode_bytes-encode_bytes additional (c ∷ cs) (small, bytes) =
    let rest = encode_bytes additional cs in
    let before = decode_bytes-encode_bytes additional cs bytes in
    if-both (λ x. decode_bytes x ≡ c ∷ cs) (is_copied additional c)
      (λ copied.
        decode_bytes-plain c rest (copied-percent_sign additional c copied) ∙ (λ i. c ∷ before i))
      (λ escaped. decode_bytes-escaped c rest small ∙ (λ i. c ∷ before i))

character_bytes-IsByte : (c : Utf8Character) → IsCharacter c → All IsByte (character_bytes c)
unfolding character_bytes IsCharacter
character_bytes-IsByte (one a) h = (omega arith, tt)
character_bytes-IsByte (two a b) h = (omega arith, (omega arith, tt))
character_bytes-IsByte (three a b c) h = (omega arith, (omega arith, (omega arith, tt)))
character_bytes-IsByte (four a b c d) h =
    (omega arith, (omega arith, (omega arith, (omega arith, tt))))

text_bytes-IsByte : (cs : List Utf8Character) → All IsCharacter cs → All IsByte (text_bytes cs)
unfolding text_bytes
text_bytes-IsByte [] h = tt
text_bytes-IsByte (c ∷ cs) h =
    All-append IsByte (character_bytes c) (text_bytes cs) (character_bytes-IsByte c h.0)
      (text_bytes-IsByte cs h.1)

-- Whole characters that are encoded, whatever else the caller wants escaped, and decoded again give the same text, if
-- three times its bytes are less than 2 ^ 31; the encoded text, of at most three characters for a byte, has less than
-- 2 ^ 31 then, which is what an `int` counts.
pub urldecode-urlencode :
    (additional : List ℕ) (cs : List Utf8Character)
    → All IsCharacter cs
    → 3 * length (text_bytes cs) < 2 ^ 31
    → let s : Utf8String = record { bytes = text_bytes cs; string_length = length cs } in
      (urldecode (urlencode additional s) ≡ s) × ((urlencode additional s).string_length < 2 ^ 31)
unfolding urlencode urldecode
urldecode-urlencode additional cs h b =
    let plain =
      utf8_string-plain (encode_bytes additional (text_bytes cs))
        (encode_bytes-IsPlain additional (text_bytes cs)) in
    (
      ap (λ s. utf8_string (decode_bytes s.bytes)) plain
          ∙ ap utf8_string
              (decode_bytes-encode_bytes additional (text_bytes cs) (text_bytes-IsByte cs h))
          ∙ utf8_string-characters cs h,
      subst (λ (t : Utf8String). t.string_length < 2 ^ 31) (sym plain)
          (omega (arith, length-encode_bytes additional (text_bytes cs))),
    )
