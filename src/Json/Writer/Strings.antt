-- ===== src/Json/Writer/Strings.antt =====
-- util/json/JsonWriter.cxx and util/json/lexer/JsonLexer.cxx: a written string is read back.
use mathlib.Core.Path.{subst}
use openkit_native.Prelude.{
  ==_iff, List, [], ap, append-nil, append_assoc, arith, false, if-both, if-false, if-true, leb,
  leb→le, length, length-append, refl, suc, sym, true, zero, ℕ, ◌%◌, ◌++◌, ◌/◌, ◌<◌, ◌==◌, ◌∙◌, ◌∷◌,
  ◌≡◌, ◌≤◌,
}
use openkit_native.Json.Lexer.{lexed}
use openkit_native.Json.Lexer.Characters.{
  is_character_that_needs_escaping, is_hex_character, quotation_mark, reverse_solidus,
}
use openkit_native.Json.Lexer.Text.{
  hex_number, is_high_surrogate_character, is_low_surrogate_character, num_unicode_characters,
  read_unicode_escape_sequence, try_parse_escape_sequence, try_parse_string_token,
  try_parse_unicode_escape_sequence, two_bytes,
}
use openkit_native.Json.Writer.{
  escape_character, escape_string, four_hex_characters, lower_hex_character,
}
use openkit_native.UrlEncoding.{hex_value}

-- How the lexer reads what was written for a character: as it stands, or by an escape sequence.
data IsRead (c : ℕ) (e : List ℕ) : Type 0 where
  plain :
      (c == quotation_mark) ≡ false
      → (c == reverse_solidus) ≡ false
      → is_character_that_needs_escaping c ≡ false
      → e ≡ c ∷ []
      → IsRead c e
  sequence :
      (s : List ℕ)
      → e ≡ reverse_solidus ∷ s
      → ((x : ℕ) (tail : List ℕ)
          → try_parse_escape_sequence (s ++ x ∷ tail) ≡ lexed (c ∷ []) (x ∷ tail))
      → IsRead c e

lower_hex-IsHex : (d : ℕ) → d < 16 → is_hex_character (lower_hex_character d) ≡ true
unfolding is_hex_character lower_hex_character
lower_hex-IsHex d h = ground arith

hex_value-lower_hex : (d : ℕ) → d < 16 → hex_value (lower_hex_character d) ≡ d
unfolding hex_value lower_hex_character
hex_value-lower_hex d h = ground arith

four_hex-read :
    (c x : ℕ) (tail : List ℕ)
    → c < 256
    → read_unicode_escape_sequence num_unicode_characters [] (four_hex_characters c ++ x ∷ tail)
      ≡ lexed (four_hex_characters c) (x ∷ tail)
unfolding read_unicode_escape_sequence four_hex_characters is_hex_character
four_hex-read c x tail h =
    let high : is_hex_character (lower_hex_character (c / 16)) ≡ true =
      lower_hex-IsHex (c / 16) (omega arith) in
    let low : is_hex_character (lower_hex_character (c % 16)) ≡ true =
      lower_hex-IsHex (c % 16) (omega arith) in
    if-true _ _ high ∙ if-true _ _ low

hex_number-four_hex : (c : ℕ) → c < 256 → hex_number 0 (four_hex_characters c) ≡ c
unfolding hex_number four_hex_characters
hex_number-four_hex c h =
    let high = hex_value-lower_hex (c / 16) (omega arith) in
    let low = hex_value-lower_hex (c % 16) (omega arith) in rw (high, low) (omega arith)

unicode-read :
    (c x : ℕ) (tail : List ℕ)
    → c < 32
    → try_parse_unicode_escape_sequence (four_hex_characters c ++ x ∷ tail)
      ≡ lexed (c ∷ []) (x ∷ tail)
unfolding try_parse_unicode_escape_sequence
unicode-read c x tail h =
    let high : is_high_surrogate_character c ≡ false =
      unfold is_high_surrogate_character in ground arith in
    let low : is_low_surrogate_character c ≡ false =
      unfold is_low_surrogate_character in ground arith in
    let bytes : two_bytes c ≡ c ∷ [] = unfold two_bytes in ground arith in
    rw (four_hex-read c x tail (omega arith), hex_number-four_hex c (omega arith), high, low, bytes)

-- a character with a letter of its own
letter-IsRead :
    (c k : ℕ) (s : List ℕ)
    → (c == k) ≡ true
    → ((x : ℕ) (tail : List ℕ)
        → try_parse_escape_sequence (s ++ x ∷ tail) ≡ lexed (k ∷ []) (x ∷ tail))
    → IsRead c (reverse_solidus ∷ s)
letter-IsRead c k s h f =
    subst (λ z. IsRead z (reverse_solidus ∷ s)) (sym ((==_iff c k).0 h)) (sequence s refl f)

escape_character-IsRead : (c : ℕ) → IsRead c (escape_character c)
unfolding escape_character try_parse_escape_sequence
escape_character-IsRead c =
    if-both (IsRead c) (c == 8) (λ h. letter-IsRead c 8 (b'b' ∷ []) h (λ x tail. refl))
      (λ _.
        if-both (IsRead c) (c == 12) (λ h. letter-IsRead c 12 (b'f' ∷ []) h (λ x tail. refl))
          (λ _.
            if-both (IsRead c) (c == 10) (λ h. letter-IsRead c 10 (b'n' ∷ []) h (λ x tail. refl))
              (λ _.
                if-both (IsRead c) (c == 13)
                  (λ h. letter-IsRead c 13 (b'r' ∷ []) h (λ x tail. refl))
                  (λ _.
                    if-both (IsRead c) (c == 9)
                      (λ h. letter-IsRead c 9 (b't' ∷ []) h (λ x tail. refl))
                      (λ _.
                        if-both (IsRead c) (c == b'/')
                          (λ h. letter-IsRead c b'/' (b'/' ∷ []) h (λ x tail. refl))
                          (λ _.
                            if-both (IsRead c) (c == quotation_mark)
                              (λ h.
                                letter-IsRead c quotation_mark (quotation_mark ∷ []) h
                                  (λ x tail. refl))
                              (λ no_quote.
                                if-both (IsRead c) (c == reverse_solidus)
                                  (λ h.
                                    letter-IsRead c reverse_solidus (reverse_solidus ∷ []) h
                                      (λ x tail. refl))
                                  (λ no_escape.
                                    if-both (IsRead c) (leb c 31)
                                      (λ h. sequence (b'u' ∷ four_hex_characters c) refl (λ x tail.
                                        unicode-read c x tail
                                          (let k : c ≤ 31 = leb→le c 31 h in omega arith)))
                                      (λ large.
                                        plain no_quote no_escape
                                          (unfold is_character_that_needs_escaping in
                                            rw (no_quote, no_escape, large))
                                          refl)))))))))

escape_string-head :
    (s : List ℕ) (rest : List ℕ)
    → (x : ℕ) × (tail : List ℕ) × (escape_string s ++ quotation_mark ∷ rest ≡ x ∷ tail)
unfolding escape_string
escape_string-head [] rest = (quotation_mark, rest, refl)
escape_string-head (c ∷ cs) rest = elim (escape_character-IsRead c) [
  | plain _ _ _ e ↦ (c, escape_string cs ++ quotation_mark ∷ rest, rw e)
  | sequence s e _ ↦ (reverse_solidus, (s ++ escape_string cs) ++ quotation_mark ∷ rest, rw e)
]

IsRead-length : {c : ℕ} {e : List ℕ} → IsRead c e → 0 < length e
IsRead-length (plain _ _ _ e) = rw e (omega arith)
IsRead-length (sequence s e _) = rw e (omega arith)

-- One round of the loop reads one character.
string-step :
    (c : ℕ) (e rest written : List ℕ) (fuel : ℕ)
    → IsRead c e
    → ((x : ℕ) × (tail : List ℕ) × (rest ≡ x ∷ tail))
    → try_parse_string_token (suc fuel) written (e ++ rest)
      ≡ try_parse_string_token fuel (written ++ c ∷ []) rest
unfolding try_parse_string_token
string-step c e rest written fuel (plain no_quote no_escape small same) more =
    rw same (if-false _ _ no_quote ∙ if-false _ _ no_escape ∙ if-false _ _ small)
string-step c e rest written fuel (sequence s same f) (x, tail, more) = rw (same, more, f x tail)

-- What was written for a string is read as that string, up to the quotation mark.
pub try_parse_string_token-escape_string :
    (s written rest : List ℕ) (fuel : ℕ)
    → length (escape_string s ++ quotation_mark ∷ rest) < fuel
    → try_parse_string_token fuel written (escape_string s ++ quotation_mark ∷ rest)
      ≡ lexed (written ++ s) rest
unfolding escape_string
try_parse_string_token-escape_string s written rest zero h = absurd (omega arith)
try_parse_string_token-escape_string [] written rest (suc fuel) h =
    unfold try_parse_string_token in rw append-nil
try_parse_string_token-escape_string (c ∷ cs) written rest (suc fuel) h =
    let e = escape_character c in
    let more = escape_string cs ++ quotation_mark ∷ rest in
    let whole : (e ++ escape_string cs) ++ quotation_mark ∷ rest ≡ e ++ more =
      append_assoc e (escape_string cs) (quotation_mark ∷ rest) in
    let enough : length more < fuel =
      omega
        (arith, ap length whole, length-append e more, IsRead-length (escape_character-IsRead c)) in
    ap (try_parse_string_token (suc fuel) written) whole
    ∙ string-step c e more written fuel (escape_character-IsRead c) (escape_string-head cs rest)
    ∙ try_parse_string_token-escape_string cs (written ++ c ∷ []) rest fuel enough
    ∙ ap (λ l. lexed l rest) (append_assoc written (c ∷ []) cs)
