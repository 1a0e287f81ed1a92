-- ===== src/Json/Lexer/Fuel.antt =====
-- util/json/lexer/JsonLexer.cxx: every token takes bytes off the text, so the loops end.
use openkit_native.Prelude.{
  Bool, List, Option, [], arith, false, if◌then◌else◌, length, none, refl, some, suc, true, zero, ℕ,
  ◌++◌, ◌<◌, ◌==◌, ◌||◌, ◌∷◌, ◌≡◌, ◌≤◌,
}
use openkit_native.Json.Lexer.{Lexed, lexed, lexer_exception, logic_error, then_lex}
use openkit_native.Json.Lexer.Characters.{
  is_character_that_needs_escaping, is_hex_character, quotation_mark, reverse_solidus,
}
use openkit_native.Json.Lexer.Text.{
  hex_number, is_high_surrogate_character, is_low_surrogate_character, num_unicode_characters,
  pair_with, read_unicode_escape_sequence, try_parse_escape_sequence, try_parse_low_surrogate_char,
  try_parse_string_token, try_parse_unicode_escape_sequence,
}

-- At most `n` bytes are left, and the fuel was enough.
pub data Leaves {ℓ} {A : Type ℓ} (n : ℕ) : Lexed A → Type ℓ where
  left_over : {a : A} {rest : List ℕ} → length rest ≤ n → Leaves n (lexed a rest)
  threw : Leaves n lexer_exception
  crashed_there : Leaves n logic_error

pub then_lex-Leaves {ℓ κ} :
    {A : Type ℓ} {B : Type κ} {n m : ℕ} {r : Lexed A} {f : A → List ℕ → Lexed B}
    → Leaves n r
    → ((a : A) (rest : List ℕ) → length rest ≤ n → Leaves m (f a rest))
    → Leaves m (then_lex r f)
then_lex-Leaves (left_over {a} {rest} h) k = k a rest h
then_lex-Leaves threw k = threw
then_lex-Leaves crashed_there k = crashed_there

pub Leaves-mono {ℓ} : {A : Type ℓ} {n m : ℕ} {r : Lexed A} → n ≤ m → Leaves n r → Leaves m r
Leaves-mono h (left_over k) = left_over (omega (arith, h, k))
Leaves-mono h threw = threw
Leaves-mono h crashed_there = crashed_there

pub if-Leaves {ℓ} :
    {A : Type ℓ} {n : ℕ} (b : Bool) {x y : Lexed A}
    → (b ≡ true → Leaves n x)
    → (b ≡ false → Leaves n y)
    → Leaves n (if b then x else y)
if-Leaves true hx hy = hx refl
if-Leaves false hx hy = hy refl

read_unicode_escape_sequence-Leaves :
    (left : ℕ) (digits input : List ℕ) (n : ℕ)
    → length input ≤ n
    → Leaves n (read_unicode_escape_sequence left digits input)
unfolding read_unicode_escape_sequence
read_unicode_escape_sequence-Leaves left digits [] n h = threw
read_unicode_escape_sequence-Leaves zero digits (c ∷ cs) n h = left_over h
read_unicode_escape_sequence-Leaves (suc left) digits (c ∷ cs) n h =
    if-Leaves (is_hex_character c)
      (λ hex. read_unicode_escape_sequence-Leaves left (digits ++ c ∷ []) cs n (omega arith))
      (λ other. threw)

try_parse_low_surrogate_char-Leaves :
    (input : List ℕ) → Leaves (length input) (try_parse_low_surrogate_char input)
unfolding try_parse_low_surrogate_char
try_parse_low_surrogate_char-Leaves [] = left_over (omega arith)
try_parse_low_surrogate_char-Leaves (a ∷ []) = left_over (omega arith)
try_parse_low_surrogate_char-Leaves (a ∷ b ∷ rest) =
    if-Leaves (a == reverse_solidus)
      (λ escape.
        if-Leaves (b == b'u')
          (λ u.
            then_lex-Leaves
              (read_unicode_escape_sequence-Leaves num_unicode_characters [] rest (length rest)
                (omega arith))
              (λ digits left h. left_over (omega arith)))
          (λ other. crashed_there))
      (λ other. left_over (omega arith))

pair_with-Leaves :
    (high : ℕ) (low : Option ℕ) (rest : List ℕ) (n : ℕ)
    → length rest ≤ n
    → Leaves n (pair_with high low rest)
unfolding pair_with
pair_with-Leaves high none rest n h = threw
pair_with-Leaves high (some low) rest n h =
    if-Leaves (is_low_surrogate_character low) (λ is_low. left_over h) (λ other. threw)

try_parse_unicode_escape_sequence-Leaves :
    (input : List ℕ) → Leaves (length input) (try_parse_unicode_escape_sequence input)
unfolding try_parse_unicode_escape_sequence
try_parse_unicode_escape_sequence-Leaves input =
    then_lex-Leaves
      (read_unicode_escape_sequence-Leaves num_unicode_characters [] input (length input)
        (omega arith))
      (λ digits rest h.
        if-Leaves (is_high_surrogate_character (hex_number 0 digits))
          (λ high. then_lex-Leaves (try_parse_low_surrogate_char-Leaves rest) (λ low left k.
            pair_with-Leaves (hex_number 0 digits) low left (length input) (omega arith)))
          (λ single.
            if-Leaves (is_low_surrogate_character (hex_number 0 digits)) (λ low. threw)
              (λ other. left_over h)))

try_parse_escape_sequence-Leaves :
    (input : List ℕ) → Leaves (length input) (try_parse_escape_sequence input)
unfolding try_parse_escape_sequence
try_parse_escape_sequence-Leaves [] = threw
try_parse_escape_sequence-Leaves (c ∷ cs) =
    if-Leaves (c == quotation_mark || c == reverse_solidus || c == b'/')
      (λ h. left_over (omega arith))
      (λ _.
        if-Leaves (c == b'b') (λ h. left_over (omega arith))
          (λ _.
            if-Leaves (c == b'f') (λ h. left_over (omega arith))
              (λ _.
                if-Leaves (c == b'n') (λ h. left_over (omega arith))
                  (λ _.
                    if-Leaves (c == b'r') (λ h. left_over (omega arith))
                      (λ _.
                        if-Leaves (c == b't') (λ h. left_over (omega arith))
                          (λ _.
                            if-Leaves (c == b'u')
                              (λ h.
                                Leaves-mono (omega arith)
                                  (try_parse_unicode_escape_sequence-Leaves cs))
                              (λ _. threw)))))))

-- With more fuel than bytes the loop of a string token ends.
pub try_parse_string_token-Leaves :
    (fuel : ℕ) (written input : List ℕ)
    → length input < fuel
    → Leaves (length input) (try_parse_string_token fuel written input)
unfolding try_parse_string_token
try_parse_string_token-Leaves zero written input h = absurd (omega arith)
try_parse_string_token-Leaves (suc fuel) written [] h = threw
try_parse_string_token-Leaves (suc fuel) written (c ∷ cs) h =
    if-Leaves (c == quotation_mark) (λ _. left_over (omega arith))
      (λ _.
        if-Leaves (c == reverse_solidus)
          (λ _. then_lex-Leaves (try_parse_escape_sequence-Leaves cs) (λ bytes rest k.
            Leaves-mono (omega arith)
              (try_parse_string_token-Leaves fuel (written ++ bytes) rest (omega arith))))
          (λ _.
            if-Leaves (is_character_that_needs_escaping c) (λ _. threw)
              (λ _.
                Leaves-mono (omega arith)
                  (try_parse_string_token-Leaves fuel (written ++ c ∷ []) cs (omega arith)))))
