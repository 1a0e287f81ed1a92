-- ===== src/Text/Validation/Characters.antt =====
-- core/UTF8String.cxx: a text of whole characters is taken as it is.
use openkit_native.Prelude.{
  length-append, ◌^◌, ◌≤◌, All, All-append, List, [], ap, append-nil, append_assoc, arith, false,
  if-false, length, none, refl, suc, true, ℕ, ◌&&◌, ◌++◌, ◌+◌, ◌/◌, ◌<◌, ◌==◌, ◌||◌, ◌∙◌, ◌∷◌, ◌≡◌,
  ◌≢◌,
}
use openkit_native.Text.Validation.{
  Validation, before_termination, continue_multibyte, get_byte_width_of_character,
  is_part_of_previous_utf8_multibyte, last_bytes, new_validation, replace_open, utf8_string,
  validate_byte, validate_bytes, write_character,
}
use openkit_native.Text.{Utf8String}

-- A character in UTF-8: its first byte says how many bytes continue it.
pub data Utf8Character : Type 0 where
  one : (a : ℕ) → Utf8Character
  two : (a b : ℕ) → Utf8Character
  three : (a b c : ℕ) → Utf8Character
  four : (a b c d : ℕ) → Utf8Character

abbrev Continues : ℕ → Type 0
Continues b = b / 64 ≡ 2

-- The first byte is neither zero nor C0, which may end a text.
unfoldable pub IsCharacter : Utf8Character → Type 0
IsCharacter (one a) = (0 < a) × (a < 128)
IsCharacter (two a b) = (a / 32 ≡ 6) × (a ≢ 0xC0) × Continues b
IsCharacter (three a b c) = (a / 16 ≡ 14) × Continues b × Continues c
IsCharacter (four a b c d) = (a / 8 ≡ 30) × Continues b × Continues c × Continues d

unfoldable pub character_bytes : Utf8Character → List ℕ
character_bytes (one a) = a ∷ []
character_bytes (two a b) = a ∷ b ∷ []
character_bytes (three a b c) = a ∷ b ∷ c ∷ []
character_bytes (four a b c d) = a ∷ b ∷ c ∷ d ∷ []

unfoldable pub text_bytes : List Utf8Character → List ℕ
unfolding character_bytes
text_bytes [] = []
text_bytes (c ∷ cs) = character_bytes c ++ text_bytes cs

validate_bytes-append :
    (xs ys : List ℕ) (v : Validation)
    → validate_bytes (xs ++ ys) v ≡ validate_bytes ys (validate_bytes xs v)
unfolding validate_bytes
validate_bytes-append [] ys v = refl
validate_bytes-append (x ∷ xs) ys v = validate_bytes-append xs ys (validate_byte x v)

-- Nothing is open after what has been written.
abbrev closed : List ℕ → ℕ → List ℕ → Validation
closed written count past = record {
  validated = written;
  character_count = count;
  multibyte = none;
  gone_past = past;
}

part-true : (a : ℕ) → Continues a → is_part_of_previous_utf8_multibyte a ≡ true
unfolding is_part_of_previous_utf8_multibyte
part-true a h = ground arith

width-one : (a : ℕ) → a < 128 → get_byte_width_of_character a ≡ 1
unfolding get_byte_width_of_character
width-one a h = ground arith

width-two : (a : ℕ) → a / 32 ≡ 6 → get_byte_width_of_character a ≡ 2
unfolding get_byte_width_of_character
width-two a h = ground arith

width-three : (a : ℕ) → a / 16 ≡ 14 → get_byte_width_of_character a ≡ 3
unfolding get_byte_width_of_character
width-three a h = ground arith

width-four : (a : ℕ) → a / 8 ≡ 30 → get_byte_width_of_character a ≡ 4
unfolding get_byte_width_of_character
width-four a h = ground arith

lead-part : (a : ℕ) → a / 64 ≡ 3 → is_part_of_previous_utf8_multibyte a ≡ false
unfolding is_part_of_previous_utf8_multibyte
lead-part a h = ground arith

ascii-part : (a : ℕ) → a < 128 → is_part_of_previous_utf8_multibyte a ≡ false
unfolding is_part_of_previous_utf8_multibyte
ascii-part a h = ground arith

-- A character is written as it stands.
character-closed :
    (c : Utf8Character) (written : List ℕ) (count : ℕ) (past : List ℕ)
    → IsCharacter c
    → (past' : List ℕ) × (validate_bytes (character_bytes c) (closed written count past)
        ≡ closed (written ++ character_bytes c) (count + 1) past')
unfolding character_bytes IsCharacter validate_bytes validate_byte continue_multibyte replace_open
    write_character last_bytes
character-closed (one a) written count past h = (a ∷ past, rw (ascii-part a h.1, width-one a h.1))
character-closed (two a b) written count past h =
    (b ∷ a ∷ past, rw (lead-part a (omega arith), width-two a h.0, part-true b h.2))
character-closed (three a b c) written count past h = (
  c ∷ b ∷ a ∷ past,
  rw (lead-part a (omega arith), width-three a h.0, part-true b h.1, part-true c h.2),
)
character-closed (four a b c d) written count past h = (
  d ∷ c ∷ b ∷ a ∷ past,
  rw (
    lead-part a (omega arith),
    width-four a h.0,
    part-true b h.1,
    part-true c h.2,
    part-true d h.3,
  ),
)

nothing_validated :
    (written : List ℕ) (count : ℕ) (past : List ℕ)
    → validate_bytes [] (closed written count past) ≡ closed (written ++ []) (count + 0) past
unfolding validate_bytes
nothing_validated written count past = rw append-nil (ground arith)

count_lem : (n k : ℕ) → n + 1 + k ≡ n + suc k
count_lem n k = omega arith

characters-closed :
    (cs : List Utf8Character) (written : List ℕ) (count : ℕ) (past : List ℕ)
    → All IsCharacter cs
    → (past' : List ℕ) × (validate_bytes (text_bytes cs) (closed written count past)
        ≡ closed (written ++ text_bytes cs) (count + length cs) past')
unfolding text_bytes
characters-closed [] written count past h = (past, nothing_validated written count past)
characters-closed (c ∷ cs) written count past (h, hs) =
    let (past', first) = character-closed c written count past h in
    let (past'', rest) = characters-closed cs (written ++ character_bytes c) (count + 1) past' hs in
    (
      past'',
      validate_bytes-append (character_bytes c) (text_bytes cs) (closed written count past)
          ∙ ap (validate_bytes (text_bytes cs)) first
          ∙ rest
          ∙ (λ i.
              closed (append_assoc written (character_bytes c) (text_bytes cs) i)
                (count_lem count (length cs) i) past''),
    )

-- A byte that does not end a text.
abbrev GoesOn : ℕ → Type 0
GoesOn c = (0 < c) × (c ≢ 0xC0)

before_termination-GoesOn : (cs : List ℕ) → All GoesOn cs → before_termination cs ≡ cs
unfolding before_termination
before_termination-GoesOn [] h = refl
before_termination-GoesOn (c ∷ []) h = if-false {b = c == 0} _ _ (ground arith)
before_termination-GoesOn (c ∷ d ∷ cs) h =
    if-false {b = c == 0 || (c == 0xC0 && d == 0x80)} _ _ (ground arith)
    ∙ ap (λ l. c ∷ l) (before_termination-GoesOn (d ∷ cs) h.1)

lead-GoesOn : (a : ℕ) → 0xC0 < a → GoesOn a
lead-GoesOn a h = (omega arith, λ e. absurd (omega (arith, e)))

low-GoesOn : (a : ℕ) → 0 < a → a < 0xC0 → GoesOn a
low-GoesOn a h k = (h, λ e. absurd (omega (arith, e)))

character_bytes-GoesOn : (c : Utf8Character) → IsCharacter c → All GoesOn (character_bytes c)
unfolding character_bytes IsCharacter
character_bytes-GoesOn (one a) h = (low-GoesOn a h.0 (omega arith), tt)
character_bytes-GoesOn (two a b) h =
    ((omega arith, h.1), (low-GoesOn b (omega arith) (omega arith), tt))
character_bytes-GoesOn (three a b c) h = (
  lead-GoesOn a (omega arith),
  (low-GoesOn b (omega arith) (omega arith), (low-GoesOn c (omega arith) (omega arith), tt)),
)
character_bytes-GoesOn (four a b c d) h = (
  lead-GoesOn a (omega arith),
  (
    low-GoesOn b (omega arith) (omega arith),
    (low-GoesOn c (omega arith) (omega arith), (low-GoesOn d (omega arith) (omega arith), tt)),
  ),
)

text_bytes-GoesOn : (cs : List Utf8Character) → All IsCharacter cs → All GoesOn (text_bytes cs)
unfolding text_bytes
text_bytes-GoesOn [] h = tt
text_bytes-GoesOn (c ∷ cs) h =
    All-append GoesOn (character_bytes c) (text_bytes cs) (character_bytes-GoesOn c h.0)
      (text_bytes-GoesOn cs h.1)

-- Whole characters are written as they stand, one after the other.
pub utf8_string-characters :
    (cs : List Utf8Character)
    → All IsCharacter cs
    → utf8_string (text_bytes cs) ≡ record { bytes = text_bytes cs; string_length = length cs }
unfolding utf8_string
utf8_string-characters cs h =
    let (past, done) = characters-closed cs [] 0 [] h in
    ap (λ l. made (validate_bytes l new_validation))
      (before_termination-GoesOn (text_bytes cs) (text_bytes-GoesOn cs h))
    ∙ ap made done
    ∙ ground arith
  where
    made : Validation → Utf8String
    made v = record { bytes = v.validated; string_length = v.character_count }

character_bytes-pos : (c : Utf8Character) → 0 < length (character_bytes c)
unfolding character_bytes
character_bytes-pos (one a) = omega arith
character_bytes-pos (two a b) = omega arith
character_bytes-pos (three a b c) = omega arith
character_bytes-pos (four a b c d) = omega arith

length-text_bytes : (cs : List Utf8Character) → length cs ≤ length (text_bytes cs)
unfolding text_bytes
length-text_bytes [] = omega arith
length-text_bytes (c ∷ cs) =
    let sum = length-append (character_bytes c) (text_bytes cs) in
    omega (arith, sum, character_bytes-pos c, length-text_bytes cs)

-- A text of whole characters that has less than 2 ^ 31 bytes keeps its bytes, and its length is the number of its
-- characters, for which an `int` is large enough.
pub utf8_string-text_bytes :
    (cs : List Utf8Character)
    → All IsCharacter cs
    → length (text_bytes cs) < 2 ^ 31
    → (utf8_string (text_bytes cs) ≡ record { bytes = text_bytes cs; string_length = length cs })
      × (length cs < 2 ^ 31)
utf8_string-text_bytes cs h b = (utf8_string-characters cs h, omega (arith, length-text_bytes cs))
