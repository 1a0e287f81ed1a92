-- ===== src/Text/Validation.antt =====
-- core/UTF8String.cxx: the constructor, which validates its bytes. `multibyte` is the expected length of the sequence
-- that is open and the position in it, or none for -1 and -1. The loop counts bytes and characters in an `int`,
-- whose overflow is undefined: what is modelled is the constructor on a text of less than 2 ^ 31 bytes, where the
-- counters are exact.
use openkit_native.Prelude.{
  Bool, List, Option, [], if◌then◌else◌, ltb, none, some, suc, zero, ℕ, ◌&&◌, ◌++◌, ◌+◌, ◌-◌, ◌/◌,
  ◌==◌, ◌||◌, ◌∷◌,
}
use openkit_native.Text.{Utf8String}
pub mod Characters

-- `(character & 0xC0) == 0x80`
unfoldable pub is_part_of_previous_utf8_multibyte : ℕ → Bool
is_part_of_previous_utf8_multibyte c = c / 64 == 2

-- the masks 0x80, 0xE0, 0xF0 and 0xF8
unfoldable pub get_byte_width_of_character : ℕ → ℕ
get_byte_width_of_character c =
    if c / 128 == 0
    then 1
    else if c / 32 == 6
    then 2
    else if c / 16 == 14
    then 3
    else if c / 8 == 30
    then 4
    else 0

-- The bytes before a zero or before C0 80.
unfoldable pub before_termination : List ℕ → List ℕ
before_termination [] = []
before_termination (c ∷ []) = if c == 0 then [] else c ∷ []
before_termination (c ∷ d ∷ cs) =
    if c == 0 || (c == 0xC0 && d == 0x80) then [] else c ∷ before_termination (d ∷ cs)

abbrev pub replacement_character : List ℕ
replacement_character = 0xEF ∷ 0xBF ∷ 0xBD ∷ []

-- The loop's variables, and the bytes that it has gone past, the last one first.
pub record Validation : Type 0 where
  pub validated : List ℕ
  pub character_count : ℕ
  pub multibyte : Option (ℕ × ℕ)
  pub gone_past : List ℕ

abbrev pub new_validation : Validation
new_validation = record { validated = []; character_count = 0; multibyte = none; gone_past = [] }

-- One character more, with nothing open after it.
unfoldable pub write_character : List ℕ → Validation → Validation
write_character bytes v = record v {
  validated = v.validated ++ bytes;
  character_count = v.character_count + 1;
  multibyte = none;
}

-- the byte at `i` and those before it, as many as the sequence is long
unfoldable pub last_bytes : ℕ → List ℕ → List ℕ
last_bytes zero past = []
last_bytes (suc n) [] = []
last_bytes (suc n) (c ∷ past) = last_bytes n past ++ c ∷ []

unfoldable pub continue_multibyte : Option (ℕ × ℕ) → Validation → Validation
unfolding write_character last_bytes
continue_multibyte none v = write_character replacement_character v
continue_multibyte (some (expected, position)) v =
    if ltb (expected - 1) (position + 1)
    then write_character replacement_character v
    else if position + 1 == expected - 1
    then write_character (last_bytes expected v.gone_past) v
    else record v { multibyte = some (expected, position + 1) }

-- An open sequence that is not continued
unfoldable pub replace_open : Validation → Validation
unfolding write_character
replace_open v = elim v.multibyte [
  | none ↦ v
  | some open_sequence ↦ write_character replacement_character v
]

-- One round of the loop. A byte from F8 on changes nothing.
unfoldable pub validate_byte : ℕ → Validation → Validation
unfolding is_part_of_previous_utf8_multibyte get_byte_width_of_character continue_multibyte
    replace_open
validate_byte c v =
    let v' = record v { gone_past = c ∷ v.gone_past } in
    let width = get_byte_width_of_character c in
    if is_part_of_previous_utf8_multibyte c
    then continue_multibyte v'.multibyte v'
    else if width == 1
    then write_character (c ∷ []) (replace_open v')
    else if ltb 1 width
    then record (replace_open v') { multibyte = some (width, 0) }
    else v'

unfoldable pub validate_bytes : List ℕ → Validation → Validation
unfolding validate_byte
validate_bytes [] v = v
validate_bytes (c ∷ cs) v = validate_bytes cs (validate_byte c v)

-- `validateString`, and the string that the constructor makes: a sequence that is open at the end is left out
unfoldable pub utf8_string : List ℕ → Utf8String
unfolding validate_bytes before_termination
utf8_string cs =
    let v = validate_bytes (before_termination cs) new_validation in
    record { bytes = v.validated; string_length = v.character_count }
