-- ===== src/Text/Parts.antt =====
-- core/UTF8String.cxx: `getIndexOf` for a character of one byte, `substring` and `split`.
pub mod Plain
pub mod Middle
use openkit_native.Prelude.{
  List, Option, [], drop, if◌then◌else◌, leb, length, ltb, map, none, not, some, sub64, suc, take,
  zero, ℕ, ◌&&◌, ◌++◌, ◌+◌, ◌-◌, ◌==◌, ◌^◌, ◌||◌, ◌∷◌,
}
use openkit_native.Text.{Utf8String, empty_string}
use openkit_native.Text.Validation.{get_byte_width_of_character, utf8_string}

-- An index, `std::string::npos`, or a read behind the end of the buffer.
pub data Index : Type 0 where
  index_at : ℕ → Index
  no_index past_the_end : Index

abbrev pub npos : ℕ
npos = 2 ^ 64 - 1

-- The loop from index `i` on. The pointer moves on by whole characters, and `i` by one.
unfoldable pub index_from : ℕ → ℕ → ℕ → ℕ → List ℕ → Index
unfolding get_byte_width_of_character
index_from c offset zero i current = no_index
index_from c offset (suc n) i [] = past_the_end
index_from c offset (suc n) i (b ∷ bs) =
    let width = get_byte_width_of_character b in
    let rest = index_from c offset n (i + 1) (drop width (b ∷ bs)) in
    if leb offset i && (width == 1 && b == c) then index_at i else rest

-- A zero stands behind the bytes.
unfoldable pub get_index_of : Utf8String → ℕ → ℕ → Index
unfolding index_from
get_index_of s c offset =
    if offset == npos && leb (length s.bytes) offset
    then no_index
    else index_from c offset (length s.bytes) 0 (s.bytes ++ 0 ∷ [])

-- The variables of the loop of `substring`.
pub record Cut : Type 0 where
  pub byte_index : ℕ
  pub byte_offset_start : ℕ
  pub byte_offset_end : ℕ
  pub character_index : ℕ
  pub character_counter : ℕ

abbrev pub new_cut : Cut
new_cut = record {
  byte_index = 0;
  byte_offset_start = 0;
  byte_offset_end = 0;
  character_index = 0;
  character_counter = 0;
}

unfoldable pub go_past_character : ℕ → ℕ → Cut → Cut
go_past_character start width c = record {
  byte_index = c.byte_index + width;
  byte_offset_start = if c.character_index == start then c.byte_index else c.byte_offset_start;
  byte_offset_end = sub64 (c.byte_index + width) 1;
  character_index = c.character_index + 1;
  character_counter =
      if leb start c.character_index then c.character_counter + 1 else c.character_counter;
}

-- One unit of fuel for each character: only a byte that begins no character keeps the loop from getting on. The list
-- holds the bytes from the index on.
unfoldable pub cut_loop : ℕ → ℕ → ℕ → List ℕ → Cut → Option Cut
unfolding get_byte_width_of_character go_past_character
cut_loop start wanted fuel [] c = some c
cut_loop start wanted zero (b ∷ bs) c = if ltb c.character_counter wanted then none else some c
cut_loop start wanted (suc fuel) (b ∷ bs) c =
    let width = get_byte_width_of_character b in
    let rest = cut_loop start wanted fuel (drop width (b ∷ bs)) (go_past_character start width c) in
    if ltb c.character_counter wanted then rest else some c

unfoldable pub cut_bytes : List ℕ → Cut → Utf8String
cut_bytes bytes c =
    if not (c.byte_offset_start == npos)
      && (leb c.byte_offset_start c.byte_offset_end && ltb c.byte_offset_end (length bytes))
    then record {
      bytes = take (c.byte_offset_end + 1 - c.byte_offset_start) (drop c.byte_offset_start bytes);
      string_length = c.character_counter;
    }
    else empty_string

unfoldable pub substring : ℕ → ℕ → Utf8String → Option Utf8String
unfolding cut_loop cut_bytes
substring start wanted s =
    if wanted == 0 || ltb (length s.bytes) start
    then some empty_string
    else elim (cut_loop start wanted (length s.bytes) s.bytes new_cut) [
      | none ↦ none
      | some c ↦ some (cut_bytes s.bytes c)
    ]

-- `std::getline` in a loop: no part is left behind the last delimiter.
unfoldable pub put_before : ℕ → List (List ℕ) → List (List ℕ)
put_before b [] = (b ∷ []) ∷ []
put_before b (part ∷ parts) = (b ∷ part) ∷ parts

unfoldable pub get_lines : ℕ → List ℕ → List (List ℕ)
unfolding put_before
get_lines delimiter [] = []
get_lines delimiter (b ∷ bs) =
    let parts = get_lines delimiter bs in if b == delimiter then [] ∷ parts else put_before b parts

unfoldable pub split : ℕ → Utf8String → List Utf8String
unfolding get_lines utf8_string
split delimiter s = map utf8_string (get_lines delimiter s.bytes)
