-- ===== src/Text.antt =====
-- core/UTF8String.cxx: a text is its bytes together with the count of its characters.
use openkit_native.Prelude.{Bool, List, [], if◌then◌else◌, length, ltb, ℕ, ◌++◌, ◌+◌, ◌==◌}
pub mod Validation
pub mod Parts

pub record Utf8String : Type 0 where
  pub bytes : List ℕ
  pub string_length : ℕ

abbrev pub empty_string : Utf8String
empty_string = record { bytes = []; string_length = 0 }

unfoldable pub is_empty_string : Utf8String → Bool
is_empty_string s = s.string_length == 0

unfoldable pub byte_size : Utf8String → ℕ
byte_size s = length s.bytes

-- appends nothing when the other text counts no characters
unfoldable pub concatenate : Utf8String → Utf8String → Utf8String
concatenate s other =
    if ltb 0 other.string_length
    then record {
      bytes = s.bytes ++ other.bytes;
      string_length = s.string_length + other.string_length;
    }
    else s
