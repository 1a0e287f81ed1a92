-- ===== src/Tests/Json.antt =====
-- util/json at concrete inputs.
use openkit_native.Prelude.{List, Option, [], arith, none, refl, some, true, ℕ, ◌-◌, ◌^◌, ◌∷◌, ◌≡◌}
use openkit_native.Json.Lexer.Characters.{
  is_hex_character, is_json_whitespace_character, quotation_mark, reverse_solidus,
}
use openkit_native.Json.Lexer.Stream.{
  all_tokens, do_parse_next_token, token_after_whitespace, tokens_of_text,
}
use openkit_native.Json.Lexer.Text.{
  try_parse_escape_sequence, try_parse_low_surrogate_char, try_parse_string_token,
  try_parse_unicode_escape_sequence,
}
use openkit_native.Json.Lexer.Total.{tokens_of_text-some}
use openkit_native.Json.Number.{from_number_literal}
use openkit_native.Json.Parser.{
  Tokens, at_end, colon, comma, crashed, enter_state, internal, json_value, key_not_set, left_brace,
  literal_null, new_json_parser, parse_in_object_colon_state, parse_in_object_key_state,
  parse_in_object_start_state, parse_init_state, parse_no_token, parse_token, right_brace, token,
  token_to_simple_json_value, unexpected_token, value_string, with_top_object,
}
use openkit_native.Json.Parser.Accepted.{
  parse-IsEmitted, parse-IsFailure, parse-emit, parse-empty_key,
}
use openkit_native.Json.Parser.Grammar.{IsFailure, follow, stream}
use openkit_native.Json.Parser.Loop.{
  after_answer, do_parse, end_of_tokens, parse, parsed, thrown, top_value,
}
use openkit_native.Json.Parser.Syntax.{
  Tree, array_tree, boolean_tree, emit, no_members, no_trees, null_tree, object_tree, then_member,
  then_tree, value_of,
}
use openkit_native.Json.Value.{
  JsonValue, array, boolean, field, find_field, long, no_fields, no_items, null, number, object,
  push_back, same_bytes, string,
}
use openkit_native.Json.Writer.{write_json_string}
use openkit_native.Json.Writer.RoundTrip.{parse-write_json_string}
use openkit_native.Json.Writer.Trees.{IsLong, IsWritable}
use openkit_native.UrlEncoding.{hex_value}
use openkit_native.Json.Parser.Places.{is_entered}
use openkit_native.Json.Parser.Writing.{AreEntered}

-- There are no doubles in these texts.
abbrev pub no_double : List ℕ → Option ℕ
no_double literal = none

abbrev literal_value : List ℕ → JsonValue
literal_value literal = from_number_literal no_double literal

-- [true, {"k": null}]
abbrev small_tree : Tree
small_tree = array_tree (
    then_tree (then_tree no_trees (boolean_tree true))
      (object_tree (then_member no_members (b'k' ∷ []) null_tree)))

small_tree-AreEntered : AreEntered literal_value small_tree
unfolding AreEntered is_entered
small_tree-AreEntered = ((tt, tt), (tt, tt, refl))

parse-emit_example :
    (parse literal_value (stream (emit small_tree)) new_json_parser).answer
    ≡ parsed (value_of literal_value small_tree)
parse-emit_example = parse-emit literal_value small_tree small_tree-AreEntered

parse-IsEmitted_example :
    (v : Tree) × (token literal_null at_end ≡ stream (emit v)) × (null ≡ value_of literal_value v)
unfolding parse do_parse parse_token parse_init_state after_answer token_to_simple_json_value
    end_of_tokens parse_no_token top_value json_value
parse-IsEmitted_example = parse-IsEmitted literal_value (token literal_null at_end) null refl

parse-IsFailure_example :
    IsFailure
      (unexpected_token comma)
      (parse literal_value
        (follow (left_brace ∷ value_string (b'k' ∷ []) ∷ colon ∷ []) (token comma at_end))
        new_json_parser).parser.state
unfolding parse do_parse parse_token parse_init_state after_answer follow
    parse_in_object_start_state parse_in_object_key_state parse_in_object_colon_state
    with_top_object token_to_simple_json_value enter_state
parse-IsFailure_example =
    parse-IsFailure literal_value
      (follow (left_brace ∷ value_string (b'k' ∷ []) ∷ colon ∷ []) (token comma at_end))
      (unexpected_token comma) refl

parse-empty_key_example :
    (parse literal_value
      (follow (left_brace ∷ value_string [] ∷ colon ∷ emit small_tree) (token right_brace at_end))
      new_json_parser).answer
    ≡ thrown (internal key_not_set)
parse-empty_key_example = parse-empty_key literal_value small_tree at_end small_tree-AreEntered

-- {"k": [-7, "/"], "s": true}
abbrev small_value : JsonValue
small_value = object (
    field (b'k' ∷ [])
      (array (push_back (push_back no_items (number (long (2 ^ 64 - 7)))) (string (b'/' ∷ []))))
      (field (b's' ∷ []) (boolean true) no_fields))

small_value-IsWritable : IsWritable small_value
unfolding IsWritable IsLong find_field same_bytes
small_value-IsWritable = (refl, ((tt, omega arith), tt), refl, (refl, tt, refl, tt))

parse-write_json_string_example :
    (ts : Tokens) × (tokens_of_text (write_json_string (λ bits. none) small_value) ≡ some ts)
    × ((parse literal_value ts new_json_parser).answer ≡ parsed small_value)
parse-write_json_string_example =
    parse-write_json_string no_double (λ bits. none) small_value small_value-IsWritable

tokens_of_text-some_example : (ts : Tokens) × (tokens_of_text (b'[' ∷ b'1' ∷ []) ≡ some ts)
tokens_of_text-some_example = tokens_of_text-some (b'[' ∷ b'1' ∷ [])

-- The text "\uD800\x" ends in a `std::logic_error`.
half_a_pair :
    tokens_of_text (
      quotation_mark ∷ reverse_solidus ∷ b'u' ∷ b'D' ∷ b'8' ∷ b'0' ∷ b'0' ∷ reverse_solidus ∷ b'x'
      ∷ quotation_mark ∷ [])
    ≡ some crashed
unfolding tokens_of_text do_parse_next_token try_parse_string_token try_parse_escape_sequence
    try_parse_unicode_escape_sequence try_parse_low_surrogate_char is_hex_character hex_value
    is_json_whitespace_character all_tokens token_after_whitespace
half_a_pair = refl

-- "\u00E9" is one byte, and not the two of its UTF-8 form.
one_byte :
    tokens_of_text
      (quotation_mark ∷ reverse_solidus ∷ b'u' ∷ b'0' ∷ b'0' ∷ b'E' ∷ b'9' ∷ quotation_mark ∷ [])
    ≡ some (token (value_string (0xE9 ∷ [])) at_end)
unfolding tokens_of_text do_parse_next_token try_parse_string_token try_parse_escape_sequence
    try_parse_unicode_escape_sequence try_parse_low_surrogate_char is_hex_character hex_value
    is_json_whitespace_character all_tokens token_after_whitespace
one_byte = refl
