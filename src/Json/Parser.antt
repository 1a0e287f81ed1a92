-- ===== src/Json/Parser.antt =====
-- util/json/JsonParser.cxx: the states of the parser, its stacks, and what it does with one token. A container
-- shares its list or map with the value that it holds, and is one value here. What the constructor of a number
-- gives for a literal is the parameter `from_number_literal`.
use openkit_native.Prelude.{
  Bool, List, Option, [], if◌then◌else◌, length, none, not, some, ℕ, ◌+◌, ◌==◌, ◌∷◌,
}
use openkit_native.Json.Value.{
  Fields, Items, JsonValue, array, boolean, missing, no_fields, no_items, null, object, push_back,
  put_field, string,
}
pub mod Loop
pub mod Syntax
pub mod Places
pub mod Reading
pub mod Writing
pub mod Simulation
pub mod Grammar
pub mod Accepted

pub data JsonToken : Type 0 where
  literal_null : JsonToken
  literal_boolean : Bool → JsonToken
  value_string : List ℕ → JsonToken
  value_number : List ℕ → JsonToken
  left_brace right_brace left_square_bracket right_square_bracket comma colon : JsonToken

-- An exception of the lexer is `broken`; a `std::logic_error` of its reader is `crashed`. What stands for the lexer is
-- what its `nextToken` gives, call after call.
pub data Tokens : Type 0 where
  at_end broken crashed : Tokens
  token : JsonToken → Tokens → Tokens

pub data JsonParserState : Type 0 where
  init in_array_start in_array_value in_array_delimiter in_object_start in_object_key :
      JsonParserState
  in_object_colon in_object_value in_object_delimiter end error : JsonParserState

-- A JsonValueContainer: a simple value, an array with its list, or an object with its map and the key and the value
-- that were parsed last.
pub data Container : Type 0 where
  simple : JsonValue → Container
  listing : Items → Container
  mapping : Fields → List ℕ → JsonValue → Container

unfoldable pub json_value : Container → JsonValue
json_value (simple v) = v
json_value (listing items) = array items
json_value (mapping fields key value) = object fields

pub data InternalError : Type 0 where
  sizes_mismatch not_composite not_an_array not_an_object key_not_set value_is_null stack_is_empty :
      InternalError
  unexpected_state : InternalError

pub data ParserException : Type 0 where
  no_object_decoded unterminated_array unterminated_object from_lexer erroneous_state :
      ParserException
  unexpected_token : JsonToken → ParserException
  internal : InternalError → ParserException

pub record JsonParser : Type 0 where
  pub state : JsonParserState
  pub value_stack : List Container
  pub state_stack : List JsonParserState
  pub parsed_value : JsonValue

abbrev pub new_json_parser : JsonParser
new_json_parser = record {
  state = init;
  value_stack = [];
  state_stack = [];
  parsed_value = missing;
}

-- What a step leaves, and the exception that it throws.
pub data Stepped : Type 0 where
  goes : JsonParser → Stepped
  throws : ParserException → JsonParser → Stepped

-- `mState = ERROR` and an exception
unfoldable pub fails : ParserException → JsonParser → Stepped
fails e p = throws e (record p { state = error })

unfoldable pub enter_state : JsonParserState → JsonParser → Stepped
enter_state s p = goes (record p { state = s })

-- `mValueStack.top()->mBackingList->push_back`, after `ensureTopLevelElementIsAJsonArray`
unfoldable pub append_to_top : JsonValue → JsonParser → Stepped
append_to_top v p = elim p.value_stack [
  | [] ↦ throws (internal stack_is_empty) p
  | listing items ∷ below ↦
      goes (record p { state = in_array_value; value_stack = listing (push_back items v) ∷ below })
  | other ∷ below ↦ throws (internal not_an_array) p
]

-- `ensureTopLevelElementIsAJsonObject`, and what is done with the object
unfoldable pub with_top_object :
    (Fields → List ℕ → JsonValue → List Container → Stepped) → JsonParser → Stepped
with_top_object k p = elim p.value_stack [
  | [] ↦ throws (internal stack_is_empty) p
  | mapping fields key value ∷ below ↦ k fields key value below
  | other ∷ below ↦ throws (internal not_an_object) p
]

-- `parseStartOfNestedArray`, and the same lines in `parseInObjectColonState`
unfoldable pub start_of_nested_array : JsonParserState → JsonParser → Stepped
start_of_nested_array back p = goes (record p {
  state = in_array_start;
  value_stack = listing no_items ∷ p.value_stack;
  state_stack = back ∷ p.state_stack;
})

unfoldable pub start_of_nested_object : JsonParserState → JsonParser → Stepped
start_of_nested_object back p = goes (record p {
  state = in_object_start;
  value_stack = mapping no_fields [] missing ∷ p.value_stack;
  state_stack = back ∷ p.state_stack;
})

-- `top` of the state stack, and `pop`; the top of an empty `std::stack` is undefined, and an exception here
unfoldable pub restore_state : List Container → List JsonParserState → JsonParser → Stepped
restore_state values [] p = throws (internal unexpected_state) p
restore_state values (s ∷ states) p =
    goes (record p { state = s; value_stack = values; state_stack = states })

-- what `closeCompositeJsonValueAndRestoreState` does with the stack below the closed value
unfoldable pub give_to_parent : Container → List Container → JsonParser → Stepped
unfolding restore_state json_value
give_to_parent closed [] p = enter_state end p
give_to_parent closed (listing items ∷ below) p =
    restore_state (listing (push_back items (json_value closed)) ∷ below) p.state_stack p
give_to_parent closed (mapping fields key value ∷ below) p =
    restore_state (mapping fields key (json_value closed) ∷ below) p.state_stack p
give_to_parent closed (simple v ∷ below) p =
    throws (internal not_composite) (record p { value_stack = simple v ∷ below })

unfoldable pub close_composite : JsonParser → Stepped
unfolding give_to_parent
close_composite p = elim p.value_stack [
  | [] ↦ throws (internal stack_is_empty) p
  | closed ∷ below ↦
      if not (length (closed ∷ below) == length p.state_stack + 1)
      then throws (internal sizes_mismatch) p
      else give_to_parent closed below p
]

-- `ensureKeyValuePairWasParsed`
unfoldable pub missing_part : List ℕ → JsonValue → Option InternalError
missing_part [] value = some key_not_set
missing_part (c ∷ key) missing = some value_is_null
missing_part (c ∷ key) value = none

-- the `switch` without a token: `ensureTokenIsNotNull`, and the end
unfoldable pub parse_no_token : JsonParserState → JsonParser → Stepped
parse_no_token init p = fails no_object_decoded p
parse_no_token in_array_start p = fails unterminated_array p
parse_no_token in_array_value p = fails unterminated_array p
parse_no_token in_array_delimiter p = fails unterminated_array p
parse_no_token in_object_start p = fails unterminated_object p
parse_no_token in_object_key p = fails unterminated_object p
parse_no_token in_object_colon p = fails unterminated_object p
parse_no_token in_object_value p = fails unterminated_object p
parse_no_token in_object_delimiter p = fails unterminated_object p
parse_no_token end p = goes p
parse_no_token error p = throws erroneous_state p

module _ (from_number_literal : List ℕ → JsonValue) where
  -- `tokenToSimpleJsonValue`, which no other token reaches
  unfoldable pub token_to_simple_json_value : JsonToken → Option JsonValue
  token_to_simple_json_value literal_null = some null
  token_to_simple_json_value (literal_boolean b) = some (boolean b)
  token_to_simple_json_value (value_string s) = some (string s)
  token_to_simple_json_value (value_number n) = some (from_number_literal n)
  token_to_simple_json_value _ = none

  unfoldable pub parse_init_state : JsonToken → JsonParser → Stepped
  parse_init_state left_square_bracket p =
      goes (record p { state = in_array_start; value_stack = listing no_items ∷ p.value_stack })
  parse_init_state left_brace p = goes (record p {
    state = in_object_start;
    value_stack = mapping no_fields [] missing ∷ p.value_stack;
  })
  parse_init_state t p = elim (token_to_simple_json_value t) [
    | some v ↦ goes (record p { state = end; value_stack = simple v ∷ p.value_stack })
    | none ↦ fails (unexpected_token t) p
  ]

  -- a value that begins in an array, after its bracket or after a comma
  unfoldable pub parse_array_element : JsonToken → JsonParser → Stepped
  parse_array_element left_square_bracket p = start_of_nested_array in_array_value p
  parse_array_element left_brace p = start_of_nested_object in_array_value p
  parse_array_element t p = elim (token_to_simple_json_value t) [
    | some v ↦ append_to_top v p
    | none ↦ fails (unexpected_token t) p
  ]

  unfoldable pub parse_in_array_start_state : JsonToken → JsonParser → Stepped
  unfolding parse_array_element
  parse_in_array_start_state right_square_bracket p = close_composite p
  parse_in_array_start_state t p = parse_array_element t p

  unfoldable pub parse_in_array_value_state : JsonToken → JsonParser → Stepped
  parse_in_array_value_state comma p = enter_state in_array_delimiter p
  parse_in_array_value_state right_square_bracket p = close_composite p
  parse_in_array_value_state t p = fails (unexpected_token t) p

  unfoldable pub parse_in_array_delimiter_state : JsonToken → JsonParser → Stepped
  unfolding parse_array_element
  parse_in_array_delimiter_state t p = parse_array_element t p

  -- a key, in an object whose container has been looked up
  unfoldable pub take_key : JsonToken → JsonParser → Stepped
  take_key (value_string s) p =
      with_top_object
        (λ fields key value below.
          goes (record p { state = in_object_key; value_stack = mapping fields s value ∷ below }))
        p
  take_key t p = with_top_object (λ fields key value below. fails (unexpected_token t) p) p

  unfoldable pub parse_in_object_start_state : JsonToken → JsonParser → Stepped
  unfolding take_key
  parse_in_object_start_state right_brace p =
      with_top_object (λ fields key value below. close_composite p) p
  parse_in_object_start_state t p = take_key t p

  unfoldable pub parse_in_object_key_state : JsonToken → JsonParser → Stepped
  parse_in_object_key_state colon p = enter_state in_object_colon p
  parse_in_object_key_state t p = fails (unexpected_token t) p

  -- Another token throws, and leaves the state as it is.
  unfoldable pub parse_in_object_colon_state : JsonToken → JsonParser → Stepped
  parse_in_object_colon_state left_brace p =
      with_top_object (λ fields key value below. start_of_nested_object in_object_value p) p
  parse_in_object_colon_state left_square_bracket p =
      with_top_object (λ fields key value below. start_of_nested_array in_object_value p) p
  parse_in_object_colon_state t p =
      with_top_object
        (λ fields key value below. elim (token_to_simple_json_value t) [
          | some v ↦
              goes
                (record p { state = in_object_value; value_stack = mapping fields key v ∷ below })
          | none ↦ throws (unexpected_token t) p
        ])
        p

  -- With a right brace the key and the value stay in the container, with a comma they are forgotten.
  unfoldable pub parse_in_object_value_state : JsonToken → JsonParser → Stepped
  parse_in_object_value_state right_brace p =
      with_top_object
        (λ fields key value below. elim (missing_part key value) [
          | some e ↦ throws (internal e) p
          | none ↦
              close_composite
                (record p { value_stack = mapping (put_field key value fields) key value ∷ below })
        ])
        p
  parse_in_object_value_state comma p =
      with_top_object
        (λ fields key value below. elim (missing_part key value) [
          | some e ↦ throws (internal e) p
          | none ↦ goes (record p {
            state = in_object_delimiter;
            value_stack = mapping (put_field key value fields) [] missing ∷ below;
          })
        ])
        p
  parse_in_object_value_state t p =
      with_top_object (λ fields key value below. fails (unexpected_token t) p) p

  unfoldable pub parse_in_object_delimiter_state : JsonToken → JsonParser → Stepped
  unfolding take_key
  parse_in_object_delimiter_state t p = take_key t p

  -- the `switch` of `doParse`, for a token
  unfoldable pub parse_token : JsonParserState → JsonToken → JsonParser → Stepped
  parse_token init t p = parse_init_state t p
  parse_token in_array_start t p = parse_in_array_start_state t p
  parse_token in_array_value t p = parse_in_array_value_state t p
  parse_token in_array_delimiter t p = parse_in_array_delimiter_state t p
  parse_token in_object_start t p = parse_in_object_start_state t p
  parse_token in_object_key t p = parse_in_object_key_state t p
  parse_token in_object_colon t p = parse_in_object_colon_state t p
  parse_token in_object_value t p = parse_in_object_value_state t p
  parse_token in_object_delimiter t p = parse_in_object_delimiter_state t p
  parse_token end t p = fails (unexpected_token t) p
  parse_token error t p = throws (unexpected_token t) p
