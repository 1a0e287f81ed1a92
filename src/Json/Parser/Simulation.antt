-- ===== src/Json/Parser/Simulation.antt =====
-- util/json/JsonParser.cxx: the stacks of the parser at a place, and one token of it.
use mathlib.Core.Path.{subst}
use openkit_native.Prelude.{
  List, Option, [], arith, false, if-false, if◌then◌else◌, length, none, not, refl, some, true, ℕ,
  ◌+◌, ◌==◌, ◌∙◌, ◌∷◌, ◌≡◌,
}
use openkit_native.Json.Parser.{
  Container, InternalError, JsonParser, JsonParserState, JsonToken, ParserException, Stepped,
  append_to_top, close_composite, colon, comma, end, enter_state, error, fails, give_to_parent,
  goes, in_array_delimiter, in_array_start, in_array_value, in_object_colon, in_object_delimiter,
  in_object_key, in_object_start, in_object_value, internal, json_value, key_not_set, left_brace,
  left_square_bracket, listing, literal_boolean, literal_null, mapping, missing_part,
  new_json_parser, parse_array_element, parse_in_array_delimiter_state, parse_in_array_start_state,
  parse_in_array_value_state, parse_in_object_colon_state, parse_in_object_delimiter_state,
  parse_in_object_key_state, parse_in_object_start_state, parse_in_object_value_state,
  parse_init_state, parse_token, restore_state, right_brace, right_square_bracket, simple,
  start_of_nested_array, start_of_nested_object, take_key, throws, token_to_simple_json_value,
  unexpected_token, value_is_null, value_number, value_string, with_top_object,
}
use openkit_native.Json.Parser.Places.{
  Frame, Place, advance, at_array_delimiter, at_array_start, at_array_value, at_object_colon,
  at_object_delimiter, at_object_key, at_object_start, at_object_value, at_start, at_the_end, begin,
  deliver, in_array, in_object, is_entered,
}
use openkit_native.Json.Parser.Syntax.{
  Members, Tree, Trees, array_tree, fields_of, items_of, no_members, no_trees, object_tree,
  then_member, then_tree, value_of,
}
use openkit_native.Json.Value.{Fields, Items, JsonValue, missing, no_fields, no_items, put_field}

-- The exceptions that come, and the state in which each leaves the parser.
pub data IsRefusal : ParserException → JsonParserState → Type 0 where
  unexpected : (t : JsonToken) → IsRefusal (unexpected_token t) error
  after_colon : (t : JsonToken) → IsRefusal (unexpected_token t) in_object_colon
  empty_key : IsRefusal (internal key_not_set) in_object_value
  null_value : IsRefusal (internal value_is_null) in_object_value

module _ (from_number_literal : List ℕ → JsonValue) where
  abbrev value : Tree → JsonValue
  value t = value_of from_number_literal t

  abbrev items : Trees → Items
  items ts = items_of from_number_literal ts

  abbrev fields : Members → Fields
  fields ms = fields_of from_number_literal ms

  -- the container that is left at the end
  unfoldable pub container_of : Tree → Container
  unfolding value_of
  container_of (array_tree ts) = listing (items ts)
  container_of (object_tree no_members) = mapping no_fields [] missing
  container_of (object_tree (then_member ms k t)) =
      mapping (put_field k (value t) (fields ms)) k (value t)
  container_of t = simple (value t)

  unfoldable pub containers : List Frame → List Container
  containers [] = []
  containers (in_array ts ∷ fs) = listing (items ts) ∷ containers fs
  containers (in_object ms k ∷ fs) = mapping (fields ms) k missing ∷ containers fs

  unfoldable pub states : List Frame → List JsonParserState
  states [] = []
  states (in_array ts ∷ fs) = in_array_value ∷ states fs
  states (in_object ms k ∷ fs) = in_object_value ∷ states fs

  abbrev within : JsonParserState → Container → List Frame → JsonParser
  within s c fs = record {
    state = s;
    value_stack = c ∷ containers fs;
    state_stack = states fs;
    parsed_value = missing;
  }

  -- The parser at a place.
  unfoldable pub parser_at : Place → JsonParser
  unfolding container_of containers states
  parser_at at_start = new_json_parser
  parser_at (at_array_start fs) = within in_array_start (listing no_items) fs
  parser_at (at_array_value ts t fs) = within in_array_value (listing (items (then_tree ts t))) fs
  parser_at (at_array_delimiter ts t fs) =
      within in_array_delimiter (listing (items (then_tree ts t))) fs
  parser_at (at_object_start fs) = within in_object_start (mapping no_fields [] missing) fs
  parser_at (at_object_key ms k fs) = within in_object_key (mapping (fields ms) k missing) fs
  parser_at (at_object_colon ms k fs) = within in_object_colon (mapping (fields ms) k missing) fs
  parser_at (at_object_value ms k t fs) =
      within in_object_value (mapping (fields ms) k (value t)) fs
  parser_at (at_object_delimiter ms k t fs) =
      within in_object_delimiter (mapping (fields (then_member ms k t)) [] missing) fs
  parser_at (at_the_end t) = within end (container_of t) []

  -- A step of the parser does what its place allows, or throws.
  unfoldable pub Simulates : Option Place → Stepped → Type 0
  Simulates (some pl) s = s ≡ goes (parser_at pl)
  Simulates none s =
      (e : ParserException) × (p : JsonParser) × (s ≡ throws e p) × IsRefusal e p.state

  pub json_value-container_of : (t : Tree) → json_value (container_of t) ≡ value t
  unfolding json_value container_of value_of
  json_value-container_of (array_tree ts) = refl
  json_value-container_of (object_tree no_members) = refl
  json_value-container_of (object_tree (then_member ms k t)) = refl
  json_value-container_of _ = refl

  length-containers : (fs : List Frame) → length (containers fs) ≡ length (states fs)
  unfolding containers states
  length-containers [] = refl
  length-containers (in_array ts ∷ fs) = omega (arith, length-containers fs)
  length-containers (in_object ms k ∷ fs) = omega (arith, length-containers fs)

  -- The sizes of the stacks agree whenever a value is closed.
  sizes-agree :
      (c : Container) (fs : List Frame)
      → not (length (c ∷ containers fs) == length (states fs) + 1) ≡ false
  sizes-agree c fs = ground (arith, length-containers fs)

  give_to_parent-deliver :
      (s : JsonParserState) (t : Tree) (fs : List Frame)
      → give_to_parent (container_of t) (containers fs) (within s (container_of t) fs)
        ≡ goes (parser_at (deliver t fs))
  unfolding give_to_parent restore_state enter_state parser_at deliver containers states value_of
  give_to_parent-deliver s t [] = refl
  give_to_parent-deliver s t (in_array ts ∷ fs) = rw (json_value-container_of t)
  give_to_parent-deliver s t (in_object ms k ∷ fs) = rw (json_value-container_of t)

  close_composite-deliver :
      (s : JsonParserState) (t : Tree) (fs : List Frame)
      → close_composite (within s (container_of t) fs) ≡ goes (parser_at (deliver t fs))
  unfolding close_composite
  close_composite-deliver s t fs =
      if-false _ _ (sizes-agree (container_of t) fs) ∙ give_to_parent-deliver s t fs

  refused :
      (e : ParserException) (p : JsonParser) → IsRefusal e p.state → Simulates none (throws e p)
  unfolding Simulates
  refused e p h = (e, p, refl, h)

  begin-init :
      (t : JsonToken)
      → Simulates (begin t []) (parse_init_state from_number_literal t new_json_parser)
  unfolding Simulates begin parse_init_state token_to_simple_json_value fails parser_at deliver
      value_of
  begin-init literal_null = refl
  begin-init (literal_boolean b) = refl
  begin-init (value_string s) = refl
  begin-init (value_number n) = refl
  begin-init left_square_bracket = refl
  begin-init left_brace = refl
  begin-init t =
      refused (unexpected_token t) (record new_json_parser { state = error }) (unexpected t)

  begin-element :
      (s : JsonParserState) (ts : Trees) (t : JsonToken) (fs : List Frame)
      → Simulates
          (begin t (in_array ts ∷ fs))
          (parse_array_element from_number_literal t (within s (listing (items ts)) fs))
  unfolding Simulates begin parse_array_element token_to_simple_json_value fails parser_at deliver
      value_of start_of_nested_array start_of_nested_object append_to_top containers states
  begin-element s ts literal_null fs = refl
  begin-element s ts (literal_boolean b) fs = refl
  begin-element s ts (value_string x) fs = refl
  begin-element s ts (value_number n) fs = refl
  begin-element s ts left_square_bracket fs = refl
  begin-element s ts left_brace fs = refl
  begin-element s ts t fs =
      refused (unexpected_token t) (within error (listing (items ts)) fs) (unexpected t)

  begin-member :
      (ms : Members) (k : List ℕ) (t : JsonToken) (fs : List Frame)
      → Simulates (begin t (in_object ms k ∷ fs)) (
          parse_in_object_colon_state from_number_literal t
            (within in_object_colon (mapping (fields ms) k missing) fs))
  unfolding Simulates begin parse_in_object_colon_state with_top_object token_to_simple_json_value
      parser_at deliver value_of start_of_nested_array start_of_nested_object containers states
  begin-member ms k literal_null fs = refl
  begin-member ms k (literal_boolean b) fs = refl
  begin-member ms k (value_string x) fs = refl
  begin-member ms k (value_number n) fs = refl
  begin-member ms k left_square_bracket fs = refl
  begin-member ms k left_brace fs = refl
  begin-member ms k t fs =
      refused (unexpected_token t) (within in_object_colon (mapping (fields ms) k missing) fs)
        (after_colon t)

  abbrev step : Place → JsonToken → Stepped
  step pl t = parse_token from_number_literal (parser_at pl).state t (parser_at pl)

  missing_part-IsRefusal :
      (key : List ℕ) (v : JsonValue) (e : InternalError)
      → missing_part key v ≡ some e
      → IsRefusal (internal e) in_object_value
  unfolding missing_part
  missing_part-IsRefusal [] v e h =
      subst (λ x. IsRefusal (internal x) in_object_value) (cc) empty_key
  missing_part-IsRefusal (c ∷ key) missing e h =
      subst (λ x. IsRefusal (internal x) in_object_value) (cc) null_value
  missing_part-IsRefusal (c ∷ key) _ e h = cc

  -- a member that can be entered, or not
  member-Simulates :
      (m : Option InternalError) (pl : Place) (s : Stepped) (p : JsonParser)
      → Simulates (some pl) s
      → ((e : InternalError) → m ≡ some e → IsRefusal (internal e) p.state)
      → Simulates
          (if elim m [ none ↦ true | some e ↦ false ] then some pl else none)
          (elim m [ some e ↦ throws (internal e) p | none ↦ s ])
  member-Simulates none pl s p ok h = ok
  member-Simulates (some e) pl s p ok h = refused (internal e) p (h e refl)

  pub advance-Simulates :
      (pl : Place) (t : JsonToken) → Simulates (advance from_number_literal pl t) (step pl t)
  unfolding Simulates advance parse_token parser_at fails enter_state with_top_object take_key
      parse_in_array_start_state parse_in_array_value_state parse_in_array_delimiter_state
      parse_in_object_start_state parse_in_object_key_state parse_in_object_value_state
      parse_in_object_delimiter_state value_of container_of is_entered
  advance-Simulates at_start t = begin-init t
  advance-Simulates (at_array_start fs) right_square_bracket =
      close_composite-deliver in_array_start (array_tree no_trees) fs
  advance-Simulates (at_array_start fs) t = begin-element in_array_start no_trees t fs
  advance-Simulates (at_array_value ts v fs) comma = refl
  advance-Simulates (at_array_value ts v fs) right_square_bracket =
      close_composite-deliver in_array_value (array_tree (then_tree ts v)) fs
  advance-Simulates (at_array_value ts v fs) t = refused (unexpected_token t) _ (unexpected t)
  advance-Simulates (at_array_delimiter ts v fs) t =
      begin-element in_array_delimiter (then_tree ts v) t fs
  advance-Simulates (at_object_start fs) right_brace =
      close_composite-deliver in_object_start (object_tree no_members) fs
  advance-Simulates (at_object_start fs) (value_string k) = refl
  advance-Simulates (at_object_start fs) t = refused (unexpected_token t) _ (unexpected t)
  advance-Simulates (at_object_key ms k fs) colon = refl
  advance-Simulates (at_object_key ms k fs) t = refused (unexpected_token t) _ (unexpected t)
  advance-Simulates (at_object_colon ms k fs) t = begin-member ms k t fs
  advance-Simulates (at_object_value ms k v fs) comma =
      member-Simulates (missing_part k (value v)) (at_object_delimiter ms k v fs) _
        (parser_at (at_object_value ms k v fs)) refl (missing_part-IsRefusal k (value v))
  advance-Simulates (at_object_value ms k v fs) right_brace =
      member-Simulates (missing_part k (value v)) (deliver (object_tree (then_member ms k v)) fs) _
        (parser_at (at_object_value ms k v fs))
        (close_composite-deliver in_object_value (object_tree (then_member ms k v)) fs)
        (missing_part-IsRefusal k (value v))
  advance-Simulates (at_object_value ms k v fs) t = refused (unexpected_token t) _ (unexpected t)
  advance-Simulates (at_object_delimiter ms k v fs) (value_string k') = refl
  advance-Simulates (at_object_delimiter ms k v fs) t =
      refused (unexpected_token t) _ (unexpected t)
  advance-Simulates (at_the_end v) t = refused (unexpected_token t) _ (unexpected t)
