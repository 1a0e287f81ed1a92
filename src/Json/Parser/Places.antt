-- ===== src/Json/Parser/Places.antt =====
-- util/json/JsonParser.cxx: where the parser stands in a text, without its stacks.
use openkit_native.Prelude.{
  Bool, List, Option, [], false, if◌then◌else◌, none, some, true, ℕ, ◌++◌, ◌∷◌,
}
use openkit_native.Json.Parser.{
  JsonToken, colon, comma, left_brace, left_square_bracket, literal_boolean, literal_null,
  missing_part, right_brace, right_square_bracket, value_number, value_string,
}
use openkit_native.Json.Parser.Syntax.{
  Members, Tree, Trees, array_tree, boolean_tree, emit, lead_members, lead_trees, no_members,
  no_trees, null_tree, number_tree, object_tree, string_tree, then_member, then_tree, value_of,
}
use openkit_native.Json.Value.{JsonValue}

-- The arrays and objects that are open round a place, the innermost first.
pub data Frame : Type 0 where
  in_array : Trees → Frame
  in_object : Members → List ℕ → Frame

-- A constructor of each state, with what has been read since the last frame began.
pub data Place : Type 0 where
  at_start : Place
  at_array_start : List Frame → Place
  at_array_value at_array_delimiter : Trees → Tree → List Frame → Place
  at_object_start : List Frame → Place
  at_object_key at_object_colon : Members → List ℕ → List Frame → Place
  at_object_value at_object_delimiter : Members → List ℕ → Tree → List Frame → Place
  at_the_end : Tree → Place

-- The place after a whole value.
unfoldable pub deliver : Tree → List Frame → Place
deliver t [] = at_the_end t
deliver t (in_array ts ∷ fs) = at_array_value ts t fs
deliver t (in_object ms k ∷ fs) = at_object_value ms k t fs

-- The tokens that have been read.
unfoldable pub read_frames : List Frame → List JsonToken
read_frames [] = []
read_frames (in_array ts ∷ fs) = read_frames fs ++ left_square_bracket ∷ lead_trees ts
read_frames (in_object ms k ∷ fs) =
    read_frames fs ++ left_brace ∷ (lead_members ms ++ value_string k ∷ colon ∷ [])

unfoldable pub read_tokens : Place → List JsonToken
unfolding read_frames
read_tokens at_start = []
read_tokens (at_array_start fs) = read_frames fs ++ left_square_bracket ∷ []
read_tokens (at_array_value ts t fs) =
    read_frames fs ++ left_square_bracket ∷ (lead_trees ts ++ emit t)
read_tokens (at_array_delimiter ts t fs) =
    read_frames fs ++ left_square_bracket ∷ (lead_trees ts ++ (emit t ++ comma ∷ []))
read_tokens (at_object_start fs) = read_frames fs ++ left_brace ∷ []
read_tokens (at_object_key ms k fs) =
    read_frames fs ++ left_brace ∷ (lead_members ms ++ value_string k ∷ [])
read_tokens (at_object_colon ms k fs) =
    read_frames fs ++ left_brace ∷ (lead_members ms ++ value_string k ∷ colon ∷ [])
read_tokens (at_object_value ms k t fs) =
    read_frames fs ++ left_brace ∷ (lead_members ms ++ value_string k ∷ colon ∷ emit t)
read_tokens (at_object_delimiter ms k t fs) =
    read_frames fs
    ++ left_brace ∷ (lead_members ms ++ value_string k ∷ colon ∷ (emit t ++ comma ∷ []))
read_tokens (at_the_end t) = emit t

-- A value that begins where the frames `fs` are open: what one token makes of it.
unfoldable pub begin : JsonToken → List Frame → Option Place
unfolding deliver
begin literal_null fs = some (deliver null_tree fs)
begin (literal_boolean b) fs = some (deliver (boolean_tree b) fs)
begin (value_string s) fs = some (deliver (string_tree s) fs)
begin (value_number n) fs = some (deliver (number_tree n) fs)
begin left_square_bracket fs = some (at_array_start fs)
begin left_brace fs = some (at_object_start fs)
begin _ fs = none

module _ (from_number_literal : List ℕ → JsonValue) where
  -- whether a member can be entered into the map
  unfoldable pub is_entered : List ℕ → Tree → Bool
  unfolding missing_part value_of
  is_entered k t = elim (missing_part k (value_of from_number_literal t)) [
    | none ↦ true
    | some e ↦ false
  ]

  -- One token further, where the text allows it.
  unfoldable pub advance : Place → JsonToken → Option Place
  unfolding begin deliver is_entered
  advance at_start t = begin t []
  advance (at_array_start fs) right_square_bracket = some (deliver (array_tree no_trees) fs)
  advance (at_array_start fs) t = begin t (in_array no_trees ∷ fs)
  advance (at_array_value ts v fs) comma = some (at_array_delimiter ts v fs)
  advance (at_array_value ts v fs) right_square_bracket =
      some (deliver (array_tree (then_tree ts v)) fs)
  advance (at_array_value ts v fs) t = none
  advance (at_array_delimiter ts v fs) t = begin t (in_array (then_tree ts v) ∷ fs)
  advance (at_object_start fs) right_brace = some (deliver (object_tree no_members) fs)
  advance (at_object_start fs) (value_string k) = some (at_object_key no_members k fs)
  advance (at_object_start fs) t = none
  advance (at_object_key ms k fs) colon = some (at_object_colon ms k fs)
  advance (at_object_key ms k fs) t = none
  advance (at_object_colon ms k fs) t = begin t (in_object ms k ∷ fs)
  advance (at_object_value ms k v fs) comma =
      if is_entered k v then some (at_object_delimiter ms k v fs) else none
  advance (at_object_value ms k v fs) right_brace =
      if is_entered k v then some (deliver (object_tree (then_member ms k v)) fs) else none
  advance (at_object_value ms k v fs) t = none
  advance (at_object_delimiter ms k v fs) (value_string k') =
      some (at_object_key (then_member ms k v) k' fs)
  advance (at_object_delimiter ms k v fs) t = none
  advance (at_the_end v) t = none

  -- All the tokens.
  unfoldable pub advance_all : Option Place → List JsonToken → Option Place
  advance_all none ts = none
  advance_all (some pl) [] = some pl
  advance_all (some pl) (t ∷ ts) = advance_all (advance pl t) ts
