-- ===== src/Json/Parser/Syntax.antt =====
-- util/json/JsonParser.cxx: the texts that JSON allows, as trees and the tokens in which they are written.
use openkit_native.Prelude.{Bool, List, [], ℕ, ◌++◌, ◌∷◌}
use openkit_native.Json.Parser.{
  JsonToken, colon, comma, left_brace, left_square_bracket, literal_boolean, literal_null,
  right_brace, right_square_bracket, value_number, value_string,
}
use openkit_native.Json.Value.{
  Fields, Items, JsonValue, array, boolean, no_fields, no_items, null, object, push_back, put_field,
  string,
}

mutual
  pub data Tree : Type 0 where
    null_tree : Tree
    boolean_tree : Bool → Tree
    string_tree : List ℕ → Tree
    number_tree : List ℕ → Tree
    array_tree : Trees → Tree
    object_tree : Members → Tree

  pub data Trees : Type 0 where
    no_trees : Trees
    then_tree : Trees → Tree → Trees

  pub data Members : Type 0 where
    no_members : Members
    then_member : Members → List ℕ → Tree → Members

-- The tokens of a tree; those of several elements, with commas between them.
unfoldable mutual
  pub emit : Tree → List JsonToken
  emit null_tree = literal_null ∷ []
  emit (boolean_tree b) = literal_boolean b ∷ []
  emit (string_tree s) = value_string s ∷ []
  emit (number_tree n) = value_number n ∷ []
  emit (array_tree ts) = left_square_bracket ∷ (emit_trees ts ++ right_square_bracket ∷ [])
  emit (object_tree ms) = left_brace ∷ (emit_members ms ++ right_brace ∷ [])

  pub emit_trees : Trees → List JsonToken
  emit_trees no_trees = []
  emit_trees (then_tree ts t) = lead_trees ts ++ emit t

  pub lead_trees : Trees → List JsonToken
  lead_trees no_trees = []
  lead_trees (then_tree ts t) = lead_trees ts ++ (emit t ++ comma ∷ [])

  pub emit_members : Members → List JsonToken
  emit_members no_members = []
  emit_members (then_member ms k t) = lead_members ms ++ value_string k ∷ colon ∷ emit t

  pub lead_members : Members → List JsonToken
  lead_members no_members = []
  lead_members (then_member ms k t) =
      lead_members ms ++ value_string k ∷ colon ∷ (emit t ++ comma ∷ [])

module _ (from_number_literal : List ℕ → JsonValue) where
  -- The value of a tree: of two members with one key, the later counts.
  unfoldable mutual
    pub value_of : Tree → JsonValue
    value_of null_tree = null
    value_of (boolean_tree b) = boolean b
    value_of (string_tree s) = string s
    value_of (number_tree n) = from_number_literal n
    value_of (array_tree ts) = array (items_of ts)
    value_of (object_tree ms) = object (fields_of ms)

    pub items_of : Trees → Items
    items_of no_trees = no_items
    items_of (then_tree ts t) = push_back (items_of ts) (value_of t)

    pub fields_of : Members → Fields
    fields_of no_members = no_fields
    fields_of (then_member ms k t) = put_field k (value_of t) (fields_of ms)
