-- ===== src/Json/Parser/Reading.antt =====
-- util/json/JsonParser.cxx: the tokens before a place, and the place after the tokens of a tree.
use mathlib.Core.Path.{subst}
use openkit_native.Prelude.{
  List, Option, [], append-nil, append_assoc, if-both, none, refl, some, ℕ, ◌++◌, ◌∙◌, ◌∷◌, ◌≡◌,
}
use openkit_native.Json.Parser.{
  JsonToken, colon, comma, left_brace, left_square_bracket, literal_boolean, literal_null,
  right_brace, right_square_bracket, value_number, value_string,
}
use openkit_native.Json.Parser.Places.{
  Frame, Place, advance, advance_all, at_array_delimiter, at_array_start, at_array_value,
  at_object_colon, at_object_delimiter, at_object_key, at_object_start, at_object_value, at_start,
  at_the_end, begin, deliver, in_array, in_object, is_entered, read_frames, read_tokens,
}
use openkit_native.Json.Parser.Syntax.{
  Tree, array_tree, boolean_tree, emit, no_members, no_trees, null_tree, number_tree, object_tree,
  string_tree, then_member, then_tree,
}
use openkit_native.Json.Value.{JsonValue}

read_tokens-deliver :
    (v : Tree) (fs : List Frame) → read_tokens (deliver v fs) ≡ read_frames fs ++ emit v
unfolding read_tokens deliver read_frames
read_tokens-deliver v [] = refl
read_tokens-deliver v (in_array ts ∷ fs) = simp (append_assoc)
read_tokens-deliver v (in_object ms k ∷ fs) = simp (append_assoc)

-- The place after a token, where there is one, has read that token more.
unfoldable pub HasRead : List JsonToken → Option Place → Type 0
HasRead ts none = Unit
HasRead ts (some pl) = read_tokens pl ≡ ts

begin-HasRead : (t : JsonToken) (fs : List Frame) → HasRead (read_frames fs ++ t ∷ []) (begin t fs)
unfolding HasRead begin read_tokens emit
begin-HasRead literal_null fs = read_tokens-deliver null_tree fs
begin-HasRead (literal_boolean b) fs = read_tokens-deliver (boolean_tree b) fs
begin-HasRead (value_string s) fs = read_tokens-deliver (string_tree s) fs
begin-HasRead (value_number n) fs = read_tokens-deliver (number_tree n) fs
begin-HasRead left_square_bracket fs = refl
begin-HasRead left_brace fs = refl
begin-HasRead _ fs = tt

module _ (from_number_literal : List ℕ → JsonValue) where
  pub advance-HasRead :
      (pl : Place) (t : JsonToken)
      → HasRead (read_tokens pl ++ t ∷ []) (advance from_number_literal pl t)
  unfolding HasRead advance read_tokens read_frames emit
  advance-HasRead at_start t = begin-HasRead t []
  advance-HasRead (at_array_start fs) right_square_bracket =
      read_tokens-deliver (array_tree no_trees) fs ∙ simp (append_assoc)
  advance-HasRead (at_array_start fs) t = begin-HasRead t (in_array no_trees ∷ fs)
  advance-HasRead (at_array_value ts v fs) comma = simp (append_assoc)
  advance-HasRead (at_array_value ts v fs) right_square_bracket =
      read_tokens-deliver (array_tree (then_tree ts v)) fs ∙ simp (append_assoc)
  advance-HasRead (at_array_value ts v fs) _ = tt
  advance-HasRead (at_array_delimiter ts v fs) t = begin-HasRead t (in_array (then_tree ts v) ∷ fs)
  advance-HasRead (at_object_start fs) right_brace =
      read_tokens-deliver (object_tree no_members) fs ∙ simp (append_assoc)
  advance-HasRead (at_object_start fs) (value_string k) = simp (append_assoc)
  advance-HasRead (at_object_start fs) _ = tt
  advance-HasRead (at_object_key ms k fs) colon = simp (append_assoc)
  advance-HasRead (at_object_key ms k fs) _ = tt
  advance-HasRead (at_object_colon ms k fs) t = begin-HasRead t (in_object ms k ∷ fs)
  advance-HasRead (at_object_value ms k v fs) comma =
      if-both (HasRead (read_tokens (at_object_value ms k v fs) ++ comma ∷ []))
        (is_entered from_number_literal k v) (λ entered. simp (append_assoc)) (λ missed. tt)
  advance-HasRead (at_object_value ms k v fs) right_brace =
      if-both (HasRead (read_tokens (at_object_value ms k v fs) ++ right_brace ∷ []))
        (is_entered from_number_literal k v)
        (λ entered. read_tokens-deliver (object_tree (then_member ms k v)) fs ∙ simp (append_assoc))
        (λ missed. tt)
  advance-HasRead (at_object_value ms k v fs) _ = tt
  advance-HasRead (at_object_delimiter ms k v fs) (value_string k') = simp (append_assoc)
  advance-HasRead (at_object_delimiter ms k v fs) _ = tt
  advance-HasRead (at_the_end v) t = tt

  -- After any tokens that are let through, the place has read just these.
  pub advance_all-HasRead :
      (before : List JsonToken) (o : Option Place) (ts : List JsonToken)
      → HasRead before o
      → HasRead (before ++ ts) (advance_all from_number_literal o ts)
  unfolding HasRead advance_all
  advance_all-HasRead before none ts h = tt
  advance_all-HasRead before (some pl) [] h = rw append-nil h
  advance_all-HasRead before (some pl) (t ∷ ts) h =
      let one : HasRead (before ++ t ∷ []) (advance from_number_literal pl t) =
        subst (λ l. HasRead (l ++ t ∷ []) (advance from_number_literal pl t)) h
          (advance-HasRead pl t) in
      subst (λ l. HasRead l (advance_all from_number_literal (advance from_number_literal pl t) ts))
        (append_assoc before (t ∷ []) ts)
        (advance_all-HasRead (before ++ t ∷ []) (advance from_number_literal pl t) ts one)
