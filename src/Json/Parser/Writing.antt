-- ===== src/Json/Parser/Writing.antt =====
-- util/json/JsonParser.cxx: the place after the tokens of a tree.
use openkit_native.Prelude.{
  Bool, List, Option, [], ap, append-nil, append_assoc, false, if-true, refl, some, sym, true, ℕ,
  ◌++◌, ◌∙◌, ◌∷◌, ◌≡◌,
}
use openkit_native.Json.Parser.{
  JsonToken, colon, comma, left_brace, left_square_bracket, literal_boolean, literal_null,
  right_brace, right_square_bracket, value_number, value_string,
}
use openkit_native.Json.Parser.Places.{
  Frame, Place, advance, advance_all, at_array_delimiter, at_array_start, at_object_colon,
  at_object_delimiter, at_object_key, at_object_start, at_object_value, at_start, at_the_end, begin,
  deliver, in_array, in_object, is_entered,
}
use openkit_native.Json.Parser.Syntax.{
  Members, Tree, Trees, array_tree, boolean_tree, emit, emit_members, emit_trees, lead_members,
  lead_trees, no_members, no_trees, null_tree, number_tree, object_tree, string_tree, then_member,
  then_tree,
}
use openkit_native.Json.Value.{JsonValue}

module _ (from_number_literal : List ℕ → JsonValue) where
  -- Every member of every object has a key that is not empty and a value that is not a null pointer.
  unfoldable mutual
    pub AreEntered : Tree → Type 0
    AreEntered (array_tree ts) = TreesAreEntered ts
    AreEntered (object_tree ms) = MembersAreEntered ms
    AreEntered t = Unit

    pub TreesAreEntered : Trees → Type 0
    TreesAreEntered no_trees = Unit
    TreesAreEntered (then_tree ts t) = TreesAreEntered ts × AreEntered t

    pub MembersAreEntered : Members → Type 0
    MembersAreEntered no_members = Unit
    MembersAreEntered (then_member ms k t) =
        MembersAreEntered ms × AreEntered t × (is_entered from_number_literal k t ≡ true)

  -- Places where a value is expected, and the frames round it.
  data Expects : Place → List Frame → Type 0 where
    start_expects : Expects at_start []
    array_start_expects : (fs : List Frame) → Expects (at_array_start fs) (in_array no_trees ∷ fs)
    array_delimiter_expects :
        (ts : Trees) (v : Tree) (fs : List Frame)
        → Expects (at_array_delimiter ts v fs) (in_array (then_tree ts v) ∷ fs)
    object_colon_expects :
        (ms : Members) (k : List ℕ) (fs : List Frame)
        → Expects (at_object_colon ms k fs) (in_object ms k ∷ fs)

  is_closing : JsonToken → Bool
  is_closing right_square_bracket = true
  is_closing _ = false

  advance-begin :
      {pl : Place} {fs : List Frame} (t : JsonToken)
      → Expects pl fs
      → is_closing t ≡ false
      → advance from_number_literal pl t ≡ begin t fs
  unfolding advance is_closing
  advance-begin t start_expects h = refl
  advance-begin right_square_bracket (array_start_expects fs) h = cc
  advance-begin _ (array_start_expects fs) h = refl
  advance-begin t (array_delimiter_expects ts v fs) h = refl
  advance-begin t (object_colon_expects ms k fs) h = refl

  after_lead : Trees → List Frame → Place
  after_lead no_trees fs = at_array_start fs
  after_lead (then_tree ts t) fs = at_array_delimiter ts t fs

  after_lead-Expects :
      (ts : Trees) (fs : List Frame) → Expects (after_lead ts fs) (in_array ts ∷ fs)
  unfolding after_lead
  after_lead-Expects no_trees fs = array_start_expects fs
  after_lead-Expects (then_tree ts t) fs = array_delimiter_expects ts t fs

  before_key : Members → List Frame → Place
  before_key no_members fs = at_object_start fs
  before_key (then_member ms k t) fs = at_object_delimiter ms k t fs

  key-before_key :
      (ms : Members) (k : List ℕ) (fs : List Frame)
      → advance from_number_literal (before_key ms fs) (value_string k)
        ≡ some (at_object_key ms k fs)
  unfolding advance before_key
  key-before_key no_members k fs = refl
  key-before_key (then_member ms k' t) k fs = refl

  abbrev go : Place → List JsonToken → Option Place
  go pl ts = advance_all from_number_literal (some pl) ts

  go-step :
      (pl : Place) {pl' : Place} (t : JsonToken) (ts : List JsonToken)
      → advance from_number_literal pl t ≡ some pl'
      → go pl (t ∷ ts) ≡ go pl' ts
  unfolding advance_all
  go-step pl t ts h = ap (λ o. advance_all from_number_literal o ts) h

  mutual
    unfolding emit AreEntered begin advance after_lead before_key is_closing deliver

    go-emit :
        (v : Tree) (pl : Place) (fs : List Frame) (rest : List JsonToken)
        → Expects pl fs
        → AreEntered v
        → go pl (emit v ++ rest) ≡ go (deliver v fs) rest
    go-emit null_tree pl fs rest x h =
        go-step _ literal_null rest (advance-begin literal_null x refl)
    go-emit (boolean_tree b) pl fs rest x h =
        go-step _ (literal_boolean b) rest (advance-begin (literal_boolean b) x refl)
    go-emit (string_tree s) pl fs rest x h =
        go-step _ (value_string s) rest (advance-begin (value_string s) x refl)
    go-emit (number_tree n) pl fs rest x h =
        go-step _ (value_number n) rest (advance-begin (value_number n) x refl)
    go-emit (array_tree ts) pl fs rest x h =
        go-step _ left_square_bracket _ (advance-begin left_square_bracket x refl)
        ∙ ap (go (at_array_start fs))
            (append_assoc (emit_trees ts) (right_square_bracket ∷ []) rest)
        ∙ go-emit_trees ts fs rest h
    go-emit (object_tree ms) pl fs rest x h =
        go-step _ left_brace _ (advance-begin left_brace x refl)
        ∙ ap (go (at_object_start fs)) (append_assoc (emit_members ms) (right_brace ∷ []) rest)
        ∙ go-emit_members ms fs rest h

    go-emit_trees :
        (ts : Trees) (fs : List Frame) (rest : List JsonToken)
        → TreesAreEntered ts
        → go (at_array_start fs) (emit_trees ts ++ right_square_bracket ∷ rest)
          ≡ go (deliver (array_tree ts) fs) rest
    go-emit_trees no_trees fs rest h = go-step _ right_square_bracket rest refl
    go-emit_trees (then_tree ts t) fs rest h =
        ap (go (at_array_start fs))
          (append_assoc (lead_trees ts) (emit t) (right_square_bracket ∷ rest))
        ∙ go-lead_trees ts fs _ h.0
        ∙ go-emit t (after_lead ts fs) (in_array ts ∷ fs) _ (after_lead-Expects ts fs) h.1
        ∙ go-step _ right_square_bracket rest refl

    go-lead_trees :
        (ts : Trees) (fs : List Frame) (rest : List JsonToken)
        → TreesAreEntered ts
        → go (at_array_start fs) (lead_trees ts ++ rest) ≡ go (after_lead ts fs) rest
    go-lead_trees no_trees fs rest h = refl
    go-lead_trees (then_tree ts t) fs rest h =
        ap (go (at_array_start fs)) (
          append_assoc (lead_trees ts) (emit t ++ comma ∷ []) rest
          ∙ ap (λ l. lead_trees ts ++ l) (append_assoc (emit t) (comma ∷ []) rest))
        ∙ go-lead_trees ts fs _ h.0
        ∙ go-emit t (after_lead ts fs) (in_array ts ∷ fs) _ (after_lead-Expects ts fs) h.1
        ∙ go-step _ comma rest refl

    go-emit_members :
        (ms : Members) (fs : List Frame) (rest : List JsonToken)
        → MembersAreEntered ms
        → go (at_object_start fs) (emit_members ms ++ right_brace ∷ rest)
          ≡ go (deliver (object_tree ms) fs) rest
    go-emit_members no_members fs rest h = go-step _ right_brace rest refl
    go-emit_members (then_member ms k t) fs rest h =
        ap (go (at_object_start fs))
          (append_assoc (lead_members ms) (value_string k ∷ colon ∷ emit t) (right_brace ∷ rest))
        ∙ go-lead_members ms fs _ h.0
        ∙ go-step _ (value_string k) _ (key-before_key ms k fs)
        ∙ go-step _ colon _ refl
        ∙ go-emit t (at_object_colon ms k fs) (in_object ms k ∷ fs) _ (object_colon_expects ms k fs)
            h.1
        ∙ go-step _ right_brace rest (if-true _ _ h.2)

    go-lead_members :
        (ms : Members) (fs : List Frame) (rest : List JsonToken)
        → MembersAreEntered ms
        → go (at_object_start fs) (lead_members ms ++ rest) ≡ go (before_key ms fs) rest
    go-lead_members no_members fs rest h = refl
    go-lead_members (then_member ms k t) fs rest h =
        ap (go (at_object_start fs)) (
          append_assoc (lead_members ms) (value_string k ∷ colon ∷ (emit t ++ comma ∷ [])) rest
          ∙ ap (λ l. lead_members ms ++ value_string k ∷ colon ∷ l)
              (append_assoc (emit t) (comma ∷ []) rest))
        ∙ go-lead_members ms fs _ h.0
        ∙ go-step _ (value_string k) _ (key-before_key ms k fs)
        ∙ go-step _ colon _ refl
        ∙ go-emit t (at_object_colon ms k fs) (in_object ms k ∷ fs) _ (object_colon_expects ms k fs)
            h.1
        ∙ go-step _ comma rest (if-true _ _ h.2)

  -- The tokens of a tree lead from the start to the end.
  pub advance_all-emit :
      (v : Tree)
      → AreEntered v
      → advance_all from_number_literal (some at_start) (emit v) ≡ some (at_the_end v)
  unfolding advance_all deliver
  advance_all-emit v h =
      ap (go at_start) (sym (append-nil (emit v))) ∙ go-emit v at_start [] [] start_expects h

  -- The tokens of a first member lead to the place after its value.
  pub go-first_member :
      (k : List ℕ) (v : Tree)
      → AreEntered v
      → advance_all from_number_literal
          (some at_start)
          (left_brace ∷ value_string k ∷ colon ∷ emit v)
        ≡ some (at_object_value no_members k v [])
  unfolding advance_all advance begin deliver
  go-first_member k v h =
      ap (go (at_object_colon no_members k [])) (sym (append-nil (emit v)))
      ∙ go-emit v (at_object_colon no_members k []) (in_object no_members k ∷ []) []
          (object_colon_expects no_members k []) h
