-- ===== src/Json/Writer/Trees.antt =====
-- util/json: the tree of a value, which is written as the value is.
use openkit_native.Prelude.{
  Bool, List, Option, [], ap, append-nil, append_assoc, false, is_empty, none, refl, sym, true, ℕ,
  ◌++◌, ◌<◌, ◌^◌, ◌∙◌, ◌∷◌, ◌≡◌,
}
use openkit_native.Json.Lexer.Several.{tokens_text}
use openkit_native.Json.Lexer.Single.{token_text}
use openkit_native.Json.Number.{long_to_invariant_string, write_number}
use openkit_native.Json.Number.Decimal.{matches-long}
use openkit_native.Json.Parser.{
  JsonToken, colon, comma, right_brace, right_square_bracket, value_string,
}
use openkit_native.Json.Parser.Syntax.{
  Members, Tree, Trees, array_tree, boolean_tree, emit, emit_members, emit_trees, lead_members,
  lead_trees, no_members, no_trees, null_tree, number_tree, object_tree, string_tree, then_member,
  then_tree,
}
use openkit_native.Json.Value.{
  Fields, Items, JsonNumber, JsonValue, array, boolean, double, field, find_field, long, missing,
  no_fields, no_items, null, number, object, push_back, string,
}
use openkit_native.Json.Writer.{
  insert_string_value, separator, write_fields, write_items, write_json_string,
}
use openkit_native.Json.Writer.Separated.{MembersMatch, NumbersMatch, TreesMatch}

-- What is written so that it can be read back: no null pointer and no double, an `int64_t`, and objects whose keys are
-- not empty and differ.
unfoldable pub IsLong : JsonNumber → Type 0
IsLong (long n) = n < 2 ^ 64
IsLong (double bits) = ⊥

unfoldable mutual
  unfolding IsLong find_field

  pub IsWritable : JsonValue → Type 0
  IsWritable missing = ⊥
  IsWritable null = Unit
  IsWritable (boolean b) = Unit
  IsWritable (number n) = IsLong n
  IsWritable (string s) = Unit
  IsWritable (array items) = ItemsAreWritable items
  IsWritable (object fields) = FieldsAreWritable fields

  pub ItemsAreWritable : Items → Type 0
  ItemsAreWritable no_items = Unit
  ItemsAreWritable (push_back items v) = ItemsAreWritable items × IsWritable v

  pub FieldsAreWritable : Fields → Type 0
  FieldsAreWritable no_fields = Unit
  FieldsAreWritable (field k v fields) =
      (is_empty k ≡ false) × IsWritable v × (find_field k fields ≡ none) × FieldsAreWritable fields

unfoldable pub literal_of : JsonNumber → List ℕ
literal_of (long n) = long_to_invariant_string n
literal_of (double bits) = []

unfoldable mutual
  unfolding literal_of

  pub tree_of : JsonValue → Tree
  tree_of missing = null_tree
  tree_of null = null_tree
  tree_of (boolean b) = boolean_tree b
  tree_of (number n) = number_tree (literal_of n)
  tree_of (string s) = string_tree s
  tree_of (array items) = array_tree (trees_of items)
  tree_of (object fields) = object_tree (members_of no_members fields)

  pub trees_of : Items → Trees
  trees_of no_items = no_trees
  trees_of (push_back items v) = then_tree (trees_of items) (tree_of v)

  pub members_of : Members → Fields → Members
  members_of before no_fields = before
  members_of before (field k v fields) = members_of (then_member before k (tree_of v)) fields

-- All numbers of the tree are numbers.
mutual
  unfolding IsWritable NumbersMatch tree_of IsLong literal_of

  pub tree_of-NumbersMatch : (v : JsonValue) → IsWritable v → NumbersMatch (tree_of v)
  tree_of-NumbersMatch missing h = absurd h
  tree_of-NumbersMatch null h = tt
  tree_of-NumbersMatch (boolean b) h = tt
  tree_of-NumbersMatch (number (long n)) h = matches-long n h
  tree_of-NumbersMatch (number (double bits)) h = absurd h
  tree_of-NumbersMatch (string s) h = tt
  tree_of-NumbersMatch (array items) h = trees_of-TreesMatch items h
  tree_of-NumbersMatch (object fields) h = members_of-MembersMatch no_members fields tt h

  pub trees_of-TreesMatch : (items : Items) → ItemsAreWritable items → TreesMatch (trees_of items)
  trees_of-TreesMatch no_items h = tt
  trees_of-TreesMatch (push_back items v) h =
      (trees_of-TreesMatch items h.0, tree_of-NumbersMatch v h.1)

  pub members_of-MembersMatch :
      (before : Members) (fields : Fields)
      → MembersMatch before
      → FieldsAreWritable fields
      → MembersMatch (members_of before fields)
  members_of-MembersMatch before no_fields m h = m
  members_of-MembersMatch before (field k v fields) m h =
      members_of-MembersMatch (then_member before k (tree_of v)) fields
        (m, tree_of-NumbersMatch v h.1) h.3

tokens_text-append :
    (ts us : List JsonToken) → tokens_text (ts ++ us) ≡ tokens_text ts ++ tokens_text us
unfolding tokens_text
tokens_text-append [] us = refl
tokens_text-append (t ∷ ts) us =
    ap (λ l. token_text t ++ l) (tokens_text-append ts us)
    ∙ sym (append_assoc (token_text t) (tokens_text ts) (tokens_text us))

unfoldable pub is_first : Members → Bool
is_first no_members = true
is_first (then_member ms k t) = false

lead_members-text :
    (ms : Members)
    → tokens_text (lead_members ms) ≡ tokens_text (emit_members ms) ++ separator (is_first ms)
unfolding emit tokens_text token_text separator is_first
lead_members-text no_members = refl
lead_members-text (then_member ms k t) =
    let tail = value_string k ∷ colon ∷ emit t in
    ap tokens_text (sym (append_assoc (lead_members ms) tail (comma ∷ [])))
    ∙ tokens_text-append (lead_members ms ++ tail) (comma ∷ [])

lead_trees-text :
    (ts : Trees) (t : Tree)
    → tokens_text (lead_trees (then_tree ts t))
      ≡ tokens_text (emit_trees (then_tree ts t)) ++ b',' ∷ []
unfolding emit tokens_text token_text
lead_trees-text ts t =
    ap tokens_text (sym (append_assoc (lead_trees ts) (emit t) (comma ∷ [])))
    ∙ tokens_text-append (lead_trees ts ++ emit t) (comma ∷ [])

module _ (fixed_double : ℕ → Option (List ℕ)) where
  abbrev write : JsonValue → List ℕ
  write v = write_json_string fixed_double v

  mutual
    unfolding IsWritable tree_of emit write_json_string tokens_text token_text IsLong literal_of
        write_number is_first insert_string_value

    pub tree_of-text : (v : JsonValue) → IsWritable v → tokens_text (emit (tree_of v)) ≡ write v
    tree_of-text missing h = absurd h
    tree_of-text null h = append-nil _
    tree_of-text (boolean true) h = append-nil _
    tree_of-text (boolean false) h = append-nil _
    tree_of-text (number (long n)) h = append-nil _
    tree_of-text (number (double bits)) h = absurd h
    tree_of-text (string s) h = append-nil _
    tree_of-text (array items) h =
        ap (λ l. b'[' ∷ l)
          (tokens_text-append (emit_trees (trees_of items)) (right_square_bracket ∷ [])
            ∙ ap (λ l. l ++ b']' ∷ []) (trees_of-text items h))
    tree_of-text (object fields) h =
        ap (λ l. b'{' ∷ l)
          (tokens_text-append (emit_members (members_of no_members fields)) (right_brace ∷ [])
            ∙ ap (λ l. l ++ b'}' ∷ []) (members_of-text no_members fields h))

    pub trees_of-text :
        (items : Items)
        → ItemsAreWritable items
        → tokens_text (emit_trees (trees_of items)) ≡ write_items fixed_double items
    trees_of-text no_items h = refl
    trees_of-text (push_back no_items v) h = tree_of-text v h.1
    trees_of-text (push_back (push_back items w) v) h =
        tokens_text-append (lead_trees (trees_of (push_back items w))) (emit (tree_of v))
        ∙ ap (λ l. l ++ tokens_text (emit (tree_of v)))
            (lead_trees-text (trees_of items) (tree_of w))
        ∙ append_assoc (tokens_text (emit_trees (trees_of (push_back items w)))) (b',' ∷ [])
            (tokens_text (emit (tree_of v)))
        ∙ (λ i. trees_of-text (push_back items w) h.0 i ++ b',' ∷ tree_of-text v h.1 i)

    pub members_of-text :
        (before : Members) (fields : Fields)
        → FieldsAreWritable fields
        → tokens_text (emit_members (members_of before fields))
          ≡ tokens_text (emit_members before) ++ write_fields fixed_double (is_first before) fields
    members_of-text before no_fields h = sym (append-nil _)
    members_of-text before (field k v fields) h =
        let t = tree_of v in
        let start = tokens_text (emit_members before) in
        let comma_before = separator (is_first before) in
        let key = insert_string_value k in
        let rest = write_fields fixed_double false fields in
        members_of-text (then_member before k t) fields h.3
        ∙ ap (λ l. l ++ rest)
            (tokens_text-append (lead_members before) (value_string k ∷ colon ∷ emit t))
        ∙ (λ i. (lead_members-text before i ++ (key ++ b':' ∷ tree_of-text v h.1 i)) ++ rest)
        ∙ append_assoc (start ++ comma_before) (key ++ b':' ∷ write v) rest
        ∙ append_assoc start comma_before ((key ++ b':' ∷ write v) ++ rest)
        ∙ ap (λ l. start ++ (comma_before ++ l)) (append_assoc key (b':' ∷ write v) rest)
