-- ===== src/Json/Writer/RoundTrip.antt =====
-- util/json: what is written is parsed back.
use mathlib.Core.Path.{subst}
use openkit_native.Prelude.{
  Bool, List, Option, [], ap, arith, false, is_empty, none, refl, some, sym, true, ℕ, ◌∙◌, ◌∷◌, ◌≡◌,
}
use openkit_native.Json.Lexer.Stream.{tokens_of_text}
use openkit_native.Json.Number.{from_number_literal}
use openkit_native.Json.Number.Decimal.{from_number_literal-long}
use openkit_native.Json.Parser.{InternalError, Tokens, missing_part, new_json_parser}
use openkit_native.Json.Parser.Accepted.{parse-emit}
use openkit_native.Json.Parser.Grammar.{stream}
use openkit_native.Json.Parser.Loop.{parse, parsed}
use openkit_native.Json.Parser.Places.{is_entered}
use openkit_native.Json.Parser.Syntax.{
  Members, Tree, emit, fields_of, items_of, no_members, then_member, value_of,
}
use openkit_native.Json.Parser.Writing.{AreEntered, MembersAreEntered, TreesAreEntered}
use openkit_native.Json.Value.{
  Fields, Items, JsonValue, array, boolean, double, field, find_field, long, missing, no_fields,
  no_items, null, number, object, push_back, put_field, same_bytes, string,
}
use openkit_native.Json.Writer.{write_json_string}
use openkit_native.Json.Writer.Separated.{tokens_of_text-emit}
use openkit_native.Json.Writer.Trees.{
  FieldsAreWritable, IsLong, IsWritable, ItemsAreWritable, literal_of, members_of, tree_of,
  tree_of-NumbersMatch, tree_of-text, trees_of,
}

append_fields : Fields → Fields → Fields
append_fields no_fields gs = gs
append_fields (field k v fs) gs = field k v (append_fields fs gs)

append_fields-nothing : (fs : Fields) → append_fields fs no_fields ≡ fs
unfolding append_fields
append_fields-nothing no_fields = refl
append_fields-nothing (field k v fs) = ap (field k v) (append_fields-nothing fs)

append_fields_assoc :
    (fs gs hs : Fields)
    → append_fields (append_fields fs gs) hs ≡ append_fields fs (append_fields gs hs)
unfolding append_fields
append_fields_assoc no_fields gs hs = refl
append_fields_assoc (field k v fs) gs hs = ap (field k v) (append_fields_assoc fs gs hs)

same_bytes_comm : (cs ds : List ℕ) → same_bytes cs ds ≡ same_bytes ds cs
unfolding same_bytes
same_bytes_comm [] [] = refl
same_bytes_comm [] (d ∷ ds) = refl
same_bytes_comm (c ∷ cs) [] = refl
same_bytes_comm (c ∷ cs) (d ∷ ds) = ground (arith, same_bytes_comm cs ds)

-- A new key is entered at the end.
put_field-new :
    (k : List ℕ) (v : JsonValue) (fs : Fields)
    → find_field k fs ≡ none
    → put_field k v fs ≡ append_fields fs (field k v no_fields)
unfolding put_field find_field append_fields
put_field-new k v no_fields h = refl
put_field-new k v (field j w fs) h = ground (arith, put_field-new k v fs)

find_field-append :
    (k j : List ℕ) (v : JsonValue) (fs : Fields)
    → find_field k fs ≡ none
    → same_bytes j k ≡ false
    → find_field k (append_fields fs (field j v no_fields)) ≡ none
unfolding find_field append_fields
find_field-append k j v no_fields h other = rw other
find_field-append k j v (field i w fs) h other = ground (arith, find_field-append k j v fs)

-- None of the second fields' keys is among the first.
AreApart : Fields → Fields → Type 0
AreApart fs no_fields = Unit
AreApart fs (field k v gs) = (find_field k fs ≡ none) × AreApart fs gs

AreApart-append :
    (fs gs : Fields) (k : List ℕ) (v : JsonValue)
    → AreApart fs gs
    → find_field k gs ≡ none
    → AreApart (append_fields fs (field k v no_fields)) gs
unfolding AreApart find_field
AreApart-append fs no_fields k v apart new = tt
AreApart-append fs (field j w gs) k v apart new =
    let other : same_bytes j k ≡ false = ground arith in
    let later : find_field k gs ≡ none = ground arith in
    (
      find_field-append j k v fs apart.0 (same_bytes_comm k j ∙ other),
      AreApart-append fs gs k v apart.1 later,
    )

AreApart-nothing : (gs : Fields) → AreApart no_fields gs
unfolding AreApart find_field
AreApart-nothing no_fields = tt
AreApart-nothing (field k v gs) = (refl, AreApart-nothing gs)

missing_part-none :
    (k : List ℕ) (v : JsonValue) → is_empty k ≡ false → IsWritable v → missing_part k v ≡ none
unfolding missing_part IsWritable
missing_part-none [] v h w = cc
missing_part-none (c ∷ k) missing h w = absurd w
missing_part-none (c ∷ k) _ h w = refl

module _ (read_double : List ℕ → Option ℕ) where
  abbrev value : Tree → JsonValue
  value t = value_of (from_number_literal read_double) t

  mutual
    unfolding IsWritable tree_of value_of IsLong literal_of AreApart append_fields

    tree_of-value : (v : JsonValue) → IsWritable v → value (tree_of v) ≡ v
    tree_of-value missing h = absurd h
    tree_of-value null h = refl
    tree_of-value (boolean b) h = refl
    tree_of-value (number (long n)) h = from_number_literal-long read_double n h
    tree_of-value (number (double bits)) h = absurd h
    tree_of-value (string s) h = refl
    tree_of-value (array items) h = ap array (trees_of-items items h)
    tree_of-value (object fields) h =
        ap object (members_of-fields no_members fields (AreApart-nothing fields) h)

    trees_of-items :
        (items : Items)
        → ItemsAreWritable items
        → items_of (from_number_literal read_double) (trees_of items) ≡ items
    trees_of-items no_items h = refl
    trees_of-items (push_back items v) h =
        λ i. push_back (trees_of-items items h.0 i) (tree_of-value v h.1 i)

    members_of-fields :
        (before : Members) (fields : Fields)
        → AreApart (fields_of (from_number_literal read_double) before) fields
        → FieldsAreWritable fields
        → fields_of (from_number_literal read_double) (members_of before fields)
          ≡ append_fields (fields_of (from_number_literal read_double) before) fields
    members_of-fields before no_fields apart h = sym (append_fields-nothing _)
    members_of-fields before (field k v fields) apart h =
        let old = fields_of (from_number_literal read_double) before in
        let entered : fields_of (from_number_literal read_double) (then_member before k (tree_of v))
            ≡ append_fields old (field k v no_fields) =
          ap (λ x. put_field k x old) (tree_of-value v h.1) ∙ put_field-new k v old apart.0 in
        members_of-fields (then_member before k (tree_of v)) fields
          (subst (λ x. AreApart x fields) (sym entered)
            (AreApart-append old fields k v apart.1 h.2))
          h.3
        ∙ ap (λ x. append_fields x fields) entered
        ∙ append_fields_assoc old (field k v no_fields) fields

  entered-member :
      (k : List ℕ) (v : JsonValue)
      → is_empty k ≡ false
      → IsWritable v
      → is_entered (from_number_literal read_double) k (tree_of v) ≡ true
  unfolding is_entered
  entered-member k v h w =
      ap (λ (m : Option InternalError). elim m as (λ x. Bool) [ none ↦ true | some e ↦ false ])
        (ap (missing_part k) (tree_of-value v w) ∙ missing_part-none k v h w)

  mutual
    unfolding IsWritable tree_of AreEntered

    tree_of-AreEntered :
        (v : JsonValue) → IsWritable v → AreEntered (from_number_literal read_double) (tree_of v)
    tree_of-AreEntered (array items) h = trees_of-AreEntered items h
    tree_of-AreEntered (object fields) h = members_of-AreEntered no_members fields tt h
    tree_of-AreEntered missing h = tt
    tree_of-AreEntered null h = tt
    tree_of-AreEntered (boolean b) h = tt
    tree_of-AreEntered (number n) h = tt
    tree_of-AreEntered (string s) h = tt

    trees_of-AreEntered :
        (items : Items)
        → ItemsAreWritable items
        → TreesAreEntered (from_number_literal read_double) (trees_of items)
    trees_of-AreEntered no_items h = tt
    trees_of-AreEntered (push_back items v) h =
        (trees_of-AreEntered items h.0, tree_of-AreEntered v h.1)

    members_of-AreEntered :
        (before : Members) (fields : Fields)
        → MembersAreEntered (from_number_literal read_double) before
        → FieldsAreWritable fields
        → MembersAreEntered (from_number_literal read_double) (members_of before fields)
    members_of-AreEntered before no_fields m h = m
    members_of-AreEntered before (field k v fields) m h =
        members_of-AreEntered (then_member before k (tree_of v)) fields
          (m, tree_of-AreEntered v h.1, entered-member k v h.0 h.1) h.3

  -- The text of a value, written by the writer, is read by lexer and parser as this value, if it holds no null pointer
  -- and no double, its numbers have 64 bits, and the keys of each object are not empty and differ.
  pub parse-write_json_string :
      (fixed_double : ℕ → Option (List ℕ)) (v : JsonValue)
      → IsWritable v
      → (ts : Tokens) × (tokens_of_text (write_json_string fixed_double v) ≡ some ts)
        × ((parse (from_number_literal read_double) ts new_json_parser).answer ≡ parsed v)
  parse-write_json_string fixed_double v h = (
    stream (emit (tree_of v)),
    ap tokens_of_text (sym (tree_of-text fixed_double v h))
        ∙ tokens_of_text-emit (tree_of v) (tree_of-NumbersMatch v h),
    parse-emit (from_number_literal read_double) (tree_of v) (tree_of-AreEntered v h)
        ∙ ap parsed (tree_of-value v h),
  )
