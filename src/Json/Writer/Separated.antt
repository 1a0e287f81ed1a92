-- ===== src/Json/Writer/Separated.antt =====
-- util/json: in the tokens of a tree something stands between any two literals.
use openkit_native.Prelude.{List, [], append-nil, append_assoc, some, true, ◌++◌, ◌∷◌, ◌≡◌}
use openkit_native.Json.Lexer.Number.{matches_number_pattern}
use openkit_native.Json.Lexer.Several.{
  AreSingle, Separates, tokens_of_text-tokens_text, tokens_text,
}
use openkit_native.Json.Lexer.Stream.{tokens_of_text}
use openkit_native.Json.Parser.{
  JsonToken, colon, comma, right_brace, right_square_bracket, value_string,
}
use openkit_native.Json.Parser.Grammar.{stream}
use openkit_native.Json.Parser.Syntax.{
  Members, Tree, Trees, array_tree, boolean_tree, emit, emit_members, emit_trees, lead_members,
  lead_trees, no_members, no_trees, null_tree, number_tree, object_tree, string_tree, then_member,
  then_tree,
}

unfoldable mutual
  pub NumbersMatch : Tree → Type 0
  NumbersMatch (number_tree n) = matches_number_pattern n ≡ true
  NumbersMatch (array_tree ts) = TreesMatch ts
  NumbersMatch (object_tree ms) = MembersMatch ms
  NumbersMatch t = Unit

  pub TreesMatch : Trees → Type 0
  TreesMatch no_trees = Unit
  TreesMatch (then_tree ts t) = TreesMatch ts × NumbersMatch t

  pub MembersMatch : Members → Type 0
  MembersMatch no_members = Unit
  MembersMatch (then_member ms k t) = MembersMatch ms × NumbersMatch t

mutual
  unfolding emit NumbersMatch AreSingle Separates

  emit-AreSingle :
      (t : Tree) (rest : List JsonToken)
      → NumbersMatch t
      → Separates rest
      → AreSingle rest
      → AreSingle (emit t ++ rest)
  emit-AreSingle null_tree rest m s h = (s, h)
  emit-AreSingle (boolean_tree b) rest m s h = (s, h)
  emit-AreSingle (string_tree x) rest m s h = h
  emit-AreSingle (number_tree n) rest m s h = (m, s, h)
  emit-AreSingle (array_tree ts) rest m s h =
      rw (append_assoc (emit_trees ts) (right_square_bracket ∷ []) rest)
        (emit_trees-AreSingle ts (right_square_bracket ∷ rest) m tt h)
  emit-AreSingle (object_tree ms) rest m s h =
      rw (append_assoc (emit_members ms) (right_brace ∷ []) rest)
        (emit_members-AreSingle ms (right_brace ∷ rest) m tt h)

  emit_trees-AreSingle :
      (ts : Trees) (rest : List JsonToken)
      → TreesMatch ts
      → Separates rest
      → AreSingle rest
      → AreSingle (emit_trees ts ++ rest)
  emit_trees-AreSingle no_trees rest m s h = h
  emit_trees-AreSingle (then_tree ts t) rest m s h =
      rw (append_assoc (lead_trees ts) (emit t) rest)
        (lead_trees-AreSingle ts (emit t ++ rest) m.0 (emit-AreSingle t rest m.1 s h))

  lead_trees-AreSingle :
      (ts : Trees) (rest : List JsonToken)
      → TreesMatch ts
      → AreSingle rest
      → AreSingle (lead_trees ts ++ rest)
  lead_trees-AreSingle no_trees rest m h = h
  lead_trees-AreSingle (then_tree ts t) rest m h =
      rw
        (
          append_assoc (lead_trees ts) (emit t ++ comma ∷ []) rest,
          append_assoc (emit t) (comma ∷ []) rest,
        )
        (lead_trees-AreSingle ts (emit t ++ comma ∷ rest) m.0
          (emit-AreSingle t (comma ∷ rest) m.1 tt h))

  emit_members-AreSingle :
      (ms : Members) (rest : List JsonToken)
      → MembersMatch ms
      → Separates rest
      → AreSingle rest
      → AreSingle (emit_members ms ++ rest)
  emit_members-AreSingle no_members rest m s h = h
  emit_members-AreSingle (then_member ms k t) rest m s h =
      rw (append_assoc (lead_members ms) (value_string k ∷ colon ∷ emit t) rest) (
        lead_members-AreSingle ms (value_string k ∷ colon ∷ (emit t ++ rest)) m.0
          (emit-AreSingle t rest m.1 s h))

  lead_members-AreSingle :
      (ms : Members) (rest : List JsonToken)
      → MembersMatch ms
      → AreSingle rest
      → AreSingle (lead_members ms ++ rest)
  lead_members-AreSingle no_members rest m h = h
  lead_members-AreSingle (then_member ms k t) rest m h =
      rw
        (
          append_assoc (lead_members ms) (value_string k ∷ colon ∷ (emit t ++ comma ∷ [])) rest,
          append_assoc (emit t) (comma ∷ []) rest,
        )
        (lead_members-AreSingle ms (value_string k ∷ colon ∷ (emit t ++ comma ∷ rest)) m.0
          (emit-AreSingle t (comma ∷ rest) m.1 tt h))

-- The text of a tree is read as the tokens of the tree.
pub tokens_of_text-emit :
    (t : Tree) → NumbersMatch t → tokens_of_text (tokens_text (emit t)) ≡ some (stream (emit t))
unfolding AreSingle Separates
tokens_of_text-emit t m =
    tokens_of_text-tokens_text (emit t) (rw append-nil at (emit-AreSingle t [] m tt tt))
