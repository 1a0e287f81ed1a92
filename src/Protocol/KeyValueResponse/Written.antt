-- ===== src/Protocol/KeyValueResponse/Written.antt =====
-- protocol/KeyValueResponseParser.cxx: the text of key-value pairs, and what is read from it.
use mathlib.Core.Path.{subst}
use openkit_native.Prelude.{
  ◌^◌, All, All-append, List, Option, [], ap, append_assoc, arith, false, if-false, is_empty,
  length, length-append, map, none, refl, some, suc, sym, ℕ, ◌++◌, ◌+◌, ◌<◌, ◌==◌, ◌>>=◌, ◌||◌, ◌∙◌,
  ◌∷◌, ◌≡◌, ◌≢◌,
}
use openkit_native.Protocol.KeyValueResponse.{
  KeyValueResponse, Pairs, PairsRead, enter_pair, enter_part, find_pair, insert_pair,
  pair_attributes, pair_response, pairs_read, parse_key_value_response, past_the_part, read_parts,
  response_of_pairs, stoi_exception,
}
use openkit_native.Text.{Utf8String, is_empty_string}
use openkit_native.Text.Parts.{get_lines, index_at, no_index, npos, past_the_end, split, substring}
use openkit_native.Text.Parts.Middle.{substring-before, substring-behind}
use openkit_native.Text.Parts.Plain.{
  IsPlain, get_index_of-first, get_lines-append, get_lines-last, plain_string, utf8_string-plain,
}
use openkit_native.Text.Validation.{utf8_string}
use openkit_native.Protocol.Attributes.{ResponseAttributes}
use openkit_native.Protocol.JsonResponse.{codes}
use openkit_native.Protocol.KeyValueResponse.Entries.{
  attributes_of, configured_by_pairs, number_of_found, number_of_key, pair_attributes-configured,
}
use openkit_native.Protocol.KeyValueResponse.First.{enter_pairs, find_pair-entered}

-- A text of characters of one byte, not empty and without another character.
abbrev pub IsPlainWord : ℕ → List ℕ → Type 0
IsPlainWord d cs = (is_empty cs ≡ false) × All IsPlain cs × All (λ c. c ≢ d) cs

-- A key holds neither = nor &, a value no &.
abbrev pub IsPair : List ℕ × List ℕ → Type 0
IsPair (key, value) = IsPlainWord b'&' key × All (λ c. c ≢ b'=') key × IsPlainWord b'&' value

-- key=value
unfoldable pub pair_text : List ℕ × List ℕ → List ℕ
pair_text (key, value) = key ++ b'=' ∷ value

-- The pairs with & between them.
unfoldable pub pairs_text : Pairs → List ℕ
unfolding pair_text
pairs_text [] = []
pairs_text (p ∷ []) = pair_text p
pairs_text (p ∷ q ∷ pairs) = pair_text p ++ b'&' ∷ pairs_text (q ∷ pairs)

insert-words :
    (k v : ℕ) (key value : List ℕ) (pairs : Pairs)
    → enter_pair (some (plain_string (k ∷ key))) (some (plain_string (v ∷ value))) pairs
      ≡ pairs_read (insert_pair (k ∷ key) (v ∷ value) pairs)
unfolding enter_pair is_empty_string
insert-words k v key value pairs =
    ap pairs_read
      (if-false {b = suc (length key) == 0 || suc (length value) == 0} _ _ (ground arith))

-- One part of a text.
enter_part-words :
    (k v : ℕ) (key value : List ℕ) (pairs : Pairs)
    → All IsPlain (k ∷ key)
    → All (λ c. c ≢ b'=') (k ∷ key)
    → All IsPlain (v ∷ value)
    → length ((k ∷ key) ++ b'=' ∷ (v ∷ value)) < npos
    → enter_part (plain_string ((k ∷ key) ++ b'=' ∷ (v ∷ value))) pairs
      ≡ pairs_read (insert_pair (k ∷ key) (v ∷ value) pairs)
unfolding enter_part
enter_part-words k v key value pairs hk lacks hv b =
    ap
      (λ o. elim o as (λ t. PairsRead) [
        | no_index ↦ pairs_read pairs
        | past_the_end ↦ past_the_part
        | index_at found ↦
            enter_pair (substring 0 found part) (substring (found + 1) npos part) pairs
      ])
      (get_index_of-first b'=' (length text) (k ∷ key) (v ∷ value) (omega arith, omega arith) hk
        lacks)
    ∙ (λ i. enter_pair (front i) (back i) pairs)
    ∙ insert-words k v key value pairs
  where
    text : List ℕ
    text = (k ∷ key) ++ b'=' ∷ (v ∷ value)

    part : Utf8String
    part = plain_string text

    front : substring 0 (length (k ∷ key)) part ≡ some (plain_string (k ∷ key))
    front = substring-before key (b'=' ∷ (v ∷ value)) k (length text) hk (omega arith)

    same : ((k ∷ key) ++ b'=' ∷ []) ++ (v ∷ value) ≡ text
    same = append_assoc (k ∷ key) (b'=' ∷ []) (v ∷ value)

    place : length ((k ∷ key) ++ b'=' ∷ []) ≡ length (k ∷ key) + 1
    place = length-append (k ∷ key) (b'=' ∷ [])

    back : substring (length (k ∷ key) + 1) npos part ≡ some (plain_string (v ∷ value))
    back =
        (λ i.
          substring (sym place i) npos (record { bytes = sym same i; string_length = length text }))
        ∙ substring-behind ((k ∷ key) ++ b'=' ∷ []) value v (length text)
            (All-append IsPlain (k ∷ key) (b'=' ∷ []) hk ((omega arith, omega arith), tt)) hv
            (subst (λ l. length l < npos) (sym same) b)

enter_part-IsPair :
    (p : List ℕ × List ℕ) (pairs : Pairs)
    → IsPair p
    → length (pair_text p) < npos
    → enter_part (plain_string (pair_text p)) pairs ≡ pairs_read (insert_pair p.0 p.1 pairs)
unfolding pair_text
enter_part-IsPair ([], value) pairs (h, lacks, w) b = cc
enter_part-IsPair (k ∷ key, []) pairs (h, lacks, w) b = cc
enter_part-IsPair (k ∷ key, v ∷ value) pairs ((e, plain, apart), lacks, (e', plain', apart')) b =
    enter_part-words k v key value pairs plain lacks plain' b

pair_text-IsPlain : (p : List ℕ × List ℕ) → IsPair p → All IsPlain (pair_text p)
unfolding pair_text
pair_text-IsPlain (key, value) ((e, plain, apart), lacks, (e', plain', apart')) =
    All-append IsPlain key (b'=' ∷ value) plain ((omega arith, omega arith), plain')

pair_text-lacks : (p : List ℕ × List ℕ) → IsPair p → All (λ c. c ≢ b'&') (pair_text p)
unfolding pair_text
pair_text-lacks (key, value) ((e, plain, apart), lacks, (e', plain', apart')) =
    All-append (λ c. c ≢ b'&') key (b'=' ∷ value) apart
      ((λ same. absurd (omega (arith, same))), apart')

-- The parts of a text of pairs.
part_string-pair :
    (p : List ℕ × List ℕ) → IsPair p → utf8_string (pair_text p) ≡ plain_string (pair_text p)
part_string-pair p h = utf8_string-plain (pair_text p) (pair_text-IsPlain p h)

get_lines-pair : (p : List ℕ × List ℕ) → IsPair p → get_lines b'&' (pair_text p) ≡ pair_text p ∷ []
unfolding pair_text
get_lines-pair ([], value) (h, lacks, w) = cc
get_lines-pair (k ∷ key, value) h =
    get_lines-last b'&' k (key ++ b'=' ∷ value) (pair_text-lacks (k ∷ key, value) h)

get_lines-pairs_text :
    (pairs : Pairs) → All IsPair pairs → get_lines b'&' (pairs_text pairs) ≡ map pair_text pairs
unfolding pairs_text get_lines
get_lines-pairs_text [] h = refl
get_lines-pairs_text (p ∷ []) h = get_lines-pair p h.0
get_lines-pairs_text (p ∷ q ∷ pairs) h =
    get_lines-append b'&' (pair_text p) (pairs_text (q ∷ pairs)) (pair_text-lacks p h.0)
    ∙ ap (λ l. pair_text p ∷ l) (get_lines-pairs_text (q ∷ pairs) h.1)

read_parts-pairs :
    (pairs entered : Pairs)
    → All IsPair pairs
    → All (λ p. length (pair_text p) < npos) pairs
    → read_parts (map utf8_string (map pair_text pairs)) (pairs_read entered)
      ≡ pairs_read (enter_pairs pairs entered)
unfolding read_parts
read_parts-pairs [] entered h b = refl
read_parts-pairs (p ∷ pairs) entered h b =
    ap (λ s. read_parts (map utf8_string (map pair_text pairs)) (enter_part s entered))
      (part_string-pair p h.0)
    ∙ ap (read_parts (map utf8_string (map pair_text pairs))) (enter_part-IsPair p entered h.0 b.0)
    ∙ read_parts-pairs pairs (insert_pair p.0 p.1 entered) h.1 b.1

pair_text-bound :
    (pairs : Pairs)
    → length (pairs_text pairs) < npos
    → All (λ p. length (pair_text p) < npos) pairs
unfolding pairs_text
pair_text-bound [] h = tt
pair_text-bound (p ∷ []) h = (h, tt)
pair_text-bound (p ∷ q ∷ pairs) h =
    let sum = length-append (pair_text p) (b'&' ∷ pairs_text (q ∷ pairs)) in
    (omega (arith, sum), pair_text-bound (q ∷ pairs) (omega (arith, sum)))

-- The eight values are all that counts.
configured_by_pairs-eq :
    (ps qs : Pairs)
    → ((key : List ℕ) → find_pair key ps ≡ find_pair key qs)
    → configured_by_pairs ps ≡ configured_by_pairs qs
unfolding configured_by_pairs number_of_key
configured_by_pairs-eq ps qs h = λ i. do
  beacon_kb ← number_of_found (h (codes "bl") i)
  interval ← number_of_found (h (codes "si") i)
  captures ← number_of_found (h (codes "cp") i)
  crashes ← number_of_found (h (codes "cr") i)
  errors ← number_of_found (h (codes "er") i)
  traffic ← number_of_found (h (codes "tc") i)
  server ← number_of_found (h (codes "id") i)
  multiple ← number_of_found (h (codes "mp") i)
  some (attributes_of beacon_kb interval captures crashes errors traffic server multiple)

unfoldable pub response_of_attributes : Option ResponseAttributes → KeyValueResponse
response_of_attributes none = stoi_exception
response_of_attributes (some attributes) = pair_response attributes

-- A text of pairs configures what its pairs say, the first of a key; where that of one of the eight keys bl, si, cp, cr,
-- er, tc, id and mp has a value that is no number, it makes an exception. The keys and values are not empty and consist of
-- characters of one byte, no key holds = or &, no value holds &, and the text has less than 2 ^ 31 bytes.
pub parse_key_value_response-pairs_text :
    (pairs : Pairs) (n : ℕ)
    → All IsPair pairs
    → length (pairs_text pairs) < 2 ^ 31
    → parse_key_value_response (record { bytes = pairs_text pairs; string_length = n })
      ≡ response_of_attributes (configured_by_pairs pairs)
unfolding parse_key_value_response split response_of_pairs response_of_attributes
parse_key_value_response-pairs_text pairs n h b =
    ap (λ l. response_of_pairs (read_parts (map utf8_string l) (pairs_read [])))
      (get_lines-pairs_text pairs h)
    ∙ ap response_of_pairs (read_parts-pairs pairs [] h (pair_text-bound pairs (omega arith)))
    ∙ of_option (pair_attributes (enter_pairs pairs []))
    ∙ ap response_of_attributes (
        pair_attributes-configured (enter_pairs pairs [])
        ∙ configured_by_pairs-eq (enter_pairs pairs []) pairs (λ key. find_pair-entered key pairs))
  where
    of_option :
        (o : Option ResponseAttributes)
        → (elim o as (λ t. KeyValueResponse) [
          | none ↦ stoi_exception
          | some attributes ↦ pair_response attributes
        ])
          ≡ response_of_attributes o
    of_option none = refl
    of_option (some attributes) = refl
