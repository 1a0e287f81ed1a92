-- ===== src/Protocol/KeyValueResponse.antt =====
-- protocol/KeyValueResponseParser.cxx: the attributes that a response of key-value pairs sets. The products wrap around
-- here, as in JsonResponse; `stoi` is that of the standard library, where none is an exception.
pub mod Entries
pub mod First
pub mod Written
use openkit_native.Prelude.{
  Bool, List, Option, [], if◌then◌else◌, is_empty, leb, ltb, none, not, some, ℕ, ◌%◌, ◌&&◌, ◌+◌,
  ◌-◌, ◌==◌, ◌>>=◌, ◌^◌, ◌||◌, ◌∷◌,
}
use openkit_native.Json.Number.{digits_value}
use openkit_native.Json.Value.{same_bytes}
use openkit_native.Protocol.Attributes.{
  ResponseAttributes, key_value_response_defaults, with_capture, with_capture_crashes,
  with_capture_errors, with_max_beacon_size_in_bytes, with_multiplicity,
  with_send_interval_in_milliseconds, with_server_id, with_traffic_control_percentage,
}
use openkit_native.Protocol.JsonResponse.{codes, scaled32}
use openkit_native.Text.{Utf8String, is_empty_string}
use openkit_native.Text.Parts.{
  get_index_of, index_at, no_index, npos, past_the_end, split, substring,
}

abbrev pub Pairs : Type 0
Pairs = List (List ℕ × List ℕ)

unfoldable pub is_space : ℕ → Bool
is_space c = c == 32 || (leb 9 c && leb c 13)

unfoldable pub skip_spaces : List ℕ → List ℕ
unfolding is_space
skip_spaces [] = []
skip_spaces (c ∷ cs) = let rest = skip_spaces cs in if is_space c then rest else c ∷ cs

unfoldable pub leading_digits : List ℕ → List ℕ
leading_digits [] = []
leading_digits (c ∷ cs) =
    let rest = leading_digits cs in if leb 48 c && leb c 57 then c ∷ rest else []

unfoldable pub positive_int32 : List ℕ → Option ℕ
unfolding digits_value
positive_int32 digits =
    if is_empty digits || leb (2 ^ 31) (digits_value 0 digits)
    then none
    else some (digits_value 0 digits)

unfoldable pub negative_int32 : List ℕ → Option ℕ
unfolding digits_value
negative_int32 digits =
    if is_empty digits || ltb (2 ^ 31) (digits_value 0 digits)
    then none
    else some ((2 ^ 32 - digits_value 0 digits) % 2 ^ 32)

unfoldable pub signed_int32 : List ℕ → Option ℕ
unfolding positive_int32 negative_int32 leading_digits
signed_int32 [] = none
signed_int32 (c ∷ cs) =
    if c == 45
    then negative_int32 (leading_digits cs)
    else if c == 43
    then positive_int32 (leading_digits cs)
    else positive_int32 (leading_digits (c ∷ cs))

unfoldable pub stoi : List ℕ → Option ℕ
unfolding signed_int32 skip_spaces
stoi text = signed_int32 (skip_spaces text)

unfoldable pub find_pair : List ℕ → Pairs → Option (List ℕ)
unfolding same_bytes
find_pair key [] = none
find_pair key ((k, v) ∷ pairs) =
    let rest = find_pair key pairs in if same_bytes k key then some v else rest

-- `insert` keeps a value that is there
unfoldable pub insert_pair : List ℕ → List ℕ → Pairs → Pairs
unfolding find_pair
insert_pair key value pairs = elim (find_pair key pairs) [
  | none ↦ (key, value) ∷ pairs
  | some old ↦ pairs
]

-- The pairs of a text, a read behind the end of a part, or a loop that a byte that begins no character keeps going.
pub data PairsRead : Type 0 where
  pairs_read : Pairs → PairsRead
  past_the_part endless : PairsRead

unfoldable pub enter_pair : Option Utf8String → Option Utf8String → Pairs → PairsRead
unfolding insert_pair is_empty_string
enter_pair (some key) (some value) pairs = pairs_read (
    if is_empty_string key || is_empty_string value
    then pairs
    else insert_pair key.bytes value.bytes pairs)
enter_pair none value pairs = endless
enter_pair (some key) none pairs = endless

unfoldable pub enter_part : Utf8String → Pairs → PairsRead
unfolding enter_pair get_index_of substring
enter_part part pairs = elim (get_index_of part b'=' 0) [
  | no_index ↦ pairs_read pairs
  | past_the_end ↦ past_the_part
  | index_at found ↦ enter_pair (substring 0 found part) (substring (found + 1) npos part) pairs
]

unfoldable pub read_parts : List Utf8String → PairsRead → PairsRead
unfolding enter_part
read_parts [] r = r
read_parts (part ∷ parts) (pairs_read pairs) = read_parts parts (enter_part part pairs)
read_parts (part ∷ parts) r = r

-- `find`, `std::stoi` and a call of the builder; none for an exception
unfoldable pub apply_found :
    (ℕ → ResponseAttributes → ResponseAttributes)
    → Option (List ℕ)
    → ResponseAttributes
    → Option ResponseAttributes
unfolding stoi
apply_found f none b = some b
apply_found f (some text) b = do n ← stoi text; some (f n b)

unfoldable pub apply_pair :
    List ℕ
    → (ℕ → ResponseAttributes → ResponseAttributes)
    → Pairs
    → ResponseAttributes
    → Option ResponseAttributes
unfolding find_pair apply_found
apply_pair key f pairs b = apply_found f (find_pair key pairs) b

unfoldable pub apply_pair_beacon_size : Pairs → ResponseAttributes → Option ResponseAttributes
unfolding apply_pair
apply_pair_beacon_size =
    apply_pair (codes "bl") (λ n. with_max_beacon_size_in_bytes (scaled32 1024 n))

unfoldable pub apply_pair_send_interval : Pairs → ResponseAttributes → Option ResponseAttributes
unfolding apply_pair
apply_pair_send_interval =
    apply_pair (codes "si") (λ n. with_send_interval_in_milliseconds (scaled32 1000 n))

unfoldable pub apply_pair_capture : Pairs → ResponseAttributes → Option ResponseAttributes
unfolding apply_pair
apply_pair_capture = apply_pair (codes "cp") (λ n. with_capture (n == 1))

unfoldable pub apply_pair_report_crashes : Pairs → ResponseAttributes → Option ResponseAttributes
unfolding apply_pair
apply_pair_report_crashes = apply_pair (codes "cr") (λ n. with_capture_crashes (not (n == 0)))

unfoldable pub apply_pair_report_errors : Pairs → ResponseAttributes → Option ResponseAttributes
unfolding apply_pair
apply_pair_report_errors = apply_pair (codes "er") (λ n. with_capture_errors (not (n == 0)))

unfoldable pub apply_pair_traffic_control : Pairs → ResponseAttributes → Option ResponseAttributes
unfolding apply_pair
apply_pair_traffic_control = apply_pair (codes "tc") (λ n. with_traffic_control_percentage n)

unfoldable pub apply_pair_server_id : Pairs → ResponseAttributes → Option ResponseAttributes
unfolding apply_pair
apply_pair_server_id = apply_pair (codes "id") (λ n. with_server_id n)

unfoldable pub apply_pair_multiplicity : Pairs → ResponseAttributes → Option ResponseAttributes
unfolding apply_pair
apply_pair_multiplicity = apply_pair (codes "mp") (λ n. with_multiplicity n)

unfoldable pub pair_attributes : Pairs → Option ResponseAttributes
unfolding apply_pair_beacon_size apply_pair_send_interval apply_pair_capture
    apply_pair_report_crashes apply_pair_report_errors apply_pair_traffic_control
    apply_pair_server_id apply_pair_multiplicity
pair_attributes pairs = do
  b1 ← apply_pair_beacon_size pairs key_value_response_defaults
  b2 ← apply_pair_send_interval pairs b1
  b3 ← apply_pair_capture pairs b2
  b4 ← apply_pair_report_crashes pairs b3
  b5 ← apply_pair_report_errors pairs b4
  b6 ← apply_pair_traffic_control pairs b5
  b7 ← apply_pair_server_id pairs b6
  apply_pair_multiplicity pairs b7

pub data KeyValueResponse : Type 0 where
  pair_response : ResponseAttributes → KeyValueResponse
  stoi_exception reads_past hangs : KeyValueResponse

unfoldable pub response_of_pairs : PairsRead → KeyValueResponse
unfolding pair_attributes
response_of_pairs (pairs_read pairs) = elim (pair_attributes pairs) [
  | none ↦ stoi_exception
  | some attributes ↦ pair_response attributes
]
response_of_pairs past_the_part = reads_past
response_of_pairs endless = hangs

unfoldable pub parse_key_value_response : Utf8String → KeyValueResponse
unfolding read_parts split response_of_pairs
parse_key_value_response s = response_of_pairs (read_parts (split b'&' s) (pairs_read []))
