-- ===== src/Protocol/KeyValueResponse/Entries.antt =====
-- protocol/KeyValueResponseParser.cxx: what is set by the pairs, key by key.
use mathlib.Core.Path.{}
use openkit_native.Prelude.{List, Option, ap, none, not, refl, some, sym, ℕ, ◌==◌, ◌>>=◌, ◌∙◌, ◌≡◌}
use openkit_native.Protocol.Attributes.{
  ResponseAttributes, is_capture, is_capture_crashes, is_capture_errors,
  key_value_response_defaults, max_beacon_size, multiplicity, send_interval, server_id,
  traffic_control_percentage,
}
use openkit_native.Protocol.JsonResponse.{codes, if_present, scaled32}
use openkit_native.Protocol.JsonResponse.Entries.{
  also, present-is_capture, present-is_capture_crashes, present-is_capture_errors,
  present-max_beacon_size, present-multiplicity, present-send_interval, present-server_id,
  present-traffic_control_percentage,
}
use openkit_native.Protocol.JsonResponse.Settings.{is_some, value_or}
use openkit_native.Protocol.KeyValueResponse.{
  Pairs, apply_found, apply_pair, apply_pair_beacon_size, apply_pair_capture,
  apply_pair_multiplicity, apply_pair_report_crashes, apply_pair_report_errors,
  apply_pair_send_interval, apply_pair_server_id, apply_pair_traffic_control, find_pair,
  pair_attributes, stoi,
}

-- The number of a key, if it is there; none at all if its value is no number of 32 bits.
unfoldable pub number_of_found : Option (List ℕ) → Option (Option ℕ)
unfolding stoi
number_of_found none = some none
number_of_found (some text) = do n ← stoi text; some (some n)

unfoldable pub number_of_key : List ℕ → Pairs → Option (Option ℕ)
unfolding find_pair number_of_found
number_of_key key pairs = number_of_found (find_pair key pairs)

-- The keys' numbers as attributes: each from its pair, or by default.
unfoldable pub attributes_of : (o1 o2 o3 o4 o5 o6 o7 o8 : Option ℕ) → ResponseAttributes
unfolding value_or is_some
attributes_of beacon_kb interval captures crashes errors traffic server multiple =
    let d = key_value_response_defaults in
    record d {
      max_beacon_size_in_bytes =
          value_or (λ n. scaled32 1024 n) d.max_beacon_size_in_bytes beacon_kb;
      send_interval_in_milliseconds =
          value_or (λ n. scaled32 1000 n) d.send_interval_in_milliseconds interval;
      capture = value_or (λ n. n == 1) d.capture captures;
      capture_crashes = value_or (λ n. not (n == 0)) d.capture_crashes crashes;
      capture_errors = value_or (λ n. not (n == 0)) d.capture_errors errors;
      traffic_control_percentage_value =
          value_or (λ n. n) d.traffic_control_percentage_value traffic;
      server_id_value = value_or (λ n. n) d.server_id_value server;
      multiplicity_value = value_or (λ n. n) d.multiplicity_value multiple;
      is_attribute_set = also multiplicity multiple (
          also server_id server (
            also traffic_control_percentage traffic (
              also is_capture_errors errors (
                also is_capture_crashes crashes (
                  also is_capture captures (
                    also send_interval interval
                      (also max_beacon_size beacon_kb d.is_attribute_set)))))));
    }

-- What the pairs configure, or none where one of the eight values is no number.
unfoldable pub configured_by_pairs : Pairs → Option ResponseAttributes
unfolding number_of_key attributes_of
configured_by_pairs pairs = do
  beacon_kb ← number_of_key (codes "bl") pairs
  interval ← number_of_key (codes "si") pairs
  captures ← number_of_key (codes "cp") pairs
  crashes ← number_of_key (codes "cr") pairs
  errors ← number_of_key (codes "er") pairs
  traffic ← number_of_key (codes "tc") pairs
  server ← number_of_key (codes "id") pairs
  multiple ← number_of_key (codes "mp") pairs
  some (attributes_of beacon_kb interval captures crashes errors traffic server multiple)

-- One entry, and the entries after it.
module _ (f : ℕ → ResponseAttributes → ResponseAttributes) (b : ResponseAttributes)
    (next : ResponseAttributes → Option ResponseAttributes)
    (rest : Option ℕ → Option ResponseAttributes)
    (h : (o : Option ℕ) → next (if_present f o b) ≡ rest o) where
  apply_number-bind :
      (n : Option ℕ)
      → ((n >>= (λ k. some (f k b))) >>= next) ≡ ((n >>= (λ k. some (some k))) >>= rest)
  unfolding if_present
  apply_number-bind none = refl
  apply_number-bind (some n) = h (some n)

  apply_found-bind :
      (o : Option (List ℕ)) → (apply_found f o b >>= next) ≡ (number_of_found o >>= rest)
  unfolding apply_found number_of_found if_present
  apply_found-bind none = h none
  apply_found-bind (some text) = apply_number-bind (stoi text)

then_entry :
    (key : List ℕ) (pairs : Pairs) (f : ℕ → ResponseAttributes → ResponseAttributes)
    (b : ResponseAttributes) (next : ResponseAttributes → Option ResponseAttributes)
    {g : Option ℕ → ResponseAttributes} {rest : Option ℕ → Option ResponseAttributes}
    → ((o : Option ℕ) → if_present f o b ≡ g o)
    → ((o : Option ℕ) → next (g o) ≡ rest o)
    → (apply_pair key f pairs b >>= next) ≡ (number_of_key key pairs >>= rest)
unfolding apply_pair number_of_key
then_entry key pairs f b next {rest = rest} p h =
    apply_found-bind f b next rest (λ o. ap next (p o) ∙ h o) (find_pair key pairs)

bind-some : (o : Option ResponseAttributes) → (o >>= some) ≡ o
bind-some none = refl
bind-some (some b) = refl

last_entry :
    (key : List ℕ) (pairs : Pairs) (f : ℕ → ResponseAttributes → ResponseAttributes)
    (b : ResponseAttributes) {g : Option ℕ → ResponseAttributes}
    → ((o : Option ℕ) → if_present f o b ≡ g o)
    → apply_pair key f pairs b ≡ (number_of_key key pairs >>= (λ o. some (g o)))
last_entry key pairs f b p =
    sym (bind-some (apply_pair key f pairs b)) ∙ then_entry key pairs f b some p (λ o. refl)

-- The result is that of the eight keys: from a value that is no number, an exception.
pub pair_attributes-configured : (pairs : Pairs) → pair_attributes pairs ≡ configured_by_pairs pairs
unfolding pair_attributes configured_by_pairs attributes_of apply_pair_beacon_size
    apply_pair_send_interval apply_pair_capture apply_pair_report_crashes apply_pair_report_errors
    apply_pair_traffic_control apply_pair_server_id apply_pair_multiplicity
pair_attributes-configured pairs =
    then_entry (codes "bl") pairs _ _ _ (λ o. present-max_beacon_size (λ n. scaled32 1024 n) o _)
      (λ o.
        then_entry (codes "si") pairs _ _ _ (λ o. present-send_interval (λ n. scaled32 1000 n) o _)
          (λ o.
            then_entry (codes "cp") pairs _ _ _ (λ o. present-is_capture (λ n. n == 1) o _)
              (λ o.
                then_entry (codes "cr") pairs _ _ _
                  (λ o. present-is_capture_crashes (λ n. not (n == 0)) o _)
                  (λ o.
                    then_entry (codes "er") pairs _ _ _
                      (λ o. present-is_capture_errors (λ n. not (n == 0)) o _)
                      (λ o.
                        then_entry (codes "tc") pairs _ _ _
                          (λ o. present-traffic_control_percentage (λ n. n) o _)
                          (λ o.
                            then_entry (codes "id") pairs _ _ _
                              (λ o. present-server_id (λ n. n) o _)
                              (λ o.
                                last_entry (codes "mp") pairs _ _
                                  (λ o. present-multiplicity (λ n. n) o _))))))))
