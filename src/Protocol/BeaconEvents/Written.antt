-- ===== src/Protocol/BeaconEvents/Written.antt =====
-- protocol/Beacon.cxx: which event an operation adds, pair by pair.
use openkit_native.Prelude.{
  Bool-cases, Option, [], ap, append-nil, append_assoc, if-false, if-true, if◌then◌else◌, inl, inr,
  none, refl, some, sym, ℕ, ◌++◌, ◌>>=◌, ◌∙◌, ◌∷◌, ◌≡◌,
}
use openkit_native.Protocol.BeaconEvents.{
  BeaconView, add_key_value_pair, add_place, build_event, create_basic_event_data,
  create_basic_event_data_without_name, create_sequence_number, get_time_since_session_start_time,
  int_text, literal_text, long_text, max_name_len, truncate,
}
use openkit_native.Protocol.BeaconEvents.Encoded.{add_key_value_pair-Written, encoded}
use openkit_native.Protocol.JsonResponse.{codes}
use openkit_native.Protocol.KeyValueResponse.{Pairs}
use openkit_native.Protocol.KeyValueResponse.Written.{pairs_text}
use openkit_native.Text.{Utf8String, is_empty_string}
use openkit_native.Text.Parts.Plain.{plain_string}

unfoldable pub basic_pairs : ℕ → BeaconView → Pairs
unfolding encoded int_text
basic_pairs event_type v =
    encoded (codes "et") (int_text event_type) ∷ encoded (codes "it") (int_text v.thread_id) ∷ []

unfoldable pub place_pairs : ℕ → ℕ → BeaconView → Pairs
unfolding encoded int_text long_text create_sequence_number
place_pairs parent time v =
    encoded (codes "pa") (int_text parent)
    ∷ encoded (codes "s0") (int_text (create_sequence_number v))
    ∷ encoded (codes "t0") (long_text time)
    ∷ []

-- The first pairs of an event, and those of its place.
pub create_basic_event_data_without_name-Written :
    (event_type : ℕ) (v : BeaconView)
    → create_basic_event_data_without_name event_type v
      ≡ plain_string (pairs_text (basic_pairs event_type v))
unfolding create_basic_event_data_without_name basic_pairs pairs_text
create_basic_event_data_without_name-Written event_type v =
    add_key_value_pair-Written (encoded (codes "et") (int_text event_type) ∷ []) (codes "it")
      (int_text v.thread_id) (add_key_value_pair-Written [] (codes "et") (int_text event_type) refl)

pub add_place-Written :
    (ps : Pairs) {s : Utf8String} (parent time : ℕ) (v : BeaconView)
    → s ≡ plain_string (pairs_text ps)
    → add_place parent time v s ≡ plain_string (pairs_text (ps ++ place_pairs parent time v))
unfolding add_place place_pairs
add_place-Written ps parent time v h =
    let a = encoded (codes "pa") (int_text parent) in
    let b = encoded (codes "s0") (int_text (create_sequence_number v)) in
    let c = encoded (codes "t0") (long_text time) in
    add_key_value_pair-Written ((ps ++ a ∷ []) ++ b ∷ []) (codes "t0") (long_text time) (
      add_key_value_pair-Written (ps ++ a ∷ []) (codes "s0") (int_text (create_sequence_number v))
        (add_key_value_pair-Written ps (codes "pa") (int_text parent) h))
    ∙ ap (λ l. plain_string (pairs_text l))
        (append_assoc (ps ++ a ∷ []) (b ∷ []) (c ∷ []) ∙ append_assoc ps (a ∷ []) (b ∷ c ∷ []))

-- The name of an event, if it has one, truncated.
unfoldable pub name_pairs : Utf8String → Option Pairs
unfolding truncate encoded is_empty_string
name_pairs name =
    if is_empty_string name
    then some []
    else (do n ← truncate max_name_len name; some (encoded (codes "na") n ∷ []))

pub create_basic_event_data-Written :
    (event_type : ℕ) (name : Utf8String) (v : BeaconView)
    → create_basic_event_data event_type name v ≡ (
        name_pairs name
        >>= (λ names. some (plain_string (pairs_text (basic_pairs event_type v ++ names)))))
unfolding create_basic_event_data name_pairs
create_basic_event_data-Written event_type name v = elim (Bool-cases (is_empty_string name)) [
  | inl e ↦
      if-true {b = is_empty_string name} _ _ e
      ∙ ap some (
          first
          ∙ ap (λ l. plain_string (pairs_text l)) (sym (append-nil (basic_pairs event_type v))))
      ∙ sym (ap (λ n. n >>= after) (if-true {b = is_empty_string name} _ _ e))
  | inr e ↦
      if-false {b = is_empty_string name} _ _ e
      ∙ named (truncate max_name_len name)
      ∙ sym (ap (λ n. n >>= after) (if-false {b = is_empty_string name} _ _ e))
]
  where
    first :
        create_basic_event_data_without_name event_type v
        ≡ plain_string (pairs_text (basic_pairs event_type v))
    first = create_basic_event_data_without_name-Written event_type v

    after : Pairs → Option Utf8String
    after names = some (plain_string (pairs_text (basic_pairs event_type v ++ names)))

    named :
        (o : Option Utf8String)
        → (o >>= (λ n. some (
            add_key_value_pair
              (create_basic_event_data_without_name event_type v)
              (literal_text "na")
              n)))
          ≡ ((o >>= (λ n. some (encoded (codes "na") n ∷ []))) >>= after)
    named none = refl
    named (some n) =
        ap some (add_key_value_pair-Written (basic_pairs event_type v) (codes "na") n first)

pub build_event-Written :
    (event_type : ℕ) (name : Utf8String) (parent : ℕ) (v : BeaconView)
    → build_event event_type name parent v ≡ (
        name_pairs name >>= (λ names. some (
          plain_string (
            pairs_text (
              (basic_pairs event_type v ++ names)
              ++ place_pairs parent (get_time_since_session_start_time v.now v) v)))))
unfolding build_event
build_event-Written event_type name parent v =
    ap (λ o. o >>= (λ s. some (add_place parent (get_time_since_session_start_time v.now v) v s)))
      (create_basic_event_data-Written event_type name v)
    ∙ go (name_pairs name)
  where
    go :
        (o : Option Pairs)
        → ((o >>= (λ names. some (plain_string (pairs_text (basic_pairs event_type v ++ names)))))
            >>= (λ s. some (add_place parent (get_time_since_session_start_time v.now v) v s)))
          ≡ (o >>= (λ names. some (
              plain_string (
                pairs_text (
                  (basic_pairs event_type v ++ names)
                  ++ place_pairs parent (get_time_since_session_start_time v.now v) v)))))
    go none = refl
    go (some names) = ap some (
        add_place-Written (basic_pairs event_type v ++ names) parent
          (get_time_since_session_start_time v.now v) v refl)
