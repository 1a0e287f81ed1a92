-- ===== src/Protocol/BeaconEvents/Traced.antt =====
-- protocol/Beacon.cxx: the events of actions and web requests.
use openkit_native.Prelude.{
  Bool, Bool-cases, List, Option, [], ap, append-nil, append_assoc, false, if-false, if-true,
  if◌then◌else◌, inl, inr, none, not, refl, slt32, some, sub64, sym, true, ℕ, ◌&&◌, ◌++◌, ◌-◌,
  ◌>>=◌, ◌^◌, ◌||◌, ◌∙◌, ◌∷◌, ◌≡◌,
}
use openkit_native.Protocol.BeaconEvents.{
  BeaconView, add_key_value_pair, beacon_captures_data, create_basic_event_data, event_added,
  get_time_since_session_start_time, int_text, long_text, not_reported,
}
use openkit_native.Protocol.BeaconEvents.Encoded.{add_key_value_pair-Written, encoded}
use openkit_native.Protocol.BeaconEvents.Expected.{
  expected_trace, known_pairs, request_pairs, set_pairs,
}
use openkit_native.Protocol.BeaconEvents.Written.{
  basic_pairs, create_basic_event_data-Written, name_pairs,
}
use openkit_native.Protocol.JsonResponse.{codes}
use openkit_native.Protocol.KeyValueResponse.{Pairs}
use openkit_native.Protocol.KeyValueResponse.Written.{pairs_text}
use openkit_native.Text.{Utf8String}
use openkit_native.Text.Parts.Plain.{plain_string}
use openkit_native.Protocol.BeaconEvents.Operations.{WebRequest, add_if_set, add_traced}

-- Pairs one after the other.
abbrev pub add_all : Utf8String → List (List ℕ × Utf8String) → Utf8String
add_all s [] = s
add_all s ((key, value) ∷ fields) = add_all (add_key_value_pair s (plain_string key) value) fields

abbrev pub all_encoded : List (List ℕ × Utf8String) → Pairs
all_encoded [] = []
all_encoded ((key, value) ∷ fields) = encoded key value ∷ all_encoded fields

pub add_all-Written :
    (fields : List (List ℕ × Utf8String)) (ps : Pairs) (s : Utf8String)
    → s ≡ plain_string (pairs_text ps)
    → add_all s fields ≡ plain_string (pairs_text (ps ++ all_encoded fields))
add_all-Written [] ps s h = h ∙ ap (λ l. plain_string (pairs_text l)) (sym (append-nil ps))
add_all-Written ((key, value) ∷ fields) ps s h =
    add_all-Written fields (ps ++ encoded key value ∷ [])
      (add_key_value_pair s (plain_string key) value) (add_key_value_pair-Written ps key value h)
    ∙ ap (λ l. plain_string (pairs_text l))
        (append_assoc ps (encoded key value ∷ []) (all_encoded fields))

add_if_set-Written :
    (key : List ℕ) (n : ℕ) (ps : Pairs) (s : Utf8String)
    → s ≡ plain_string (pairs_text ps)
    → add_if_set s (plain_string key) n ≡ plain_string (pairs_text (ps ++ set_pairs key n))
unfolding add_if_set set_pairs
add_if_set-Written key n ps s h = elim (Bool-cases (slt32 (2 ^ 32 - 1) n)) [
  | inl e ↦
      if-true {b = slt32 (2 ^ 32 - 1) n} _ _ e
      ∙ add_key_value_pair-Written ps key (int_text n) h
      ∙ ap (λ l. plain_string (pairs_text (ps ++ l)))
          (sym (if-true {b = slt32 (2 ^ 32 - 1) n} _ _ e))
  | inr e ↦
      if-false {b = slt32 (2 ^ 32 - 1) n} _ _ e
      ∙ h
      ∙ ap (λ l. plain_string (pairs_text l)) (sym (append-nil ps))
      ∙ ap (λ l. plain_string (pairs_text (ps ++ l)))
          (sym (if-false {b = slt32 (2 ^ 32 - 1) n} _ _ e))
]

module _ (name : Utf8String) (event_type stamp : ℕ) (pairs : Pairs) (v : BeaconView)
    (f : Utf8String → Utf8String)
    (h : (ps : Pairs) (s : Utf8String)
      → s ≡ plain_string (pairs_text ps)
      → f s ≡ plain_string (pairs_text (ps ++ pairs))) where
  pub traced :
      (allowed enabled : Bool)
      → (enabled ≡ true → beacon_captures_data v ≡ true)
      → (if not allowed || not enabled
          then some not_reported
          else (create_basic_event_data event_type name v
              >>= (λ s. some (add_traced stamp v (f s)))))
        ≡ expected_trace (allowed && enabled) name event_type stamp pairs v
  unfolding expected_trace add_traced
  traced false enabled e = refl
  traced true false e = refl
  traced true true e =
      ap (λ o. o >>= (λ s. some (add_traced stamp v (f s))))
        (create_basic_event_data-Written event_type name v)
      ∙ go (name_pairs name)
    where
      go :
          (o : Option Pairs)
          → ((o >>= (λ names. some (plain_string (pairs_text (basic_pairs event_type v ++ names)))))
              >>= (λ s. some (add_traced stamp v (f s))))
            ≡ (o >>= (λ names. some (
                event_added v.sequence_number stamp
                  (plain_string (pairs_text ((basic_pairs event_type v ++ names) ++ pairs))))))
      go none = refl
      go (some names) = ap some (
          if-true {b = beacon_captures_data v} _ _ (e refl)
          ∙ ap (event_added v.sequence_number stamp) (
              h (basic_pairs event_type v ++ names)
                (plain_string (pairs_text (basic_pairs event_type v ++ names))) refl))

-- the pairs of a web request
pub request-Written :
    (parent : ℕ) (w : WebRequest) (v : BeaconView) (ps : Pairs) (s : Utf8String)
    → s ≡ plain_string (pairs_text ps)
    → add_if_set
        (add_if_set
          (add_if_set
            (add_all s (
              (codes "pa", int_text parent)
              ∷ (codes "s0", int_text w.start_sequence_no)
              ∷ (codes "t0", long_text (get_time_since_session_start_time w.request_start v))
              ∷ (codes "s1", int_text w.end_sequence_no)
              ∷ (codes "t1", long_text (sub64 w.request_end w.request_start))
              ∷ []))
            (plain_string (codes "bs"))
            w.bytes_sent)
          (plain_string (codes "br"))
          w.bytes_received)
        (plain_string (codes "rc"))
        w.status_of_answer
      ≡ plain_string (pairs_text (ps ++ (request_pairs parent w v ++ known_pairs w)))
unfolding request_pairs known_pairs encoded
request-Written parent w v ps s h =
    let fields =
      (codes "pa", int_text parent)
      ∷ (codes "s0", int_text w.start_sequence_no)
      ∷ (codes "t0", long_text (get_time_since_session_start_time w.request_start v))
      ∷ (codes "s1", int_text w.end_sequence_no)
      ∷ (codes "t1", long_text (sub64 w.request_end w.request_start))
      ∷ [] in
    let b = set_pairs (codes "bs") w.bytes_sent in
    let c = set_pairs (codes "br") w.bytes_received in
    let d = set_pairs (codes "rc") w.status_of_answer in
    let r = request_pairs parent w v in
    add_if_set-Written (codes "rc") w.status_of_answer (((ps ++ r) ++ b) ++ c) _ (
      add_if_set-Written (codes "br") w.bytes_received ((ps ++ r) ++ b) _
        (add_if_set-Written (codes "bs") w.bytes_sent (ps ++ r) _ (add_all-Written fields ps s h)))
    ∙ ap (λ l. plain_string (pairs_text l))
        (append_assoc ((ps ++ r) ++ b) c d
          ∙ append_assoc (ps ++ r) b (c ++ d)
          ∙ append_assoc ps r (b ++ (c ++ d)))
