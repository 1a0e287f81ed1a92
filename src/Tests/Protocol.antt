-- ===== src/Tests/Protocol.antt =====
-- protocol/Beacon.cxx and the status response at concrete inputs.
use openkit_native.Prelude.{
  Option, [], arith, none, rank32, refl, sign_extend32, slt32, some, suc, zero, ℕ, ◌<◌, ◌≡◌, ◌≤◌,
}
use openkit_native.Tests.Caching.{
  text_amp, collected, key_one, one_beacon, text_a, text_a-IsText, text_bc-IsText,
}
use openkit_native.Caching.Entry.{
  get_chunk, Entry, copy_data_for_sending, has_data_to_send, needs_data_copy_before_sending,
}
use openkit_native.Caching.Key.{put, find, key_eq}
use openkit_native.Protocol.Attributes.{json_response_defaults, merge, undefined_defaults}
use openkit_native.Protocol.Attributes.Laws.{merge-overlay, overlay}
use openkit_native.Protocol.BeaconSend.{Outcome, chunk_prefix, max_chunk_size, send}
use openkit_native.Protocol.BeaconSend.Delivery.{IsDelivered}
use openkit_native.Protocol.BeaconSend.Send.{prepared, send-IsDelivered, send-none}
use openkit_native.Protocol.StatusResponse.{StatusResponse, is_erroneous_response, is_successful}
use openkit_native.Text.{Utf8String, concatenate}
use openkit_native.Caching.Entry
use openkit_native.Caching.Cache
use openkit_native.Protocol.BeaconSend.Returns.{num_records, send-some}
use openkit_native.Caching.Cache.{Cache, get_next_beacon_chunk}

abbrev pub accepted_response : StatusResponse
accepted_response = record {
  response_attributes = undefined_defaults;
  response_code = 200;
  retry_after = 0;
}

abbrev pub busy_response : StatusResponse
busy_response = record {
  response_attributes = undefined_defaults;
  response_code = 429;
  retry_after = 600;
}

merge-overlay_example :
    merge undefined_defaults json_response_defaults
    ≡ overlay undefined_defaults json_response_defaults
merge-overlay_example = merge-overlay undefined_defaults json_response_defaults

-- The server accepts the first request and refuses the second one.
abbrev answer : ℕ → Utf8String → Option StatusResponse
answer zero chunk = some accepted_response
answer (suc i) chunk = some busy_response

prefix_fits :
    (i : ℕ)
    → (chunk_prefix text_a (λ j. text_a) i).string_length ≤ sign_extend32 (max_chunk_size 1028)
prefix_fits i = unfold chunk_prefix concatenate max_chunk_size sign_extend32 in omega arith

send-IsDelivered_example :
    (out : Outcome) × (send key_one text_a (λ i. text_a) 1028 answer 4 one_beacon ≡ some out)
    × IsDelivered (chunk_prefix text_a (λ i. text_a)) answer 0 key_one [] (prepared collected) out
send-IsDelivered_example =
    send-IsDelivered key_one text_a (λ i. text_a) 1028 answer one_beacon collected 4 prefix_fits
      (unfold find key_eq in refl)
      (unfold Entry.needs_data_copy_before_sending Entry.copy_data_for_sending in
        ((refl, (refl, (refl, tt))), (text_a-IsText, (text_bc-IsText, (text_a-IsText, tt)))))
      (unfold Entry.needs_data_copy_before_sending Entry.copy_data_for_sending in omega arith)

-- Of the records some are marked already.
abbrev marked_beacon : Cache.Cache
marked_beacon = (Cache.get_next_beacon_chunk key_one text_a 1 text_amp one_beacon).1

send-some_example :
    (out : Outcome) × (send key_one text_a (λ i. text_a) 1028 answer 4 marked_beacon ≡ some out)
send-some_example =
    send-some key_one text_a (λ i. text_a) 1028 answer prefix_fits marked_beacon 4
      (unfold num_records find key_eq put Cache.get_next_beacon_chunk Entry.get_chunk in
        omega arith)

prefix_too_long :
    (i : ℕ)
    → sign_extend32 (max_chunk_size 1026) < (chunk_prefix text_a (λ j. text_a) i).string_length
prefix_too_long i = unfold chunk_prefix concatenate max_chunk_size sign_extend32 in omega arith

send-none_example :
    send key_one text_a (λ i. text_a) 1026 (λ i chunk. some accepted_response) 4 one_beacon ≡ none
send-none_example =
    send-none key_one text_a (λ i. text_a) 1026 (λ i chunk. some accepted_response) one_beacon
      collected 4 prefix_too_long
      (λ i chunk. unfold is_successful is_erroneous_response slt32 rank32 in refl)
      (unfold find key_eq in refl)
      (unfold Entry.needs_data_copy_before_sending Entry.copy_data_for_sending
          Entry.has_data_to_send in
        refl)
      (unfold Entry.needs_data_copy_before_sending Entry.copy_data_for_sending in
        (refl, (refl, (refl, tt))))
