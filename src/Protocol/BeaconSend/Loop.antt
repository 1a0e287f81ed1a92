-- ===== src/Protocol/BeaconSend/Loop.antt =====
-- protocol/Beacon.cxx: the loop of `Beacon::send` ends, and delivers each record once, in order.
use openkit_native.Prelude.{
  Bool-cases, List, Option, [], arith, false, inl, inr, is_empty, length, sign_extend32, some, suc,
  true, zero, ℕ, ◌++◌, ◌+◌, ◌<◌, ◌||◌, ◌∙◌, ◌∷◌, ◌≡◌, ◌≤◌,
}
use openkit_native.Text.{Utf8String, is_empty_string}
use openkit_native.Caching.Key.{BeaconKey, find, find-put_self}
use openkit_native.Caching.Entry.Round.{queue}
use openkit_native.Protocol.StatusResponse.{StatusResponse, is_successful}
use openkit_native.Protocol.BeaconSend.{
  Outcome, beacon_data_delimiter, chunk_prefix, max_chunk_size, send_loop,
}
use openkit_native.Caching.Cache.{Cache, remove_chunked_data, reset_chunked_data, with_entry}
use openkit_native.Caching.Entry.{Entry, get_chunk, has_data_to_send}
use openkit_native.Protocol.BeaconSend.Delivery.{IsDelivered, IsReady}
use openkit_native.Protocol.BeaconSend.Round.{
  accepted-IsDelivered, chunk-not_empty, find-removed, find-reset, finished-IsDelivered,
  has_data-eq, idle-queue, next_chunk-eq, refused-IsDelivered, remaining, remaining-IsReady,
  remaining-lt,
}
use openkit_native.Caching.Entry
use openkit_native.Caching.Cache

module _ (key : BeaconKey) (immutable_data : Utf8String) (mutable_data : ℕ → Utf8String)
    (beacon_size : ℕ) (respond : ℕ → Utf8String → Option StatusResponse) where
  abbrev prefix : ℕ → Utf8String
  prefix i = chunk_prefix immutable_data mutable_data i

  abbrev limit : ℕ
  limit = sign_extend32 (max_chunk_size beacon_size)

  abbrev chunked : ℕ → Entry.Entry → Utf8String × Entry.Entry
  chunked i e = Entry.get_chunk (prefix i) limit beacon_data_delimiter e

  module _ (fuel i : ℕ) (response : Option StatusResponse) (requests : List Utf8String)
      (c : Cache.Cache) (e : Entry.Entry) (found : find key c.beacons ≡ some e) where
    abbrev looped : ℕ → Option Outcome
    looped n = send_loop key immutable_data mutable_data beacon_size respond n i response requests c

    pub send_loop-idle :
        Entry.has_data_to_send e ≡ false
        → looped (suc fuel) ≡ some (record { response = response; cache = c; requests = requests })
    unfolding send_loop
    send_loop-idle idle =
        rw (has_data-eq key immutable_data mutable_data beacon_size i c e found, idle)

    abbrev chunked_cache : Cache.Cache
    chunked_cache = Cache.with_entry key (chunked i e).1 c

    abbrev answer : Option StatusResponse
    answer = respond i (chunked i e).0

    module _ (sends : Entry.has_data_to_send e ≡ true)
        (filled : (is_empty (chunked i e).0.bytes || is_empty_string (chunked i e).0) ≡ false) where
      pub send_loop-accepted :
          is_successful answer ≡ true
          → looped (suc fuel)
            ≡ send_loop key immutable_data mutable_data beacon_size respond fuel
                (i + 1)
                answer
                (requests ++ (chunked i e).0 ∷ [])
                (Cache.remove_chunked_data key chunked_cache)
      unfolding send_loop
      send_loop-accepted ok = rw (
        next_chunk-eq key immutable_data mutable_data beacon_size i c e found,
        has_data-eq key immutable_data mutable_data beacon_size i c e found,
        sends,
        filled,
        ok,
      )

      pub send_loop-refused :
          is_successful answer ≡ false
          → looped (suc fuel)
            ≡ some (record {
              response = answer;
              cache = Cache.reset_chunked_data key chunked_cache;
              requests = requests ++ (chunked i e).0 ∷ [];
            })
      unfolding send_loop
      send_loop-refused failed = rw (
        next_chunk-eq key immutable_data mutable_data beacon_size i c e found,
        has_data-eq key immutable_data mutable_data beacon_size i c e found,
        sends,
        filled,
        failed,
      )

  module _ (fits : (i : ℕ) → (prefix i).string_length ≤ limit) where
    pub send_loop-IsDelivered :
        (fuel i : ℕ) (response : Option StatusResponse) (requests : List Utf8String)
        (c : Cache.Cache) (e : Entry.Entry)
        → find key c.beacons ≡ some e
        → IsReady e
        → length (queue e) < fuel
        → (out : Outcome) × (send_loop key immutable_data mutable_data beacon_size respond fuel i
              response requests c
            ≡ some out)
          × IsDelivered prefix respond i key requests e out
    send_loop-IsDelivered zero i response requests c e found ready enough = absurd (omega arith)
    send_loop-IsDelivered (suc fuel) i response requests c e found ready enough =
        elim (Bool-cases (Entry.has_data_to_send e)) [
          | inl sends ↦
              let chunk = (chunked i e).0 in
              let c' = Cache.with_entry key (chunked i e).1 c in
              let stored : find key c'.beacons ≡ some (chunked i e).1 =
                find-put_self key (chunked i e).1 c.beacons in
              let filled =
                chunk-not_empty key immutable_data mutable_data beacon_size fits i e sends ready in
              elim (Bool-cases (is_successful (respond i chunk))) [
                | inl ok ↦
                    let (out, ends, d) =
                      send_loop-IsDelivered fuel (i + 1) (respond i chunk) (requests ++ chunk ∷ [])
                        (Cache.remove_chunked_data key c')
                        (remaining key immutable_data mutable_data beacon_size fits i e sends ready)
                        (find-removed key immutable_data mutable_data beacon_size i c'
                          (chunked i e).1 stored)
                        (remaining-IsReady key immutable_data mutable_data beacon_size fits i e
                          sends ready)
                        (omega (
                          arith,
                          remaining-lt key immutable_data mutable_data beacon_size fits i e sends
                              ready,
                        )) in
                    (
                      out,
                      send_loop-accepted fuel i response requests c e found sends filled ok ∙ ends,
                      accepted-IsDelivered key immutable_data mutable_data beacon_size fits i e
                          sends ready respond ok requests out d,
                    )
                | inr failed ↦ (
                  record {
                    response = respond i chunk;
                    cache = Cache.reset_chunked_data key c';
                    requests = requests ++ chunk ∷ [];
                  },
                  send_loop-refused fuel i response requests c e found sends filled failed,
                  refused-IsDelivered key immutable_data mutable_data beacon_size fits i e sends
                      ready respond requests (Cache.reset_chunked_data key c')
                      (find-reset key immutable_data mutable_data beacon_size i c' (chunked i e).1
                        stored)
                      failed,
                )
              ]
          | inr idle ↦ (
            record { response = response; cache = c; requests = requests },
            send_loop-idle fuel i response requests c e found idle,
            finished-IsDelivered key immutable_data mutable_data beacon_size respond i requests
                response c e found (idle-queue e idle),
          )
        ]
