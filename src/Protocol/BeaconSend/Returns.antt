-- ===== src/Protocol/BeaconSend/Returns.antt =====
-- protocol/Beacon.cxx: when `Beacon::send` returns, whatever the state of the cache.
use openkit_native.Prelude.{
  Bool-cases, if-both, List, Option, Option-cases, arith, inl, inr, length, length-append, none,
  sign_extend32, some, suc, zero, ℕ, ◌+◌, ◌++◌, ◌<◌, ◌∙◌, ◌≡◌, ◌≤◌, ◌∷◌, [],
}
use openkit_native.Text.{Utf8String}
use openkit_native.Caching.Key.{BeaconKey, find, find-put_self}
use openkit_native.Caching.Entry.Round.{length-queue_round, queue}
use openkit_native.Protocol.StatusResponse.{StatusResponse, is_successful}
use openkit_native.Protocol.BeaconSend.{
  Outcome, beacon_data_delimiter, chunk_prefix, max_chunk_size, send, send_loop,
}
use openkit_native.Protocol.BeaconSend.Loop.{send_loop-accepted, send_loop-idle, send_loop-refused}
use openkit_native.Protocol.BeaconSend.Prefix.{
  chunk_prefix-IsFilled, get_chunk-IsFilled, not_filled-empty,
}
use openkit_native.Protocol.BeaconSend.Round.{find-removed}
use openkit_native.Protocol.BeaconSend.Send.{find-prepared, prepared, send-absent}
use openkit_native.Caching.Cache.{Cache, prepare_data_for_sending, remove_chunked_data, with_entry}
use openkit_native.Caching.Entry.{
  Entry, copy_data_for_sending, get_chunk, has_data_to_send, needs_data_copy_before_sending,
  remove_data_marked_for_sending,
}
use openkit_native.Caching.Entry
use openkit_native.Caching.Cache

-- How many records the entry of a beacon holds, of any kind.
unfoldable pub num_records : BeaconKey → Cache.Cache → ℕ
num_records key c = elim (find key c.beacons) [
  | none ↦ 0
  | some e ↦ length e.event_data + length e.action_data + length (queue e)
]

length-copied :
    (e : Entry.Entry)
    → length (queue (Entry.copy_data_for_sending e))
      ≡ length e.event_data + length e.action_data + length (queue e)
unfolding Entry.copy_data_for_sending
length-copied e = omega (
  arith,
  length-append (e.event_data ++ e.event_data_being_sent)
      (e.action_data ++ e.action_data_being_sent),
  length-append e.event_data e.event_data_being_sent,
  length-append e.action_data e.action_data_being_sent,
  length-append e.event_data_being_sent e.action_data_being_sent,
)

length-prepared :
    (e : Entry.Entry)
    → length (queue (prepared e)) ≤ length e.event_data + length e.action_data + length (queue e)
length-prepared e =
    if-both
      (λ (x : Entry.Entry).
        length (queue x) ≤ length e.event_data + length e.action_data + length (queue e))
      (Entry.needs_data_copy_before_sending e) (λ needs. omega (arith, length-copied e))
      (λ idle. omega arith)

num_records-some :
    (key : BeaconKey) (c : Cache.Cache) (e : Entry.Entry)
    → find key c.beacons ≡ some e
    → num_records key c ≡ length e.event_data + length e.action_data + length (queue e)
unfolding num_records
num_records-some key c e found = rw (found, num_records)

module _ (key : BeaconKey) (immutable_data : Utf8String) (mutable_data : ℕ → Utf8String)
    (beacon_size : ℕ) (respond : ℕ → Utf8String → Option StatusResponse) where
  module _
      (fits : (i : ℕ)
        → (chunk_prefix immutable_data mutable_data i).string_length
          ≤ sign_extend32 (max_chunk_size beacon_size)) where
    send_loop-some :
        (fuel i : ℕ) (response : Option StatusResponse) (requests : List Utf8String)
        (c : Cache.Cache) (e : Entry.Entry)
        → find key c.beacons ≡ some e
        → length (queue e) < fuel
        → (out : Outcome) × (send_loop key immutable_data mutable_data beacon_size respond fuel i
              response requests c
            ≡ some out)
    send_loop-some zero i response requests c e found enough = absurd (omega arith)
    send_loop-some (suc fuel) i response requests c e found enough =
        let p = chunk_prefix immutable_data mutable_data i in
        let m = sign_extend32 (max_chunk_size beacon_size) in
        let (chunk, e') = Entry.get_chunk p m beacon_data_delimiter e in
        elim (Bool-cases (Entry.has_data_to_send e)) [
          | inl sends ↦
              let filled = not_filled-empty chunk (
                get_chunk-IsFilled p m beacon_data_delimiter e sends
                  (chunk_prefix-IsFilled immutable_data mutable_data i)) in
              elim (Bool-cases (is_successful (respond i chunk))) [
                | inl ok ↦
                    let (out, ends) =
                      send_loop-some fuel (i + 1) (respond i chunk) (requests ++ chunk ∷ [])
                        (Cache.remove_chunked_data key (Cache.with_entry key e' c))
                        (Entry.remove_data_marked_for_sending e')
                        (find-removed key immutable_data mutable_data beacon_size i
                          (Cache.with_entry key e' c) e' (find-put_self key e' c.beacons))
                        (omega
                          (arith, length-queue_round p m beacon_data_delimiter e sends (fits i))) in
                    (
                      out,
                      send_loop-accepted key immutable_data mutable_data beacon_size respond fuel i
                            response requests c e found sends filled ok
                          ∙ ends,
                    )
                | inr refused ↦ (
                  _,
                  send_loop-refused key immutable_data mutable_data beacon_size respond fuel i
                      response requests c e found sends filled refused,
                )
              ]
          | inr idle ↦ (
            _,
            send_loop-idle key immutable_data mutable_data beacon_size respond fuel i response
                requests c e found idle,
          )
        ]

    -- Where no prefix is longer than the chunk size, `Beacon::send` returns, whatever the server
    -- answers and whatever the cache holds for the beacon or has marked of it, and the fuel is
    -- enough if it is more than the number of records that the cache holds for the beacon.
    pub send-some :
        (c : Cache.Cache) (fuel : ℕ)
        → num_records key c < fuel
        → (out : Outcome) × (send key immutable_data mutable_data beacon_size respond fuel c
            ≡ some out)
    unfolding send
    send-some c zero enough = absurd (omega arith)
    send-some c (suc fuel) enough = elim (Option-cases (find key c.beacons)) [
      | inl absent ↦
          (_, send-absent key immutable_data mutable_data beacon_size respond c fuel absent)
      | inr (e, found) ↦
          send_loop-some (suc fuel) 0 none [] (Cache.prepare_data_for_sending key c) (prepared e)
            (find-prepared key c e found)
            (omega (arith, length-prepared e, num_records-some key c e found))
    ]
