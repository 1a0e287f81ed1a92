-- ===== src/Protocol/BeaconSend/Send.antt =====
-- protocol/Beacon.cxx: `Beacon::send` as a whole, and when it cannot end.
use openkit_native.Prelude.{
  All, Bool-cases, List, Option, [], ap, if◌then◌else◌, inl, inr, length, none, refl, sign_extend32,
  some, suc, true, zero, ℕ, ◌+◌, ◌<◌, ◌∙◌, ◌≡◌, ◌≤◌,
}
use openkit_native.Text.{Utf8String}
use openkit_native.Caching.Key.{BeaconKey, find, find-put_self}
use openkit_native.Caching.Entry.Chunk.{Unmarked}
use openkit_native.Caching.Entry.Round.{get_chunk-too_long, queue, remove-Unmarked}
use openkit_native.Protocol.StatusResponse.{StatusResponse, is_successful}
use openkit_native.Protocol.BeaconSend.{
  Outcome, beacon_data_delimiter, chunk_prefix, max_chunk_size, send, send_loop,
}
use openkit_native.Protocol.BeaconSend.Delivery.{IsDelivered, IsReady}
use openkit_native.Protocol.BeaconSend.Loop.{send_loop-IsDelivered, send_loop-accepted}
use openkit_native.Caching.Cache.{
  Cache, has_data_for_sending, prepare_data_for_sending, remove_chunked_data, with_entry,
}
use openkit_native.Caching.Entry.{
  Entry, copy_data_for_sending, get_chunk, has_data_to_send, needs_data_copy_before_sending,
  remove_data_marked_for_sending,
}
use openkit_native.Protocol.BeaconSend.Prefix.{
  chunk_prefix-IsFilled, get_chunk-IsFilled, not_filled-empty,
}
use openkit_native.Protocol.BeaconSend.Round.{find-removed}
use openkit_native.Caching.Entry
use openkit_native.Caching.Cache

-- The entry when the loop begins: what was collected has moved to what is sent, unless an earlier
-- send left something there.
abbrev pub prepared : Entry.Entry → Entry.Entry
prepared e = if Entry.needs_data_copy_before_sending e then Entry.copy_data_for_sending e else e

pub find-prepared :
    (key : BeaconKey) (c : Cache.Cache) (e : Entry.Entry)
    → find key c.beacons ≡ some e
    → find key (Cache.prepare_data_for_sending key c).beacons ≡ some (prepared e)
unfolding Cache.prepare_data_for_sending
find-prepared key c e found = elim (Bool-cases (Entry.needs_data_copy_before_sending e)) [
  | inl needs ↦
      rw (found, Cache.prepare_data_for_sending)
        (rw needs (find-put_self key (Entry.copy_data_for_sending e) c.beacons))
  | inr idle ↦ rw (found, Cache.prepare_data_for_sending) (rw idle found)
]

module _ (key : BeaconKey) (immutable_data : Utf8String) (mutable_data : ℕ → Utf8String)
    (beacon_size : ℕ) (respond : ℕ → Utf8String → Option StatusResponse) where
  -- Where no prefix is longer than the chunk size, and the entry of the beacon is ready once it is
  -- prepared, `Beacon::send` returns within one round for each record. The requests that the server
  -- answered with success carry the records one after the other in their order, each request at least
  -- one. Either these are all requests, nothing is left to be sent and what was collected stays; or
  -- the next request is the last one, its answer is no success and is returned, and the records that
  -- were not in the requests before it are collected again in front of what was collected.
  pub send-IsDelivered :
      (c : Cache.Cache) (e : Entry.Entry) (fuel : ℕ)
      → ((i : ℕ)
          → (chunk_prefix immutable_data mutable_data i).string_length
            ≤ sign_extend32 (max_chunk_size beacon_size))
      → find key c.beacons ≡ some e
      → IsReady (prepared e)
      → length (queue (prepared e)) < fuel
      → (out : Outcome) × (send key immutable_data mutable_data beacon_size respond fuel c
          ≡ some out)
        × IsDelivered (chunk_prefix immutable_data mutable_data) respond 0 key [] (prepared e) out
  unfolding send
  send-IsDelivered c e fuel fits found ready enough =
      send_loop-IsDelivered key immutable_data mutable_data beacon_size respond fits fuel 0 none []
        (Cache.prepare_data_for_sending key c) (prepared e) (find-prepared key c e found) ready
        enough

  -- Without an entry nothing is sent, and the cache stays as it is.
  pub send-absent :
      (c : Cache.Cache) (fuel : ℕ)
      → find key c.beacons ≡ none
      → send key immutable_data mutable_data beacon_size respond (suc fuel) c
        ≡ some (record { response = none; cache = c; requests = [] })
  unfolding send send_loop Cache.prepare_data_for_sending Cache.has_data_for_sending
  send-absent c fuel absent =
      rw (absent, Cache.prepare_data_for_sending) (rw (absent, Cache.has_data_for_sending))

  -- Where every prefix is longer than the chunk size, every request is accepted, and the entry has
  -- data to send, the loop makes request after request and never returns, whatever the fuel.
  send_loop-none :
      ((i : ℕ)
        → sign_extend32 (max_chunk_size beacon_size)
          < (chunk_prefix immutable_data mutable_data i).string_length)
      → ((i : ℕ) (chunk : Utf8String) → is_successful (respond i chunk) ≡ true)
      → (fuel i : ℕ) (response : Option StatusResponse) (requests : List Utf8String)
        (c : Cache.Cache) (e : Entry.Entry)
      → find key c.beacons ≡ some e
      → Entry.has_data_to_send e ≡ true
      → All Unmarked (queue e)
      → send_loop key immutable_data mutable_data beacon_size respond fuel i response requests c
        ≡ none
  unfolding send_loop
  send_loop-none exceeds ok zero i response requests c e found sends unmarked = refl
  send_loop-none exceeds ok (suc fuel) i response requests c e found sends unmarked =
      let p = chunk_prefix immutable_data mutable_data i in
      let m = sign_extend32 (max_chunk_size beacon_size) in
      let same = (get_chunk-too_long p m beacon_data_delimiter e (exceeds i) sends).1 in
      let c' = Cache.with_entry key (Entry.get_chunk p m beacon_data_delimiter e).1 c in
      let kept : Entry.remove_data_marked_for_sending
            (Entry.get_chunk p m beacon_data_delimiter e).1
          ≡ e =
        rw same (remove-Unmarked e unmarked) in
      let filled = not_filled-empty (Entry.get_chunk p m beacon_data_delimiter e).0 (
        get_chunk-IsFilled p m beacon_data_delimiter e sends
          (chunk_prefix-IsFilled immutable_data mutable_data i)) in
      send_loop-accepted key immutable_data mutable_data beacon_size respond fuel i response
        requests c e found sends filled (ok i _)
      ∙ send_loop-none exceeds ok fuel (i + 1) _ _ (Cache.remove_chunked_data key c') e
          (find-removed key immutable_data mutable_data beacon_size i c' _
              (find-put_self key _ c.beacons)
            ∙ ap some kept)
          sends unmarked

  -- So `Beacon::send` does not return if the prefixes are longer than the chunk size, all requests
  -- are accepted, the beacon has data to send, and none of that data is marked before.
  pub send-none :
      (c : Cache.Cache) (e : Entry.Entry) (fuel : ℕ)
      → ((i : ℕ)
          → sign_extend32 (max_chunk_size beacon_size)
            < (chunk_prefix immutable_data mutable_data i).string_length)
      → ((i : ℕ) (chunk : Utf8String) → is_successful (respond i chunk) ≡ true)
      → find key c.beacons ≡ some e
      → Entry.has_data_to_send (prepared e) ≡ true
      → All Unmarked (queue (prepared e))
      → send key immutable_data mutable_data beacon_size respond fuel c ≡ none
  unfolding send
  send-none c e fuel exceeds ok found sends unmarked =
      send_loop-none exceeds ok fuel 0 none [] (Cache.prepare_data_for_sending key c) (prepared e)
        (find-prepared key c e found) sends unmarked
