-- ===== src/Protocol/BeaconSend.antt =====
-- protocol/Beacon.cxx, `Beacon::send`: the data of one beacon goes out in chunks until all of it is
-- sent, or until a request fails. The HTTP client and the data that changes from chunk to chunk are
-- parameters: `mutable_data i` is what `getMutableBeaconData` returns for the i-th chunk, and
-- `respond i chunk` the answer to the i-th request, or none.
use openkit_native.Prelude.{
  List, Option, [], if◌then◌else◌, is_empty, none, not, some, suc, zero, ℕ, ◌%◌, ◌++◌, ◌+◌, ◌-◌,
  ◌^◌, ◌||◌, ◌∷◌,
}
use openkit_native.Text.{Utf8String, concatenate, is_empty_string}
use openkit_native.Caching.Key.{BeaconKey}
use openkit_native.Protocol.StatusResponse.{StatusResponse, is_successful}
use openkit_native.Caching.Cache.{
  Cache, get_next_beacon_chunk, has_data_for_sending, prepare_data_for_sending, remove_chunked_data,
  reset_chunked_data,
}
use openkit_native.Caching.Cache
pub mod Prefix
pub mod Delivery
mod Round
pub mod Loop
pub mod Send
pub mod Returns

-- BEACON_DATA_DELIMITER of protocol/BeaconProtocolConstants.h
abbrev pub beacon_data_delimiter : Utf8String
beacon_data_delimiter = record { bytes = b'&' ∷ []; string_length = 1 }

pub record Outcome : Type 0 where
  pub response : Option StatusResponse
  pub cache : Cache.Cache
  pub requests : List Utf8String

-- The prefix is built anew for each chunk.
unfoldable pub chunk_prefix : Utf8String → (ℕ → Utf8String) → ℕ → Utf8String
chunk_prefix immutable_data mutable_data i =
    concatenate (concatenate immutable_data beacon_data_delimiter) (mutable_data i)

-- `getBeaconSizeInBytes() - 1024`, an `int32_t`
unfoldable pub max_chunk_size : ℕ → ℕ
max_chunk_size beacon_size = (beacon_size + 2 ^ 32 - 1024) % 2 ^ 32

module _ (key : BeaconKey) (immutable_data : Utf8String) (mutable_data : ℕ → Utf8String)
    (beacon_size : ℕ) (respond : ℕ → Utf8String → Option StatusResponse) where
  -- The loop, on fuel; `none` means that the fuel ran out. `i` counts the requests.
  unfoldable pub send_loop :
      ℕ → ℕ → Option StatusResponse → List Utf8String → Cache.Cache → Option Outcome
  send_loop zero i response requests c = none
  send_loop (suc fuel) i response requests c =
      let (chunk, c') =
        Cache.get_next_beacon_chunk key (chunk_prefix immutable_data mutable_data i)
          (max_chunk_size beacon_size) beacon_data_delimiter c in
      let answer = respond i chunk in
      let sent = requests ++ chunk ∷ [] in
      let next = send_loop fuel (i + 1) answer sent (Cache.remove_chunked_data key c') in
      if not (Cache.has_data_for_sending key c)
      then some (record { response = response; cache = c; requests = requests })
      else if is_empty chunk.bytes || is_empty_string chunk
      then some (record { response = response; cache = c'; requests = requests })
      else if not (is_successful answer)
      then some
          (record { response = answer; cache = Cache.reset_chunked_data key c'; requests = sent })
      else next

  unfoldable pub send : ℕ → Cache.Cache → Option Outcome
  send fuel c = send_loop fuel 0 none [] (Cache.prepare_data_for_sending key c)
