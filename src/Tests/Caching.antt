-- ===== src/Tests/Caching.antt =====
-- core/caching at concrete inputs.
use openkit_native.Prelude.{
  ℕ, List, [], arith, drop, false, if◌then◌else◌, length, none, not, rank64, refl, slt64, some,
  sub64, take, true, ◌%◌, ◌++◌, ◌+◌, ◌^◌, ◌∷◌, ◌≡◌,
}
use openkit_native.Caching.Cache.{remove_chunked_data, Cache, get_num_bytes_in_cache, new_cache}
use openkit_native.Caching.Cache.Run.{
  Operation, add_action, add_event, delete, next_chunk, observe, prepare, reset_chunked, run,
  run-IsConsistent,
}
use openkit_native.Caching.Entry.{
  Entry, get_chunk, has_data_to_send, new_entry, remove_data_marked_for_sending,
  remove_oldest_records, remove_records_older_than, reset_data_marked_for_sending,
}
use openkit_native.Caching.Key.{BeaconKey, find, key_eq}
use openkit_native.Caching.Record.{Record}
use openkit_native.Protocol.Attributes.{}
use openkit_native.Text.{Utf8String}
use openkit_native.Caching.Cache.Collected.{collected_bytes, num_bytes-run}
use openkit_native.Caching.Cache.Frame.{find-run}
use openkit_native.Caching.Cache.Size.{IsConsistent, IsConsistent-new}
use openkit_native.Caching.Entry.Bytes.{merged, reset-merged, total_size}
use openkit_native.Caching.Entry.Chunk.{IsText, payload}
use openkit_native.Caching.Entry.Eviction.{
  IsOldest, keep_recent, rank_of, remove_older-keep, remove_oldest_records-IsOldest,
}
use openkit_native.Caching.Entry.Round.{
  IsRestored, bytes-get_chunk, chunk_count, queue, queue-round, reset-IsRestored,
}
use openkit_native.Caching.Eviction.{
  BeaconCacheConfiguration, TimeStrategy, space_execute, space_is_disabled, space_should_run,
  time_execute, time_is_disabled,
}
use openkit_native.Caching.Eviction.Space.{StaysAbove, space_execute-none}
use openkit_native.Caching.Eviction.Time.{find-time_execute, recent_of}
use openkit_native.Caching.Cache
use openkit_native.Caching.Entry

abbrev pub text_a : Utf8String
text_a = record { bytes = b'a' ∷ []; string_length = 1 }

abbrev pub text_bc : Utf8String
text_bc = record { bytes = b'b' ∷ b'c' ∷ []; string_length = 2 }

abbrev pub text_amp : Utf8String
text_amp = record { bytes = b'&' ∷ []; string_length = 1 }

abbrev pub key_one : BeaconKey
key_one = record { beacon_id = 1; beacon_sequence_number = 0 }

abbrev pub key_two : BeaconKey
key_two = record { beacon_id = 2; beacon_sequence_number = 0 }

abbrev pub early : Record
early = record { timestamp = 10; text = text_a; marked_for_sending = false }

abbrev pub late : Record
late = record { timestamp = 30; text = text_bc; marked_for_sending = false }

abbrev pub middle : Record
middle = record { timestamp = 20; text = text_a; marked_for_sending = false }

-- Two events and one action are collected.
abbrev pub collected : Entry.Entry
collected = record Entry.new_entry {
  event_data = early ∷ late ∷ [];
  action_data = middle ∷ [];
  total_num_bytes = 8;
}

-- The same records are being sent.
abbrev pub sending : Entry.Entry
sending = record Entry.new_entry {
  event_data_being_sent = early ∷ late ∷ [];
  action_data_being_sent = middle ∷ [];
}

abbrev pub one_beacon : Cache.Cache
one_beacon = record Cache.new_cache { beacons = (key_one, collected) ∷ []; cache_size_in_bytes = 8 }

pub text_a-IsText : IsText text_a
text_a-IsText h = ground (arith, h)

pub text_bc-IsText : IsText text_bc
text_bc-IsText h = ground (arith, h)

pub text_amp-IsText : IsText text_amp
text_amp-IsText h = ground (arith, h)

-- What happens to two beacons.
abbrev pub some_work : List Operation
some_work =
    observe (some 7)
    ∷ add_event key_one 10 text_a
    ∷ add_action key_two 20 text_bc
    ∷ add_action key_one 30 text_bc
    ∷ prepare key_one
    ∷ next_chunk key_one text_a 100 text_amp
    ∷ reset_chunked key_one
    ∷ delete key_two
    ∷ []

run-IsConsistent_example : IsConsistent (run some_work Cache.new_cache)
run-IsConsistent_example = run-IsConsistent some_work Cache.new_cache IsConsistent-new

num_bytes-run_example :
    Cache.get_num_bytes_in_cache (run some_work Cache.new_cache)
    ≡ collected_bytes (run some_work Cache.new_cache) % 2 ^ 64
num_bytes-run_example = num_bytes-run some_work (tt, (tt, (tt, (tt, (tt, (tt, (tt, (tt, tt))))))))

find-run_example :
    find key_two (run (delete key_one ∷ prepare key_one ∷ []) one_beacon).beacons
    ≡ find key_two one_beacon.beacons
find-run_example =
    find-run key_two (delete key_one ∷ prepare key_one ∷ []) one_beacon
      (unfold key_eq in (refl, (refl, tt)))

remove_oldest_records-IsOldest_example :
    let (e', removed) = Entry.remove_oldest_records 2 collected in
    IsOldest 2 0 collected.event_data collected.action_data
      (record { events = e'.event_data; actions = e'.action_data; removed = removed })
    × (e' ≡ record collected { event_data = e'.event_data; action_data = e'.action_data })
remove_oldest_records-IsOldest_example =
    remove_oldest_records-IsOldest 2 collected (omega arith)
      (((unfold rank_of rank64 in omega arith, tt), (tt, tt)), (tt, tt))

remove_older-keep_example :
    let (e', removed) = Entry.remove_records_older_than 20 collected in
    (e' ≡ record collected {
      event_data = keep_recent 20 collected.event_data;
      action_data = keep_recent 20 collected.action_data;
    })
    × (removed + length e'.event_data + length e'.action_data
        ≡ length collected.event_data + length collected.action_data)
remove_older-keep_example = remove_older-keep 20 collected (omega arith)

reset-merged_example : Entry.reset_data_marked_for_sending sending ≡ merged sending
reset-merged_example = reset-merged sending (unfold total_size in refl)

queue-round_example :
    queue (Entry.remove_data_marked_for_sending (Entry.get_chunk text_a 3 text_amp sending).1)
    ≡ drop (chunk_count text_a 3 text_amp sending) (queue sending)
queue-round_example =
    queue-round text_a 3 text_amp sending (unfold Entry.has_data_to_send in refl)
      (refl, (refl, (refl, tt)))

bytes-get_chunk_example :
    (Entry.get_chunk text_a 3 text_amp sending).0.bytes
    ≡ text_a.bytes
      ++ payload text_amp (take (chunk_count text_a 3 text_amp sending) (queue sending))
bytes-get_chunk_example =
    bytes-get_chunk text_a 3 text_amp sending (unfold Entry.has_data_to_send in refl) text_a-IsText
      text_amp-IsText (text_a-IsText, (text_bc-IsText, (text_a-IsText, tt)))

reset-IsRestored_example :
    IsRestored sending
      (Entry.reset_data_marked_for_sending (Entry.get_chunk text_a 3 text_amp sending).1)
reset-IsRestored_example = reset-IsRestored text_a 3 text_amp sending (refl, (refl, tt)) (refl, tt)

abbrev small_bounds : BeaconCacheConfiguration
small_bounds = record {
  max_record_age = 25;
  cache_size_lower_bound = 1;
  cache_size_upper_bound = 4;
}

-- Another thread reports as sent what has been sent from the beacon.
abbrev collecting : ℕ → Cache.Cache → Cache.Cache
collecting n c = Cache.remove_chunked_data key_one c

num_bytes-collecting :
    (n : ℕ) (c : Cache.Cache)
    → Cache.get_num_bytes_in_cache (collecting n c) ≡ Cache.get_num_bytes_in_cache c
unfolding Cache.get_num_bytes_in_cache Cache.remove_chunked_data
num_bytes-collecting n c = ground arith

collecting-StaysAbove : StaysAbove (λ n. false) collecting small_bounds
collecting-StaysAbove n c above = rw (num_bytes-collecting n c) above

space_execute-none_example :
    space_execute (λ n. false) collecting true small_bounds 3 (false, one_beacon) ≡ none
space_execute-none_example =
    space_execute-none (λ n. false) collecting small_bounds true false 3 one_beacon (λ n. refl)
      collecting-StaysAbove (unfold space_is_disabled slt64 rank64 in refl)
      (unfold space_should_run slt64 rank64 Cache.get_num_bytes_in_cache in refl)

abbrev has_run : TimeStrategy
has_run = record { last_run_timestamp = 5; info_shown = false; readings = 0 }

find-time_execute_example :
    let (s', c') = time_execute (λ i. false) (λ i. 40 + i) true small_bounds has_run one_beacon in
    let due = not (slt64 (sub64 40 5) 25) in
    (find key_one c'.beacons ≡ (
      if due
      then recent_of (sub64 41 25) (find key_one one_beacon.beacons)
      else find key_one one_beacon.beacons))
    × (s'.last_run_timestamp ≡ (if due then 41 else 5))
find-time_execute_example =
    find-time_execute (λ i. 40 + i) true small_bounds has_run key_one one_beacon
      (unfold slt64 rank64 in refl) (unfold time_is_disabled slt64 rank64 in refl)
