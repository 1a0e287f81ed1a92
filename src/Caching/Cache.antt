-- ===== src/Caching/Cache.antt =====
-- core/caching/BeaconCache.cxx: the cache of all beacons. Each operation runs to its end before the
-- next one starts. An observer is a number, and `updates` lists the calls of `update()` so far.
use openkit_native.Prelude.{
  Bool, List, Option, [], add64, false, if◌then◌else◌, map, none, sign_extend32, some, sub64, true,
  ℕ, ◌++◌, ◌==◌, ◌∷◌,
}
use openkit_native.Text.{Utf8String, empty_string}
use openkit_native.Caching.Record.{Record, data_size_in_bytes, new_record}
use openkit_native.Caching.Key.{BeaconKey, erase, find, put}
use openkit_native.Caching.Entry.{
  Entry, copy_data_for_sending, get_chunk, has_data_to_send, needs_data_copy_before_sending,
  new_entry, remove_data_marked_for_sending, remove_oldest_records, remove_records_older_than,
  reset_data_marked_for_sending,
}
pub mod Size
pub mod Consistency
pub mod Run
pub mod Collected
pub mod Frame
use openkit_native.Caching.Entry

pub record Cache : Type 0 where
  pub beacons : List (BeaconKey × Entry.Entry)
  pub cache_size_in_bytes : ℕ
  pub observers : List ℕ
  pub updates : List ℕ

abbrev pub new_cache : Cache
new_cache = record { beacons = []; cache_size_in_bytes = 0; observers = []; updates = [] }

unfoldable pub add_observer : Option ℕ → Cache → Cache
add_observer none c = c
add_observer (some o) c = record c { observers = c.observers ++ o ∷ [] }

unfoldable pub on_data_added : Cache → Cache
on_data_added c = record c { updates = c.updates ++ c.observers }

unfoldable pub cached_entry : BeaconKey → Cache → Option Entry.Entry
cached_entry key c = find key c.beacons

-- what the shared pointer to an entry writes
abbrev pub with_entry : BeaconKey → Entry.Entry → Cache → Cache
with_entry key e c = record c { beacons = put key e c.beacons }

unfoldable pub cached_entry_or_insert : BeaconKey → Cache → Entry.Entry × Cache
unfolding cached_entry
cached_entry_or_insert key c = elim (cached_entry key c) [
  | none ↦ (Entry.new_entry, with_entry key Entry.new_entry c)
  | some e ↦ (e, c)
]

unfoldable pub add_event_data : BeaconKey → ℕ → Utf8String → Cache → Cache
unfolding cached_entry_or_insert on_data_added
add_event_data key timestamp text c =
    let (e, c') = cached_entry_or_insert key c in
    let r = new_record timestamp text in
    let stored = with_entry key (Entry.add_event_data r e) c' in
    on_data_added (record stored {
      cache_size_in_bytes = add64 stored.cache_size_in_bytes (data_size_in_bytes r);
    })

unfoldable pub add_action_data : BeaconKey → ℕ → Utf8String → Cache → Cache
unfolding cached_entry_or_insert on_data_added
add_action_data key timestamp text c =
    let (e, c') = cached_entry_or_insert key c in
    let r = new_record timestamp text in
    let stored = with_entry key (Entry.add_action_data r e) c' in
    on_data_added (record stored {
      cache_size_in_bytes = add64 stored.cache_size_in_bytes (data_size_in_bytes r);
    })

unfoldable pub delete_cache_entry : BeaconKey → Cache → Cache
delete_cache_entry key c = elim (find key c.beacons) [
  | none ↦ c
  | some e ↦ record c {
    beacons = erase key c.beacons;
    cache_size_in_bytes = sub64 c.cache_size_in_bytes e.total_num_bytes;
  }
]

unfoldable pub prepare_data_for_sending : BeaconKey → Cache → Cache
unfolding cached_entry
prepare_data_for_sending key c = elim (cached_entry key c) [
  | none ↦ c
  | some e ↦
      if Entry.needs_data_copy_before_sending e
      then record (with_entry key (Entry.copy_data_for_sending e) c) {
        cache_size_in_bytes = sub64 c.cache_size_in_bytes e.total_num_bytes;
      }
      else c
]

unfoldable pub has_data_for_sending : BeaconKey → Cache → Bool
unfolding cached_entry
has_data_for_sending key c = elim (cached_entry key c) [
  | none ↦ false
  | some e ↦ Entry.has_data_to_send e
]

-- `max_size` is an `int32_t` that is converted to `size_t`
unfoldable pub get_next_beacon_chunk :
    BeaconKey → Utf8String → ℕ → Utf8String → Cache → Utf8String × Cache
unfolding cached_entry
get_next_beacon_chunk key prefix max_size delimiter c = elim (cached_entry key c) [
  | none ↦ (empty_string, c)
  | some e ↦
      let (chunk, e') = Entry.get_chunk prefix (sign_extend32 max_size) delimiter e in
      (chunk, with_entry key e' c)
]

unfoldable pub remove_chunked_data : BeaconKey → Cache → Cache
unfolding cached_entry
remove_chunked_data key c = elim (cached_entry key c) [
  | none ↦ c
  | some e ↦ with_entry key (Entry.remove_data_marked_for_sending e) c
]

unfoldable pub reset_chunked_data : BeaconKey → Cache → Cache
unfolding cached_entry on_data_added
reset_chunked_data key c = elim (cached_entry key c) [
  | none ↦ c
  | some e ↦
      let e' = Entry.reset_data_marked_for_sending e in
      on_data_added (record (with_entry key e' c) {
        cache_size_in_bytes =
            add64 c.cache_size_in_bytes (sub64 e'.total_num_bytes e.total_num_bytes);
      })
]

abbrev pub extract_data : List Record → List Utf8String
extract_data rs = map (λ r. r.text) rs

unfoldable pub get_events : BeaconKey → Cache → List Utf8String
unfolding cached_entry
get_events key c = elim (cached_entry key c) [ none ↦ [] | some e ↦ extract_data e.event_data ]

unfoldable pub get_actions : BeaconKey → Cache → List Utf8String
unfolding cached_entry
get_actions key c = elim (cached_entry key c) [ none ↦ [] | some e ↦ extract_data e.action_data ]

unfoldable pub get_beacon_keys : Cache → List BeaconKey
get_beacon_keys c = map (λ p. p.0) c.beacons

unfoldable pub evict_records_by_age : BeaconKey → ℕ → Cache → Cache × ℕ
unfolding cached_entry
evict_records_by_age key min_timestamp c = elim (cached_entry key c) [
  | none ↦ (c, 0)
  | some e ↦
      let (e', removed) = Entry.remove_records_older_than min_timestamp e in
      (with_entry key e' c, removed)
]

unfoldable pub evict_records_by_number : BeaconKey → ℕ → Cache → Cache × ℕ
unfolding cached_entry
evict_records_by_number key num_records c = elim (cached_entry key c) [
  | none ↦ (c, 0)
  | some e ↦
      let (e', removed) = Entry.remove_oldest_records num_records e in
      (with_entry key e' c, removed)
]

unfoldable pub get_num_bytes_in_cache : Cache → ℕ
get_num_bytes_in_cache c = c.cache_size_in_bytes

unfoldable pub is_empty_entry : BeaconKey → Cache → Bool
unfolding cached_entry
is_empty_entry key c = elim (cached_entry key c) [ none ↦ true | some e ↦ e.total_num_bytes == 0 ]
