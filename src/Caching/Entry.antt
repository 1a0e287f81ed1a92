-- ===== src/Caching/Entry.antt =====
-- core/caching/BeaconCacheEntry.cxx: the data of one beacon. What is collected stands in
-- `event_data` and `action_data`; a send first moves it to the two lists that are being sent.
pub mod Bytes
pub mod Chunk
pub mod Round
pub mod Eviction
use openkit_native.Prelude.{
  ◌%◌, ◌^◌, Bool, List, [], add64, if◌then◌else◌, is_empty, leb, not, slt32, slt64, ℕ, ◌&&◌, ◌++◌,
  ◌+◌, ◌||◌, ◌∷◌,
}
use openkit_native.Text.{Utf8String, concatenate, empty_string}
use openkit_native.Caching.Record.{Record, data_size_in_bytes, mark_for_sending, unset_sending}

pub record Entry : Type 0 where
  pub event_data : List Record
  pub action_data : List Record
  pub event_data_being_sent : List Record
  pub action_data_being_sent : List Record
  pub total_num_bytes : ℕ

abbrev pub new_entry : Entry
new_entry = record {
  event_data = [];
  action_data = [];
  event_data_being_sent = [];
  action_data_being_sent = [];
  total_num_bytes = 0;
}

unfoldable pub add_event_data : Record → Entry → Entry
add_event_data r e = record e {
  event_data = e.event_data ++ r ∷ [];
  total_num_bytes = add64 e.total_num_bytes (data_size_in_bytes r);
}

unfoldable pub add_action_data : Record → Entry → Entry
add_action_data r e = record e {
  action_data = e.action_data ++ r ∷ [];
  total_num_bytes = add64 e.total_num_bytes (data_size_in_bytes r);
}

unfoldable pub needs_data_copy_before_sending : Entry → Bool
needs_data_copy_before_sending e =
    (is_empty e.action_data_being_sent && is_empty e.event_data_being_sent)
    && (not (is_empty e.event_data) || not (is_empty e.action_data))

-- `splice` at the beginning leaves the source lists empty
unfoldable pub copy_data_for_sending : Entry → Entry
copy_data_for_sending e = record {
  event_data = [];
  action_data = [];
  event_data_being_sent = e.event_data ++ e.event_data_being_sent;
  action_data_being_sent = e.action_data ++ e.action_data_being_sent;
  total_num_bytes = 0;
}

unfoldable pub has_data_to_send : Entry → Bool
has_data_to_send e =
    not (is_empty e.event_data_being_sent) || not (is_empty e.action_data_being_sent)

-- The loop goes on while the chunk is not longer than `max_size`, so the last record may pass it.
unfoldable pub chunkify_data_list :
    ℕ → Utf8String → Utf8String → List Record → Utf8String × List Record
chunkify_data_list max_size delimiter chunk [] = (chunk, [])
chunkify_data_list max_size delimiter chunk (r ∷ rs) =
    let rest =
      chunkify_data_list max_size delimiter (concatenate (concatenate chunk delimiter) r.text) rs in
    if leb chunk.string_length max_size
    then (rest.0, mark_for_sending r ∷ rest.1)
    else (chunk, r ∷ rs)

-- Event data goes first, then action data.
unfoldable pub get_next_chunk : Utf8String → ℕ → Utf8String → Entry → Utf8String × Entry
get_next_chunk prefix max_size delimiter e =
    let start = concatenate empty_string prefix in
    let events = chunkify_data_list max_size delimiter start e.event_data_being_sent in
    let actions = chunkify_data_list max_size delimiter events.0 e.action_data_being_sent in
    (actions.0, record e { event_data_being_sent = events.1; action_data_being_sent = actions.1 })

unfoldable pub get_chunk : Utf8String → ℕ → Utf8String → Entry → Utf8String × Entry
unfolding get_next_chunk has_data_to_send
get_chunk prefix max_size delimiter e =
    if not (has_data_to_send e)
    then (empty_string, e)
    else get_next_chunk prefix max_size delimiter e

unfoldable pub erase_marked : List Record → List Record
erase_marked [] = []
erase_marked (r ∷ rs) = if r.marked_for_sending then erase_marked rs else r ∷ erase_marked rs

-- The first loop always ends at the end of its list, so the test before the second one holds.
unfoldable pub remove_data_marked_for_sending : Entry → Entry
unfolding has_data_to_send
remove_data_marked_for_sending e = if not (has_data_to_send e) then e else record e {
  event_data_being_sent = erase_marked e.event_data_being_sent;
  action_data_being_sent = erase_marked e.action_data_being_sent;
}

-- the loop that clears the marks and adds the sizes up
unfoldable pub unset_all : ℕ → List Record → ℕ × List Record
unset_all num_bytes [] = (num_bytes, [])
unset_all num_bytes (r ∷ rs) =
    let rest = unset_all (add64 num_bytes (data_size_in_bytes r)) rs in
    (rest.0, unset_sending r ∷ rest.1)

unfoldable pub reset_data_marked_for_sending : Entry → Entry
unfolding has_data_to_send
reset_data_marked_for_sending e =
    if not (has_data_to_send e)
    then e
    else let events = unset_all 0 e.event_data_being_sent in
      let actions = unset_all events.0 e.action_data_being_sent in
      record {
        event_data = events.1 ++ e.event_data;
        action_data = actions.1 ++ e.action_data;
        event_data_being_sent = [];
        action_data_being_sent = [];
        total_num_bytes = add64 e.total_num_bytes actions.0;
      }

-- the loop over one list: what stays, and how many records were erased, an `int32_t`
unfoldable pub erase_older_than : ℕ → List Record → List Record × ℕ
erase_older_than min_timestamp [] = ([], 0)
erase_older_than min_timestamp (r ∷ rs) =
    let rest = erase_older_than min_timestamp rs in
    if slt64 r.timestamp min_timestamp
    then (rest.0, (rest.1 + 1) % 2 ^ 32)
    else (r ∷ rest.0, rest.1)

unfoldable pub remove_records_older_than : ℕ → Entry → Entry × ℕ
remove_records_older_than min_timestamp e =
    let events = erase_older_than min_timestamp e.event_data in
    let actions = erase_older_than min_timestamp e.action_data in
    (record e { event_data = events.0; action_data = actions.0 }, (events.1 + actions.1) % 2 ^ 32)

-- the lists that the loop leaves, and how many records it removed
pub record Removal : Type 0 where
  pub events : List Record
  pub actions : List Record
  pub removed : ℕ

-- Each round takes the older of the two first records, the event if neither is older.
unfoldable pub erase_oldest : ℕ → ℕ → List Record → List Record → Removal
erase_oldest num_records removed [] [] = record { events = []; actions = []; removed = removed }
erase_oldest num_records removed [] (a ∷ rs) =
    let rest = erase_oldest num_records (removed + 1) [] rs in
    if slt32 removed num_records
    then rest
    else record { events = []; actions = a ∷ rs; removed = removed }
erase_oldest num_records removed (e ∷ es) [] =
    let rest = erase_oldest num_records (removed + 1) es [] in
    if slt32 removed num_records
    then rest
    else record { events = e ∷ es; actions = []; removed = removed }
erase_oldest num_records removed (e ∷ es) (a ∷ rs) =
    let drop_action = erase_oldest num_records (removed + 1) (e ∷ es) rs in
    let drop_event = erase_oldest num_records (removed + 1) es (a ∷ rs) in
    let rest = if slt64 a.timestamp e.timestamp then drop_action else drop_event in
    if slt32 removed num_records
    then rest
    else record { events = e ∷ es; actions = a ∷ rs; removed = removed }

unfoldable pub remove_oldest_records : ℕ → Entry → Entry × ℕ
remove_oldest_records num_records e =
    let left = erase_oldest num_records 0 e.event_data e.action_data in
    (record e { event_data = left.events; action_data = left.actions }, left.removed)
