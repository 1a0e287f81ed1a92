-- ===== src/Caching/Cache/Consistency.antt =====
-- core/caching/BeaconCache.cxx: every operation keeps the size of the cache the sum of the counts.
use openkit_native.Prelude.{
  Bool-cases, Option-cases, add64, arith, inl, inr, refl, sign_extend32, some, sub64, ℕ, ◌≡◌,
}
use openkit_native.Caching.Key.{All-erase, All-find, BeaconKey, find, find-put_self, sum_of-erase}
use openkit_native.Caching.Cache.Size.{
  IsConsistent, IsWord, grow-IsConsistent, insert-IsConsistent, replace-IsConsistent,
  same_count-IsConsistent, total_of,
}
use openkit_native.Caching.Cache.{
  Cache, add_action_data, add_event_data, cached_entry_or_insert, delete_cache_entry,
  evict_records_by_age, evict_records_by_number, get_next_beacon_chunk, on_data_added,
  prepare_data_for_sending, remove_chunked_data, reset_chunked_data,
}
use openkit_native.Caching.Entry.{
  Entry, copy_data_for_sending, get_chunk, needs_data_copy_before_sending, new_entry,
  remove_data_marked_for_sending, remove_oldest_records, remove_records_older_than,
  reset_data_marked_for_sending,
}
use openkit_native.Caching.Record.{data_size_in_bytes, new_record}
use openkit_native.Text.{Utf8String}
use openkit_native.Caching.Entry
use openkit_native.Caching.Cache

module _ (key : BeaconKey) (c : Cache.Cache) where
  pub or_insert-IsConsistent :
      IsConsistent c
      → let got = Cache.cached_entry_or_insert key c in
        IsConsistent got.1 × (find key got.1.beacons ≡ some got.0)
  unfolding Cache.cached_entry_or_insert
  or_insert-IsConsistent h = elim (Option-cases (find key c.beacons)) [
    | inl absent ↦
        rw (absent, Cache.cached_entry_or_insert)
          (
            insert-IsConsistent key c _ Entry.new_entry h absent refl refl refl,
            find-put_self key Entry.new_entry c.beacons,
          )
    | inr (e, found) ↦ rw (found, Cache.cached_entry_or_insert) (h, found)
  ]

  module _ (timestamp : ℕ) (text : Utf8String) where
    pub add_event_data-IsConsistent :
        IsConsistent c → IsConsistent (Cache.add_event_data key timestamp text c)
    unfolding Cache.on_data_added
    add_event_data-IsConsistent h =
        let (kept, found) = or_insert-IsConsistent h in
        let (e, c') = Cache.cached_entry_or_insert key c in
        grow-IsConsistent key c' _ (Entry.add_event_data (new_record timestamp text) e) e
          (data_size_in_bytes (new_record timestamp text)) kept found
          (unfold Entry.add_event_data in refl) (unfold Cache.add_event_data in refl)
          (unfold Cache.add_event_data in refl)

    pub add_action_data-IsConsistent :
        IsConsistent c → IsConsistent (Cache.add_action_data key timestamp text c)
    unfolding Cache.on_data_added
    add_action_data-IsConsistent h =
        let (kept, found) = or_insert-IsConsistent h in
        let (e, c') = Cache.cached_entry_or_insert key c in
        grow-IsConsistent key c' _ (Entry.add_action_data (new_record timestamp text) e) e
          (data_size_in_bytes (new_record timestamp text)) kept found
          (unfold Entry.add_action_data in refl) (unfold Cache.add_action_data in refl)
          (unfold Cache.add_action_data in refl)

  pub delete-IsConsistent : IsConsistent c → IsConsistent (Cache.delete_cache_entry key c)
  unfolding Cache.delete_cache_entry sub64
  delete-IsConsistent h = elim (Option-cases (find key c.beacons)) [
    | inl absent ↦ rw (absent, Cache.delete_cache_entry) h
    | inr (e, found) ↦
        let small : IsWord e = All-find IsWord key c.beacons h.words found in
        rw (found, Cache.delete_cache_entry)
          (record {
            sized = omega (arith, h.sized, sum_of-erase total_of key e c.beacons found);
            words = All-erase IsWord key c.beacons h.words;
          })
  ]

  pub prepare-IsConsistent : IsConsistent c → IsConsistent (Cache.prepare_data_for_sending key c)
  unfolding Cache.prepare_data_for_sending
  prepare-IsConsistent h = elim (Option-cases (find key c.beacons)) [
    | inl absent ↦ rw (absent, Cache.prepare_data_for_sending) h
    | inr (e, found) ↦ elim (Bool-cases (Entry.needs_data_copy_before_sending e)) [
      | inl needs ↦
          let small : IsWord e = All-find IsWord key c.beacons h.words found in
          rw (found, Cache.prepare_data_for_sending)
            (rw needs (
              replace-IsConsistent key c _ (Entry.copy_data_for_sending e) e h found
                (unfold Entry.copy_data_for_sending in omega arith) refl
                (unfold Entry.copy_data_for_sending sub64 in omega arith)))
      | inr idle ↦ rw (found, Cache.prepare_data_for_sending) (rw idle h)
    ]
  ]

  pub get_next_chunk-IsConsistent :
      (prefix : Utf8String) (max_size : ℕ) (delimiter : Utf8String)
      → IsConsistent c
      → IsConsistent (Cache.get_next_beacon_chunk key prefix max_size delimiter c).1
  unfolding Cache.get_next_beacon_chunk
  get_next_chunk-IsConsistent prefix max_size delimiter h =
      elim (Option-cases (find key c.beacons)) [
        | inl absent ↦ rw (absent, Cache.get_next_beacon_chunk) h
        | inr (e, found) ↦
            rw (found, Cache.get_next_beacon_chunk)
              (same_count-IsConsistent key c _
                (Entry.get_chunk prefix (sign_extend32 max_size) delimiter e).1 e h found
                (unfold Entry.get_chunk in ground arith) refl refl)
      ]

  pub remove_chunked-IsConsistent : IsConsistent c → IsConsistent (Cache.remove_chunked_data key c)
  unfolding Cache.remove_chunked_data
  remove_chunked-IsConsistent h = elim (Option-cases (find key c.beacons)) [
    | inl absent ↦ rw (absent, Cache.remove_chunked_data) h
    | inr (e, found) ↦
        rw (found, Cache.remove_chunked_data)
          (same_count-IsConsistent key c _ (Entry.remove_data_marked_for_sending e) e h found
            (unfold Entry.remove_data_marked_for_sending in ground arith) refl refl)
  ]

  pub reset_chunked-IsConsistent : IsConsistent c → IsConsistent (Cache.reset_chunked_data key c)
  unfolding Cache.reset_chunked_data
  reset_chunked-IsConsistent h = elim (Option-cases (find key c.beacons)) [
    | inl absent ↦ rw (absent, Cache.reset_chunked_data) h
    | inr (e, found) ↦
        let small : IsWord e = All-find IsWord key c.beacons h.words found in
        let word : IsWord (Entry.reset_data_marked_for_sending e) =
          unfold Entry.reset_data_marked_for_sending add64 in ground arith in
        rw (found, Cache.reset_chunked_data)
          (replace-IsConsistent key c _ (Entry.reset_data_marked_for_sending e) e h found word refl
            (unfold add64 sub64 in omega arith))
  ]

  pub evict_by_age-IsConsistent :
      (min_timestamp : ℕ)
      → IsConsistent c
      → IsConsistent (Cache.evict_records_by_age key min_timestamp c).0
  unfolding Cache.evict_records_by_age
  evict_by_age-IsConsistent min_timestamp h = elim (Option-cases (find key c.beacons)) [
    | inl absent ↦ rw (absent, Cache.evict_records_by_age) h
    | inr (e, found) ↦
        rw (found, Cache.evict_records_by_age)
          (same_count-IsConsistent key c _ (Entry.remove_records_older_than min_timestamp e).0 e h
            found (unfold Entry.remove_records_older_than in refl) refl refl)
  ]

  pub evict_by_number-IsConsistent :
      (num_records : ℕ)
      → IsConsistent c
      → IsConsistent (Cache.evict_records_by_number key num_records c).0
  unfolding Cache.evict_records_by_number
  evict_by_number-IsConsistent num_records h = elim (Option-cases (find key c.beacons)) [
    | inl absent ↦ rw (absent, Cache.evict_records_by_number) h
    | inr (e, found) ↦
        rw (found, Cache.evict_records_by_number)
          (same_count-IsConsistent key c _ (Entry.remove_oldest_records num_records e).0 e h found
            (unfold Entry.remove_oldest_records in refl) refl refl)
  ]
