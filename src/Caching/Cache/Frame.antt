-- ===== src/Caching/Cache/Frame.antt =====
-- core/caching/BeaconCache.cxx: an operation on one beacon leaves the others alone.
use openkit_native.Prelude.{All, List, [], arith, false, none, refl, some, ◌∙◌, ◌∷◌, ◌≡◌}
use openkit_native.Caching.Key.{BeaconKey, find, find-erase_ne, find-put_ne, key_eq}
use openkit_native.Caching.Cache.Run.{
  Operation, add_action, add_event, delete, evict_by_age, evict_by_number, next_chunk, observe,
  perform, prepare, remove_chunked, reset_chunked, run,
}
use openkit_native.Caching.Cache.{
  Cache, add_action_data, add_event_data, add_observer, delete_cache_entry, evict_records_by_age,
  evict_records_by_number, get_next_beacon_chunk, prepare_data_for_sending, remove_chunked_data,
  reset_chunked_data,
}
use openkit_native.Caching.Cache

-- An operation that does not act on the beacon with this key.
abbrev pub Spares : BeaconKey → Operation → Type 0
Spares j (observe o) = Unit
Spares j (add_event k t s) = key_eq k j ≡ false
Spares j (add_action k t s) = key_eq k j ≡ false
Spares j (delete k) = key_eq k j ≡ false
Spares j (prepare k) = key_eq k j ≡ false
Spares j (remove_chunked k) = key_eq k j ≡ false
Spares j (reset_chunked k) = key_eq k j ≡ false
Spares j (next_chunk k p m d) = key_eq k j ≡ false
Spares j (evict_by_age k t) = key_eq k j ≡ false
Spares j (evict_by_number k n) = key_eq k j ≡ false

module _ (j : BeaconKey) (c : Cache.Cache) where
  pub find-perform :
      (op : Operation) → Spares j op → find j (perform op c).beacons ≡ find j c.beacons
  unfolding perform Cache.add_observer Cache.add_event_data Cache.add_action_data
      Cache.delete_cache_entry Cache.prepare_data_for_sending Cache.remove_chunked_data
      Cache.reset_chunked_data Cache.get_next_beacon_chunk Cache.evict_records_by_age
      Cache.evict_records_by_number
  find-perform (observe none) s = refl
  find-perform (observe (some o)) s = refl
  find-perform (delete k) s = ground (arith, find-erase_ne k j c.beacons s)
  find-perform (add_event k t x) s = grind (arith, find-put_ne)
  find-perform (add_action k t x) s = grind (arith, find-put_ne)
  find-perform (prepare k) s = grind (arith, find-put_ne)
  find-perform (remove_chunked k) s = grind (arith, find-put_ne)
  find-perform (reset_chunked k) s = grind (arith, find-put_ne)
  find-perform (next_chunk k p m d) s = grind (arith, find-put_ne)
  find-perform (evict_by_age k t) s = grind (arith, find-put_ne)
  find-perform (evict_by_number k n) s = grind (arith, find-put_ne)

-- Operations that do not act on a beacon leave its entry as it is, or absent.
pub find-run :
    (j : BeaconKey) (ops : List Operation) (c : Cache.Cache)
    → All (Spares j) ops
    → find j (run ops c).beacons ≡ find j c.beacons
unfolding run
find-run j [] c s = refl
find-run j (op ∷ ops) c s = find-run j ops (perform op c) s.1 ∙ find-perform j c op s.0
