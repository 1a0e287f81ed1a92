-- ===== src/Caching/Cache/Run.antt =====
-- core/caching/BeaconCache.cxx: any sequence of the cache's operations, by whichever threads.
use openkit_native.Prelude.{List, Option, [], none, some, ℕ, ◌∷◌}
use openkit_native.Text.{Utf8String}
use openkit_native.Caching.Key.{BeaconKey}
use openkit_native.Caching.Cache.Size.{IsConsistent}
use openkit_native.Caching.Cache.Consistency.{
  add_action_data-IsConsistent, add_event_data-IsConsistent, delete-IsConsistent,
  evict_by_age-IsConsistent, evict_by_number-IsConsistent, get_next_chunk-IsConsistent,
  prepare-IsConsistent, remove_chunked-IsConsistent, reset_chunked-IsConsistent,
}
use openkit_native.Caching.Cache.{
  Cache, add_observer, delete_cache_entry, evict_records_by_age, evict_records_by_number,
  get_next_beacon_chunk, prepare_data_for_sending, remove_chunked_data, reset_chunked_data,
}
use openkit_native.Caching.Cache

pub data Operation : Type 0 where
  observe : Option ℕ → Operation
  add_event add_action : BeaconKey → ℕ → Utf8String → Operation
  delete prepare remove_chunked reset_chunked : BeaconKey → Operation
  next_chunk : BeaconKey → Utf8String → ℕ → Utf8String → Operation
  evict_by_age evict_by_number : BeaconKey → ℕ → Operation

unfoldable pub perform : Operation → Cache.Cache → Cache.Cache
perform (observe o) c = Cache.add_observer o c
perform (add_event key timestamp text) c = Cache.add_event_data key timestamp text c
perform (add_action key timestamp text) c = Cache.add_action_data key timestamp text c
perform (delete key) c = Cache.delete_cache_entry key c
perform (prepare key) c = Cache.prepare_data_for_sending key c
perform (remove_chunked key) c = Cache.remove_chunked_data key c
perform (reset_chunked key) c = Cache.reset_chunked_data key c
perform (next_chunk key prefix max_size delimiter) c =
    (Cache.get_next_beacon_chunk key prefix max_size delimiter c).1
perform (evict_by_age key min_timestamp) c = (Cache.evict_records_by_age key min_timestamp c).0
perform (evict_by_number key num_records) c = (Cache.evict_records_by_number key num_records c).0

unfoldable pub run : List Operation → Cache.Cache → Cache.Cache
run [] c = c
run (op ∷ ops) c = run ops (perform op c)

perform-IsConsistent :
    (op : Operation) (c : Cache.Cache) → IsConsistent c → IsConsistent (perform op c)
unfolding perform Cache.add_observer
perform-IsConsistent (observe none) c h = h
perform-IsConsistent (observe (some o)) c h = record { sized = h.sized; words = h.words }
perform-IsConsistent (add_event key t s) c h = add_event_data-IsConsistent key c t s h
perform-IsConsistent (add_action key t s) c h = add_action_data-IsConsistent key c t s h
perform-IsConsistent (delete key) c h = delete-IsConsistent key c h
perform-IsConsistent (prepare key) c h = prepare-IsConsistent key c h
perform-IsConsistent (remove_chunked key) c h = remove_chunked-IsConsistent key c h
perform-IsConsistent (reset_chunked key) c h = reset_chunked-IsConsistent key c h
perform-IsConsistent (next_chunk key p m d) c h = get_next_chunk-IsConsistent key c p m d h
perform-IsConsistent (evict_by_age key t) c h = evict_by_age-IsConsistent key c t h
perform-IsConsistent (evict_by_number key n) c h = evict_by_number-IsConsistent key c n h

-- From a consistent cache, and so from the empty one, every sequence of operations of the cache
-- leaves its size, modulo 2 ^ 64, the sum of the byte counts that its entries keep.
pub run-IsConsistent :
    (ops : List Operation) (c : Cache.Cache) → IsConsistent c → IsConsistent (run ops c)
unfolding run
run-IsConsistent [] c h = h
run-IsConsistent (op ∷ ops) c h = run-IsConsistent ops (perform op c) (perform-IsConsistent op c h)
