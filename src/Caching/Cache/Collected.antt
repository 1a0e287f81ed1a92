-- ===== src/Caching/Cache/Collected.antt =====
-- core/caching/BeaconCache.cxx: the bytes that are collected and not being sent, which
-- `mCacheSizeInBytes` is meant to count.
use openkit_native.Prelude.{
  All, Bool-cases, List, Option-cases, [], arith, inl, inr, none, refl, sign_extend32, some, ℕ, ◌%◌,
  ◌+◌, ◌^◌, ◌∙◌, ◌∷◌, ◌≡◌,
}
use openkit_native.Caching.Key.{All-erase, All-find, All-put, BeaconKey, find, put, sum_of}
use openkit_native.Caching.Entry.Bytes.{
  IsCounted, add_action_data-IsCounted, add_event_data-IsCounted, copy_data_for_sending-IsCounted,
  get_chunk-IsCounted, remove_marked-IsCounted, reset-IsCounted, total_size,
}
use openkit_native.Caching.Cache.Size.{IsConsistent-new, total_of}
use openkit_native.Caching.Cache.Run.{
  Operation, add_action, add_event, delete, evict_by_age, evict_by_number, next_chunk, observe,
  perform, prepare, remove_chunked, reset_chunked, run, run-IsConsistent,
}
use openkit_native.Caching.Cache.{
  Cache, add_action_data, add_event_data, add_observer, cached_entry_or_insert, delete_cache_entry,
  get_next_beacon_chunk, get_num_bytes_in_cache, new_cache, prepare_data_for_sending,
  remove_chunked_data, reset_chunked_data,
}
use openkit_native.Caching.Entry.{Entry, needs_data_copy_before_sending, new_entry}
use openkit_native.Caching.Record.{new_record}
use openkit_native.Caching.Entry
use openkit_native.Caching.Cache

abbrev pub collected_of : Entry.Entry → ℕ
collected_of e = total_size e.event_data + total_size e.action_data

pub collected_bytes : Cache.Cache → ℕ
collected_bytes c = sum_of collected_of c.beacons

-- Every operation but the two that evict.
abbrev pub Collects : Operation → Type 0
Collects (evict_by_age key t) = ⊥
Collects (evict_by_number key n) = ⊥
Collects op = Unit

abbrev pub AllCounted : Cache.Cache → Type 0
AllCounted c = All (λ p. IsCounted p.1) c.beacons

module _ (key : BeaconKey) (c : Cache.Cache) (h : AllCounted c) where
  stores : (e : Entry.Entry) → IsCounted e → All (λ p. IsCounted p.1) (put key e c.beacons)
  stores e counted = All-put IsCounted key e c.beacons counted h

  holds : {e : Entry.Entry} → find key c.beacons ≡ some e → IsCounted e
  holds found = All-find IsCounted key c.beacons h found

  or_insert-IsCounted :
      let got = Cache.cached_entry_or_insert key c in AllCounted got.1 × IsCounted got.0
  unfolding Cache.cached_entry_or_insert
  or_insert-IsCounted = elim (Option-cases (find key c.beacons)) [
    | inl absent ↦
        rw (absent, Cache.cached_entry_or_insert)
          (
            stores Entry.new_entry (unfold total_size in omega arith),
            unfold total_size in omega arith,
          )
    | inr (e, found) ↦ rw (found, Cache.cached_entry_or_insert) (h, holds found)
  ]

perform-counted :
    (op : Operation) (c : Cache.Cache) → Collects op → AllCounted c → AllCounted (perform op c)
unfolding perform Cache.add_observer Cache.add_event_data Cache.add_action_data
    Cache.delete_cache_entry Cache.prepare_data_for_sending Cache.remove_chunked_data
    Cache.reset_chunked_data Cache.get_next_beacon_chunk
perform-counted (observe none) c _ h = h
perform-counted (observe (some o)) c _ h = h
perform-counted (add_event k t x) c _ h =
    let (kept, counted) = or_insert-IsCounted k c h in
    let (e, c') = Cache.cached_entry_or_insert k c in
    stores k c' kept _ (add_event_data-IsCounted (new_record t x) e counted)
perform-counted (add_action k t x) c _ h =
    let (kept, counted) = or_insert-IsCounted k c h in
    let (e, c') = Cache.cached_entry_or_insert k c in
    stores k c' kept _ (add_action_data-IsCounted (new_record t x) e counted)
perform-counted (delete k) c _ h = elim (Option-cases (find k c.beacons)) [
  | inl absent ↦ rw (absent, Cache.delete_cache_entry) h
  | inr (e, found) ↦ rw (found, Cache.delete_cache_entry) (All-erase IsCounted k c.beacons h)
]
perform-counted (prepare k) c _ h = elim (Option-cases (find k c.beacons)) [
  | inl absent ↦ rw (absent, Cache.prepare_data_for_sending) h
  | inr (e, found) ↦ elim (Bool-cases (Entry.needs_data_copy_before_sending e)) [
    | inl needs ↦
        rw (found, Cache.prepare_data_for_sending)
          (rw needs (stores k c h _ (copy_data_for_sending-IsCounted e)))
    | inr idle ↦ rw (found, Cache.prepare_data_for_sending) (rw idle h)
  ]
]
perform-counted (remove_chunked k) c _ h = elim (Option-cases (find k c.beacons)) [
  | inl absent ↦ rw (absent, Cache.remove_chunked_data) h
  | inr (e, found) ↦
      rw (found, Cache.remove_chunked_data)
        (stores k c h _ (remove_marked-IsCounted e (holds k c h found)))
]
perform-counted (reset_chunked k) c _ h = elim (Option-cases (find k c.beacons)) [
  | inl absent ↦ rw (absent, Cache.reset_chunked_data) h
  | inr (e, found) ↦
      rw (found, Cache.reset_chunked_data) (stores k c h _ (reset-IsCounted e (holds k c h found)))
]
perform-counted (next_chunk k p m d) c _ h = elim (Option-cases (find k c.beacons)) [
  | inl absent ↦ rw (absent, perform, Cache.get_next_beacon_chunk) h
  | inr (e, found) ↦
      rw (found, perform, Cache.get_next_beacon_chunk)
        (stores k c h _ (get_chunk-IsCounted p (sign_extend32 m) d e (holds k c h found)))
]
perform-counted (evict_by_age k t) c never h = absurd never
perform-counted (evict_by_number k n) c never h = absurd never

pub run-counted :
    (ops : List Operation) (c : Cache.Cache)
    → All Collects ops
    → AllCounted c
    → AllCounted (run ops c)
unfolding run
run-counted [] c _ h = h
run-counted (op ∷ ops) c o h = run-counted ops (perform op c) o.1 (perform-counted op c o.0 h)

sum_of-counted :
    (m : List (BeaconKey × Entry.Entry))
    → All (λ p. IsCounted p.1) m
    → sum_of total_of m % 2 ^ 64 ≡ sum_of collected_of m % 2 ^ 64
sum_of-counted [] h = refl
sum_of-counted ((k, e) ∷ m) h = omega (arith, sum_of-counted m h.1)

-- As long as nothing is evicted, a cache that began empty reports, modulo 2 ^ 64, the bytes of
-- exactly those records that are collected and not being sent.
pub num_bytes-run :
    (ops : List Operation)
    → All Collects ops
    → let c = run ops Cache.new_cache in Cache.get_num_bytes_in_cache c ≡ collected_bytes c % 2 ^ 64
unfolding Cache.get_num_bytes_in_cache collected_bytes
num_bytes-run ops o =
    let c = run ops Cache.new_cache in
    (run-IsConsistent ops Cache.new_cache IsConsistent-new).sized
    ∙ sum_of-counted c.beacons (run-counted ops Cache.new_cache o tt)
