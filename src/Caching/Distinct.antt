-- ===== src/Caching/Distinct.antt =====
-- The map of core/caching/BeaconCache.cxx: no key is there twice, and so an erased key is gone.
use openkit_native.Prelude.{
  Bool-cases, List, Option-cases, [], arith, false, if-both, inl, inr, none, refl, some, ◌∙◌, ◌∷◌,
  ◌≡◌,
}
use openkit_native.Caching.Cache.{
  Cache, add_action_data, add_event_data, add_observer, cached_entry_or_insert, delete_cache_entry,
  evict_records_by_age, evict_records_by_number, get_next_beacon_chunk, prepare_data_for_sending,
  remove_chunked_data, reset_chunked_data,
}
use openkit_native.Caching.Key.{BeaconKey, erase, find, find-put_ne, key_eq, key_eq_iff, put}
use openkit_native.Caching.Cache.Run.{
  Operation, add_action, add_event, delete, evict_by_age, evict_by_number, next_chunk, observe,
  perform, prepare, remove_chunked, reset_chunked, run,
}
use openkit_native.Caching.Entry.{
  Entry, copy_data_for_sending, needs_data_copy_before_sending, new_entry,
}
use openkit_native.Caching.Cache
use openkit_native.Caching.Entry

unfoldable pub Distinct {ℓ} : {V : Type ℓ} → List (BeaconKey × V) → Type ℓ
Distinct [] = Unit
Distinct ((k, v) ∷ m) = (find k m ≡ none) × Distinct m

module _ {ℓ} {V : Type ℓ} where
  pub find-erase-none :
      (j k : BeaconKey) (m : List (BeaconKey × V)) → find j m ≡ none → find j (erase k m) ≡ none
  unfolding find erase
  find-erase-none j k [] h = refl
  find-erase-none j k ((i, v) ∷ m) h = ground (arith, find-erase-none j k m)

  pub find-erase_self :
      (k : BeaconKey) (m : List (BeaconKey × V)) → Distinct m → find k (erase k m) ≡ none
  unfolding find erase Distinct
  find-erase_self k [] d = refl
  find-erase_self k ((i, v) ∷ m) d = ground (arith, key_eq_iff i k, d.0, find-erase_self k m d.1)

  pub Distinct-erase :
      (k : BeaconKey) (m : List (BeaconKey × V)) → Distinct m → Distinct (erase k m)
  unfolding erase Distinct
  Distinct-erase k [] d = tt
  Distinct-erase k ((i, v) ∷ m) d =
      if-both Distinct (key_eq i k) (λ same. d.1)
        (λ other. (find-erase-none i k m d.0, Distinct-erase k m d.1))

-- `deleteCacheEntry`
module _ (k : BeaconKey) (c : Cache.Cache) where
  pub delete-Distinct : Distinct c.beacons → Distinct (Cache.delete_cache_entry k c).beacons
  unfolding Cache.delete_cache_entry
  delete-Distinct d = elim (Option-cases (find k c.beacons)) [
    | inl absent ↦ rw (absent, Cache.delete_cache_entry) d
    | inr (e, found) ↦ rw (found, Cache.delete_cache_entry) (Distinct-erase k c.beacons d)
  ]

  pub find-delete_self : Distinct c.beacons → find k (Cache.delete_cache_entry k c).beacons ≡ none
  unfolding Cache.delete_cache_entry
  find-delete_self d = elim (Option-cases (find k c.beacons)) [
    | inl absent ↦ rw (absent, Cache.delete_cache_entry, absent)
    | inr (e, found) ↦ rw (found, Cache.delete_cache_entry, find-erase_self k c.beacons d)
  ]

  pub find-delete_none :
      (j : BeaconKey)
      → find j c.beacons ≡ none
      → find j (Cache.delete_cache_entry k c).beacons ≡ none
  unfolding Cache.delete_cache_entry
  find-delete_none j h = elim (Option-cases (find k c.beacons)) [
    | inl absent ↦ rw (absent, Cache.delete_cache_entry, h)
    | inr (e, found) ↦ rw (found, Cache.delete_cache_entry, find-erase-none j k c.beacons h)
  ]

pub Distinct-put :
    {V : Type 0} (k : BeaconKey) (v : V) (m : List (BeaconKey × V))
    → Distinct m
    → Distinct (put k v m)
unfolding put find Distinct
Distinct-put k v [] d = (refl, tt)
Distinct-put k v ((i, w) ∷ m) d = elim (Bool-cases (key_eq i k)) [
  | inl same ↦ rw same d
  | inr other ↦
      let apart : key_eq k i ≡ false = ground (arith, key_eq_iff k i, key_eq_iff i k, other) in
      rw other (find-put_ne k i v m apart ∙ d.0, Distinct-put k v m d.1)
]

abbrev pub HasKeysOnce : Cache.Cache → Type 0
HasKeysOnce c = Distinct c.beacons

-- An operation that looks an entry up and stores another one in its place.
module _ (k : BeaconKey) (c : Cache.Cache) (d : HasKeysOnce c) where
  insert-Distinct : HasKeysOnce (Cache.cached_entry_or_insert k c).1
  unfolding Cache.cached_entry_or_insert
  insert-Distinct = elim (Option-cases (find k c.beacons)) [
    | inl absent ↦
        rw (absent, Cache.cached_entry_or_insert) (Distinct-put k Entry.new_entry c.beacons d)
    | inr (e, there) ↦ rw (there, Cache.cached_entry_or_insert) d
  ]

  prepare-Distinct : HasKeysOnce (Cache.prepare_data_for_sending k c)
  unfolding Cache.prepare_data_for_sending
  prepare-Distinct = elim (Option-cases (find k c.beacons)) [
    | inl absent ↦ rw (absent, Cache.prepare_data_for_sending) d
    | inr (e, there) ↦
        rw (there, Cache.prepare_data_for_sending)
          (if-both HasKeysOnce (Entry.needs_data_copy_before_sending e)
            (λ needs. Distinct-put k (Entry.copy_data_for_sending e) c.beacons d) (λ idle. d))
  ]

perform-Distinct : (op : Operation) (c : Cache.Cache) → HasKeysOnce c → HasKeysOnce (perform op c)
unfolding perform Cache.add_observer Cache.add_event_data Cache.add_action_data
    Cache.remove_chunked_data Cache.reset_chunked_data Cache.get_next_beacon_chunk
    Cache.evict_records_by_age Cache.evict_records_by_number
perform-Distinct (observe none) c d = d
perform-Distinct (observe (some o)) c d = d
perform-Distinct (add_event k t x) c d = Distinct-put k _ _ (insert-Distinct k c d)
perform-Distinct (add_action k t x) c d = Distinct-put k _ _ (insert-Distinct k c d)
perform-Distinct (delete k) c d = delete-Distinct k c d
perform-Distinct (prepare k) c d = prepare-Distinct k c d
perform-Distinct (remove_chunked k) c d = elim (Option-cases (find k c.beacons)) [
  | inl absent ↦ rw (absent, Cache.remove_chunked_data) d
  | inr (e, there) ↦ rw (there, Cache.remove_chunked_data) (Distinct-put k _ c.beacons d)
]
perform-Distinct (reset_chunked k) c d = elim (Option-cases (find k c.beacons)) [
  | inl absent ↦ rw (absent, Cache.reset_chunked_data) d
  | inr (e, there) ↦ rw (there, Cache.reset_chunked_data) (Distinct-put k _ c.beacons d)
]
perform-Distinct (next_chunk k p m x) c d = elim (Option-cases (find k c.beacons)) [
  | inl absent ↦ rw (absent, perform, Cache.get_next_beacon_chunk) d
  | inr (e, there) ↦ rw (there, perform, Cache.get_next_beacon_chunk) (Distinct-put k _ c.beacons d)
]
perform-Distinct (evict_by_age k t) c d = elim (Option-cases (find k c.beacons)) [
  | inl absent ↦ rw (absent, perform, Cache.evict_records_by_age) d
  | inr (e, there) ↦ rw (there, perform, Cache.evict_records_by_age) (Distinct-put k _ c.beacons d)
]
perform-Distinct (evict_by_number k n) c d = elim (Option-cases (find k c.beacons)) [
  | inl absent ↦ rw (absent, perform, Cache.evict_records_by_number) d
  | inr (e, there) ↦
      rw (there, perform, Cache.evict_records_by_number) (Distinct-put k _ c.beacons d)
]

-- Every sequence of operations keeps the keys of the cache apart.
pub run-Distinct :
    (ops : List Operation) (c : Cache.Cache) → HasKeysOnce c → HasKeysOnce (run ops c)
unfolding run
run-Distinct [] c d = d
run-Distinct (op ∷ ops) c d = run-Distinct ops (perform op c) (perform-Distinct op c d)
