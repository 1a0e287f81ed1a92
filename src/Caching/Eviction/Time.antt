-- ===== src/Caching/Eviction/Time.antt =====
-- core/caching/TimeEvictionStrategy.cxx: what a run leaves.
use openkit_native.Prelude.{
  Bool, Bool-cases, List, Option, Option-cases, [], arith, false, if◌then◌else◌, inl, inr, is_empty,
  map, none, not, refl, slt64, some, sub64, sym, true, ℕ, ◌+◌, ◌||◌, ◌∷◌, ◌≡◌,
}
use openkit_native.Caching.Key.{BeaconKey, find, find-put, key_eq, key_eq_iff}
use openkit_native.Caching.Entry.Eviction.{erase_older-keep, keep_recent}
use openkit_native.Caching.Cache.{Cache, evict_records_by_age, get_beacon_keys}
use openkit_native.Caching.Entry.{Entry, remove_records_older_than}
use openkit_native.Caching.Record.{Record}
use openkit_native.Caching.Eviction.{
  BeaconCacheConfiguration, TimeStrategy, evict_by_age_each, start_time, time_do_execute,
  time_execute, time_is_disabled,
}
use openkit_native.Caching.Entry
use openkit_native.Caching.Cache

keep_recent_idem :
    (bound : ℕ) (rs : List Record) → keep_recent bound (keep_recent bound rs) ≡ keep_recent bound rs
unfolding keep_recent
keep_recent_idem bound [] = refl
keep_recent_idem bound (r ∷ rs) = ground (arith, keep_recent_idem bound rs)

-- An entry without the collected records that are older than a bound.
abbrev pub recent : ℕ → Entry.Entry → Entry.Entry
recent bound e = record e {
  event_data = keep_recent bound e.event_data;
  action_data = keep_recent bound e.action_data;
}

abbrev pub recent_of : ℕ → Option Entry.Entry → Option Entry.Entry
recent_of bound none = none
recent_of bound (some e) = some (recent bound e)

recent_idem :
    (bound : ℕ) (o : Option Entry.Entry) → recent_of bound (recent_of bound o) ≡ recent_of bound o
recent_idem bound none = refl
recent_idem bound (some e) =
    rw (keep_recent_idem bound e.event_data, keep_recent_idem bound e.action_data)

unfoldable key_mem : BeaconKey → List BeaconKey → Bool
key_mem k [] = false
key_mem k (j ∷ js) = key_eq j k || key_mem k js

evicted-recent :
    (bound : ℕ) (e : Entry.Entry) → (Entry.remove_records_older_than bound e).0 ≡ recent bound e
unfolding Entry.remove_records_older_than
evicted-recent bound e =
    rw (erase_older-keep bound e.event_data, erase_older-keep bound e.action_data)

find-evict :
    (k j : BeaconKey) (bound : ℕ) (c : Cache.Cache)
    → find j (Cache.evict_records_by_age k bound c).0.beacons
      ≡ (if key_eq k j then recent_of bound (find j c.beacons) else find j c.beacons)
unfolding Cache.evict_records_by_age
find-evict k j bound c = elim (Bool-cases (key_eq k j)) [
  | inl same ↦
      let e : k ≡ j = (key_eq_iff k j).0 same in
      elim (Option-cases (find k c.beacons)) [
        | inl absent ↦ rw (same, absent, Cache.evict_records_by_age, sym e, absent)
        | inr (e', found) ↦
            rw (
              same,
              found,
              Cache.evict_records_by_age,
              find-put,
              same,
              sym e,
              found,
              evicted-recent,
            )
      ]
  | inr other ↦ elim (Option-cases (find k c.beacons)) [
    | inl absent ↦ rw (other, absent, Cache.evict_records_by_age)
    | inr (e', found) ↦ rw (other, found, Cache.evict_records_by_age, find-put, other)
  ]
]

find-evict_each :
    (bound n : ℕ) (j : BeaconKey) (ks : List BeaconKey) (c : Cache.Cache)
    → find j (evict_by_age_each (λ i. false) bound n ks c).beacons
      ≡ (if key_mem j ks then recent_of bound (find j c.beacons) else find j c.beacons)
unfolding evict_by_age_each key_mem
find-evict_each bound n j [] c = refl
find-evict_each bound n j (k ∷ ks) c = ground (
  arith,
  find-evict_each bound (n + 1) j ks (Cache.evict_records_by_age k bound c).0,
  find-evict k j bound c,
  recent_idem bound (find j c.beacons),
)

key_mem-keys :
    {V : Type 0} (j : BeaconKey) (m : List (BeaconKey × V))
    → key_mem j (map (λ p. p.0) m) ≡ false
    → find j m ≡ none
unfolding key_mem find
key_mem-keys j [] h = refl
key_mem-keys j ((k, v) ∷ m) h = ground (arith, key_mem-keys j m)

-- Evicting by age for the keys of the cache, when nothing stops it, reaches every entry.
find-evict_all :
    (bound : ℕ) (j : BeaconKey) (c : Cache.Cache)
    → find j (evict_by_age_each (λ i. false) bound 0 (Cache.get_beacon_keys c) c).beacons
      ≡ recent_of bound (find j c.beacons)
unfolding Cache.get_beacon_keys
find-evict_all bound j c = elim (Bool-cases (key_mem j (map (λ p. p.0) c.beacons))) [
  | inl there ↦ rw (find-evict_each bound 0 j (map (λ p. p.0) c.beacons) c, there)
  | inr absent ↦ rw (
    find-evict_each bound 0 j (map (λ p. p.0) c.beacons) c,
    absent,
    key_mem-keys j c.beacons absent,
  )
]

empty-find :
    {V : Type 0} (j : BeaconKey) (m : List (BeaconKey × V))
    → is_empty (map (λ p. p.0) m) ≡ true
    → find j m ≡ none
unfolding find
empty-find j [] h = refl
empty-find j (x ∷ m) h = ground arith

find-time_do_execute :
    (now : ℕ → ℕ) (cfg : BeaconCacheConfiguration) (s : TimeStrategy) (j : BeaconKey)
    (c : Cache.Cache)
    → let (s', c') = time_do_execute (λ i. false) now cfg s c in
      (find j c'.beacons ≡ recent_of (sub64 (now s.readings) cfg.max_record_age) (find j c.beacons))
      × (s'.last_run_timestamp ≡ now s.readings)
unfolding time_do_execute Cache.get_beacon_keys
find-time_do_execute now cfg s j c = elim (Bool-cases (is_empty (Cache.get_beacon_keys c))) [
  | inl none_there ↦ rw (none_there, empty-find j c.beacons none_there) (refl, refl)
  | inr some_there ↦
      rw some_there (find-evict_all (sub64 (now s.readings) cfg.max_record_age) j c, refl)
]

-- Once the time strategy has run before, is not disabled, and its next reading of the clock is at least
-- the maximum age after its last run, an execution that nothing stops leaves of every entry exactly
-- the records that are not older than the maximum age before the reading that follows (an entry
-- that was not there is still not there), and notes that reading as its last run. If less time
-- has passed, it leaves the entries and the noted time as they were.
pub find-time_execute :
    (now : ℕ → ℕ) (info : Bool) (cfg : BeaconCacheConfiguration) (s : TimeStrategy) (j : BeaconKey)
    (c : Cache.Cache)
    → slt64 s.last_run_timestamp 0 ≡ false
    → time_is_disabled cfg ≡ false
    → let (s', c') = time_execute (λ i. false) now info cfg s c in
      let current = now (s.readings + 1) in
      let due = not (slt64 (sub64 (now s.readings) s.last_run_timestamp) cfg.max_record_age) in
      (find j c'.beacons ≡ (
        if due
        then recent_of (sub64 current cfg.max_record_age) (find j c.beacons)
        else find j c.beacons))
      × (s'.last_run_timestamp ≡ (if due then current else s.last_run_timestamp))
unfolding time_execute start_time
find-time_execute now info cfg s j c ran on =
    elim (Bool-cases (slt64 (sub64 (now s.readings) s.last_run_timestamp) cfg.max_record_age)) [
      | inl early ↦ rw (ran, on, early) (refl, refl)
      | inr due ↦
          rw (ran, on, due)
            (find-time_do_execute now cfg (record s { readings = s.readings + 1 }) j c)
    ]
