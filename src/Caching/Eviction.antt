-- ===== src/Caching/Eviction.antt =====
-- core/caching/SpaceEvictionStrategy.cxx and TimeEvictionStrategy.cxx: the two ways in which the
-- evictor's thread shrinks the cache. What other threads decide is a parameter: `stop n` is the n-th
-- answer of `mIsStopRequested`, and `now n` the n-th reading of the clock. Other threads go on using
-- the cache while the space strategy runs: `others n` is what they make of it before its n-th call
-- of the cache.
pub mod Space
pub mod Time
use openkit_native.Prelude.{
  ◌*◌, Bool, List, Option, [], false, if◌then◌else◌, is_empty, none, not, slt64, some, sub64, suc,
  zero, ℕ, ◌+◌, ◌-◌, ◌^◌, ◌||◌, ◌∷◌,
}
use openkit_native.Caching.Key.{BeaconKey}
use openkit_native.Caching.Cache.{
  Cache, evict_records_by_age, evict_records_by_number, get_beacon_keys, get_num_bytes_in_cache,
}
use openkit_native.Caching.Cache

-- The bounds of core/configuration/BeaconCacheConfiguration.cxx, all of type `int64_t`.
pub record BeaconCacheConfiguration : Type 0 where
  pub max_record_age : ℕ
  pub cache_size_lower_bound : ℕ
  pub cache_size_upper_bound : ℕ

unfoldable pub space_is_disabled : BeaconCacheConfiguration → Bool
space_is_disabled cfg =
    not (slt64 0 cfg.cache_size_lower_bound)
    || (not (slt64 0 cfg.cache_size_upper_bound)
        || slt64 cfg.cache_size_upper_bound cfg.cache_size_lower_bound)

unfoldable pub space_should_run : BeaconCacheConfiguration → Cache.Cache → Bool
space_should_run cfg c = slt64 cfg.cache_size_upper_bound (Cache.get_num_bytes_in_cache c)

-- The inner loop, over the keys that the cache had: one record of each beacon goes. The number
-- counts the rounds, each with one call of `mIsStopRequested` and at most two calls of the cache: the
-- one for its size and the one that evicts.
unfoldable pub evict_each :
    (ℕ → Bool)
    → (ℕ → Cache.Cache → Cache.Cache)
    → BeaconCacheConfiguration
    → ℕ
    → List BeaconKey
    → Cache.Cache
    → ℕ × Cache.Cache
evict_each stop others cfg n [] c = (n + 1, c)
evict_each stop others cfg n (k ∷ ks) c =
    let asked = others (2 * n) c in
    let evicted = (Cache.evict_records_by_number k 1 (others (2 * n + 1) asked)).0 in
    let rest = evict_each stop others cfg (n + 1) ks evicted in
    if stop n
    then (n + 1, c)
    else if slt64 cfg.cache_size_lower_bound (Cache.get_num_bytes_in_cache asked)
    then rest
    else (n + 1, asked)

-- The outer loop, on fuel; `none` means that the fuel ran out. Its rounds ask for the size and for the
-- keys.
unfoldable pub space_do_execute :
    (ℕ → Bool)
    → (ℕ → Cache.Cache → Cache.Cache)
    → BeaconCacheConfiguration
    → ℕ
    → ℕ
    → Cache.Cache
    → Option (ℕ × Cache.Cache)
space_do_execute stop others cfg zero n c = none
space_do_execute stop others cfg (suc fuel) n c =
    let asked = others (2 * n) c in
    let keyed = others (2 * n + 1) asked in
    let round = evict_each stop others cfg (n + 1) (Cache.get_beacon_keys keyed) keyed in
    let rest = space_do_execute stop others cfg fuel round.0 round.1 in
    if stop n
    then some (n + 1, c)
    else if slt64 cfg.cache_size_lower_bound (Cache.get_num_bytes_in_cache asked)
    then rest
    else some (n + 1, asked)

-- `mInfoShown` goes with the cache: a disabled strategy says so once.
unfoldable pub space_execute :
    (ℕ → Bool)
    → (ℕ → Cache.Cache → Cache.Cache)
    → Bool
    → BeaconCacheConfiguration
    → ℕ
    → Bool × Cache.Cache
    → Option (Bool × Cache.Cache)
space_execute stop others info_enabled cfg fuel (info_shown, c) =
    if space_is_disabled cfg
    then some (info_shown || info_enabled, c)
    else if space_should_run cfg c
    then elim (space_do_execute stop others cfg fuel 0 c) [
      | none ↦ none
      | some (n, c') ↦ some (info_shown, c')
    ]
    else some (info_shown, c)

-- What a run of the time strategy reads and writes. `readings` counts the readings of the clock.
pub record TimeStrategy : Type 0 where
  pub last_run_timestamp : ℕ
  pub info_shown : Bool
  pub readings : ℕ

-- `mLastRunTimestamp` begins at -1.
abbrev pub new_time_strategy : TimeStrategy
new_time_strategy = record { last_run_timestamp = 2 ^ 64 - 1; info_shown = false; readings = 0 }

unfoldable pub time_is_disabled : BeaconCacheConfiguration → Bool
time_is_disabled cfg = not (slt64 0 cfg.max_record_age)

unfoldable pub evict_by_age_each : (ℕ → Bool) → ℕ → ℕ → List BeaconKey → Cache.Cache → Cache.Cache
evict_by_age_each stop bound n [] c = c
evict_by_age_each stop bound n (k ∷ ks) c =
    let rest = evict_by_age_each stop bound (n + 1) ks (Cache.evict_records_by_age k bound c).0 in
    if stop n then c else rest

unfoldable pub time_do_execute :
    (ℕ → Bool)
    → (ℕ → ℕ)
    → BeaconCacheConfiguration
    → TimeStrategy
    → Cache.Cache
    → TimeStrategy × Cache.Cache
time_do_execute stop now cfg s c =
    let current = now s.readings in
    let ran = record s { last_run_timestamp = current; readings = s.readings + 1 } in
    if is_empty (Cache.get_beacon_keys c) then (ran, c) else (
      ran,
      evict_by_age_each stop (sub64 current cfg.max_record_age) 0 (Cache.get_beacon_keys c) c,
    )

-- The first execution only notes the time.
unfoldable pub start_time : (ℕ → ℕ) → TimeStrategy → TimeStrategy
start_time now s =
    if slt64 s.last_run_timestamp 0
    then record s { last_run_timestamp = now s.readings; readings = s.readings + 1 }
    else s

-- `shouldRun` reads the clock too.
unfoldable pub time_execute :
    (ℕ → Bool)
    → (ℕ → ℕ)
    → Bool
    → BeaconCacheConfiguration
    → TimeStrategy
    → Cache.Cache
    → TimeStrategy × Cache.Cache
unfolding start_time
time_execute stop now info_enabled cfg s c =
    let started = start_time now s in
    let asked = record started { readings = started.readings + 1 } in
    let elapsed = sub64 (now started.readings) started.last_run_timestamp in
    if time_is_disabled cfg
    then (record s { info_shown = s.info_shown || info_enabled }, c)
    else if not (slt64 elapsed cfg.max_record_age)
    then time_do_execute stop now cfg asked c
    else (asked, c)
