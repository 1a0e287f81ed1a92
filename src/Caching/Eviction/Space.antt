-- ===== src/Caching/Eviction/Space.antt =====
-- core/caching/SpaceEvictionStrategy.cxx: evicting records does not change the size that the cache
-- reports, and so the loop ends by a stop only.
use openkit_native.Prelude.{
  ◌*◌, Bool, List, [], arith, false, none, refl, slt64, suc, true, zero, ℕ, ◌+◌, ◌∷◌, ◌≡◌,
}
use openkit_native.Caching.Key.{BeaconKey}
use openkit_native.Caching.Eviction.{
  BeaconCacheConfiguration, evict_each, space_do_execute, space_execute, space_is_disabled,
  space_should_run,
}
use openkit_native.Caching.Cache.{
  Cache, evict_records_by_number, get_beacon_keys, get_num_bytes_in_cache,
}
use openkit_native.Caching.Cache

num_bytes-evict :
    (k : BeaconKey) (n : ℕ) (c : Cache.Cache)
    → Cache.get_num_bytes_in_cache (Cache.evict_records_by_number k n c).0
      ≡ Cache.get_num_bytes_in_cache c
unfolding Cache.get_num_bytes_in_cache Cache.evict_records_by_number
num_bytes-evict k n c = ground arith

module _ (stop : ℕ → Bool) (others : ℕ → Cache.Cache → Cache.Cache)
    (cfg : BeaconCacheConfiguration) where
  -- The cache is larger than the lower bound.
  abbrev pub IsAbove : Cache.Cache → Type 0
  IsAbove c = slt64 cfg.cache_size_lower_bound (Cache.get_num_bytes_in_cache c) ≡ true

  -- No other thread brings the cache down to the lower bound.
  abbrev pub StaysAbove : Type 0
  StaysAbove = (n : ℕ) (c : Cache.Cache) → IsAbove c → IsAbove (others n c)

  module _ (never : (n : ℕ) → stop n ≡ false) (stays : StaysAbove) where
    evict_each-IsAbove :
        (n : ℕ) (ks : List BeaconKey) (c : Cache.Cache)
        → IsAbove c
        → IsAbove (evict_each stop others cfg n ks c).1
    unfolding evict_each
    evict_each-IsAbove n [] c above = above
    evict_each-IsAbove n (k ∷ ks) c above =
        let asked : Cache.Cache = others (2 * n) c in
        let met : Cache.Cache = others (2 * n + 1) asked in
        let still : IsAbove asked = stays (2 * n) c above in
        rw (never n, still)
          (evict_each-IsAbove (n + 1) ks (Cache.evict_records_by_number k 1 met).0
            (rw (num_bytes-evict k 1 met) (stays (2 * n + 1) asked still)))

    do_execute-none :
        (fuel n : ℕ) (c : Cache.Cache)
        → IsAbove c
        → space_do_execute stop others cfg fuel n c ≡ none
    unfolding space_do_execute
    do_execute-none zero n c above = refl
    do_execute-none (suc fuel) n c above =
        let still : IsAbove (others (2 * n) c) = stays (2 * n) c above in
        let keyed : Cache.Cache = others (2 * n + 1) (others (2 * n) c) in
        let round = evict_each stop others cfg (n + 1) (Cache.get_beacon_keys keyed) keyed in
        rw (never n, still)
          (do_execute-none fuel round.0 round.1 (
            evict_each-IsAbove (n + 1) (Cache.get_beacon_keys keyed) keyed
              (stays (2 * n + 1) (others (2 * n) c) still)))

  IsAbove-lower :
      (c : Cache.Cache) → space_is_disabled cfg ≡ false → space_should_run cfg c ≡ true → IsAbove c
  unfolding space_is_disabled space_should_run slt64
  IsAbove-lower c enabled above = ground arith

  -- As long as no stop is requested and no other thread brings the size of the cache down to the lower
  -- bound, an execution of a strategy that is not disabled, begun with a cache above the upper bound,
  -- does not end, whatever the fuel: the records that it evicts go, but the size that is compared with
  -- the lower bound stays.
  pub space_execute-none :
      (info_enabled info_shown : Bool) (fuel : ℕ) (c : Cache.Cache)
      → ((n : ℕ) → stop n ≡ false)
      → StaysAbove
      → space_is_disabled cfg ≡ false
      → space_should_run cfg c ≡ true
      → space_execute stop others info_enabled cfg fuel (info_shown, c) ≡ none
  unfolding space_execute
  space_execute-none info_enabled info_shown fuel c never stays enabled above =
      rw (enabled, above, do_execute-none never stays fuel 0 c (IsAbove-lower c enabled above))
