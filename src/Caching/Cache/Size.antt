-- ===== src/Caching/Cache/Size.antt =====
-- core/caching/BeaconCache.cxx: what `mCacheSizeInBytes` counts.
use openkit_native.Prelude.{All, add64, arith, none, some, ℕ, ◌%◌, ◌+◌, ◌-◌, ◌<◌, ◌^◌, ◌≡◌}
use openkit_native.Caching.Key.{
  All-find, All-put, BeaconKey, find, put, sum_of, sum_of-put_found, sum_of-put_new,
}
use openkit_native.Caching.Cache.{Cache, new_cache}
use openkit_native.Caching.Entry.{Entry}
use openkit_native.Caching.Entry
use openkit_native.Caching.Cache

abbrev pub total_of : Entry.Entry → ℕ
total_of e = e.total_num_bytes

abbrev pub IsWord : Entry.Entry → Type 0
IsWord e = e.total_num_bytes < 2 ^ 64

-- The size of the cache is the sum of the counts of its entries.
pub record IsConsistent (c : Cache.Cache) : Type 0 where
  pub sized : c.cache_size_in_bytes ≡ sum_of total_of c.beacons % 2 ^ 64
  pub words : All (λ p. IsWord p.1) c.beacons

pub IsConsistent-new : IsConsistent Cache.new_cache
IsConsistent-new = record { sized = omega arith; words = tt }

module _ (key : BeaconKey) (c d : Cache.Cache) (e' : Entry.Entry) where
  -- An entry that is there is replaced, and the size follows the change of its count.
  pub replace-IsConsistent :
      (e : Entry.Entry)
      → IsConsistent c
      → find key c.beacons ≡ some e
      → IsWord e'
      → d.beacons ≡ put key e' c.beacons
      → d.cache_size_in_bytes
        ≡ (c.cache_size_in_bytes + e'.total_num_bytes + 2 ^ 64 - e.total_num_bytes) % 2 ^ 64
      → IsConsistent d
  replace-IsConsistent e h found word stored changed =
      let small : IsWord e = All-find IsWord key c.beacons h.words found in
      record {
        sized =
            rw stored (omega (arith, h.sized, sum_of-put_found total_of key e' e c.beacons found));
        words = rw stored (All-put IsWord key e' c.beacons word h.words);
      }

  -- Where the count is the old one, so is the size.
  pub same_count-IsConsistent :
      (e : Entry.Entry)
      → IsConsistent c
      → find key c.beacons ≡ some e
      → e'.total_num_bytes ≡ e.total_num_bytes
      → d.beacons ≡ put key e' c.beacons
      → d.cache_size_in_bytes ≡ c.cache_size_in_bytes
      → IsConsistent d
  same_count-IsConsistent e h found same stored kept =
      let small : IsWord e = All-find IsWord key c.beacons h.words found in
      replace-IsConsistent e h found (omega arith) stored (omega (arith, h.sized))

  -- A count that grows by some bytes lets the size grow by them.
  pub grow-IsConsistent :
      (e : Entry.Entry) (n : ℕ)
      → IsConsistent c
      → find key c.beacons ≡ some e
      → e'.total_num_bytes ≡ add64 e.total_num_bytes n
      → d.beacons ≡ put key e' c.beacons
      → d.cache_size_in_bytes ≡ add64 c.cache_size_in_bytes n
      → IsConsistent d
  unfolding add64
  grow-IsConsistent e n h found grown stored size =
      let small : IsWord e = All-find IsWord key c.beacons h.words found in
      replace-IsConsistent e h found (omega arith) stored (omega (arith, h.sized))

  -- A new entry that counts nothing leaves the size as it is.
  pub insert-IsConsistent :
      IsConsistent c
      → find key c.beacons ≡ none
      → e'.total_num_bytes ≡ 0
      → d.beacons ≡ put key e' c.beacons
      → d.cache_size_in_bytes ≡ c.cache_size_in_bytes
      → IsConsistent d
  insert-IsConsistent h absent fresh stored kept = record {
    sized = rw stored (omega (arith, h.sized, sum_of-put_new total_of key e' c.beacons absent));
    words = rw stored (All-put IsWord key e' c.beacons (omega arith) h.words);
  }
