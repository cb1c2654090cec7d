-- ===== src/Dictionary/Startup.antt =====
-- `enableBloomFilter` beside requests: `TcpServer::start` calls it after the threads run, and it
-- takes no lock.
use remote_dict.Prelude.{◌≡◌, refl, true, false, some, none, arith, if◌then◌else◌}
use remote_dict.Text.{Text}
use remote_dict.BloomFilter.{BloomFilter, FreshIsEmpty}
use remote_dict.Dictionary.{
  Dictionary, set_enabled, enable_bloom_filter, set, get, set_locked, is_full, not_found,
  max_dict_size, false_positive_ratio,
}
use remote_dict.Dictionary.Refinement.{view}

module _ (b : BloomFilter) where
  -- Between the two statements of `enableBloomFilter(true)`, where the filter is still null, a
  -- `get` calls it, and so does a `set` unless the dictionary is full; then it returns false.
  enabled_without_filter :
      (d : Dictionary b) (k v : Text)
      → d.bloom_filter ≡ none
      → (get b k v (set_enabled b true d) ≡ none)
        × (set b k v (set_enabled b true d)
            ≡ (if is_full b d then some (false, set_enabled b true d) else none))
  unfolding set get set_locked
  enabled_without_filter d k v null = (rw null refl, ground arith)

  -- With a filter library whose new filters contain nothing, a key that was stored before
  -- `enableBloomFilter(true)` is answered by NOT_FOUND after it, though the map still has it.
  pub enable_loses_keys :
      (empty : FreshIsEmpty b) (d : Dictionary b) (k v val : Text)
      → view d k ≡ some v
      → (get b k val (enable_bloom_filter b true d) ≡ some (false, not_found))
        × (view (enable_bloom_filter b true d) k ≡ some v)
  unfolding enable_bloom_filter get
  enable_loses_keys empty d k v val h =
      (ground (arith, empty.contains-fresh max_dict_size false_positive_ratio k), h)
