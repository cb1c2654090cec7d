-- ===== src/Dictionary.antt =====
-- server/include/Dictionary.h and server/src/Dictionary.cpp: the dictionary that all worker
-- threads share. `none` as a result is undefined behaviour, which is here a call on the null
-- `m_bloomFilter`. The singleton's `call_once` is the initial value `init`.
pub mod Refinement
pub mod History
pub mod Race
pub mod Concurrent
pub mod Startup
use remote_dict.Prelude.{
  ℕ, ◌≤◌, ◌<◌, ◌≡◌, Bool, true, false, Option, none, some, List, [], leb, if◌then◌else◌, ◌>>=◌,
}
use remote_dict.Text.{Text, bytes}
use remote_dict.UnorderedMap
use remote_dict.UnorderedMap.{UnorderedMap}
use remote_dict.BloomFilter.{BloomFilter}

-- MAX_DICT_SIZE
abbrev pub max_dict_size : ℕ
max_dict_size = 1000000

-- `false_positive_probability = 0.0001`, as one in so many.
abbrev pub false_positive_ratio : ℕ
false_positive_ratio = 10000

-- The text that `get` leaves in its out parameter for a key that is not there.
abbrev pub not_found : Text
not_found = bytes "NOT_FOUND"

module _ (b : BloomFilter) where
  open b use {Filter, fresh, contains}

  pub record Dictionary : Type 0 where
    pub bloom_filter_enabled : Bool
    pub dict : UnorderedMap Text
    pub bloom_filter : Option Filter

  abbrev pub init : Dictionary
  init = record { bloom_filter_enabled = false; dict = []; bloom_filter = none }

  abbrev pub init_bloom_filters : Dictionary → Dictionary
  init_bloom_filters d = record d { bloom_filter = some (fresh max_dict_size false_positive_ratio) }

  -- The first statement of `enableBloomFilter`, which no lock covers.
  abbrev pub set_enabled : Bool → Dictionary → Dictionary
  set_enabled enable d = record d { bloom_filter_enabled = enable }

  unfoldable pub enable_bloom_filter : Bool → Dictionary → Dictionary
  enable_bloom_filter enable d =
      let d' = set_enabled enable d in if d'.bloom_filter_enabled then init_bloom_filters d' else d'

  -- `m_bloomFilter->insert(key)` under `if(m_bloomFilterEnabled)`.
  unfoldable pub note_key : Text → Dictionary → Option Dictionary
  note_key key d =
      if d.bloom_filter_enabled
      then (do f ← d.bloom_filter; some (record d { bloom_filter = some (b.insert f key) }))
      else some d

  -- What `set` does under the lock.
  unfoldable pub set_locked : Text → Text → Dictionary → Option Dictionary
  unfolding note_key
  set_locked key val d = do
    d' ← note_key key d
    some (record d' { dict = UnorderedMap.assign key val d'.dict })

  -- The test of the size, which `set` makes before it takes the lock.
  unfoldable pub is_full : Dictionary → Bool
  is_full d = leb max_dict_size (UnorderedMap.size d.dict)

  unfoldable pub set : Text → Text → Dictionary → Option (Bool × Dictionary)
  unfolding is_full set_locked
  set key val d =
      if is_full d then some (false, d) else do d' ← set_locked key val d; some (true, d')

  -- The result and the out parameter, from the value that the caller passed in.
  unfoldable pub get_filtered : Text → Text → UnorderedMap Text → Bool → Bool × Text
  get_filtered key val m true = elim (UnorderedMap.find key m) [
    | none ↦ (false, val)
    | some v ↦ (false, v)
  ]
  get_filtered key val m false = (false, not_found)

  unfoldable pub get_plain : Text → UnorderedMap Text → Bool × Text
  get_plain key m = elim (UnorderedMap.find key m) [
    | none ↦ (false, not_found)
    | some v ↦ (true, v)
  ]

  unfoldable pub get : Text → Text → Dictionary → Option (Bool × Text)
  unfolding get_filtered get_plain
  get key val d =
      if d.bloom_filter_enabled
      then (do f ← d.bloom_filter; some (get_filtered key val d.dict (contains f key)))
      else some (get_plain key d.dict)
