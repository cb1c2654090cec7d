-- ===== src/Dictionary/Refinement.antt =====
-- server/src/Dictionary.cpp against the finite map that it promises: `set` and `get` in terms of
-- the map `view d`.
use remote_dict.Prelude.{
  ◌+◌, ◌≤◌, ◌<◌, ◌≡◌, refl, Bool, true, false, Option, none, some, ltb, arith, if◌then◌else◌, ◌&&◌,
  ◌⊎◌, Bool-cases, Option-cases, inl, inr,
}
use remote_dict.Text.{Text, text_eq, text_eq_iff}
use remote_dict.UnorderedMap
use remote_dict.UnorderedMap.{Distinct, find, find-assign, assign-Distinct, size-assign}
use remote_dict.BloomFilter.{BloomFilter, NoFalseNegatives}
use remote_dict.Dictionary.{
  Dictionary, init, max_dict_size, false_positive_ratio, not_found, set_locked, set, get,
  get_filtered, enable_bloom_filter,
}

-- The finite map that a client of the dictionary sees.
abbrev pub view : {b : BloomFilter} → Dictionary b → Text → Option Text
view d k = UnorderedMap.find k d.dict

-- What a lookup in a finite map is to answer.
abbrev pub answer : Option Text → Bool × Text
answer none = (false, not_found)
answer (some v) = (true, v)

module _ (b : BloomFilter) where
  -- The filter is there if it is enabled, and knows each key of the map.
  pub record IsCovered (d : Dictionary b) (f : b.Filter) : Type 0 where
    pub present : d.bloom_filter ≡ some f
    pub knows : (k v : Text) → find k d.dict ≡ some v → b.contains f k ≡ true

  pub record IsValid (d : Dictionary b) : Type 0 where
    pub bounded : UnorderedMap.size d.dict ≤ max_dict_size
    pub distinct : Distinct d.dict
    pub covered : d.bloom_filter_enabled ≡ true → (f : b.Filter) × IsCovered d f

  pub size-assign_le :
      (k v : Text) (m : UnorderedMap.UnorderedMap Text)
      → UnorderedMap.size (UnorderedMap.assign k v m) ≤ UnorderedMap.size m + 1
  size-assign_le k v m = ground (arith, size-assign k v m)

module _ (b : BloomFilter) where
  -- With the filter disabled `get` answers as the map does.
  pub get_plain_lem :
      (k val : Text) (d : Dictionary b)
      → d.bloom_filter_enabled ≡ false
      → get b k val d ≡ some (answer (view d k))
  unfolding get
  get_plain_lem k val d off = ground arith

module _ (b : BloomFilter) (laws : NoFalseNegatives b) where
  -- A write under the lock: the filter learns the key, and the map is updated there alone.
  pub set_locked-IsCovered :
      (k v : Text) (d : Dictionary b) (f : b.Filter)
      → d.bloom_filter_enabled ≡ true
      → IsCovered b d f
      → (d' : Dictionary b) × (set_locked b k v d ≡ some d')
        × IsCovered b d' (b.insert f k)
        × (d'.bloom_filter_enabled ≡ true)
        × (d'.dict ≡ UnorderedMap.assign k v d.dict)
  unfolding set_locked
  set_locked-IsCovered k v d f on c = (
    record {
      bloom_filter_enabled = true;
      dict = UnorderedMap.assign k v d.dict;
      bloom_filter = some (b.insert f k);
    },
    ground (arith, c.present),
    record {
      present = refl;
      knows = λ j w h. ground (
        arith,
        find-assign k j v d.dict,
        text_eq_iff k j,
        laws.contains-insert f k,
        laws.contains_mono f k j,
        c.knows j w,
      );
    },
    refl,
    refl,
  )

  -- Everything that a write of a valid dictionary under the lock does.
  pub set_locked_lem :
      (k v : Text) (d : Dictionary b)
      → IsValid b d
      → UnorderedMap.size d.dict < max_dict_size
      → (d' : Dictionary b) × (set_locked b k v d ≡ some d')
        × IsValid b d'
        × (d'.bloom_filter_enabled ≡ d.bloom_filter_enabled)
        × (d'.dict ≡ UnorderedMap.assign k v d.dict)
  unfolding set_locked
  set_locked_lem k v d valid room = elim (Bool-cases d.bloom_filter_enabled) [
    | inl on ↦
        let (f, c) = valid.covered on in
        let (d', e, c', on', m) = set_locked-IsCovered k v d f on c in
        (
          d',
          e,
          record {
            bounded = rw m (omega (arith, size-assign_le b k v d.dict));
            distinct = rw m (assign-Distinct k v d.dict valid.distinct);
            covered = λ _. (b.insert f k, c');
          },
          ground arith,
          m,
        )
    | inr off ↦ (
      record d { dict = UnorderedMap.assign k v d.dict },
      ground arith,
      record {
        bounded = omega (arith, size-assign_le b k v d.dict);
        distinct = assign-Distinct k v d.dict valid.distinct;
        covered = λ on. absurd (cc);
      },
      refl,
      refl,
    )
  ]

  -- On a valid dictionary `set` returns, and returns true exactly when the map has less than the
  -- maximal number of entries. Then the key has the value and every other key is as before; when it
  -- returns false no key has changed. The dictionary stays valid and the filter's switch as it was.
  pub set_lem :
      (k v : Text) (d : Dictionary b)
      → IsValid b d
      → (d' : Dictionary b) × (set b k v d
          ≡ some (ltb (UnorderedMap.size d.dict) max_dict_size, d'))
        × IsValid b d'
        × (d'.bloom_filter_enabled ≡ d.bloom_filter_enabled)
        × ((j : Text)
            → view d' j ≡ (
                if ltb (UnorderedMap.size d.dict) max_dict_size && text_eq k j
                then some v
                else view d j))
  unfolding set
  set_lem k v d valid = elim (Bool-cases (ltb (UnorderedMap.size d.dict) max_dict_size)) [
    | inl room ↦
        let (d', e, valid', same, m) = set_locked_lem k v d valid (ground arith) in
        (d', ground arith, valid', same, λ j. rw (m, room) (find-assign k j v d.dict))
    | inr full ↦ (d, ground arith, valid, refl, λ j. ground arith)
  ]

  pub get_covered_lem :
      (k val : Text) (d : Dictionary b) (f : b.Filter)
      → IsCovered b d f
      → d.bloom_filter_enabled ≡ true
      → (w : Text) × (get b k val d ≡ some (false, w))
        × ((view d k ≡ some w) ⊎ ((view d k ≡ none) × ((w ≡ not_found) ⊎ (w ≡ val))))
  unfolding get
  get_covered_lem k val d f c on = (
    (get_filtered b k val d.dict (b.contains f k)).1,
    ground (arith, c.present),
    elim (Option-cases (view d k)) [
      | inl e ↦ ground arith
      | inr (v, e) ↦ inl (ground (arith, c.knows k v e))
    ],
  )

  -- On a valid dictionary with the filter enabled `get` always gives false. The text beside it is
  -- the value of a key that is there; for a key that is not there it is NOT_FOUND or the text of
  -- the caller, unchanged.
  pub get_filtered_lem :
      (k val : Text) (d : Dictionary b)
      → IsValid b d
      → d.bloom_filter_enabled ≡ true
      → (w : Text) × (get b k val d ≡ some (false, w))
        × ((view d k ≡ some w) ⊎ ((view d k ≡ none) × ((w ≡ not_found) ⊎ (w ≡ val))))
  get_filtered_lem k val d valid on =
      let (f, c) = valid.covered on in get_covered_lem k val d f c on

  -- A new dictionary is valid after `enableBloomFilter`, whichever way the switch is set.
  pub enable_bloom_filter_lem : (enable : Bool) → IsValid b (enable_bloom_filter b enable (init b))
  unfolding enable_bloom_filter find
  enable_bloom_filter_lem true = record {
    bounded = omega arith;
    distinct = tt;
    covered = λ _. (
      b.fresh max_dict_size false_positive_ratio,
      record { present = refl; knows = λ k v h. absurd (cc) },
    );
  }
  enable_bloom_filter_lem false = record {
    bounded = omega arith;
    distinct = tt;
    covered = λ on. absurd (cc);
  }
