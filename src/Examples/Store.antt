-- ===== src/Examples/Store.antt =====
-- The dictionary's theorems at a dictionary of one key, with and without the filter.
use remote_dict.Prelude.{
  ℕ, zero, suc, ap, ◌-◌, ◌+◌, ◌≡◌, ◌≢◌, refl, true, false, none, some, [], ◌∷◌, length, ltb, arith,
  if◌then◌else◌, ◌&&◌,
}
use remote_dict.Text.{Text, bytes, text_eq}
use remote_dict.UnorderedMap
use remote_dict.UnorderedMap.{find, Distinct}
use remote_dict.Examples.{exact, exact-NoFalseNegatives, exact-FreshIsEmpty, member}
use remote_dict.Dictionary.{
  Dictionary, init, set, get, enable_bloom_filter, not_found, max_dict_size,
}
use remote_dict.Dictionary.Refinement.{view, IsValid, set_lem}
use remote_dict.Dictionary.Race.{Shared, Steps, race_overruns}
use remote_dict.Dictionary.Startup.{enable_loses_keys}

-- One key, set before the filter was enabled, and one set after.
abbrev pub one : Dictionary exact
one = record {
  bloom_filter_enabled = false;
  dict = (bytes "key", bytes "value") ∷ [];
  bloom_filter = none;
}

abbrev pub filtered : Dictionary exact
filtered = record {
  bloom_filter_enabled = true;
  dict = (bytes "key", bytes "value") ∷ [];
  bloom_filter = some (bytes "key" ∷ []);
}

pub one-IsValid : IsValid exact one
unfolding find
one-IsValid = record { bounded = omega arith; distinct = ground arith; covered = λ on. absurd (cc) }

pub filtered-IsValid : IsValid exact filtered
unfolding find member
filtered-IsValid = record {
  bounded = omega arith;
  distinct = ground arith;
  covered = λ on. (bytes "key" ∷ [], record { present = refl; knows = λ k v h. ground arith });
}

set_lem_example :
    (d : Dictionary exact) × (set exact (bytes "b") (bytes "2") one
      ≡ some (ltb (UnorderedMap.size one.dict) max_dict_size, d))
    × IsValid exact d
    × (d.bloom_filter_enabled ≡ false)
    × ((j : Text)
        → view d j ≡ (
            if ltb (UnorderedMap.size one.dict) max_dict_size && text_eq (bytes "b") j
            then some (bytes "2")
            else view one j))
set_lem_example = set_lem exact exact-NoFalseNegatives (bytes "b") (bytes "2") one one-IsValid

abbrev waiting : Shared exact
waiting = record { dictionary = init exact; waiting = (bytes "key", bytes "value") ∷ [] }

-- So many keys of one byte, all different.
unfoldable numbered : ℕ → UnorderedMap.UnorderedMap Text
numbered zero = []
numbered (suc n) = (n ∷ [], bytes "value") ∷ numbered n

size-numbered : (n : ℕ) → UnorderedMap.size (numbered n) ≡ n
unfolding numbered
size-numbered zero = refl
size-numbered (suc n) = ap suc (size-numbered n)

find-numbered : (k : Text) (n : ℕ) → length k ≢ 1 → find k (numbered n) ≡ none
unfolding numbered find text_eq
find-numbered k zero ne = refl
find-numbered [] (suc n) ne = find-numbered [] n ne
find-numbered (x ∷ []) (suc n) ne = absurd (ne refl)
find-numbered (x ∷ y ∷ k) (suc n) ne = ground (arith, find-numbered (x ∷ y ∷ k) n ne)

abbrev almost_full : Dictionary exact
almost_full = record {
  bloom_filter_enabled = false;
  dict = numbered (max_dict_size - 1);
  bloom_filter = none;
}

race_overruns_example :
    (t : Shared exact) × Steps exact 2 (record { dictionary = almost_full; waiting = [] }) t
    × (UnorderedMap.size t.dictionary.dict ≡ max_dict_size + 1)
race_overruns_example =
    race_overruns exact almost_full [] (0 ∷ 0 ∷ []) [] [] refl
      (omega (arith, size-numbered (max_dict_size - 1)))
      (find-numbered [] (max_dict_size - 1) (omega arith))
      (find-numbered (0 ∷ 0 ∷ []) (max_dict_size - 1) (omega arith)) (λ e. absurd (cc))

enable_loses_keys_example :
    (get exact (bytes "key") [] (enable_bloom_filter exact true one) ≡ some (false, not_found))
    × (view (enable_bloom_filter exact true one) (bytes "key") ≡ some (bytes "value"))
unfolding find text_eq
enable_loses_keys_example =
    enable_loses_keys exact exact-FreshIsEmpty one (bytes "key") (bytes "value") [] refl
