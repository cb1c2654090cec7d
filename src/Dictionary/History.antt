-- ===== src/Dictionary/History.antt =====
-- Sequences of calls of the dictionary, one at a time, against a run of a plain finite map.
use mathlib.Core.Path.{fun_ext}
use remote_dict.Prelude.{
  ◌+◌, ◌≤◌, ◌<◌, ◌≡◌, refl, Bool, true, false, Option, some, List, [], ◌∷◌, length, arith,
  if◌then◌else◌, ◌>>=◌, ap, ◌∙◌,
}
use remote_dict.Text.{Text, text_eq}
use remote_dict.UnorderedMap
use remote_dict.UnorderedMap.{size-assign, find-assign}
use remote_dict.BloomFilter.{BloomFilter, NoFalseNegatives}
use remote_dict.Dictionary.{Dictionary, max_dict_size, set, get}
use remote_dict.Dictionary.Refinement.{
  view, answer, IsValid, set_locked_lem, get_plain_lem, size-assign_le,
}

pub data Call : Type 0 where
  sets : Text → Text → Call
  gets : Text → Call

pub data Reply : Type 0 where
  stored : Bool → Reply
  found : Bool × Text → Reply

module _ (b : BloomFilter) where
  unfoldable pub step : Call → Dictionary b → Option (Reply × Dictionary b)
  step (sets k v) d = do r ← set b k v d; some (stored r.0, r.1)
  step (gets k) d = do r ← get b k [] d; some (found r, d)

  unfoldable pub run : List Call → Dictionary b → Option (List Reply × Dictionary b)
  unfolding step
  run [] d = some ([], d)
  run (c ∷ cs) d = do r ← step c d; rest ← run cs r.1; some (r.0 ∷ rest.0, rest.1)

abbrev pub FiniteMap : Type 0
FiniteMap = Text → Option Text

abbrev pub update : Text → Text → FiniteMap → FiniteMap
update k v m j = if text_eq k j then some v else m j

-- The replies of an ideal dictionary, whose contents are the map.
unfoldable pub replies : List Call → FiniteMap → List Reply
replies [] m = []
replies (sets k v ∷ cs) m = stored true ∷ replies cs (update k v m)
replies (gets k ∷ cs) m = found (answer (m k)) ∷ replies cs m

module _ (b : BloomFilter) (laws : NoFalseNegatives b) where
  set_room :
      (k v : Text) (d : Dictionary b)
      → IsValid b d
      → UnorderedMap.size d.dict < max_dict_size
      → (d' : Dictionary b) × (set b k v d ≡ some (true, d'))
        × IsValid b d'
        × (d'.bloom_filter_enabled ≡ d.bloom_filter_enabled)
        × (UnorderedMap.size d'.dict ≤ UnorderedMap.size d.dict + 1)
        × (view d' ≡ update k v (view d))
  unfolding set
  set_room k v d valid room =
      let (d', e, valid', same, m) = set_locked_lem b laws k v d valid room in
      (
        d',
        ground arith,
        valid',
        same,
        rw m (size-assign_le b k v d.dict),
        fun_ext λ j. ap (UnorderedMap.find j) m ∙ find-assign k j v d.dict,
      )

  -- A sequence of `set` and `get` calls on a valid dictionary without the filter, with room for
  -- all of them, gives the replies of an ideal finite map, and leaves a valid dictionary.
  run-replies :
      (cs : List Call) (d : Dictionary b)
      → IsValid b d
      → d.bloom_filter_enabled ≡ false
      → UnorderedMap.size d.dict + length cs ≤ max_dict_size
      → (d' : Dictionary b) × (run b cs d ≡ some (replies cs (view d), d')) × IsValid b d'
  unfolding run replies
  run-replies [] d valid off room = (d, refl, valid)
  run-replies (sets k v ∷ cs) d valid off room =
      let (d', e, valid', same, small, m) = set_room k v d valid (omega arith) in
      let (d'', e', valid'') = run-replies cs d' valid' (same ∙ off) (omega arith) in
      (d'', rw (e, e', m) refl, valid'')
  run-replies (gets k ∷ cs) d valid off room =
      let (d'', e', valid'') = run-replies cs d valid off (omega arith) in
      (d'', rw (get_plain_lem b k [] d off, e') refl, valid'')
