-- ===== src/Dictionary/Concurrent.antt =====
-- `Dictionary::set` and `Dictionary::get` (server/src/Dictionary.cpp) called by several threads at
-- once: what each call sees and does under the lock, in the order of the locks.
use mathlib.Core.Path.{fun_ext}
use remote_dict.Prelude.{
  ℕ, ◌<◌, ◌≡◌, refl, Bool, true, false, some, List, [], ◌∷◌, ◌++◌, length, ap, ◌∙◌, sym, subst,
}
use mathlib.Core.Option.{some-injective}
use remote_dict.Text.{Text}
use remote_dict.UnorderedMap
use remote_dict.UnorderedMap.{find-assign}
use remote_dict.BloomFilter.{BloomFilter}
use remote_dict.Dictionary.{Dictionary, set_locked, is_full, get}
use remote_dict.Dictionary.Refinement.{view, answer, get_plain_lem}
use remote_dict.Dictionary.Race.{Shared, write_new}
use remote_dict.Dictionary.History.{FiniteMap, update}

-- A call at the time of its lock, or of its test of the size if that fails: a `set` that writes or
-- is refused, and a `get` with what it gives.
pub data Event : Type 0 where
  wrote : Text → Text → Event
  refused : Text → Text → Event
  got : Text → Bool × Text → Event

module _ (b : BloomFilter) (n : ℕ) where
  -- The steps of `n` threads, with their events in order.
  pub data Run (t : Shared b) : Shared b → List Event → Type 0 where
    stop : Run t t []
    passes :
        {s : Shared b} {es : List Event} (k v : Text)
        → length s.waiting < n
        → is_full b s.dictionary ≡ false
        → Run t (record s { waiting = (k, v) ∷ s.waiting }) es
        → Run t s es
    refuses :
        {s : Shared b} {es : List Event} (k v : Text)
        → is_full b s.dictionary ≡ true
        → Run t s es
        → Run t s (refused k v ∷ es)
    writes :
        {s : Shared b} {es : List Event} (before after : List (Text × Text)) (k v : Text)
        (d : Dictionary b)
        → s.waiting ≡ before ++ ((k, v) ∷ after)
        → set_locked b k v s.dictionary ≡ some d
        → Run t (record { dictionary = d; waiting = before ++ after }) es
        → Run t s (wrote k v ∷ es)
    gets :
        {s : Shared b} {es : List Event} (k val : Text) (r : Bool × Text)
        → get b k val s.dictionary ≡ some r
        → Run t s es
        → Run t s (got k r ∷ es)

-- The map that the events make of one, one event at a time.
unfoldable pub replay : List Event → FiniteMap → FiniteMap
replay [] m = m
replay (wrote k v ∷ es) m = replay es (update k v m)
replay (refused k v ∷ es) m = replay es m
replay (got k r ∷ es) m = replay es m

-- Every `get` gives what the map has at its time.
abbrev pub IsConsistent : List Event → FiniteMap → Type 0
IsConsistent [] m = Unit
IsConsistent (wrote k v ∷ es) m = IsConsistent es (update k v m)
IsConsistent (refused k v ∷ es) m = IsConsistent es m
IsConsistent (got k r ∷ es) m = (r ≡ answer (m k)) × IsConsistent es m

module _ (b : BloomFilter) (n : ℕ) where
  -- However the calls of `n` threads interleave on a dictionary without the filter, with the test
  -- of the size before the lock: in the order of their locks the calls are those of a finite map
  -- that is accessed by one after the other, which ends with the contents of the dictionary.
  Run-IsConsistent :
      (t s : Shared b) (es : List Event)
      → s.dictionary.bloom_filter_enabled ≡ false
      → Run b n t s es
      → (view t.dictionary ≡ replay es (view s.dictionary))
        × IsConsistent es (view s.dictionary)
        × (t.dictionary.bloom_filter_enabled ≡ false)
  unfolding replay
  Run-IsConsistent t s es off stop = (refl, tt, off)
  Run-IsConsistent t s es off (passes k v few room rest) =
      Run-IsConsistent t (record s { waiting = (k, v) ∷ s.waiting }) es off rest
  Run-IsConsistent t s es off (refuses {es = es'} k v full rest) = Run-IsConsistent t s es' off rest
  Run-IsConsistent t s es off (writes {es = es'} before after k v d waits wrote_it rest) =
      let d' : Dictionary b = record s.dictionary {
        dict = UnorderedMap.assign k v s.dictionary.dict;
      } in
      let same : d ≡ d' =
        some-injective d d' (sym wrote_it ∙ (write_new b k v s.dictionary off).0) in
      let map_of : view d ≡ update k v (view s.dictionary) =
        ap (λ (e : Dictionary b). view e) same ∙ fun_ext λ j. find-assign k j v s.dictionary.dict in
      let (ends, seen, still) =
        Run-IsConsistent t (record { dictionary = d; waiting = before ++ after }) es'
          (ap (λ (e : Dictionary b). e.bloom_filter_enabled) same ∙ off) rest in
      (ends ∙ ap (replay es') map_of, subst (IsConsistent es') map_of seen, still)
  Run-IsConsistent t s es off (gets {es = es'} k val r gave rest) =
      let (ends, seen, still) = Run-IsConsistent t s es' off rest in
      (ends, (some-injective r _ (sym gave ∙ get_plain_lem b k val s.dictionary off), seen), still)
