-- ===== src/TcpFlow/Concurrent/Filtered.antt =====
-- The handlers of several threads (server/src/TcpFlow.cpp) with the filter enabled.
use mathlib.Core.Path.{fun_ext}
use mathlib.Core.Option.{some-injective}
use remote_dict.Prelude.{
  ℕ, ◌+◌, ◌%◌, ◌≡◌, ◌∙◌, refl, sym, ap, subst, Bool, true, false, none, some, List, [], ◌∷◌,
  get_elem?, replicate, arith, ◌⊎◌, u64_mod,
}
use remote_dict.Text.{Text}
use remote_dict.UnorderedMap
use remote_dict.UnorderedMap.{find-assign}
use remote_dict.BloomFilter.{BloomFilter, NoFalseNegatives}
use remote_dict.Dictionary
use remote_dict.Dictionary.{Dictionary, not_found, set_locked}
use remote_dict.Dictionary.Refinement.{
  view, IsValid, IsCovered, set_locked-IsCovered, get_covered_lem,
}
use remote_dict.Dictionary.History.{FiniteMap, update}
use remote_dict.Payload.{Payload, text_of}
use remote_dict.Stats.{incr_get_req, incr_get_req_succ, incr_get_req_fail}
use remote_dict.TcpFlow.Requests.{World}
use remote_dict.TcpFlow.Concurrent.{
  Progress, Entry, Shared, Run, stop, passes, refuses, writes, counts, gets, ends, moves, idle,
  setting, getting, counting, stored, refused, got, get_answer, count_outcome,
}
use remote_dict.TcpFlow.Concurrent.Counting.{sum_of, is_hit, is_miss, sum_of-set_elem, sum_of-idle}

-- The map after the entries, and how many of them are GETs.
unfoldable pub contents : List Entry → FiniteMap → FiniteMap
contents [] m = m
contents (stored p ∷ es) m = contents es (update (text_of p.key) (text_of p.value) m)
contents (refused p ∷ es) m = contents es m
contents (got p q ∷ es) m = contents es m

unfoldable pub gots : List Entry → ℕ
gots [] = 0
gots (stored p ∷ es) = gots es
gots (refused p ∷ es) = gots es
gots (got p q ∷ es) = gots es + 1

-- The answer to a GET has no value: its reason is the value in the map, and where the key is not
-- there, NOT_FOUND or nothing.
abbrev pub Fails : Payload → Payload → FiniteMap → Type 0
Fails p q m =
    (x : Text) × (q ≡ record p { reason = some x })
    × ((m (text_of p.key) ≡ some x) ⊎ ((m (text_of p.key) ≡ none) × ((x ≡ not_found) ⊎ (x ≡ []))))

abbrev pub AllFail : List Entry → FiniteMap → Type 0
AllFail [] m = Unit
AllFail (stored p ∷ es) m = AllFail es (update (text_of p.key) (text_of p.value) m)
AllFail (refused p ∷ es) m = AllFail es m
AllFail (got p q ∷ es) m = Fails p q m × AllFail es m

module _ (b : BloomFilter) where
  -- The filter is on and knows the keys, and no thread has found its key.
  record Filters (s : Shared b) : Type 0 where
    filter : b.Filter
    enabled : s.world.dictionary.bloom_filter_enabled ≡ true
    covered : IsCovered b s.world.dictionary filter
    no_hit : sum_of is_hit s.threads ≡ 0

  -- What a run from `s` to `t` leaves.
  abbrev pub Leaves : Shared b → Shared b → List Entry → Type 0
  Leaves t s es =
      AllFail es (view s.world.dictionary)
      × (view t.world.dictionary ≡ contents es (view s.world.dictionary))
      × (t.world.stats.num_get_req_succ ≡ s.world.stats.num_get_req_succ)
      × ((t.world.stats.num_get_req_fail + sum_of is_miss t.threads) % u64_mod
          ≡ (s.world.stats.num_get_req_fail + sum_of is_miss s.threads + gots es) % u64_mod)

  -- Thread `i` goes on where the filter, its keys and the counts stay as they are.
  goes_on :
      (i : ℕ) (p q : Progress) (s : Shared b) (w : World b)
      → Filters s
      → get_elem? s.threads i ≡ some p
      → w.dictionary ≡ s.world.dictionary
      → is_hit q ≡ 0
      → Filters (moves b i q w s)
  goes_on i p q s w v at same none_hit = record {
    filter = v.filter;
    enabled = ap (λ (d : Dictionary b). d.bloom_filter_enabled) same ∙ v.enabled;
    covered = subst (λ d. IsCovered b d v.filter) (sym same) v.covered;
    no_hit = omega (arith, sum_of-set_elem is_hit s.threads i p q at, v.no_hit);
  }

  ends-Leaves :
      (i : ℕ) (p : Payload) (hit : Bool) (x : Text) (s t : Shared b) (es : List Entry)
      → Filters s
      → get_elem? s.threads i ≡ some (counting p (hit, x))
      → Leaves t (moves b i idle (record s.world { stats = count_outcome hit s.world.stats }) s) es
      → Leaves t s es
  unfolding count_outcome incr_get_req_fail incr_get_req_succ
  ends-Leaves i p true x s t es v at (fail, same, succ, count) =
      absurd
        (omega (arith, sum_of-set_elem is_hit s.threads i (counting p (true, x)) idle at, v.no_hit))
  ends-Leaves i p false x s t es v at (fail, same, succ, count) = (
    fail,
    same,
    succ,
    omega (arith, count, sum_of-set_elem is_miss s.threads i (counting p (false, x)) idle at),
  )

module _ (b : BloomFilter) (laws : NoFalseNegatives b) where
  gets_fail :
      (k : Text) (s : Shared b) (r : Bool × Text)
      → Filters b s
      → Dictionary.get b k [] s.world.dictionary ≡ some r
      → (x : Text) × (r ≡ (false, x))
        × ((view s.world.dictionary k ≡ some x)
            ⊎ ((view s.world.dictionary k ≡ none) × ((x ≡ not_found) ⊎ (x ≡ []))))
  gets_fail k s r v gave =
      let (x, e, where_from) =
        get_covered_lem b laws k [] s.world.dictionary v.filter v.covered v.enabled in
      (x, some-injective r (false, x) (sym gave ∙ e), where_from)

  gets-Leaves :
      (i : ℕ) (p : Payload) (r : Bool × Text) (s t : Shared b) (es : List Entry)
      → Filters b s
      → get_elem? s.threads i ≡ some (getting p)
      → Dictionary.get b (text_of p.key) [] s.world.dictionary ≡ some r
      → (is_hit (counting p r) ≡ 0 → Leaves b t (moves b i (counting p r) s.world s) es)
      → Leaves b t s (got p (get_answer p r) ∷ es)
  unfolding contents gots get_answer
  gets-Leaves i p r s t es v at gave rest =
      let (x, e, where_from) = gets_fail (text_of p.key) s r v gave in
      let (fail, same, succ, count) = rest (ap (λ (y : Bool × Text). is_hit (counting p y)) e) in
      (
        ((x, ap (get_answer p) e, where_from), fail),
        same,
        succ,
        omega (
          arith,
          count,
          sum_of-set_elem is_miss s.threads i (getting p) (counting p r) at,
          ap (λ (y : Bool × Text). is_miss (counting p y)) e,
        ),
      )

  writes-Filters :
      (i : ℕ) (p : Payload) (d : Dictionary b) (s : Shared b)
      → Filters b s
      → get_elem? s.threads i ≡ some (setting p)
      → set_locked b (text_of p.key) (text_of p.value) s.world.dictionary ≡ some d
      → Filters b (moves b i idle (record s.world { dictionary = d }) s)
        × (view d ≡ update (text_of p.key) (text_of p.value) (view s.world.dictionary))
  writes-Filters i p d s v at wrote =
      let k : Text = text_of p.key in
      let x : Text = text_of p.value in
      let (d', e, c', on', m) =
        set_locked-IsCovered b laws k x s.world.dictionary v.filter v.enabled v.covered in
      let same : d' ≡ d = some-injective d' d (sym e ∙ wrote) in
      (
        record {
          filter = b.insert v.filter k;
          enabled = subst (λ (c : Dictionary b). c.bloom_filter_enabled ≡ true) same on';
          covered = subst (λ c. IsCovered b c (b.insert v.filter k)) same c';
          no_hit = omega (arith, sum_of-set_elem is_hit s.threads i (setting p) idle at, v.no_hit);
        },
        ap (λ (c : Dictionary b). view c) (sym same)
            ∙ ((ap (λ n j. UnorderedMap.find j n) m)
                ∙ fun_ext λ j. find-assign k j x s.world.dictionary.dict),
      )

  Run-Leaves : (t s : Shared b) (es : List Entry) → Filters b s → Run b t s es → Leaves b t s es
  unfolding contents gots incr_get_req
  Run-Leaves t s es v stop = (tt, refl, refl, omega arith)
  Run-Leaves t s es v (passes i p at room rest) =
      let (fail, same, succ, count) =
        Run-Leaves t (moves b i (setting p) s.world s) es
          (goes_on b i idle (setting p) s s.world v at refl refl) rest in
      (
        fail,
        same,
        succ,
        omega (arith, count, sum_of-set_elem is_miss s.threads i idle (setting p) at),
      )
  Run-Leaves t s es v (refuses {es = es'} i p at full rest) = Run-Leaves t s es' v rest
  Run-Leaves t s es v (writes {es = es'} i p d at wrote rest) =
      let (v', map_of) = writes-Filters i p d s v at wrote in
      let (fail, same, succ, count) =
        Run-Leaves t (moves b i idle (record s.world { dictionary = d }) s) es' v' rest in
      (
        subst (AllFail es') map_of fail,
        same ∙ ap (contents es') map_of,
        succ,
        omega (arith, count, sum_of-set_elem is_miss s.threads i (setting p) idle at),
      )
  Run-Leaves t s es v (counts i p at rest) =
      let w : World b = record s.world { stats = incr_get_req s.world.stats } in
      let (fail, same, succ, count) =
        Run-Leaves t (moves b i (getting p) w s) es
          (goes_on b i idle (getting p) s w v at refl refl) rest in
      (
        fail,
        same,
        succ,
        omega (arith, count, sum_of-set_elem is_miss s.threads i idle (getting p) at),
      )
  Run-Leaves t s es v (gets {es = es'} i p r at gave rest) =
      gets-Leaves i p r s t es' v at gave (λ none_hit.
        Run-Leaves t (moves b i (counting p r) s.world s) es'
          (goes_on b i (getting p) (counting p r) s s.world v at refl none_hit) rest)
  Run-Leaves t s es v (ends i p r at rest) =
      let w : World b = record s.world { stats = count_outcome r.0 s.world.stats } in
      ends-Leaves b i p r.0 r.1 s t es v at (
        Run-Leaves t (moves b i idle w s) es (goes_on b i (counting p r) idle s w v at refl refl)
          rest)

-- With a filter library without false negatives, from a valid dictionary with the filter enabled
-- and `n` threads in no handler: however the sections of their GETs and SETs interleave, in the
-- order in which they take effect every GET is answered by a failure, whose reason is the value
-- that the SETs before it left for its key, and NOT_FOUND or nothing where there is none. No GET is
-- counted as a success, and all of them are counted as failures, modulo 2^64, but those that have
-- yet to count. The map in the end is the one that the SETs make.
pub handlers_filtered :
    (b : BloomFilter) (laws : NoFalseNegatives b) (n : ℕ) (w : World b) (t : Shared b)
    (es : List Entry)
    → IsValid b w.dictionary
    → w.dictionary.bloom_filter_enabled ≡ true
    → Run b t (record { world = w; threads = replicate n idle }) es
    → AllFail es (view w.dictionary)
      × (view t.world.dictionary ≡ contents es (view w.dictionary))
      × (t.world.stats.num_get_req_succ ≡ w.stats.num_get_req_succ)
      × ((t.world.stats.num_get_req_fail + sum_of is_miss t.threads) % u64_mod
          ≡ (w.stats.num_get_req_fail + gots es) % u64_mod)
handlers_filtered b laws n w t es valid on run =
    let (f, c) = valid.covered on in
    let (fail, same, succ, count) =
      Run-Leaves b laws t (record { world = w; threads = replicate n idle }) es
        (record { filter = f; enabled = on; covered = c; no_hit = sum_of-idle is_hit n refl })
        run in
    (fail, same, succ, omega (arith, count, sum_of-idle is_miss n refl))
