-- ===== src/TcpFlow/Concurrent/Covered.antt =====
-- The dictionary under the handlers of several threads (server/src/TcpFlow.cpp): its filter, if it
-- is enabled, is there and knows every key.
use mathlib.Core.Option.{some-injective}
use remote_dict.Prelude.{
  ◌≡◌, ◌∙◌, refl, sym, subst, Bool, true, some, List, length, arith, inl, inr, Bool-cases,
  length-set_elem,
}
use remote_dict.Text.{Text}
use remote_dict.UnorderedMap
use remote_dict.BloomFilter.{BloomFilter, NoFalseNegatives}
use remote_dict.Dictionary
use remote_dict.Dictionary.{Dictionary, set_locked, get_filtered, get_plain}
use remote_dict.Dictionary.Refinement.{IsCovered, set_locked-IsCovered}
use remote_dict.Payload.{text_of}
use remote_dict.Stats.{incr_get_req}
use remote_dict.TcpFlow.Concurrent.{
  Entry, Shared, Run, stop, passes, refuses, writes, counts, gets, ends, moves, idle, setting,
  getting, counting, count_outcome,
}

module _ (b : BloomFilter) where
  abbrev pub Knows : Dictionary b → Type 0
  Knows d = d.bloom_filter_enabled ≡ true → (f : b.Filter) × IsCovered b d f

  pub get_total :
      (k val : Text) (d : Dictionary b)
      → Knows d
      → (r : Bool × Text) × (Dictionary.get b k val d ≡ some r)
  unfolding Dictionary.get
  get_total k val d knows = elim (Bool-cases d.bloom_filter_enabled) [
    | inl on ↦
        let (f, c) = knows on in
        (get_filtered b k val d.dict (b.contains f k), ground (arith, c.present))
    | inr off ↦ (get_plain b k d.dict, ground arith)
  ]

module _ (b : BloomFilter) (laws : NoFalseNegatives b) where
  pub set_locked_total :
      (k v : Text) (d : Dictionary b)
      → Knows b d
      → (d' : Dictionary b) × (set_locked b k v d ≡ some d') × Knows b d'
  unfolding set_locked
  set_locked_total k v d knows = elim (Bool-cases d.bloom_filter_enabled) [
    | inl on ↦
        let (f, c) = knows on in
        let (d', e, c', on', m) = set_locked-IsCovered b laws k v d f on c in
        (d', e, λ _. (b.insert f k, c'))
    | inr off ↦
        (record d { dict = UnorderedMap.assign k v d.dict }, ground arith, λ on. absurd (cc))
  ]

  pub set_locked-Knows :
      (k v : Text) (d d' : Dictionary b) → Knows b d → set_locked b k v d ≡ some d' → Knows b d'
  set_locked-Knows k v d d' knows wrote =
      let (d₁, e, knows₁) = set_locked_total k v d knows in
      subst (Knows b) (some-injective d₁ d' (sym e ∙ wrote)) knows₁

  pub Run-Knows :
      (t s : Shared b) (es : List Entry)
      → Knows b s.world.dictionary
      → Run b t s es
      → Knows b t.world.dictionary × (length t.threads ≡ length s.threads)
  Run-Knows t s es v stop = (v, refl)
  Run-Knows t s es v (passes i p at room rest) =
      let (v', len) = Run-Knows t (moves b i (setting p) s.world s) es v rest in
      (v', len ∙ length-set_elem s.threads i (setting p))
  Run-Knows t s es v (refuses {es = es'} i p at full rest) = Run-Knows t s es' v rest
  Run-Knows t s es v (writes {es = es'} i p d at wrote rest) =
      let (v', len) =
        Run-Knows t (moves b i idle (record s.world { dictionary = d }) s) es'
          (set_locked-Knows (text_of p.key) (text_of p.value) s.world.dictionary d v wrote) rest in
      (v', len ∙ length-set_elem s.threads i idle)
  Run-Knows t s es v (counts i p at rest) =
      let (v', len) =
        Run-Knows t
          (moves b i (getting p) (record s.world { stats = incr_get_req s.world.stats }) s) es v
          rest in
      (v', len ∙ length-set_elem s.threads i (getting p))
  Run-Knows t s es v (gets {es = es'} i p r at gave rest) =
      let (v', len) = Run-Knows t (moves b i (counting p r) s.world s) es' v rest in
      (v', len ∙ length-set_elem s.threads i (counting p r))
  Run-Knows t s es v (ends i p r at rest) =
      let (v', len) =
        Run-Knows t (moves b i idle (record s.world { stats = count_outcome r.0 s.world.stats }) s)
          es v rest in
      (v', len ∙ length-set_elem s.threads i idle)
