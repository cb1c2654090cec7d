-- ===== src/TcpFlow/Concurrent/Finish.antt =====
-- That no handler stays on its way (server/src/TcpFlow.cpp): each thread can go on to the end, with
-- the filter and without it.
use remote_dict.Prelude.{
  ℕ, suc, ◌≡◌, ◌∙◌, refl, sym, ap, Bool, some, List, [], ◌∷◌, ◌++◌, append-nil, get_elem?, set_elem,
  length, replicate, length-replicate, set_elem-set_elem, get_elem?-set_elem, set_elem_self,
  get_elem?-replicate, set_elem-replicate,
}
use remote_dict.Text.{Text}
use remote_dict.BloomFilter.{BloomFilter, NoFalseNegatives}
use remote_dict.Dictionary.Refinement.{IsValid}
use remote_dict.Payload.{Payload, text_of}
use remote_dict.Stats.{incr_get_req}
use remote_dict.TcpFlow.Requests.{World}
use remote_dict.TcpFlow.Concurrent.{
  Progress, Entry, Shared, Run, stop, passes, refuses, writes, counts, gets, ends, moves, idle,
  setting, getting, counting, stored, got, get_answer, count_outcome,
}
use remote_dict.TcpFlow.Concurrent.Covered.{Knows, get_total, set_locked_total, Run-Knows}

module _ (b : BloomFilter) where
  -- A run goes on where another has ended.
  pub Run-append :
      (u t s : Shared b) (es es' : List Entry)
      → Run b t s es
      → Run b u t es'
      → Run b u s (es ++ es')
  Run-append u t s es es' stop next = next
  Run-append u t s es es' (passes i p at room rest) next =
      passes i p at room (Run-append u t (moves b i (setting p) s.world s) es es' rest next)
  Run-append u t s es es' (refuses {es = es₁} i p at full rest) next =
      refuses i p at full (Run-append u t s es₁ es' rest next)
  Run-append u t s es es' (writes {es = es₁} i p d at wrote rest) next =
      writes i p d at wrote
        (Run-append u t (moves b i idle (record s.world { dictionary = d }) s) es₁ es' rest next)
  Run-append u t s es es' (counts i p at rest) next = counts i p at (
      Run-append u t
        (moves b i (getting p) (record s.world { stats = incr_get_req s.world.stats }) s) es es'
        rest next)
  Run-append u t s es es' (gets {es = es₁} i p r at gave rest) next =
      gets i p r at gave (Run-append u t (moves b i (counting p r) s.world s) es₁ es' rest next)
  Run-append u t s es es' (ends i p r at rest) next = ends i p r at (
      Run-append u t (moves b i idle (record s.world { stats = count_outcome r.0 s.world.stats }) s)
        es es' rest next)

module _ (b : BloomFilter) (laws : NoFalseNegatives b) where
  -- Thread `i` alone goes on to the end of its handler.
  abbrev Finished : ℕ → Shared b → Type 0
  Finished i s =
      (u : Shared b) × (es : List Entry) × Run b u s es × (u.threads ≡ set_elem s.threads i idle)

  count_finishes :
      (i : ℕ) (p : Payload) (r : Bool × Text) (s : Shared b)
      → get_elem? s.threads i ≡ some (counting p r)
      → Finished i s
  count_finishes i p r s at = (
    moves b i idle (record s.world { stats = count_outcome r.0 s.world.stats }) s,
    [],
    ends i p r at stop,
    refl,
  )

  get_finishes :
      (i : ℕ) (p : Payload) (s : Shared b)
      → get_elem? s.threads i ≡ some (getting p)
      → Knows b s.world.dictionary
      → Finished i s
  get_finishes i p s at knows =
      let (r, gave) = get_total b (text_of p.key) [] s.world.dictionary knows in
      let (u, es, run, same) =
        count_finishes i p r (moves b i (counting p r) s.world s)
          (get_elem?-set_elem s.threads i (getting p) (counting p r) at) in
      (
        u,
        got p (get_answer p r) ∷ es,
        gets i p r at gave run,
        same ∙ set_elem-set_elem s.threads i (counting p r) idle,
      )

  finishes :
      (i : ℕ) (p : Progress) (s : Shared b)
      → get_elem? s.threads i ≡ some p
      → (set_elem s.threads i p ≡ s.threads)
      → Knows b s.world.dictionary
      → Finished i s
  finishes i idle s at same knows = (s, [], stop, sym same)
  finishes i (setting p) s at same knows =
      let (d, wrote, knows') =
        set_locked_total b laws (text_of p.key) (text_of p.value) s.world.dictionary knows in
      (
        moves b i idle (record s.world { dictionary = d }) s,
        stored p ∷ [],
        writes i p d at wrote stop,
        refl,
      )
  finishes i (getting p) s at same knows = get_finishes i p s at knows
  finishes i (counting p r) s at same knows = count_finishes i p r s at

  -- The threads behind the first `k` go on to the end, one after the other.
  all_finish :
      (k : ℕ) (rest : List Progress) (s : Shared b)
      → s.threads ≡ replicate k idle ++ rest
      → Knows b s.world.dictionary
      → (u : Shared b) × (es : List Entry) × Run b u s es
        × (u.threads ≡ replicate (length s.threads) idle)
  all_finish k [] s e knows =
      let idle_all : s.threads ≡ replicate k idle = e ∙ append-nil (replicate k idle) in
      (
        s,
        [],
        stop,
        idle_all
            ∙ ap (λ m. replicate m idle)
                (sym (ap (length {A = Progress}) idle_all ∙ length-replicate k idle)),
      )
  all_finish k (p ∷ rest) s e knows =
      let at : get_elem? s.threads k ≡ some p =
        ap (λ ts. get_elem? ts k) e ∙ get_elem?-replicate k idle p rest in
      let (t, es, run, same) = finishes k p s at (set_elem_self s.threads k p at) knows in
      let (knows', len) = Run-Knows b laws t s es knows run in
      let (u, es', run', all) =
        all_finish (suc k) rest t
          (same ∙ (ap (λ ts. set_elem ts k idle) e ∙ set_elem-replicate k idle p rest)) knows' in
      (u, es ++ es', Run-append b u t s es es' run run', all ∙ ap (λ m. replicate m idle) len)

-- With a filter library without false negatives, from a valid dictionary with or without the
-- filter: however far the handlers of `n` threads have come, the same run can go on until every
-- thread is at the end of its handler.
pub handlers_finish :
    (b : BloomFilter) (laws : NoFalseNegatives b) (n : ℕ) (w : World b) (t : Shared b)
    (es : List Entry)
    → IsValid b w.dictionary
    → Run b t (record { world = w; threads = replicate n idle }) es
    → (u : Shared b) × (es' : List Entry) × Run b u
        (record { world = w; threads = replicate n idle })
        (es ++ es')
      × (u.threads ≡ replicate n idle)
handlers_finish b laws n w t es valid run =
    let s : Shared b = record { world = w; threads = replicate n idle } in
    let (knows, len) = Run-Knows b laws t s es valid.covered run in
    let (u, es', run', all) = all_finish b laws 0 t.threads t refl knows in
    (
      u,
      es',
      Run-append b u t s es es' run run',
      all ∙ ap (λ m. replicate m idle) (len ∙ length-replicate n idle),
    )
