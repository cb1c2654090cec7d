-- ===== src/TcpFlow/Concurrent/Holds.antt =====
-- What the steps of the handlers keep (server/src/TcpFlow.cpp).
use mathlib.Core.Path.{fun_ext}
use mathlib.Core.Option.{some-injective}
use remote_dict.Prelude.{
  ℕ, ◌+◌, ◌%◌, ◌≤◌, ◌<◌, ◌≡◌, refl, ap, ◌∙◌, sym, Bool, true, false, Option, none, some, [], length,
  get_elem?, set_elem, length-set_elem, arith, subst, u64_mod,
}
use remote_dict.Text.{Text}
use remote_dict.BloomFilter.{BloomFilter}
use remote_dict.UnorderedMap
use remote_dict.UnorderedMap.{find-assign, size-assign}
use remote_dict.Dictionary
use remote_dict.Dictionary.{Dictionary, max_dict_size, set_locked, is_full}
use remote_dict.Dictionary.Refinement.{view, answer, get_plain_lem}
use remote_dict.Dictionary.Race.{write_new}
use remote_dict.Dictionary.History.{FiniteMap, update}
use remote_dict.Stats.{incr_get_req}
use remote_dict.Payload.{Payload, text_of}
use remote_dict.TcpFlow.Requests.{World}
use remote_dict.TcpFlow.Ideal.{Ideal, grown, reply_get, size-grown}
use remote_dict.TcpFlow.Concurrent.{
  Progress, idle, setting, getting, counting, stored, got, get_answer, count_outcome, Shared, moves,
}
use remote_dict.TcpFlow.Concurrent.Counting.{
  sum_of, is_setting, is_getting, is_hit, is_miss, sum_of-set_elem, setting-le,
}
use remote_dict.TcpFlow.Concurrent.Order.{after, Agrees}

grown-le : (o : Option Text) (n : ℕ) → grown o n ≤ n + 1
grown-le none n = omega arith
grown-le (some x) n = omega arith

module _ (b : BloomFilter) where
  -- The shared state of `n` threads on their way holds the ideal one: the counters lack what the
  -- threads have not counted yet.
  pub record Holds (n : ℕ) (s : Shared b) (a : Ideal) : Type 0 where
    pub unfiltered : s.world.dictionary.bloom_filter_enabled ≡ false
    pub contents : view s.world.dictionary ≡ a.store
    pub size : UnorderedMap.size s.world.dictionary.dict ≡ a.keys
    pub requests :
        s.world.stats.num_get_req ≡ (a.hits + a.misses + sum_of is_getting s.threads) % u64_mod
    pub succeeded :
        (s.world.stats.num_get_req_succ + sum_of is_hit s.threads) % u64_mod ≡ a.hits % u64_mod
    pub failed :
        (s.world.stats.num_get_req_fail + sum_of is_miss s.threads) % u64_mod ≡ a.misses % u64_mod
    pub bounded : a.keys + sum_of is_setting s.threads + 1 ≤ max_dict_size + n
    pub counted : length s.threads ≡ n

  module _ (n i : ℕ) (s : Shared b) (a : Ideal) (v : Holds n s a) where
    abbrev pub Stands : Progress → Type 0
    Stands p = get_elem? s.threads i ≡ some p

    -- Thread `i` goes from one point to another.
    sums :
        (p q : Progress)
        → Stands p
        → (sum_of is_setting (set_elem s.threads i q) + is_setting p
            ≡ sum_of is_setting s.threads + is_setting q)
          × (sum_of is_getting (set_elem s.threads i q) + is_getting p
              ≡ sum_of is_getting s.threads + is_getting q)
          × (sum_of is_hit (set_elem s.threads i q) + is_hit p ≡ sum_of is_hit s.threads + is_hit q)
          × (sum_of is_miss (set_elem s.threads i q) + is_miss p
              ≡ sum_of is_miss s.threads + is_miss q)
          × (length (set_elem s.threads i q) ≡ n)
    sums p q e = (
      sum_of-set_elem is_setting s.threads i p q e,
      sum_of-set_elem is_getting s.threads i p q e,
      sum_of-set_elem is_hit s.threads i p q e,
      sum_of-set_elem is_miss s.threads i p q e,
      length-set_elem s.threads i q ∙ v.counted,
    )

    -- Where the dictionary is as it was, what is left are the counts.
    same_dictionary :
        (q : Progress) (w : World b) (a' : Ideal)
        → w.dictionary ≡ s.world.dictionary
        → a'.store ≡ a.store
        → a'.keys ≡ a.keys
        → w.stats.num_get_req
          ≡ (a'.hits + a'.misses + sum_of is_getting (set_elem s.threads i q)) % u64_mod
        → (w.stats.num_get_req_succ + sum_of is_hit (set_elem s.threads i q)) % u64_mod
          ≡ a'.hits % u64_mod
        → (w.stats.num_get_req_fail + sum_of is_miss (set_elem s.threads i q)) % u64_mod
          ≡ a'.misses % u64_mod
        → a.keys + sum_of is_setting (set_elem s.threads i q) + 1 ≤ max_dict_size + n
        → length (set_elem s.threads i q) ≡ n
        → Holds n (moves b i q w s) a'
    same_dictionary q w a' same store keys requests succeeded failed bounded len = record {
      unfiltered = ap (λ (d : Dictionary b). d.bloom_filter_enabled) same ∙ v.unfiltered;
      contents = ap (λ (d : Dictionary b). view d) same ∙ (v.contents ∙ sym store);
      size = ap (λ (d : Dictionary b). UnorderedMap.size d.dict) same ∙ (v.size ∙ sym keys);
      requests = requests;
      succeeded = succeeded;
      failed = failed;
      bounded = omega (arith, bounded, keys);
      counted = len;
    }

    pub passes-Holds :
        (p : Payload)
        → Stands idle
        → is_full b s.world.dictionary ≡ false
        → Holds n (moves b i (setting p) s.world s) a
    unfolding is_full
    passes-Holds p e room =
        let (set, get, hit, miss, len) = sums idle (setting p) e in
        let room' : UnorderedMap.size s.world.dictionary.dict < max_dict_size = ground arith in
        same_dictionary (setting p) s.world a refl refl refl (omega (arith, v.requests))
          (omega (arith, v.succeeded)) (omega (arith, v.failed))
          (omega (arith, v.size, setting-le (set_elem s.threads i (setting p)))) len

    -- A test that finds no room changes nothing.
    pub refuses-full : is_full b s.world.dictionary ≡ true → max_dict_size ≤ a.keys
    unfolding is_full
    refuses-full full = ground (arith, v.size)

    pub writes-Holds :
        (p : Payload) (d : Dictionary b)
        → Stands (setting p)
        → set_locked b (text_of p.key) (text_of p.value) s.world.dictionary ≡ some d
        → Holds n (moves b i idle (record s.world { dictionary = d }) s) (after (stored p) a)
          × (a.keys < max_dict_size + n)
    unfolding after
    writes-Holds p d e wrote =
        let k : Text = text_of p.key in
        let x : Text = text_of p.value in
        let (set, get, hit, miss, len) = sums (setting p) idle e in
        let d' : Dictionary b = record s.world.dictionary {
          dict = UnorderedMap.assign k x s.world.dictionary.dict;
        } in
        let same : d ≡ d' =
          some-injective d d' (sym wrote ∙ (write_new b k x s.world.dictionary v.unfiltered).0) in
        let one_more : UnorderedMap.size d.dict ≡ grown (a.store k) a.keys =
          ap (λ (c : Dictionary b). UnorderedMap.size c.dict) same
          ∙ (size-grown b k x s.world.dictionary.dict (a.store k)
                (ap (λ (f : FiniteMap). f k) v.contents)
              ∙ ap (grown (a.store k)) v.size) in
        (
          record {
            unfiltered = ap (λ (c : Dictionary b). c.bloom_filter_enabled) same ∙ v.unfiltered;
            contents =
                ap (λ (c : Dictionary b). view c) same
                ∙ ((fun_ext λ j. find-assign k j x s.world.dictionary.dict)
                    ∙ ap (update k x) v.contents);
            size = one_more;
            requests = omega (arith, v.requests);
            succeeded = omega (arith, v.succeeded);
            failed = omega (arith, v.failed);
            bounded = omega (arith, v.bounded, grown-le (a.store k) a.keys);
            counted = len;
          },
          omega (arith, v.bounded),
        )

    pub counts-Holds :
        (p : Payload)
        → Stands idle
        → Holds n
            (moves b i (getting p) (record s.world { stats = incr_get_req s.world.stats }) s)
            a
    unfolding incr_get_req
    counts-Holds p e =
        let (set, get, hit, miss, len) = sums idle (getting p) e in
        same_dictionary (getting p) (record s.world { stats = incr_get_req s.world.stats }) a refl
          refl refl (omega (arith, v.requests)) (omega (arith, v.succeeded))
          (omega (arith, v.failed)) (omega (arith, v.bounded)) len

    pub ends-Holds :
        (p : Payload) (hit : Bool) (x : Text)
        → Stands (counting p (hit, x))
        → Holds n (moves b i idle (record s.world { stats = count_outcome hit s.world.stats }) s) a
    unfolding count_outcome
    ends-Holds p true x e =
        let (set, get, hit, miss, len) = sums (counting p (true, x)) idle e in
        same_dictionary idle (record s.world { stats = count_outcome true s.world.stats }) a refl
          refl refl (omega (arith, v.requests)) (omega (arith, v.succeeded))
          (omega (arith, v.failed)) (omega (arith, v.bounded)) len
    ends-Holds p false x e =
        let (set, get, hit, miss, len) = sums (counting p (false, x)) idle e in
        same_dictionary idle (record s.world { stats = count_outcome false s.world.stats }) a refl
          refl refl (omega (arith, v.requests)) (omega (arith, v.succeeded))
          (omega (arith, v.failed)) (omega (arith, v.bounded)) len

    gets-answer :
        (o : Option Text) (p : Payload)
        → Stands (getting p)
        → Holds n (moves b i (counting p (answer o)) s.world s) (reply_get o p a).1
          × (get_answer p (answer o) ≡ (reply_get o p a).0)
    unfolding reply_get get_answer
    gets-answer (some x) p e =
        let (set, get, hit, miss, len) = sums (getting p) (counting p (true, x)) e in
        (
          same_dictionary (counting p (true, x)) s.world (reply_get (some x) p a).1 refl refl refl
              (omega (arith, v.requests)) (omega (arith, v.succeeded)) (omega (arith, v.failed))
              (omega (arith, v.bounded)) len,
          refl,
        )
    gets-answer none p e =
        let (set, get, hit, miss, len) = sums (getting p) (counting p (answer none)) e in
        (
          same_dictionary (counting p (answer none)) s.world (reply_get none p a).1 refl refl refl
              (omega (arith, v.requests)) (omega (arith, v.succeeded)) (omega (arith, v.failed))
              (omega (arith, v.bounded)) len,
          refl,
        )

    pub gets-Holds :
        (p : Payload) (r : Bool × Text)
        → Stands (getting p)
        → Dictionary.get b (text_of p.key) [] s.world.dictionary ≡ some r
        → Holds n (moves b i (counting p r) s.world s) (after (got p (get_answer p r)) a)
          × Agrees n (got p (get_answer p r)) a
    unfolding after
    gets-Holds p r e gave =
        let k : Text = text_of p.key in
        let o : Option Text = a.store k in
        let same : answer o ≡ r =
          ap answer (ap (λ (f : FiniteMap). f k) (sym v.contents))
          ∙ some-injective _ _
              (sym (get_plain_lem b k [] s.world.dictionary v.unfiltered) ∙ gave) in
        let (holds, answers) = gets-answer o p e in
        (
          subst (λ x. Holds n (moves b i (counting p x) s.world s) (reply_get o p a).1) same holds,
          subst (λ x. get_answer p x ≡ (reply_get o p a).0) same answers,
        )
