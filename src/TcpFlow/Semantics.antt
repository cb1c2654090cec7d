-- ===== src/TcpFlow/Semantics.antt =====
-- The request handlers of server/src/TcpFlow.cpp against the dictionary's finite map and the
-- counters of server/src/Stats.cpp.
use remote_dict.Prelude.{
  ◌+◌, ◌%◌, ◌^◌, ◌<◌, ◌≡◌, refl, ◌∙◌, ap, Bool, true, false, some, [], arith, ltb, if◌then◌else◌,
  inl, inr, Bool-cases, u64_mod, pos, int32_of_small, lt→ltb,
}
use remote_dict.Text.{Text, bytes, text_eq_refl}
use remote_dict.BloomFilter.{BloomFilter, NoFalseNegatives}
use remote_dict.UnorderedMap
use remote_dict.Dictionary.{Dictionary, max_dict_size, not_found}
use remote_dict.Dictionary
use remote_dict.Dictionary.Refinement.{
  view, answer, IsValid, set_lem, get_plain_lem, get_filtered_lem,
}
use remote_dict.Stats.{Stats, incr_get_req, incr_get_req_succ, incr_get_req_fail}
use remote_dict.Payload.{Payload, RequestType, text_of}
use remote_dict.TcpFlow.Requests.{
  World, handle_request, handle_get_request, handle_set_request, handle_stat_request,
}

-- Every GET is counted once more, as a success or a failure; the counters wrap together.
abbrev pub IsBalanced : Stats → Type 0
IsBalanced s = s.num_get_req ≡ (s.num_get_req_succ + s.num_get_req_fail) % u64_mod

module _ (b : BloomFilter) (laws : NoFalseNegatives b) where
  pub record IsSound (w : World b) : Type 0 where
    pub valid : IsValid b w.dictionary
    pub balanced : IsBalanced w.stats

  get-total :
      (k val : Text) (d : Dictionary b)
      → IsValid b d
      → (r : Bool × Text) × (Dictionary.get b k val d ≡ some r)
  get-total k val d valid = elim (Bool-cases d.bloom_filter_enabled) [
    | inl on ↦ let (w, e, _) = get_filtered_lem b laws k val d valid on in ((false, w), e)
    | inr off ↦ (answer (view d k), get_plain_lem b k val d off)
  ]

  IsBalanced-succ : (s : Stats) → IsBalanced s → IsBalanced (incr_get_req_succ (incr_get_req s))
  unfolding incr_get_req incr_get_req_succ
  IsBalanced-succ s h = omega arith

  IsBalanced-fail : (s : Stats) → IsBalanced s → IsBalanced (incr_get_req_fail (incr_get_req s))
  unfolding incr_get_req incr_get_req_fail
  IsBalanced-fail s h = omega arith

  handle_get_succ :
      (p : Payload) (w : World b) (v : Text)
      → Dictionary.get b (text_of p.key) [] w.dictionary ≡ some (true, v)
      → handle_get_request b p w
        ≡ some (
          record p { value = some v },
          record w { stats = incr_get_req_succ (incr_get_req w.stats) },
        )
  unfolding handle_get_request
  handle_get_succ p w v e = rw e refl

  handle_get_fail :
      (p : Payload) (w : World b) (v : Text)
      → Dictionary.get b (text_of p.key) [] w.dictionary ≡ some (false, v)
      → handle_get_request b p w
        ≡ some (
          record p { reason = some v },
          record w { stats = incr_get_req_fail (incr_get_req w.stats) },
        )
  unfolding handle_get_request
  handle_get_fail p w v e = rw e refl

  -- In a sound state (a valid dictionary, and as many GETs counted as successes and failures
  -- together) every request of every type is handled, and the state after it is sound.
  pub handle_request-IsSound :
      (type : RequestType) (p : Payload) (w : World b)
      → IsSound w
      → (q : Payload) × (w' : World b) × (handle_request b type p w ≡ some (q, w')) × IsSound w'
  unfolding handle_request
  handle_request-IsSound RequestType.get p w s =
      let (r, e) = get-total (text_of p.key) [] w.dictionary s.valid in
      elim (Bool-cases r.0) [
        | inl hit ↦ (
          record p { value = some r.1 },
          record w { stats = incr_get_req_succ (incr_get_req w.stats) },
          handle_get_succ p w r.1 (e ∙ ap (λ c. some (c, r.1)) hit),
          record { valid = s.valid; balanced = IsBalanced-succ w.stats s.balanced },
        )
        | inr miss ↦ (
          record p { reason = some r.1 },
          record w { stats = incr_get_req_fail (incr_get_req w.stats) },
          handle_get_fail p w r.1 (e ∙ ap (λ c. some (c, r.1)) miss),
          record { valid = s.valid; balanced = IsBalanced-fail w.stats s.balanced },
        )
      ]
  handle_request-IsSound RequestType.set p w s =
      let (d, e, valid, _, _) =
        set_lem b laws (text_of p.key) (text_of p.value) w.dictionary s.valid in
      (
        if ltb (UnorderedMap.size w.dictionary.dict) max_dict_size
            then p
            else record p { reason = some (bytes "failed") },
        record w { dictionary = d },
        unfold handle_set_request in rw e refl,
        record { valid = valid; balanced = s.balanced },
      )
  handle_request-IsSound RequestType.stat p w s = unfold handle_stat_request in (_, w, refl, s)

  -- With a filter library without false negatives, a GET of a stored key in a sound state: without
  -- the filter the value is answered and counted as a success; with the filter it is answered as the
  -- reason and counted as a failure.
  pub handle_request-stored :
      (p : Payload) (w : World b) (v : Text)
      → IsSound w
      → view w.dictionary (text_of p.key) ≡ some v
      → handle_request b RequestType.get p w ≡ (
          if w.dictionary.bloom_filter_enabled
          then some (
            record p { reason = some v },
            record w { stats = incr_get_req_fail (incr_get_req w.stats) },
          )
          else some (
            record p { value = some v },
            record w { stats = incr_get_req_succ (incr_get_req w.stats) },
          ))
  unfolding handle_request
  handle_request-stored p w v s h = elim (Bool-cases w.dictionary.bloom_filter_enabled) [
    | inl on ↦
        let (t, e, seen) = get_filtered_lem b laws (text_of p.key) [] w.dictionary s.valid on in
        let same : t ≡ v = ground arith in
        simp on (handle_get_fail p w v (e ∙ ap (λ x. some (false, x)) same))
    | inr off ↦ simp off (
        handle_get_succ p w v
          (get_plain_lem b (text_of p.key) [] w.dictionary off ∙ ap (λ o. some (answer o)) h))
  ]

  -- In a sound state without the filter and with room, a SET is answered without a reason and
  -- changes no counter, and a GET of the same key after it is answered by the SET's value and
  -- counted as a success.
  handle_request-set-get :
      (p q : Payload) (w : World b)
      → IsSound w
      → w.dictionary.bloom_filter_enabled ≡ false
      → UnorderedMap.size w.dictionary.dict < max_dict_size
      → text_of q.key ≡ text_of p.key
      → (w' : World b) × (handle_request b RequestType.set p w ≡ some (p, w'))
        × (w'.stats ≡ w.stats)
        × (handle_request b RequestType.get q w'
            ≡ some (
              record q { value = some (text_of p.value) },
              record w' { stats = incr_get_req_succ (incr_get_req w.stats) },
            ))
  unfolding handle_request
  handle_request-set-get p q w s off room same =
      let (d, e, valid, flag, m) =
        set_lem b laws (text_of p.key) (text_of p.value) w.dictionary s.valid in
      let w' : World b = record w { dictionary = d } in
      let accepted : ltb (UnorderedMap.size w.dictionary.dict) max_dict_size ≡ true =
        lt→ltb _ _ room in
      let there : view d (text_of q.key) ≡ some (text_of p.value) =
        rw (same, m (text_of p.key), accepted, text_eq_refl (text_of p.key)) refl in
      (
        w',
        unfold handle_set_request in rw (e, accepted) refl,
        refl,
        handle_get_succ q w' (text_of p.value)
            (get_plain_lem b (text_of q.key) [] d (flag ∙ off) ∙ ap (λ o. some (answer o)) there),
      )

  -- While the counters are below 2 ^ 31 a STAT is answered by them, and changes nothing.
  handle_request-stat :
      (p : Payload) (w : World b)
      → w.stats.num_get_req < 2 ^ 31
      → w.stats.num_get_req_succ < 2 ^ 31
      → w.stats.num_get_req_fail < 2 ^ 31
      → handle_request b RequestType.stat p w
        ≡ some (
          record p {
            stats = some (record {
              numgetreq = some (pos w.stats.num_get_req);
              numsuccgetreq = some (pos w.stats.num_get_req_succ);
              numfailgetreq = some (pos w.stats.num_get_req_fail);
            });
          },
          w,
        )
  unfolding handle_request handle_stat_request
  handle_request-stat p w a b c =
      rw (int32_of_small _ a, int32_of_small _ b, int32_of_small _ c) refl
