-- ===== src/TcpFlow/Ideal.antt =====
-- What the server promises its clients while the filter is off: a finite map with a limit and two
-- counts, and the handlers of server/src/TcpFlow.cpp as operations on them.
use mathlib.Core.Path.{fun_ext}
use remote_dict.Prelude.{
  ℕ, ◌+◌, ◌%◌, ◌≤◌, ◌<◌, ◌≡◌, refl, ap, ◌∙◌, sym, true, false, Option, none, some, [], arith, inl,
  inr, ltb, ltb→lt, Bool-cases, if◌then◌else◌, int32_of, int32_of-mod, u64_mod,
}
use remote_dict.Text.{Text, bytes}
use remote_dict.BloomFilter.{BloomFilter, NoFalseNegatives}
use remote_dict.UnorderedMap
use remote_dict.UnorderedMap.{find-assign, size-assign}
use remote_dict.Dictionary
use remote_dict.Dictionary.{Dictionary, max_dict_size, not_found, set_locked, is_full}
use remote_dict.Dictionary.Refinement.{view, IsValid, get_plain_lem, set_locked_lem}
use remote_dict.Dictionary.History.{FiniteMap, update}
use remote_dict.Stats
use remote_dict.Stats.{incr_get_req, incr_get_req_succ, incr_get_req_fail}
use remote_dict.Payload.{Payload, RequestType, Stat, text_of}
use remote_dict.TcpFlow.Requests.{
  World, handle_request, handle_get_request, handle_set_request, handle_stat_request,
}

-- The contents, how many keys they have, and how many GETs have found their key and how many have
-- not.
pub record Ideal : Type 0 where
  pub store : FiniteMap
  pub keys : ℕ
  pub hits : ℕ
  pub misses : ℕ

abbrev pub nothing : Ideal
nothing = record { store = λ k. none; keys = 0; hits = 0; misses = 0 }

-- The counts as the 32-bit fields of the message hold them.
unfoldable pub counts : Ideal → Stat
counts s = record {
  numgetreq = some (int32_of (s.hits + s.misses));
  numsuccgetreq = some (int32_of s.hits);
  numfailgetreq = some (int32_of s.misses);
}

unfoldable pub reply_get : Option Text → Payload → Ideal → Payload × Ideal
reply_get (some v) p s = (record p { value = some v }, record s { hits = s.hits + 1 })
reply_get none p s = (record p { reason = some not_found }, record s { misses = s.misses + 1 })

abbrev pub grown : Option Text → ℕ → ℕ
grown none n = n + 1
grown (some v) n = n

-- A write is refused where the limit is reached, also for a key that is there.
unfoldable pub reply_set : Payload → Ideal → Payload × Ideal
reply_set p s =
    if ltb s.keys max_dict_size
    then (
      p,
      record s {
        store = update (text_of p.key) (text_of p.value) s.store;
        keys = grown (s.store (text_of p.key)) s.keys;
      },
    )
    else (record p { reason = some (bytes "failed") }, s)

-- The answer to a request, and the state after it.
unfoldable pub reply : RequestType → Payload → Ideal → Payload × Ideal
unfolding reply_get reply_set counts
reply RequestType.get p s = reply_get (s.store (text_of p.key)) p s
reply RequestType.set p s = reply_set p s
reply RequestType.stat p s = (record p { stats = some (counts s) }, s)

reply_get-type :
    (o : Option Text) (p : Payload) (s : Ideal) → (reply_get o p s).0.requesttype ≡ p.requesttype
unfolding reply_get
reply_get-type (some v) p s = refl
reply_get-type none p s = refl

reply_set-type : (p : Payload) (s : Ideal) → (reply_set p s).0.requesttype ≡ p.requesttype
unfolding reply_set
reply_set-type p s = ground arith

-- An answer has the type of its request.
pub reply-type :
    (type : RequestType) (p : Payload) (s : Ideal) → (reply type p s).0.requesttype ≡ p.requesttype
unfolding reply
reply-type RequestType.get p s = reply_get-type (s.store (text_of p.key)) p s
reply-type RequestType.set p s = reply_set-type p s
reply-type RequestType.stat p s = refl

module _ (b : BloomFilter) where
  -- The server's state holds the ideal one, and does not use the filter.
  pub record Represents (w : World b) (s : Ideal) : Type 0 where
    pub valid : IsValid b w.dictionary
    pub unfiltered : w.dictionary.bloom_filter_enabled ≡ false
    pub contents : view w.dictionary ≡ s.store
    pub size : UnorderedMap.size w.dictionary.dict ≡ s.keys
    pub requests : w.stats.num_get_req ≡ (s.hits + s.misses) % u64_mod
    pub succeeded : w.stats.num_get_req_succ ≡ s.hits % u64_mod
    pub failed : w.stats.num_get_req_fail ≡ s.misses % u64_mod

  -- The state of a server that has just started.
  pub new-Represents :
      Represents (record { dictionary = Dictionary.init b; stats = Stats.init }) nothing
  unfolding UnorderedMap.find
  new-Represents = record {
    valid = record { bounded = omega arith; distinct = tt; covered = λ on. absurd (cc) };
    unfiltered = refl;
    contents = refl;
    size = refl;
    requests = refl;
    succeeded = refl;
    failed = refl;
  }

  reply_get-handled :
      (o : Option Text) (p : Payload) (w : World b) (s : Ideal)
      → Represents w s
      → view w.dictionary (text_of p.key) ≡ o
      → (w' : World b) × (handle_get_request b p w ≡ some ((reply_get o p s).0, w'))
        × Represents w' (reply_get o p s).1
  unfolding handle_get_request reply_get incr_get_req incr_get_req_succ incr_get_req_fail
  reply_get-handled (some v) p w s r seen = (
    record w { stats = incr_get_req_succ (incr_get_req w.stats) },
    rw (get_plain_lem b (text_of p.key) [] w.dictionary r.unfiltered, seen) refl,
    record {
      valid = r.valid;
      unfiltered = r.unfiltered;
      contents = r.contents;
      size = r.size;
      requests = omega (arith, r.requests);
      succeeded = omega (arith, r.succeeded);
      failed = r.failed;
    },
  )
  reply_get-handled none p w s r seen = (
    record w { stats = incr_get_req_fail (incr_get_req w.stats) },
    rw (get_plain_lem b (text_of p.key) [] w.dictionary r.unfiltered, seen) refl,
    record {
      valid = r.valid;
      unfiltered = r.unfiltered;
      contents = r.contents;
      size = r.size;
      requests = omega (arith, r.requests);
      succeeded = r.succeeded;
      failed = omega (arith, r.failed);
    },
  )

  pub size-grown :
      (k v : Text) (m : UnorderedMap.UnorderedMap Text) (o : Option Text)
      → UnorderedMap.find k m ≡ o
      → UnorderedMap.size (UnorderedMap.assign k v m) ≡ grown o (UnorderedMap.size m)
  size-grown k v m none e = ground (arith, size-assign k v m)
  size-grown k v m (some x) e = ground (arith, size-assign k v m)

  set_passes :
      (k v : Text) (d d' : Dictionary b)
      → UnorderedMap.size d.dict < max_dict_size
      → set_locked b k v d ≡ some d'
      → Dictionary.set b k v d ≡ some (true, d')
  unfolding Dictionary.set
  set_passes k v d d' room e = ground arith

  set_refuses :
      (k v : Text) (d : Dictionary b)
      → max_dict_size ≤ UnorderedMap.size d.dict
      → Dictionary.set b k v d ≡ some (false, d)
  unfolding Dictionary.set
  set_refuses k v d full = ground arith

  module _ (laws : NoFalseNegatives b) where
    reply_set-handled :
        (p : Payload) (w : World b) (s : Ideal)
        → Represents w s
        → (w' : World b) × (handle_set_request b p w ≡ some ((reply_set p s).0, w'))
          × Represents w' (reply_set p s).1
    unfolding handle_set_request reply_set
    reply_set-handled p w s r = elim (Bool-cases (ltb s.keys max_dict_size)) [
      | inl room ↦
          let k : Text = text_of p.key in
          let v : Text = text_of p.value in
          let small : UnorderedMap.size w.dictionary.dict < max_dict_size =
            omega (arith, ltb→lt s.keys max_dict_size room, r.size) in
          let (d, e, valid, same, m) = set_locked_lem b laws k v w.dictionary r.valid small in
          (
            record w { dictionary = d },
            rw (set_passes k v w.dictionary d small e, room) refl,
            rw room (record {
              valid = valid;
              unfiltered = same ∙ r.unfiltered;
              contents =
                  (fun_ext λ j. ap (UnorderedMap.find j) m ∙ find-assign k j v w.dictionary.dict)
                  ∙ ap (update k v) r.contents;
              size =
                  ap (UnorderedMap.size {V = Text}) m
                  ∙ (size-grown k v w.dictionary.dict (s.store k)
                        (ap (λ (f : FiniteMap). f k) r.contents)
                      ∙ ap (grown (s.store k)) r.size);
              requests = r.requests;
              succeeded = r.succeeded;
              failed = r.failed;
            }),
          )
      | inr full ↦ (
        w,
        rw
            (
              set_refuses (text_of p.key) (text_of p.value) w.dictionary (ground (arith, r.size)),
              full,
            )
            refl,
        rw full r,
      )
    ]

    -- With a filter library without false negatives, from a state that represents the ideal one,
    -- so that its dictionary is valid and the filter is off: every request is handled as the ideal
    -- server answers it, and the state after it represents the ideal one after it.
    pub handle_request-reply :
        (type : RequestType) (p : Payload) (w : World b) (s : Ideal)
        → Represents w s
        → (w' : World b) × (handle_request b type p w ≡ some ((reply type p s).0, w'))
          × Represents w' (reply type p s).1
    unfolding handle_request reply
    handle_request-reply RequestType.get p w s r =
        reply_get-handled (s.store (text_of p.key)) p w s r
          (ap (λ (f : FiniteMap). f (text_of p.key)) r.contents)
    handle_request-reply RequestType.set p w s r = reply_set-handled p w s r
    handle_request-reply RequestType.stat p w s r = (
      w,
      unfold handle_stat_request counts in
          rw
            (
              sym (int32_of-mod (s.hits + s.misses)),
              sym (int32_of-mod s.hits),
              sym (int32_of-mod s.misses),
            )
            (ground (arith, r.requests, r.succeeded, r.failed)),
      r,
    )
