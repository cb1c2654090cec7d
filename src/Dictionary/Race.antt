-- ===== src/Dictionary/Race.antt =====
-- What `set` does when several worker threads run it at once: the test of the size stands before
-- the lock, so any number of threads can pass it before one of them writes.
use remote_dict.Prelude.{
  ℕ, ◌+◌, ◌≤◌, ◌<◌, ◌≡◌, refl, true, false, none, some, List, [], ◌∷◌, ◌++◌, length, arith,
  length-append, ◌≢◌, ap,
}
use remote_dict.Text.{Text, text_eq_iff}
use remote_dict.UnorderedMap
use remote_dict.UnorderedMap.{size-assign, find-assign, find}
use remote_dict.BloomFilter.{BloomFilter}
use remote_dict.Dictionary.{Dictionary, max_dict_size, set_locked, is_full}
use remote_dict.Dictionary.Refinement.{size-assign_le, view}

module _ (b : BloomFilter) where
  -- The dictionary, and the arguments of the threads that have passed the test and wait for the
  -- lock.
  pub record Shared : Type 0 where
    pub dictionary : Dictionary b
    pub waiting : List (Text × Text)

  -- A step of one of `n` threads.
  pub data Step (n : ℕ) (s t : Shared) : Type 0 where
    pass :
        (k v : Text)
        → length s.waiting < n
        → is_full b s.dictionary ≡ false
        → t ≡ record s { waiting = (k, v) ∷ s.waiting }
        → Step n s t
    refuse : is_full b s.dictionary ≡ true → t ≡ s → Step n s t
    write :
        (before after : List (Text × Text)) (k v : Text) (d : Dictionary b)
        → s.waiting ≡ before ++ ((k, v) ∷ after)
        → set_locked b k v s.dictionary ≡ some d
        → t ≡ record { dictionary = d; waiting = before ++ after }
        → Step n s t

  pub data Steps (n : ℕ) (s : Shared) : Shared → Type 0 where
    here : Steps n s s
    next : {t u : Shared} → Steps n s t → Step n t u → Steps n s u

  -- The size with the writes to come stays below the limit by as many as there are threads.
  abbrev IsBounded : ℕ → Shared → Type 0
  IsBounded n s = UnorderedMap.size s.dictionary.dict + length s.waiting + 1 ≤ max_dict_size + n

  size-set_locked :
      (k v : Text) (d d' : Dictionary b)
      → set_locked b k v d ≡ some d'
      → UnorderedMap.size d'.dict ≤ UnorderedMap.size d.dict + 1
  unfolding set_locked
  size-set_locked k v d d' e = ground (arith, size-assign_le b k v d.dict)

  Step-IsBounded : (n : ℕ) (s t : Shared) → Step n s t → IsBounded n s → IsBounded n t
  unfolding is_full
  Step-IsBounded n s t (pass k v few room e) h = ground arith
  Step-IsBounded n s t (refuse full e) h = rw e h
  Step-IsBounded n s t (write before after k v d w l e) h = rw e (
      omega (
        arith,
        size-set_locked k v s.dictionary d l,
        ap (length {A = Text × Text}) w,
        length-append before after,
        length-append before ((k, v) ∷ after),
      ))

  -- However the steps of `n` threads in `set` interleave from a state in which none is in it, the
  -- dictionary stays less than `n` entries above the limit, if it was so before.
  pub size-Steps :
      (n : ℕ) (d : Dictionary b) {t : Shared}
      → UnorderedMap.size d.dict + 1 ≤ max_dict_size + n
      → Steps n (record { dictionary = d; waiting = [] }) t
      → UnorderedMap.size t.dictionary.dict + 1 ≤ max_dict_size + n
  size-Steps n d {t} h r = omega (arith, all r)
    where
      all : {u : Shared} → Steps n (record { dictionary = d; waiting = [] }) u → IsBounded n u
      all here = omega arith
      all (next q st) = Step-IsBounded n _ _ st (all q)

  pub write_new :
      (k v : Text) (d : Dictionary b)
      → d.bloom_filter_enabled ≡ false
      → (set_locked b k v d ≡ some (record d { dict = UnorderedMap.assign k v d.dict }))
        × (view d k ≡ none
            → UnorderedMap.size (UnorderedMap.assign k v d.dict) ≡ UnorderedMap.size d.dict + 1)
  unfolding set_locked
  write_new k v d off = (ground arith, λ h. ground (arith, size-assign k v d.dict))

  -- Two threads bring a dictionary without the filter, one entry below the limit, to one above it
  -- by setting two different new keys.
  pub race_overruns :
      (d : Dictionary b) (j k v w : Text)
      → d.bloom_filter_enabled ≡ false
      → UnorderedMap.size d.dict + 1 ≡ max_dict_size
      → view d j ≡ none
      → view d k ≡ none
      → j ≢ k
      → (t : Shared) × Steps 2 (record { dictionary = d; waiting = [] }) t
        × (UnorderedMap.size t.dictionary.dict ≡ max_dict_size + 1)
  unfolding is_full
  race_overruns d j k v w off almost new_j new_k apart =
      let d₁ = record d { dict = UnorderedMap.assign j v d.dict } in
      let d₂ = record d₁ { dict = UnorderedMap.assign k w d₁.dict } in
      (
        record { dictionary = d₂; waiting = [] },
        next
            (next
              (next (next here (pass j v (omega arith) (ground arith) refl))
                (pass k w (omega arith) (ground arith) refl))
              (write ((k, w) ∷ []) [] j v d₁ refl (write_new j v d off).0 refl))
            (write [] [] k w d₂ refl (write_new k w d₁ off).0 refl),
        omega (
          arith,
          (write_new j v d off).1 new_j,
          (write_new k w d₁ off).1 (ground (arith, find-assign j k v d.dict, text_eq_iff j k)),
        ),
      )
