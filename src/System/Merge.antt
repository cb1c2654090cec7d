-- ===== src/System/Merge.antt =====
-- The entries of several threads, thread by thread, and in the order in which they were made:
-- the results of a run of client/src/TestClient.cpp, which `saveResults` sorts by their times.
use remote_dict.Prelude.{
  ℕ, zero, suc, ◌+◌, ◌≤◌, ◌<◌, ◌≡◌, refl, sym, ap, ◌∙◌, false, List, [], ◌∷◌, ◌++◌, arith,
  append_assoc, Bool-cases, inl, inr, ◌==◌,
}
use remote_dict.Client.{ResultData}
use remote_dict.TestClient.Results.{compare_by_timestamp, insert_sorted, sort}
use remote_dict.System.{own}

module _ {ℓ} {A : Type ℓ} where
  -- The entries of `n` threads from `i` on, as a list for each thread, and one behind the other.
  unfoldable pub shares : ℕ → ℕ → List (ℕ × A) → List (List A)
  shares i zero xs = []
  shares i (suc n) xs = own i xs ∷ shares (i + 1) n xs

  unfoldable pub gather : ℕ → ℕ → List (ℕ × A) → List A
  gather i zero xs = []
  gather i (suc n) xs = own i xs ++ gather (i + 1) n xs

  -- Without the threads.
  unfoldable pub entries : List (ℕ × A) → List A
  entries [] = []
  entries ((_, x) ∷ xs) = x ∷ entries xs

  -- Every entry belongs to one of the first `n` threads.
  abbrev pub AllBelow : ℕ → List (ℕ × A) → Type 0
  AllBelow n [] = Unit
  AllBelow n ((j, _) ∷ xs) = (j < n) × AllBelow n xs

  abbrev pub All : (A → Type 0) → List A → Type 0
  All P [] = Unit
  All P (x ∷ xs) = P x × All P xs

  All-append : (P : A → Type 0) (xs ys : List A) → All P xs → All P ys → All P (xs ++ ys)
  All-append P [] ys h k = k
  All-append P (x ∷ xs) ys h k = (h.0, All-append P xs ys h.1 k)

  pub All-own : (P : A → Type 0) (i : ℕ) (xs : List (ℕ × A)) → All P (entries xs) → All P (own i xs)
  unfolding entries own
  All-own P i [] h = tt
  All-own P i ((j, x) ∷ xs) h = elim (Bool-cases (j == i)) [
    | inl mine ↦ rw mine (h.0, All-own P i xs h.1)
    | inr other ↦ rw other (All-own P i xs h.1)
  ]

  gather-nil : (i n : ℕ) → gather i n [] ≡ []
  unfolding gather own
  gather-nil i zero = refl
  gather-nil i (suc n) = gather-nil (i + 1) n

  gather-skip :
      (i n j : ℕ) (x : A) (xs : List (ℕ × A)) → j < i → gather i n ((j, x) ∷ xs) ≡ gather i n xs
  unfolding gather own
  gather-skip i zero j x xs h = refl
  gather-skip i (suc n) j x xs h =
      let other : (j == i) ≡ false = ground arith in
      rw (other, own) (ap (◌++◌ (own i xs)) (gather-skip (i + 1) n j x xs (omega arith)))

  -- The first entry that was made stands somewhere among the others, behind some of them.
  gather-cons :
      (P : A → Type 0) (i n j : ℕ) (x : A) (xs : List (ℕ × A))
      → i ≤ j
      → j < i + n
      → All P (entries xs)
      → (before after : List A) × (gather i n ((j, x) ∷ xs) ≡ before ++ (x ∷ after))
        × (gather i n xs ≡ before ++ after)
        × All P before
  unfolding gather own
  gather-cons P i zero j x xs low high h = absurd (omega arith)
  gather-cons P i (suc n) j x xs low high h = elim (Bool-cases (j == i)) [
    | inl mine ↦ (
      [],
      own i xs ++ gather (i + 1) n xs,
      rw (mine, own)
          (ap (λ ys. x ∷ (own i xs ++ ys)) (gather-skip (i + 1) n j x xs (ground arith))),
      refl,
      tt,
    )
    | inr other ↦
        let (before, after, e, e', all) =
          gather-cons P (i + 1) n j x xs (ground arith) (omega arith) h in
        (
          own i xs ++ before,
          after,
          rw (other, own, e) (sym (append_assoc (own i xs) before (x ∷ after))),
          rw e' (sym (append_assoc (own i xs) before after)),
          All-append P (own i xs) before (All-own P i xs h) all,
        )
  ]

-- Later than the result.
abbrev pub Later : ResultData → ResultData → Type 0
Later r s = r.timestamp < s.timestamp

-- Made at increasing times.
abbrev pub IsTimed : List (ℕ × ResultData) → Type 0
IsTimed [] = Unit
IsTimed ((_, r) ∷ rs) = All (Later r) (entries rs) × IsTimed rs

insert_sorted_comm :
    (r s : ResultData) (rs : List ResultData)
    → r.timestamp < s.timestamp
    → insert_sorted r (insert_sorted s rs) ≡ insert_sorted s (insert_sorted r rs)
unfolding insert_sorted compare_by_timestamp
insert_sorted_comm r s [] h = ground arith
insert_sorted_comm r s (x ∷ rs) h = ground (arith, insert_sorted_comm r s rs h)

sort-middle :
    (r : ResultData) (before after : List ResultData)
    → All (Later r) before
    → sort (before ++ (r ∷ after)) ≡ insert_sorted r (sort (before ++ after))
unfolding sort
sort-middle r [] after h = refl
sort-middle r (x ∷ before) after h =
    ap (insert_sorted x) (sort-middle r before after h.1)
    ∙ sym (insert_sorted_comm r x (sort (before ++ after)) h.0)

insert_sorted_first :
    (r : ResultData) (rs : List ResultData) → All (Later r) rs → insert_sorted r rs ≡ r ∷ rs
unfolding insert_sorted compare_by_timestamp
insert_sorted_first r [] h = refl
insert_sorted_first r (s ∷ rs) h = ground arith

-- Results of `n` threads that were made at increasing times are sorted into the order in which
-- they were made.
pub sort-gather :
    (n : ℕ) (rs : List (ℕ × ResultData))
    → AllBelow n rs
    → IsTimed rs
    → sort (gather 0 n rs) ≡ entries rs
unfolding entries
sort-gather n [] below timed = unfold sort in ap sort (gather-nil 0 n)
sort-gather n ((j, r) ∷ rs) below timed =
    let (before, after, e, e', later) =
      gather-cons (Later r) 0 n j r rs (omega arith) (omega arith) timed.0 in
    ap sort e
    ∙ (sort-middle r before after later
        ∙ (ap (insert_sorted r) (ap sort (sym e') ∙ sort-gather n rs below.1 timed.1)
            ∙ insert_sorted_first r (entries rs) timed.0))
