-- ===== src/WorkerManager/LeastLoaded.antt =====
-- The DIST_LESS_LOADED_WORKER choice of server/src/WorkerManager.cpp.
use mathlib.Core.Option.{some-injective}
use remote_dict.Prelude.{
  subst, ℕ, zero, suc, ◌+◌, ◌≤◌, ◌<◌, ◌≡◌, refl, ◌⊎◌, inl, inr, some, List, [], ◌∷◌, get_elem?,
  arith, ltb, int_max, Bool-cases,
}
use remote_dict.WorkerManager.{least_loaded}

-- A property of all entries of a list, from the head and the tail.
at_cons :
    (P : ℕ → ℕ → Type 0) (x : ℕ) (xs : List ℕ)
    → P 0 x
    → ((l u : ℕ) → get_elem? xs l ≡ some u → P (suc l) u)
    → (l u : ℕ) → get_elem? (x ∷ xs) l ≡ some u
    → P l u
at_cons P x xs p rest zero u h = subst (P 0) (some-injective x u h) p
at_cons P x xs p rest (suc l) u h = rest l u h

-- The loop over the queues from `i` on, with the shortest so far: it keeps `index` if no queue is
-- shorter than `min`, or else finds the first that is shorter than all before it.
abbrev Found : List ℕ → ℕ → ℕ → ℕ → ℕ → Type 0
Found sizes i min index r =
    ((r ≡ index) × ((k s : ℕ) → get_elem? sizes k ≡ some s → min ≤ s))
    ⊎ ((k : ℕ) × (s : ℕ) × (r ≡ i + k)
        × (get_elem? sizes k ≡ some s)
        × (s < min)
        × ((l u : ℕ) → get_elem? sizes l ≡ some u → (s ≤ u) × (l < k → s < u)))

least_loaded-Found :
    (sizes : List ℕ) (i min index : ℕ) → Found sizes i min index (least_loaded sizes i min index)
unfolding least_loaded
least_loaded-Found [] i min index = inl (refl, λ k s h. absurd (cc))
least_loaded-Found (x ∷ sizes) i min index = elim (Bool-cases (ltb x min)) [
  | inl e ↦ rw e (closer (ground arith) (least_loaded-Found sizes (i + 1) x i))
  | inr e ↦ rw e (same (ground arith) (least_loaded-Found sizes (i + 1) min index))
]
  where
    closer :
        x < min
        → Found sizes (i + 1) x i (least_loaded sizes (i + 1) x i)
        → Found (x ∷ sizes) i min index (least_loaded sizes (i + 1) x i)
    closer lt (inl (e, all)) = inr (
      0,
      x,
      omega arith,
      refl,
      lt,
      at_cons (λ l u. (x ≤ u) × (l < 0 → x < u)) x sizes (omega arith)
          (λ l u h. (all l u h, λ n. absurd (omega arith))),
    )
    closer lt (inr (k, s, e, at, less, all)) = inr (
      suc k,
      s,
      omega arith,
      at,
      omega arith,
      at_cons (λ l u. (s ≤ u) × (l < suc k → s < u)) x sizes (omega arith)
          (λ l u h. ground (arith, all l u h)),
    )

    same :
        min ≤ x
        → Found sizes (i + 1) min index (least_loaded sizes (i + 1) min index)
        → Found (x ∷ sizes) i min index (least_loaded sizes (i + 1) min index)
    same le (inl (e, all)) = inl (e, at_cons (λ l u. min ≤ u) x sizes le all)
    same le (inr (k, s, e, at, less, all)) = inr (
      suc k,
      s,
      omega arith,
      at,
      less,
      at_cons (λ l u. (s ≤ u) × (l < suc k → s < u)) x sizes (omega arith)
          (λ l u h. ground (arith, all l u h)),
    )

-- For queues shorter than INT_MAX the worker that the least loaded policy chooses exists; its
-- queue is no longer than that of any worker, and shorter than that of every worker before it.
pub least_loaded_shortest :
    (sizes : List ℕ) (l u : ℕ)
    → ((k s : ℕ) → get_elem? sizes k ≡ some s → s < int_max)
    → get_elem? sizes l ≡ some u
    → (s : ℕ) × (get_elem? sizes (least_loaded sizes 0 int_max 0) ≡ some s)
      × (s ≤ u)
      × ((least_loaded sizes 0 int_max 0 ≤ l) ⊎ (s < u))
least_loaded_shortest [] l u small h = absurd (ground arith)
least_loaded_shortest (x ∷ sizes) l u small h = elim (least_loaded-Found (x ∷ sizes) 0 int_max 0) [
  | inl (e, all) ↦ absurd (omega (arith, all 0 x refl, small 0 x refl))
  | inr (k, s, e, at, less, all) ↦
      let index : least_loaded (x ∷ sizes) 0 int_max 0 ≡ k = omega arith in
      (s, rw index at, ground (arith, (all l u h).0), ground (arith, all l u h))
]
