-- ===== src/WorkerManager/RoundRobin.antt =====
-- The ROUND_ROBIN choice of server/src/WorkerManager.cpp, many times in a row.
use native.Mathlib.Nat.{mod-eq_of_lt, mod_self}
use remote_dict.Prelude.{
  ℕ, zero, suc, ◌+◌, ◌%◌, ◌≤◌, ◌<◌, ◌≡◌, refl, Option, some, List, [], ◌∷◌, length, arith, leb,
  ◌==◌, if◌then◌else◌, ◌>>=◌, ◌&&◌, u32_mod, Bool-cases, inl, inr,
}
use remote_dict.WorkerManager.{next_index}

-- The worker after `i` of `n`, in a circle.
unfoldable pub following : ℕ → ℕ → ℕ
following i n = if leb n (i + 1) then 0 else i + 1

pub following-lt : (i n : ℕ) → i < n → following i n < n
unfolding following
following-lt i n h = ground arith

-- From an index in range the next one is the next worker, and the first after the last.
pub next_index_lem : (i n : ℕ) → i < n → n < u32_mod → next_index i n ≡ some (following i n)
unfolding next_index following
next_index_lem i n h small = ground (arith, turn, unwrapped)
  where
    unwrapped : (i + 1) % u32_mod ≡ i + 1
    unwrapped = mod-eq_of_lt (omega arith)

    turn : (i + 1) % n ≡ (if leb n (i + 1) then 0 else i + 1)
    turn = elim (Bool-cases (leb n (i + 1))) [
      | inl e ↦ let last : i + 1 ≡ n = ground arith in rw e (rw last (mod_self n))
      | inr e ↦ rw e (mod-eq_of_lt (ground arith))
    ]

-- The indices of `k` choices in a row.
unfoldable pub choices : ℕ → ℕ → ℕ → Option (List ℕ)
choices zero i n = some []
choices (suc k) i n = do j ← next_index i n; js ← choices k j n; some (j ∷ js)

-- How often worker `w` was chosen.
unfoldable pub times : ℕ → List ℕ → ℕ
times w [] = 0
times w (j ∷ js) = if j == w then times w js + 1 else times w js

-- With the index at `i` after so many choices, the workers up to `i` but the first are one ahead.
abbrev ahead : ℕ → ℕ → ℕ
ahead i w = if leb 1 w && leb w i then 1 else 0

choices-ahead :
    (k i n : ℕ)
    → i < n
    → n < u32_mod
    → (js : List ℕ) × (choices k i n ≡ some js)
      × (length js ≡ k)
      × ((j : ℕ) × (q : ℕ) × (j < n) × ((w : ℕ) → w < n → times w js + ahead i w ≡ q + ahead j w))
unfolding choices times following
choices-ahead zero i n h small = ([], refl, refl, (i, 0, h, λ w _. omega arith))
choices-ahead (suc k) i n h small =
    let i' : ℕ = following i n in
    let in_range : i' < n = following-lt i n h in
    let (js, e, l, (j, q, jn, t)) = choices-ahead k i' n in_range small in
    (
      i' ∷ js,
      rw (next_index_lem i n h small, e) refl,
      omega (arith, l),
      (j, if leb n (i + 1) then q + 1 else q, jn, λ w wn. ground (arith, t w wn)),
    )

-- In a pool of less than 2 ^ 32 workers that begins at index 0, any number of choices in a row all
-- succeed, and no worker of the pool is chosen more than once more than another.
pub round_robin_fair :
    (k n v w : ℕ)
    → n < u32_mod
    → v < n
    → w < n
    → (js : List ℕ) × (choices k 0 n ≡ some js) × (length js ≡ k) × (times v js ≤ times w js + 1)
round_robin_fair k n v w small vn wn =
    let (js, e, l, (j, q, jn, t)) = choices-ahead k 0 n (omega arith) small in
    (js, e, l, ground (arith, t v vn, t w wn))
