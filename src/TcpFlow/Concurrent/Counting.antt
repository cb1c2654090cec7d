-- ===== src/TcpFlow/Concurrent/Counting.antt =====
-- How many of the threads stand at a point of their handlers (server/src/TcpFlow.cpp).
use mathlib.Core.Option.{some-injective}
use remote_dict.Prelude.{
  ℕ, zero, suc, ◌+◌, ◌≤◌, ◌≡◌, refl, ap, Bool, true, false, not, some, List, [], ◌∷◌, length,
  get_elem?, set_elem, arith, replicate,
}
use remote_dict.TcpFlow.Concurrent.{Progress, idle, setting, getting, counting}

-- How many threads stand at each point.
pub sum_of : (Progress → ℕ) → List Progress → ℕ
sum_of f [] = 0
sum_of f (p ∷ ps) = f p + sum_of f ps

abbrev pub of_bool : Bool → ℕ
of_bool true = 1
of_bool false = 0

abbrev pub is_setting : Progress → ℕ
is_setting (setting p) = 1
is_setting _ = 0

abbrev pub is_getting : Progress → ℕ
is_getting (getting p) = 1
is_getting _ = 0

abbrev pub is_hit : Progress → ℕ
is_hit (counting p r) = of_bool r.0
is_hit _ = 0

abbrev pub is_miss : Progress → ℕ
is_miss (counting p r) = of_bool (not r.0)
is_miss _ = 0

pub sum_of-set_elem :
    (f : Progress → ℕ) (ps : List Progress) (i : ℕ) (p q : Progress)
    → get_elem? ps i ≡ some p
    → sum_of f (set_elem ps i q) + f p ≡ sum_of f ps + f q
unfolding sum_of
sum_of-set_elem f [] i p q e = cc
sum_of-set_elem f (x ∷ ps) zero p q e = omega (arith, ap f (some-injective x p e))
sum_of-set_elem f (x ∷ ps) (suc i) p q e = omega (arith, sum_of-set_elem f ps i p q e)

pub setting-le : (ps : List Progress) → sum_of is_setting ps ≤ length ps
unfolding sum_of
setting-le [] = omega arith
setting-le (idle ∷ ps) = omega (arith, setting-le ps)
setting-le (setting p ∷ ps) = omega (arith, setting-le ps)
setting-le (getting p ∷ ps) = omega (arith, setting-le ps)
setting-le (counting p r ∷ ps) = omega (arith, setting-le ps)

pub sum_of-idle : (f : Progress → ℕ) (n : ℕ) → f idle ≡ 0 → sum_of f (replicate n idle) ≡ 0
unfolding sum_of
sum_of-idle f zero h = refl
sum_of-idle f (suc n) h = omega (arith, sum_of-idle f n h)
