-- ===== src/BloomFilter.antt =====
-- The Bloom filter library (util/include/bloom_filter.hpp, a copy of
-- https://github.com/ArashPartow/bloom) as the program uses it: a parameter. `fresh n p` is a
-- filter built from `bloom_parameters` with a projected element count `n` and a false positive
-- probability of one in `p`.
use remote_dict.Prelude.{ℕ, ◌≡◌, Bool, true, false}
use remote_dict.Text.{Text}

pub record BloomFilter : Type 1 where
  pub Filter : Type 0
  pub fresh : ℕ → ℕ → Filter
  pub insert : Filter → Text → Filter
  pub contains : Filter → Text → Bool

-- A Bloom filter has no false negatives: what was inserted is contained, and stays contained.
pub record NoFalseNegatives (b : BloomFilter) : Type 0 where
  pub contains-insert : (f : b.Filter) (k : Text) → b.contains (b.insert f k) k ≡ true
  pub contains_mono :
      (f : b.Filter) (j k : Text) → b.contains f k ≡ true → b.contains (b.insert f j) k ≡ true

-- A filter into which nothing was inserted has no bit set, so it contains nothing.
pub record FreshIsEmpty (b : BloomFilter) : Type 0 where
  pub contains-fresh : (n p : ℕ) (k : Text) → b.contains (b.fresh n p) k ≡ false
