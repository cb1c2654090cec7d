-- ===== src/UnorderedMap.antt =====
-- `std::unordered_map` with string keys, as the program uses it: a list of entries with distinct
-- keys. The program never iterates over a map, so the order of entries has no meaning.
pub mod Keys
use remote_dict.Prelude.{
  ℕ, ◌+◌, ◌≡◌, refl, false, Option, none, some, List, [], ◌∷◌, arith, length, if◌then◌else◌,
}
use remote_dict.Text.{Text, text_eq, text_eq_iff}

abbrev pub UnorderedMap {ℓ} : Type ℓ → Type ℓ
UnorderedMap V = List (Text × V)

module _ {ℓ} {V : Type ℓ} where
  -- `m.find(k)`, with `none` for `m.end()`.
  unfoldable pub find : Text → UnorderedMap V → Option V
  find k [] = none
  find k ((j, v) ∷ m) = if text_eq j k then some v else find k m

  -- `m[k] = v`.
  unfoldable pub assign : Text → V → UnorderedMap V → UnorderedMap V
  assign k v [] = (k, v) ∷ []
  assign k v ((j, w) ∷ m) = if text_eq j k then (k, v) ∷ m else (j, w) ∷ assign k v m

  -- `m.insert({k, v})`, which leaves an entry that is there alone.
  unfoldable pub insert : Text → V → UnorderedMap V → UnorderedMap V
  insert k v [] = (k, v) ∷ []
  insert k v ((j, w) ∷ m) = if text_eq j k then (j, w) ∷ m else (j, w) ∷ insert k v m

  -- `m.erase(k)`.
  unfoldable pub erase : Text → UnorderedMap V → UnorderedMap V
  erase k [] = []
  erase k ((j, v) ∷ m) = if text_eq j k then m else (j, v) ∷ erase k m

  -- `m.size()`.
  abbrev pub size : UnorderedMap V → ℕ
  size m = length m

  -- No key has two entries.
  abbrev pub Distinct : UnorderedMap V → Type ℓ
  Distinct [] = Unit
  Distinct ((k, v) ∷ m) = (find k m ≡ none) × Distinct m

module _ {ℓ} {V : Type ℓ} where
  pub find-assign :
      (k j : Text) (v : V) (m : UnorderedMap V)
      → find j (assign k v m) ≡ (if text_eq k j then some v else find j m)
  unfolding find assign
  find-assign k j v [] = refl
  find-assign k j v ((i, w) ∷ m) =
      ground (arith, text_eq_iff k j, text_eq_iff i k, text_eq_iff i j, find-assign k j v m)

  pub find-insert :
      (k j : Text) (v : V) (m : UnorderedMap V)
      → find k m ≡ none
      → find j (insert k v m) ≡ (if text_eq k j then some v else find j m)
  unfolding find insert
  find-insert k j v [] h = refl
  find-insert k j v ((i, w) ∷ m) h =
      ground (arith, text_eq_iff k j, text_eq_iff i k, text_eq_iff i j, find-insert k j v m)

  pub find-erase :
      (k j : Text) (m : UnorderedMap V)
      → Distinct m
      → find j (erase k m) ≡ (if text_eq k j then none else find j m)
  unfolding find erase
  find-erase k j [] d = ground arith
  find-erase k j ((i, w) ∷ m) d =
      ground (arith, text_eq_iff k j, text_eq_iff i k, text_eq_iff i j, find-erase k j m d.1)

  pub assign-Distinct :
      (k : Text) (v : V) (m : UnorderedMap V) → Distinct m → Distinct (assign k v m)
  unfolding assign find
  assign-Distinct k v [] d = (refl, tt)
  assign-Distinct k v ((i, w) ∷ m) d =
      ground
        (arith, text_eq_iff i k, text_eq_iff k i, find-assign k i v m, assign-Distinct k v m d.1)

  pub find-insert_ne :
      (k j : Text) (v : V) (m : UnorderedMap V)
      → text_eq k j ≡ false
      → find j (insert k v m) ≡ find j m
  unfolding find insert
  find-insert_ne k j v [] h = ground arith
  find-insert_ne k j v ((i, w) ∷ m) h =
      ground (arith, text_eq_iff k j, text_eq_iff i k, text_eq_iff i j, find-insert_ne k j v m)

  pub insert-Distinct :
      (k : Text) (v : V) (m : UnorderedMap V) → Distinct m → Distinct (insert k v m)
  unfolding insert find
  insert-Distinct k v [] d = (refl, tt)
  insert-Distinct k v ((i, w) ∷ m) d =
      ground
        (arith, text_eq_iff i k, text_eq_iff k i, find-insert_ne k i v m, insert-Distinct k v m d.1)

  pub erase-Distinct : (k : Text) (m : UnorderedMap V) → Distinct m → Distinct (erase k m)
  unfolding erase find
  erase-Distinct k [] d = tt
  erase-Distinct k ((i, w) ∷ m) d =
      ground (arith, text_eq_iff i k, find-erase k i m d.1, erase-Distinct k m d.1)

  -- A write to a new key adds one entry, and to an old key none.
  pub size-assign :
      (k : Text) (v : V) (m : UnorderedMap V)
      → size (assign k v m) ≡ elim (find k m) [ none ↦ size m + 1 | some _ ↦ size m ]
  unfolding assign find
  size-assign k v [] = omega arith
  size-assign k v ((i, w) ∷ m) = ground (arith, size-assign k v m)
