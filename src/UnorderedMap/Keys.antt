-- ===== src/UnorderedMap/Keys.antt =====
-- The keys of an unordered map, in the order of its entries.
use remote_dict.Prelude.{
  Bool-cases, inl, inr, ◌≡◌, refl, none, some, List, [], ◌∷◌, ◌++◌, arith, if◌then◌else◌,
}
use remote_dict.Text.{Text, text_eq, text_eq_iff}
use remote_dict.UnorderedMap.{UnorderedMap, find, assign, insert, erase}

unfoldable pub remove_key : Text → List Text → List Text
remove_key k [] = []
remove_key k (j ∷ ks) = if text_eq j k then ks else j ∷ remove_key k ks

module _ {ℓ} {V : Type ℓ} where
  abbrev pub keys : UnorderedMap V → List Text
  keys [] = []
  keys ((k, v) ∷ m) = k ∷ keys m

  pub keys-insert :
      (k : Text) (v : V) (m : UnorderedMap V)
      → find k m ≡ none
      → keys (insert k v m) ≡ keys m ++ (k ∷ [])
  unfolding insert find
  keys-insert k v [] h = refl
  keys-insert k v ((j, w) ∷ m) h = ground (arith, keys-insert k v m)

  pub keys-assign :
      (k : Text) (v w : V) (m : UnorderedMap V) → find k m ≡ some w → keys (assign k v m) ≡ keys m
  unfolding assign find
  keys-assign k v w [] h = cc
  keys-assign k v w ((j, x) ∷ m) h = ground (arith, keys-assign k v w m, text_eq_iff j k)

  pub keys-erase : (k : Text) (m : UnorderedMap V) → keys (erase k m) ≡ remove_key k (keys m)
  unfolding erase remove_key
  keys-erase k [] = refl
  keys-erase k ((j, x) ∷ m) = ground (arith, keys-erase k m)

  pub find-key :
      (before after : List Text) (k : Text) (m : UnorderedMap V)
      → keys m ≡ before ++ (k ∷ after)
      → (v : V) × (find k m ≡ some v)
  unfolding find
  find-key [] after k [] h = cc
  find-key (j ∷ before) after k [] h = cc
  find-key [] after k ((i, v) ∷ m) h = (v, ground (arith, text_eq_iff i k))
  find-key (j ∷ before) after k ((i, v) ∷ m) h = elim (Bool-cases (text_eq i k)) [
    | inl e ↦ (v, rw e refl)
    | inr e ↦ rw e (find-key before after k m (ground arith))
  ]
