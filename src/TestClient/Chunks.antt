-- ===== src/TestClient/Chunks.antt =====
-- `TestClient::start` (client/src/TestClient.cpp): the division of the messages among the
-- threads. `none` is the division by a thread count of 0; the count is not negative.
use native.Mathlib.Nat.{zero-add, suc-add, div-add-mod}
use remote_dict.Prelude.{
  drop_all, append-nil, ℕ, zero, suc, ◌+◌, ◌*◌, ◌/◌, ◌≤◌, ◌<◌, ◌≡◌, refl, sym, ap, ◌∙◌, Option,
  none, some, List, [], ◌∷◌, ◌++◌, length, take, drop, ◌==◌, if◌then◌else◌, arith, length-take,
  length-drop, take-append-drop,
}

module _ {ℓ} {A : Type ℓ} where
  -- The loop from thread `i` on, with the threads that are left and `start_size`.
  unfoldable pub chunk_loop : ℕ → ℕ → ℕ → List A → List (List A)
  chunk_loop zero chunk_size start_size input = []
  chunk_loop (suc zero) chunk_size start_size input = drop start_size input ∷ []
  chunk_loop (suc (suc left)) chunk_size start_size input =
      take chunk_size (drop start_size input)
      ∷ chunk_loop (suc left) chunk_size (start_size + chunk_size) input

  unfoldable pub chunks : ℕ → List A → Option (List (List A))
  unfolding chunk_loop
  chunks num_thread input =
      if num_thread == 0
      then none
      else some (chunk_loop num_thread (length input / num_thread) 0 input)

  unfoldable pub concat : List (List A) → List A
  concat [] = []
  concat (c ∷ cs) = c ++ concat cs

  drop-drop : (m n : ℕ) (xs : List A) → drop m (drop n xs) ≡ drop (n + m) xs
  drop-drop m zero xs = rw zero-add refl
  drop-drop m (suc n) [] = drop_all [] m (omega arith) ∙ sym (drop_all [] (suc n + m) (omega arith))
  drop-drop m (suc n) (x ∷ xs) = rw suc-add (drop-drop m n xs)

  chunk_loop-concat :
      (left size start : ℕ) (input : List A)
      → concat (chunk_loop (suc left) size start input) ≡ drop start input
  unfolding concat chunk_loop
  chunk_loop-concat zero size start input = append-nil (drop start input)
  chunk_loop-concat (suc left) size start input =
      ap (◌++◌ (take size (drop start input)))
        (chunk_loop-concat left size (start + size) input ∙ sym (drop-drop size start input))
      ∙ take-append-drop size (drop start input)

  -- All but the last chunk have so many entries, if the input has enough.
  abbrev pub AllSized : ℕ → List (List A) → Type 0
  AllSized size [] = Unit
  AllSized size (c ∷ []) = size ≤ length c
  AllSized size (c ∷ d ∷ cs) = (length c ≡ size) × AllSized size (d ∷ cs)

  chunk_loop-AllSized :
      (left size start : ℕ) (input : List A)
      → start + suc left * size ≤ length input
      → AllSized size (chunk_loop (suc left) size start input)
        × (length (chunk_loop (suc left) size start input) ≡ suc left)
  unfolding chunk_loop
  chunk_loop-AllSized zero size start input h = (omega (arith, length-drop start input), refl)
  chunk_loop-AllSized (suc zero) size start input h = (
    (
      omega (arith, length-take size (drop start input), length-drop start input),
      omega (arith, length-drop (start + size) input),
    ),
    refl,
  )
  chunk_loop-AllSized (suc (suc left)) size start input h =
      let (a, l) = chunk_loop-AllSized (suc left) size (start + size) input (omega arith) in
      ((omega (arith, length-take size (drop start input), length-drop start input), a), ap suc l)

  -- For a positive thread count the chunks are as many as the threads and are the messages in
  -- order; all but the last have the quotient of the counts as their size, and the last at least
  -- that.
  pub chunks_lem :
      (n : ℕ) (input : List A)
      → 0 < n
      → (cs : List (List A)) × (chunks n input ≡ some cs)
        × (concat cs ≡ input)
        × (length cs ≡ n)
        × AllSized (length input / n) cs
  unfolding chunks
  chunks_lem zero input h = absurd (omega arith)
  chunks_lem (suc m) input h =
      let size : ℕ = length input / suc m in
      let (a, l) =
        chunk_loop-AllSized m size 0 input (omega (arith, div-add-mod (length input) (suc m))) in
      (chunk_loop (suc m) size 0 input, ground arith, chunk_loop-concat m size 0 input, l, a)
