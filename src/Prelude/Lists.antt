-- ===== src/Prelude/Lists.antt =====
-- Lists measured and indexed by native numbers, under the library's names.
use Prim.Native.Nat.{ℕ, zero, suc, ◌+◌, ◌-◌, ◌≤◌, min}
use mathlib.Core.Path.{◌≡◌, refl, ap, sym}
use mathlib.Core.List.{List, [], ◌∷◌, ◌++◌}
use mathlib.Core.Option.{Option, none, some, some-injective}
use native.Mathlib.Nat.{zero-add, suc-add, sub-zero, zero-sub, suc-sub-suc}
use native.Mathlib.Omega.{arith}

module _ {ℓ} {A : Type ℓ} where
  abbrev pub length : List A → ℕ
  length [] = 0
  length (x ∷ xs) = suc (length xs)

  abbrev pub get_elem? : List A → ℕ → Option A
  get_elem? [] i = none
  get_elem? (x ∷ xs) zero = some x
  get_elem? (x ∷ xs) (suc i) = get_elem? xs i

  abbrev pub set_elem : List A → ℕ → A → List A
  set_elem [] i v = []
  set_elem (x ∷ xs) zero v = v ∷ xs
  set_elem (x ∷ xs) (suc i) v = x ∷ set_elem xs i v

  abbrev pub take : ℕ → List A → List A
  take zero xs = []
  take (suc n) [] = []
  take (suc n) (x ∷ xs) = x ∷ take n xs

  abbrev pub drop : ℕ → List A → List A
  drop zero xs = xs
  drop (suc n) [] = []
  drop (suc n) (x ∷ xs) = drop n xs

  abbrev pub replicate : ℕ → A → List A
  replicate zero a = []
  replicate (suc n) a = a ∷ replicate n a

module _ {ℓ} {A : Type ℓ} where
  pub length-append : (xs ys : List A) → length (xs ++ ys) ≡ length xs + length ys
  length-append [] ys = omega arith
  length-append (x ∷ xs) ys = omega (arith, length-append xs ys)

  pub take-append-drop : (n : ℕ) (xs : List A) → take n xs ++ drop n xs ≡ xs
  take-append-drop zero xs = refl
  take-append-drop (suc n) [] = refl
  take-append-drop (suc n) (x ∷ xs) = ap (◌∷◌ x) (take-append-drop n xs)

  pub length-take : (n : ℕ) (xs : List A) → length (take n xs) ≡ min n (length xs)
  length-take zero xs = omega arith
  length-take (suc n) [] = omega arith
  length-take (suc n) (x ∷ xs) = omega (arith, length-take n xs)

  pub length-drop : (n : ℕ) (xs : List A) → length (drop n xs) ≡ length xs - n
  length-drop zero xs = omega arith
  length-drop (suc n) [] = omega arith
  length-drop (suc n) (x ∷ xs) = omega (arith, length-drop n xs)

  pub length-replicate : (n : ℕ) (a : A) → length (replicate n a) ≡ n
  length-replicate zero a = refl
  length-replicate (suc n) a = ap suc (length-replicate n a)

  pub take-append : (xs ys : List A) (n : ℕ) → n ≡ length xs → take n (xs ++ ys) ≡ xs
  take-append [] ys zero e = refl
  take-append [] ys (suc n) e = absurd (omega arith)
  take-append (x ∷ xs) ys zero e = absurd (omega arith)
  take-append (x ∷ xs) ys (suc n) e = ap (◌∷◌ x) (take-append xs ys n (omega arith))

  pub drop-append : (xs ys : List A) (n : ℕ) → n ≡ length xs → drop n (xs ++ ys) ≡ ys
  drop-append [] ys zero e = refl
  drop-append [] ys (suc n) e = absurd (omega arith)
  drop-append (x ∷ xs) ys zero e = absurd (omega arith)
  drop-append (x ∷ xs) ys (suc n) e = drop-append xs ys n (omega arith)

  pub take_all : (xs : List A) (n : ℕ) → length xs ≤ n → take n xs ≡ xs
  take_all [] zero h = refl
  take_all [] (suc n) h = refl
  take_all (x ∷ xs) zero h = absurd (omega arith)
  take_all (x ∷ xs) (suc n) h = ap (◌∷◌ x) (take_all xs n (omega arith))

  pub drop_all : (xs : List A) (n : ℕ) → length xs ≤ n → drop n xs ≡ []
  drop_all [] zero h = refl
  drop_all [] (suc n) h = refl
  drop_all (x ∷ xs) zero h = absurd (omega arith)
  drop_all (x ∷ xs) (suc n) h = drop_all xs n (omega arith)

  pub length-set_elem : (xs : List A) (i : ℕ) (v : A) → length (set_elem xs i v) ≡ length xs
  length-set_elem [] i v = refl
  length-set_elem (x ∷ xs) zero v = refl
  length-set_elem (x ∷ xs) (suc i) v = ap suc (length-set_elem xs i v)

  pub get_elem?-set_elem :
      (xs : List A) (i : ℕ) (t v : A)
      → get_elem? xs i ≡ some t
      → get_elem? (set_elem xs i v) i ≡ some v
  get_elem?-set_elem [] i t v h = cc
  get_elem?-set_elem (x ∷ xs) zero t v h = refl
  get_elem?-set_elem (x ∷ xs) (suc i) t v h = get_elem?-set_elem xs i t v h

  pub set_elem-set_elem :
      (xs : List A) (i : ℕ) (u v : A) → set_elem (set_elem xs i u) i v ≡ set_elem xs i v
  set_elem-set_elem [] i u v = refl
  set_elem-set_elem (x ∷ xs) zero u v = refl
  set_elem-set_elem (x ∷ xs) (suc i) u v = ap (◌∷◌ x) (set_elem-set_elem xs i u v)

  pub set_elem_self : (xs : List A) (i : ℕ) (v : A) → get_elem? xs i ≡ some v → set_elem xs i v ≡ xs
  set_elem_self [] i v h = refl
  set_elem_self (x ∷ xs) zero v h = ap (λ y. y ∷ xs) (sym (some-injective x v h))
  set_elem_self (x ∷ xs) (suc i) v h = ap (◌∷◌ x) (set_elem_self xs i v h)

  pub get_elem?-replicate :
      (k : ℕ) (a x : A) (xs : List A) → get_elem? (replicate k a ++ (x ∷ xs)) k ≡ some x
  get_elem?-replicate zero a x xs = refl
  get_elem?-replicate (suc k) a x xs = get_elem?-replicate k a x xs

  pub set_elem-replicate :
      (k : ℕ) (a x : A) (xs : List A)
      → set_elem (replicate k a ++ (x ∷ xs)) k a ≡ replicate (suc k) a ++ xs
  set_elem-replicate zero a x xs = refl
  set_elem-replicate (suc k) a x xs = ap (◌∷◌ a) (set_elem-replicate k a x xs)

  pub drop-append_add : (xs ys : List A) (m : ℕ) → drop (length xs + m) (xs ++ ys) ≡ drop m ys
  drop-append_add [] ys m = rw zero-add refl
  drop-append_add (x ∷ xs) ys m = rw suc-add (drop-append_add xs ys m)

  pub drop-replicate : (m k : ℕ) (a : A) → drop m (replicate k a) ≡ replicate (k - m) a
  drop-replicate zero k a = rw sub-zero refl
  drop-replicate (suc m) zero a = rw zero-sub refl
  drop-replicate (suc m) (suc k) a = rw suc-sub-suc (drop-replicate m k a)
