-- ===== src/EventImpl/Contexts.antt =====
-- The contexts of signals on the heap (util/include/EventImpl.h), which are found by their address.
use remote_dict.Prelude.{
  ℕ, ◌+◌, ◌≤◌, ◌<◌, ◌≡◌, ◌≢◌, refl, none, some, List, [], ◌∷◌, ◌++◌, ◌==◌, if◌then◌else◌, arith,
  Bool-cases, inl, inr, ltb, ltb→lt, ◌⊎◌, subst, ap, ◌∙◌,
}
use remote_dict.EventImpl.{LibEvent, Context, Call, find_context, drop_context}

-- How often the callback of a context was called.
unfoldable pub times : ℕ → List Call → ℕ
times a [] = 0
times a (c ∷ cs) = (if c.context == a then 1 else 0) + times a cs

pub times-append :
    (a : ℕ) (cs : List Call) (c : Call)
    → times a (cs ++ (c ∷ [])) ≡ times a cs + (if c.context == a then 1 else 0)
unfolding times
times-append a [] c = omega arith
times-append a (d ∷ cs) c = omega (arith, times-append a cs c)

module _ (l : LibEvent) where
  -- The addresses are below `n`, and each is below the one before it.
  abbrev pub Descends : ℕ → List (ℕ × Context l) → Type 0
  Descends n [] = Unit
  Descends n ((a, ctx) ∷ rest) = (a < n) × Descends a rest

  pub Descends-le : (m n : ℕ) (cs : List (ℕ × Context l)) → m ≤ n → Descends m cs → Descends n cs
  Descends-le m n [] h d = tt
  Descends-le m n ((a, ctx) ∷ rest) h (lt, d) = (omega arith, d)

  pub find-above :
      (a n : ℕ) (cs : List (ℕ × Context l)) → Descends n cs → n ≤ a → find_context l a cs ≡ none
  unfolding find_context
  find-above a n [] d h = refl
  find-above a n ((x, ctx) ∷ rest) (lt, d) h = ground (arith, find-above a x rest d (omega arith))

  pub find-below :
      (a n : ℕ) (cs : List (ℕ × Context l)) (ctx : Context l)
      → Descends n cs
      → find_context l a cs ≡ some ctx
      → a < n
  find-below a n cs ctx d h = elim (Bool-cases (ltb a n)) [
    | inl lt ↦ ltb→lt a n lt
    | inr ge ↦ absurd (grind (arith, find-above a n cs d (ground arith)))
  ]

  pub drop-Descends :
      (a n : ℕ) (cs : List (ℕ × Context l)) → Descends n cs → Descends n (drop_context l a cs)
  unfolding drop_context
  drop-Descends a n [] d = tt
  drop-Descends a n ((x, ctx) ∷ rest) (lt, d) = elim (Bool-cases (x == a)) [
    | inl same ↦ rw same (Descends-le x n rest (omega arith) d)
    | inr other ↦ rw other (lt, drop-Descends a x rest d)
  ]

  pub find-drop :
      (a n : ℕ) (cs : List (ℕ × Context l))
      → Descends n cs
      → find_context l a (drop_context l a cs) ≡ none
  unfolding drop_context find_context
  find-drop a n [] d = refl
  find-drop a n ((x, ctx) ∷ rest) (lt, d) = elim (Bool-cases (x == a)) [
    | inl same ↦ rw same (find-above a x rest d (ground arith))
    | inr other ↦ rw (other, other) (find-drop a x rest d)
  ]

  pub find-drop_other :
      (a j : ℕ) (cs : List (ℕ × Context l))
      → j ≢ a
      → find_context l j (drop_context l a cs) ≡ find_context l j cs
  unfolding drop_context find_context
  find-drop_other a j [] ne = refl
  find-drop_other a j ((x, ctx) ∷ rest) ne = ground (arith, find-drop_other a j rest ne)

  -- The context at `a` was called for at most once, and is gone if it was.
  abbrev pub AtMostOnce : ℕ → ℕ → List Call → List (ℕ × Context l) → Type 0
  AtMostOnce a fresh called cs =
      (times a called ≡ 0) ⊎ ((times a called ≡ 1) × (find_context l a cs ≡ none) × (a < fresh))

  pub once-append :
      (j fresh : ℕ) (c : Call) (called : List Call) (cs : List (ℕ × Context l)) (ctx : Context l)
      → Descends fresh cs
      → find_context l c.context cs ≡ some ctx
      → AtMostOnce c.context fresh called cs
      → AtMostOnce j fresh called cs
      → AtMostOnce j fresh (called ++ (c ∷ [])) (drop_context l c.context cs)
  once-append j fresh c called cs ctx d found mine its = elim (Bool-cases (c.context == j)) [
    | inl same ↦
        let is : c.context ≡ j = ground arith in
        let zero_yet : times c.context called ≡ 0 = elim mine [
          | inl none_yet ↦ none_yet
          | inr (one, gone, below) ↦ absurd (grind arith)
        ] in
        inr (
          ground (arith, times-append j called c, ap (λ x. times x called) is),
          subst (λ x. find_context l x (drop_context l c.context cs) ≡ none) is
              (find-drop c.context fresh cs d),
          subst (λ x. x < fresh) is (find-below c.context fresh cs ctx d found),
        )
    | inr other ↦ elim its [
      | inl none_yet ↦ inl (ground (arith, times-append j called c))
      | inr (one, gone, below) ↦ inr (
        ground (arith, times-append j called c),
        find-drop_other c.context j cs (λ e. ground arith) ∙ gone,
        below,
      )
    ]
  ]

  -- A new context is found, and hides no other one.
  pub find-cons :
      (n : ℕ) (ctx : Context l) (cs : List (ℕ × Context l))
      → find_context l n ((n, ctx) ∷ cs) ≡ some ctx
  unfolding find_context
  find-cons n ctx cs = ground arith

  pub find-cons_other :
      (j n : ℕ) (ctx other : Context l) (cs : List (ℕ × Context l))
      → Descends n cs
      → find_context l j cs ≡ some other
      → find_context l j ((n, ctx) ∷ cs) ≡ some other
  unfolding find_context
  find-cons_other j n ctx other cs d found = ground (arith, find-below j n cs other d found)

  pub once-cons :
      (a n : ℕ) (ctx : Context l) (called : List Call) (cs : List (ℕ × Context l))
      → AtMostOnce a n called cs
      → AtMostOnce a (n + 1) called ((n, ctx) ∷ cs)
  unfolding find_context
  once-cons a n ctx called cs (inl none_yet) = inl none_yet
  once-cons a n ctx called cs (inr (one, gone, below)) = inr (one, ground arith, omega arith)
