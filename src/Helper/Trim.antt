-- ===== src/Helper/Trim.antt =====
-- `Helper::trim` (util/include/Helper.h) and the two functions it is made of.
use native.Mathlib.Numerals.{add-one}
use remote_dict.Prelude.{
  take-append-drop, subst, ℕ, suc, ◌≡◌, ◌≢◌, refl, sym, ap, ◌∙◌, inl, inr, true, false, Option,
  none, some, [], ◌∷◌, ◌++◌, append-nil, take, drop, arith, if◌then◌else◌, Bool-cases,
}
use remote_dict.Text.{Text}
use remote_dict.Helper.{is_whitespace, find_last_not_of, ltrim, rtrim, trim}

abbrev pub Blank : Text → Type 0
Blank [] = Unit
Blank (c ∷ s) = (is_whitespace c ≡ true) × Blank s

-- The text is empty, or its first character is no white space.
abbrev pub StartsBare : Text → Type 0
StartsBare [] = Unit
StartsBare (c ∷ s) = is_whitespace c ≡ false

-- The text is empty, or its last character is no white space.
abbrev pub EndsBare : Text → Type 0
EndsBare [] = Unit
EndsBare (c ∷ []) = is_whitespace c ≡ false
EndsBare (c ∷ d ∷ s) = EndsBare (d ∷ s)

ltrim-cons : (c : ℕ) (s : Text) → ltrim (c ∷ s) ≡ (if is_whitespace c then ltrim s else c ∷ s)
unfolding ltrim
ltrim-cons c s = ground arith

pub ltrim_lem :
    (s : Text) → (before : Text) × Blank before × (s ≡ before ++ ltrim s) × StartsBare (ltrim s)
ltrim_lem [] = unfold ltrim in ([], tt, refl, tt)
ltrim_lem (c ∷ s) = elim (Bool-cases (is_whitespace c)) [
  | inl e ↦
      let (before, blank, split, bare) = ltrim_lem s in
      rw (ltrim-cons c s, e) (c ∷ before, (e, blank), ap (◌∷◌ c) split, bare)
  | inr e ↦ rw (ltrim-cons c s, e) ([], tt, refl, e)
]

-- What the index of the last character that is no white space says.
abbrev Ends : Text → Option ℕ → Type 0
Ends s none = Blank s
Ends s (some i) = EndsBare (take (suc i) s) × (take (suc i) s ≢ []) × Blank (drop (suc i) s)

EndsBare-cons : (c : ℕ) (t : Text) → t ≢ [] → EndsBare t → EndsBare (c ∷ t)
EndsBare-cons c [] ne h = absurd (ne refl)
EndsBare-cons c (d ∷ t) ne h = h

find_last_not_of-Ends : (s : Text) → Ends s (find_last_not_of s)
unfolding find_last_not_of
find_last_not_of-Ends [] = tt
find_last_not_of-Ends (c ∷ s) = go (find_last_not_of s) (find_last_not_of-Ends s)
  where
    go :
        (o : Option ℕ)
        → Ends s o
        → Ends
            (c ∷ s)
            (elim o [ some i ↦ some (suc i) | none ↦ if is_whitespace c then none else some 0 ])
    go none blank = elim (Bool-cases (is_whitespace c)) [
      | inl e ↦ rw e (e, blank)
      | inr e ↦ rw e (e, (λ n. cc), blank)
    ]
    go (some i) (bare, ne, blank) = (EndsBare-cons c (take (suc i) s) ne bare, (λ n. cc), blank)

StartsBare-append : (s t : Text) → StartsBare (s ++ t) → StartsBare s
StartsBare-append [] t h = tt
StartsBare-append (c ∷ s) t h = h

rtrim-none : (s : Text) → find_last_not_of s ≡ none → rtrim s ≡ []
unfolding rtrim
rtrim-none s e = ground arith

rtrim-some : (s : Text) (i : ℕ) → find_last_not_of s ≡ some i → rtrim s ≡ take (suc i) s
unfolding rtrim
rtrim-some s i e = rw (e, rtrim, add-one) refl

pub rtrim_lem :
    (s : Text) → (after : Text) × Blank after × (s ≡ rtrim s ++ after) × EndsBare (rtrim s)
rtrim_lem s = go (find_last_not_of s) refl (find_last_not_of-Ends s)
  where
    go :
        (o : Option ℕ)
        → find_last_not_of s ≡ o
        → Ends s o
        → (after : Text) × Blank after × (s ≡ rtrim s ++ after) × EndsBare (rtrim s)
    go none e ends = (s, ends, rw (rtrim-none s e) refl, subst EndsBare (sym (rtrim-none s e)) tt)
    go (some i) e (bare, _, blank) = (
      drop (suc i) s,
      blank,
      sym (ap (λ t. t ++ drop (suc i) s) (rtrim-some s i e) ∙ take-append-drop (suc i) s),
      subst EndsBare (sym (rtrim-some s i e)) bare,
    )

-- `trim` takes whitespace off both ends and nothing else: the rest begins and ends with none.
trim_lem :
    (s : Text)
    → (before : Text) × (after : Text) × Blank before
      × Blank after
      × (s ≡ before ++ (trim s ++ after))
      × StartsBare (trim s)
      × EndsBare (trim s)
unfolding trim
trim_lem s =
    let (before, blank, split, bare) = ltrim_lem s in
    let (after, blank', split', bare') = rtrim_lem (ltrim s) in
    (
      before,
      after,
      blank,
      blank',
      split ∙ ap (◌++◌ before) split',
      StartsBare-append (rtrim (ltrim s)) after (subst StartsBare split' bare),
      bare',
    )

-- White space at the end contradicts a bare end.
not-EndsBare : (a : ℕ) (s : Text) → Blank (a ∷ s) → ¬ EndsBare (a ∷ s)
not-EndsBare a [] b e = cc
not-EndsBare a (c ∷ s) b e = not-EndsBare c s b.1 e

bare-Blank : (s after : Text) → EndsBare (s ++ after) → Blank after → after ≡ []
bare-Blank s [] e b = refl
bare-Blank [] (a ∷ after) e b = absurd (not-EndsBare a after b e)
bare-Blank (c ∷ []) (a ∷ after) e b = absurd (not-EndsBare a after b e)
bare-Blank (c ∷ d ∷ s) (a ∷ after) e b = bare-Blank (d ∷ s) (a ∷ after) e b

ltrim-Blank : (before s : Text) → Blank before → StartsBare s → ltrim (before ++ s) ≡ s
ltrim-Blank [] [] b h = unfold ltrim in refl
ltrim-Blank [] (c ∷ s) b h = rw (ltrim-cons c s, h) refl
ltrim-Blank (a ∷ before) s b h = rw (ltrim-cons a (before ++ s), b.0) (ltrim-Blank before s b.1 h)

-- A text with no white space at its ends, behind some white space.
pub trim_padded :
    (before s : Text) → Blank before → StartsBare s → EndsBare s → trim (before ++ s) ≡ s
unfolding trim
trim_padded before s blank starts ends =
    let (after, blank', split, _) = rtrim_lem s in
    let nothing : after ≡ [] = bare-Blank (rtrim s) after (subst EndsBare split ends) blank' in
    ap rtrim (ltrim-Blank before s blank starts)
    ∙ sym (split ∙ ap (◌++◌ (rtrim s)) nothing ∙ append-nil (rtrim s))
